-- ===== src/Mote/Pinned.antt =====
-- crates/kotva-core/src/mote.rs: `validate_pinned`, the validation with the suite ratchet of crates/kotva-core/src/suite.rs.
use dmtap.Prelude.{
  ℕ, false, lookup, ◌≤◌, ◌≡◌, refl, arith, inl, inr, Bool-cases, Bytes, List, [], ◌∷◌, Option, none,
  some, length, eq_bytes_iff, ltb, ◌==◌, ==_iff, if◌then◌else◌,
}
use dmtap.Result
use dmtap.Result.{Result, ok, err, Yields, returns, fails, Yields-ok}
use dmtap.Keys.{Ed25519, verify_domain, verifying_key}
use dmtap.Pq.{MlDsa65, verify_hybrid_domain}
use dmtap.Suite.{Suite, classical, pq_hybrid, as_u8, SuiteRatchet, new, accept}
use dmtap.Suite.Ratchet.{mark, check-mark, mark-observe}
use dmtap.Mote.Kind.{MoteError, ValidateError}
use dmtap.Mote.Challenge.{tag_det_cbor}
use dmtap.Mote.Envelope.{Envelope, Payload}
use dmtap.Mote.Validate.{
  PayloadSeal, RecipientCtx, Outcome, accepted, deferred, payload_sig_ds, payload_hash,
  verify_sig_for_suite, pin_suite, validate, validate_pinned,
}
use dmtap.Mote.Hybrid.{verify_hybrid_domain-eq-ok_iff}
use dmtap.Mote.Checks.{validate-eq-accepted_iff}

-- An envelope as it reaches a recipient.
pub record Delivery : Type 0 where
  pub sealer : PayloadSeal
  pub envelope : Envelope
  pub ctx : RecipientCtx

abbrev ratchet_or : SuiteRatchet → Option SuiteRatchet → SuiteRatchet
ratchet_or r none = r
ratchet_or r (some r') = r'

-- The suite byte that goes with the length of a key.
abbrev suite_of_length : Bytes → ℕ
suite_of_length c = if length c == 1984 then 2 else 1

-- No floor is above the suite that goes with the key's length.
abbrev IsLow : SuiteRatchet → Type 0
IsLow r = (c : Bytes) → mark r c ≤ suite_of_length c

new-IsLow : IsLow new
unfolding lookup
new-IsLow c = ground arith

accept-IsLow :
    (r : SuiteRatchet) (c : Bytes) (s : Suite)
    → IsLow r
    → as_u8 s ≡ suite_of_length c
    → IsLow (accept r c s).1
unfolding accept
accept-IsLow r c s low fits d = ground (arith, low d, low c, mark-observe r c d s, eq_bytes_iff c d)

accept-passes :
    (r : SuiteRatchet) (c : Bytes) (s : Suite)
    → IsLow r
    → as_u8 s ≡ suite_of_length c
    → (accept r c s).0 ≡ ok tt
unfolding accept
accept-passes r c s low fits =
    let passes : ltb (as_u8 s) (mark r c) ≡ false = ground (arith, low c) in
    ground (arith, check-mark r c s)

module _ (blake3 : Bytes → Bytes) (ed : Ed25519) (dsa : MlDsa65) where
  unfoldable pub deliver :
      SuiteRatchet → Delivery → Result ValidateError Outcome × Option SuiteRatchet
  deliver r d = validate_pinned blake3 ed dsa d.sealer d.envelope d.ctx (some r)

  -- The ratchet after deliveries, whatever their outcomes.
  unfoldable pub after_deliveries : SuiteRatchet → List Delivery → SuiteRatchet
  unfolding deliver
  after_deliveries r [] = r
  after_deliveries r (d ∷ later) = after_deliveries (ratchet_or r (deliver r d).1) later

  abbrev pub outcome : Delivery → Result MoteError Outcome
  outcome d = validate blake3 ed dsa d.sealer d.envelope d.ctx

  length_of_verify_domain :
      (pk domain m sig : Bytes) → verify_domain ed pk domain m sig ≡ ok tt → length pk ≡ 32
  unfolding verify_domain verifying_key
  length_of_verify_domain pk domain m sig h = elim (Bool-cases (length pk == 32)) [
    | inl e ↦ (==_iff (length pk) 32).0 e
    | inr e ↦ cc (rw e at h)
  ]

  map_err-inverse :
      {E F : Type 0} (f : E → F) (r : Result E (Unit {0})) → Result.map_err f r ≡ ok tt → r ≡ ok tt
  map_err-inverse f (ok u) h = refl
  map_err-inverse f (err e) h = cc

  -- A key that a signature verifies under has the length of its suite's keys.
  suite_of_verify :
      (s : Suite) (pk domain m sig : Bytes)
      → verify_sig_for_suite ed dsa s pk domain m sig ≡ ok tt
      → as_u8 s ≡ suite_of_length pk
  unfolding verify_sig_for_suite as_u8
  suite_of_verify classical pk domain m sig h =
      let long =
        length_of_verify_domain pk domain m sig
          (map_err-inverse _ (verify_domain ed pk domain m sig) h) in
      rw long refl
  suite_of_verify pq_hybrid pk domain m sig h =
      let long =
        ((verify_hybrid_domain-eq-ok_iff ed dsa pk domain m sig).0
          (map_err-inverse _ (verify_hybrid_domain ed dsa pk domain m sig) h)).0 in
      rw long refl
  suite_of_verify _ pk domain m sig h = cc

  suite_of_accepted :
      (d : Delivery) (p : Payload)
      → outcome d ≡ ok (accepted p)
      → as_u8 d.envelope.suite ≡ suite_of_length p.from
  suite_of_accepted d p h =
      let (anonymous, goes, opened) =
        (validate-eq-accepted_iff blake3 ed dsa d.sealer d.envelope d.ctx p).0 h in
      suite_of_verify d.envelope.suite p.from payload_sig_ds
        (payload_hash blake3 p d.envelope.kind d.envelope.ts (tag_det_cbor d.envelope.to)) p.sig
        opened.signed

  pin_suite-IsLow :
      (r : SuiteRatchet) (d : Delivery) (o : Result MoteError Outcome)
      → outcome d ≡ o
      → IsLow r
      → IsLow (ratchet_or r (pin_suite d.envelope.suite o (some r)).1)
  unfolding pin_suite
  pin_suite-IsLow r d (err e) h low = low
  pin_suite-IsLow r d (ok deferred) h low = low
  pin_suite-IsLow r d (ok (accepted p)) h low =
      accept-IsLow r p.from d.envelope.suite low (suite_of_accepted d p h)

  after_deliveries-IsLow :
      (r : SuiteRatchet) (ds : List Delivery) → IsLow r → IsLow (after_deliveries r ds)
  unfolding after_deliveries deliver validate_pinned
  after_deliveries-IsLow r [] low = low
  after_deliveries-IsLow r (d ∷ later) low =
      after_deliveries-IsLow (ratchet_or r (deliver r d).1) later
        (pin_suite-IsLow r d (outcome d) refl low)

  -- The pin refuses nothing that `validate` accepts, for a ratchet that started empty and was given to `validate_pinned`
  -- only, whatever came before: it goes by the sender's key, and the keys of the two suites differ in length.
  pub validate_pinned_never_refuses :
      (before : List Delivery) (d : Delivery) (p : Payload)
      → outcome d ≡ ok (accepted p)
      → (deliver (after_deliveries new before) d).0 ≡ ok (accepted p)
  unfolding deliver validate_pinned pin_suite
  validate_pinned_never_refuses before d p h =
      let r = after_deliveries new before in
      let passes =
        accept-passes r p.from d.envelope.suite (after_deliveries-IsLow new before new-IsLow)
          (suite_of_accepted d p h) in
      rw (h, pin_suite, passes) refl
