-- ===== src/Location/Laws.antt =====
-- What the gate of crates/kotva-core/src/location.rs lets through, and that it is not rolled back.
use dmtap.Prelude.{
  ℕ, ◌+◌, ◌*◌, ◌<◌, ◌≤◌, ◌≡◌, ◌↔◌, inl, inr, refl, ap, true, false, Bytes, List, [], ◌∷◌, Option,
  none, some, arith, lookup, lookup-insert, eq_bytes_iff,
}
use dmtap.Result.{ok, err, Result-cases}
use dmtap.Keys.{Ed25519, IdentityKey, IsKeyPair, verify_domain-sign_domain}
use dmtap.Location.{
  LocationRecord, effective_substrate, substrate_or, issue, record_signing_body, record_pairs,
  sig_pair, location_record_ds, LocationError, stale, saturate, expires_at, check_fresh, supports,
  LocationTracker, check_sig, is_stale, accept, verify, validate, admit,
}

-- What a tracker has to have seen for a sequence number to be new.
abbrev pub IsNewer : Option ℕ → ℕ → Type 0
IsNewer none seq = Unit {0}
IsNewer (some prev) seq = prev < seq

is_stale_iff : (o : Option ℕ) (seq : ℕ) → (is_stale o seq ≡ false) ↔ IsNewer o seq
unfolding is_stale
is_stale_iff none seq = (λ h. tt, λ h. refl)
is_stale_iff (some prev) seq = ground arith

check_fresh_iff :
    (r : LocationRecord) (now skew : ℕ)
    → (check_fresh r now skew ≡ ok tt) ↔ ((r.ts ≤ saturate (now + skew)) × (now < expires_at r))
unfolding check_fresh
check_fresh_iff r now skew = ground arith

-- An admission, with the clock and the settings of its time.
pub record Arrival : Type 0 where
  pub rec : LocationRecord
  pub now : ℕ
  pub skew_ms : ℕ
  pub supported : List ℕ

module _ (ed : Ed25519) where
  validate_iff :
      (r : LocationRecord) (now skew : ℕ) (supported : List ℕ)
      → (validate ed r now skew supported ≡ ok tt) ↔ (
          (verify ed r ≡ ok tt)
          × (r.ts ≤ saturate (now + skew))
          × (now < expires_at r)
          × (supports supported (effective_substrate r) ≡ true))
  unfolding validate check_sig
  validate_iff r now skew supported = elim (Result-cases (verify ed r)) [
    | inl (u', v) ↦ elim (Result-cases (check_fresh r now skew)) [
      | inl (u, f) ↦
          (let iff = check_fresh_iff r now skew in rw (validate, check_sig, v, f) (ground arith))
      | inr (e, f) ↦
          (let iff = check_fresh_iff r now skew in rw (validate, check_sig, v, f) (ground arith))
    ]
    | inr (e', v) ↦ rw (validate, check_sig, v) (ground arith)
  ]

  pub admit-eq-ok_iff :
      (t : LocationTracker) (r : LocationRecord) (now skew : ℕ) (supported : List ℕ)
      → ((admit ed t r now skew supported).0 ≡ ok r.addrs) ↔ (
          (verify ed r ≡ ok tt)
          × (r.ts ≤ saturate (now + skew))
          × (now < expires_at r)
          × (supports supported (effective_substrate r) ≡ true)
          × IsNewer (lookup r.ik t.seen) r.seq)
  unfolding admit accept
  admit-eq-ok_iff t r now skew supported =
      let gate = validate_iff r now skew supported in
      ground (arith, gate, is_stale_iff (lookup r.ik t.seen) r.seq)

  -- The tracker after the arrivals, admitted or not.
  unfoldable pub after : LocationTracker → List Arrival → LocationTracker
  after t [] = t
  after t (a ∷ later) = after (admit ed t a.rec a.now a.skew_ms a.supported).1 later

  stays_stale :
      (t : LocationTracker) (a : Arrival) (ik : Bytes) (seq : ℕ)
      → is_stale (lookup ik t.seen) seq ≡ true
      → is_stale (lookup ik (admit ed t a.rec a.now a.skew_ms a.supported).1.seen) seq ≡ true
  unfolding admit accept is_stale
  stays_stale t a ik seq h =
      let found = lookup-insert a.rec.ik ik a.rec.seq t.seen in
      let same = eq_bytes_iff a.rec.ik ik in
      let key : a.rec.ik ≡ ik → lookup a.rec.ik t.seen ≡ lookup ik t.seen =
        λ e. ap (λ k. lookup k t.seen) e in
      ground arith

  after-is_stale :
      (t : LocationTracker) (later : List Arrival) (ik : Bytes) (seq : ℕ)
      → is_stale (lookup ik t.seen) seq ≡ true
      → is_stale (lookup ik (after t later).seen) seq ≡ true
  unfolding after
  after-is_stale t [] ik seq h = h
  after-is_stale t (a ∷ later) ik seq h =
      after-is_stale (admit ed t a.rec a.now a.skew_ms a.supported).1 later ik seq
        (stays_stale t a ik seq h)

  admit-is_stale :
      (t : LocationTracker) (a : Arrival) (seq : ℕ)
      → (admit ed t a.rec a.now a.skew_ms a.supported).0 ≡ ok a.rec.addrs
      → seq ≤ a.rec.seq
      → is_stale (lookup a.rec.ik (admit ed t a.rec a.now a.skew_ms a.supported).1.seen) seq ≡ true
  unfolding admit accept is_stale
  admit-is_stale t a seq h le =
      let found = lookup-insert a.rec.ik a.rec.ik a.rec.seq t.seen in
      let same = eq_bytes_iff a.rec.ik a.rec.ik in ground arith

  stale-refused :
      (t : LocationTracker) (r : LocationRecord) (now skew : ℕ) (supported : List ℕ)
      → is_stale (lookup r.ik t.seen) r.seq ≡ true
      → (e : LocationError) × (admit ed t r now skew supported ≡ (err e, t))
  unfolding admit accept
  stale-refused t r now skew supported h = elim (Result-cases (validate ed r now skew supported)) [
    | inl (u, v) ↦ (stale, rw (admit, v, h))
    | inr (e, v) ↦ (e, rw (admit, v))
  ]

  -- No rollback: once a record was admitted, and after any further arrivals, every record of that key
  -- whose sequence number is not greater is refused, and the tracker is left as it is.
  pub admit_no_rollback :
      (t : LocationTracker) (a : Arrival) (later : List Arrival) (r : LocationRecord) (now skew : ℕ)
      (supported : List ℕ)
      → (admit ed t a.rec a.now a.skew_ms a.supported).0 ≡ ok a.rec.addrs
      → r.ik ≡ a.rec.ik
      → r.seq ≤ a.rec.seq
      → (e : LocationError) × (admit ed
            (after (admit ed t a.rec a.now a.skew_ms a.supported).1 later)
            r
            now
            skew
            supported
          ≡ (err e, after (admit ed t a.rec a.now a.skew_ms a.supported).1 later))
  admit_no_rollback t a later r now skew supported admitted same le =
      let t' = (admit ed t a.rec a.now a.skew_ms a.supported).1 in
      let old = after-is_stale t' later a.rec.ik r.seq (admit-is_stale t a r.seq admitted le) in
      let old' : is_stale (lookup r.ik (after t' later).seen) r.seq ≡ true = rw same old in
      stale-refused (after t' later) r now skew supported old'

  -- A record that a key issues gets through the gate: while it is fresh, of a supported substrate, and of a
  -- sequence number above the one that the tracker has for the key, its addresses are returned.
  pub admit-issue :
      (t : LocationTracker) (k : IdentityKey) (peer_id : Bytes) (addrs : List Bytes)
      (seq ttl ts : ℕ) (substrate : Option ℕ) (now skew : ℕ) (supported : List ℕ)
      → IsKeyPair ed k
      → ts ≤ saturate (now + skew)
      → now < saturate (ts + saturate (ttl * 1_000))
      → supports supported (substrate_or substrate) ≡ true
      → IsNewer (lookup k.public t.seen) seq
      → (admit ed t (issue k peer_id addrs seq ttl ts substrate) now skew supported).0 ≡ ok addrs
  unfolding issue record_signing_body record_pairs sig_pair effective_substrate expires_at verify
  admit-issue t k peer_id addrs seq ttl ts substrate now skew supported pair begun lives dialled
        newer =
      (admit-eq-ok_iff t (issue k peer_id addrs seq ttl ts substrate) now skew supported).1
        (verify_domain-sign_domain ed k location_record_ds _ pair, begun, lives, dialled, newer)
