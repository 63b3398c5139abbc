-- ===== src/Mote/Tests.antt =====
-- Messages of crates/kotva-core/src/mote.rs with small keys, for the theorems about them.
use dmtap.Prelude.{
  IsBytes, ℕ, suc, zero, ◌+◌, ◌*◌, ◌%◌, ◌^◌, ◌<◌, ◌≡◌, ◌⊎◌, ◌≢◌, refl, sym, subst, arith, true,
  ascii, Bytes, [], ◌∷◌, ◌++◌, none, length, take, drop, length-append, All-append, take-append,
  drop-append, eq_bytes, eq_bytes_iff, if◌then◌else◌,
}
use dmtap.Result.{Result, ok, err}
use dmtap.Keys.{Ed25519, IdentityKey, IsKeyPair, sign_domain}
use dmtap.Pq.{MlDsa65, HybridSigningKey, public, sign_domain as sign_hybrid}
use dmtap.Suite.{classical, pq_hybrid, new}
use dmtap.Mote.Kind.{mail, decrypt_failed}
use dmtap.Mote.Challenge.{key, tag_det_cbor}
use dmtap.Mote.File.{check_tiers}
use dmtap.Mote.Envelope.{
  Envelope, Payload, payload_det_cbor, payload_pairs, content_pairs, headers_cv, headers_pairs,
  ext_pair,
}
use dmtap.Mote.Validate.{
  PayloadSeal, MoteDraft, new_draft, aad_bytes, RecipientCtx, classical_signer, hybrid_signer,
  is_deferred, Signer, payload_sig_ds, payload_hash, unsigned_payload, signed_payload,
  signed_envelope, build_with, build_mote, validate, accepted,
}
use dmtap.Cbor.Value.{count_pairs, count_items}
use dmtap.Cbor.Canonical.{height}
use dmtap.Cbor.Reader.{optional_pair, items_of}
use dmtap.Kt.Wire.{id_items}
use dmtap.Mote.ReadBack.{PayloadFits}
use dmtap.Mote.Delivered.{Opens, due, validate-build_mote}
use dmtap.Mote.Hybrid.{IsHybridPair}
use dmtap.Mote.Anonymous.{IsAnonymouslyValid}
use dmtap.Mote.Checks.{validate-before_opening}
use dmtap.Mote.Pinned.{Delivery, deliver, after_deliveries, outcome, validate_pinned_never_refuses}

unfoldable mixed : ℕ → Bytes → ℕ
mixed acc [] = acc
mixed acc (b ∷ bs) = mixed ((acc * 31 + b) % 251) bs

-- The same byte, over and over; it does not compute, so that long keys stay short.
block : ℕ → ℕ → Bytes
block zero b = []
block (suc n) b = b ∷ block n b

unfoldable toy_sign : ℕ → Bytes → Bytes → Bytes
toy_sign n k m = block n (mixed 7 (k ++ m))

abbrev toy_ed : Ed25519
toy_ed = record { valid_key = λ k. true; verify_strict = λ k m s. eq_bytes s (toy_sign 64 k m) }

abbrev toy_dsa : MlDsa65
toy_dsa = record {
  is_key = λ k. true;
  is_signature = λ s. true;
  verify = λ k m s. eq_bytes s (toy_sign 3309 k m);
}

unfoldable toy_hash : Bytes → Bytes
toy_hash bs = block 32 (mixed 11 bs)

length-block : (n b : ℕ) → length (block n b) ≡ n
unfolding block
length-block zero b = refl
length-block (suc n) b = omega (arith, length-block n b)

eq_bytes_self : (bs : Bytes) → eq_bytes bs bs ≡ true
eq_bytes_self bs = (eq_bytes_iff bs bs).1 refl

-- The key pair whose public half is `n` times the byte.
abbrev pair_of : ℕ → ℕ → ℕ → IdentityKey
pair_of n long b = record { public = block n b; sign = toy_sign long (block n b) }

toy-IsKeyPair : (b : ℕ) → IsKeyPair toy_ed (pair_of 32 64 b)
unfolding toy_sign
toy-IsKeyPair b = record {
  public_length = length-block 32 b;
  public_valid = refl;
  sign_length = λ m. length-block 64 (mixed 7 (block 32 b ++ m));
  sign_verifies = λ m. eq_bytes_self (toy_sign 64 (block 32 b) m);
}

abbrev hybrid_of : ℕ → HybridSigningKey
hybrid_of b = record { ed = pair_of 32 64 b; mldsa = pair_of 1952 3309 b }

toy-IsHybridPair : (b : ℕ) → IsHybridPair toy_ed toy_dsa (hybrid_of b)
unfolding toy_sign
toy-IsHybridPair b = record {
  classical_half = toy-IsKeyPair b;
  public_length = length-block 1952 b;
  sign_length = λ m. length-block 3309 (mixed 7 (block 1952 b ++ m));
  is_key = refl;
  is_signature = λ m. refl;
  sign_verifies = λ m. eq_bytes_self (toy_sign 3309 (block 1952 b) m);
}

-- The authenticated data stands in front of the text.
abbrev toy_seal : PayloadSeal
toy_seal = record {
  seal = λ k aad pt. ok (aad ++ pt);
  open_sealed = λ secret aad ct.
      if eq_bytes (take (length aad) ct) aad then ok (drop (length aad) ct) else err decrypt_failed;
}

ok-inverse : {E A : Type 0} {a b : A} → ◌≡◌ {A = Result E A} (ok a) (ok b) → a ≡ b
ok-inverse h = cc

toy_seal-Opens : (k secret : Bytes) → Opens toy_seal k secret
toy_seal-Opens k secret aad pt ct e =
    subst (λ c. toy_seal.open_sealed secret aad c ≡ ok pt) (ok-inverse e)
      (rw (take-append aad pt, drop-append aad pt, eq_bytes_self aad) refl)

abbrev us : RecipientCtx
us = record { our_ik = 1 ∷ 2 ∷ 3 ∷ []; seal_secret = []; sender_is_known = true }

abbrev hello : MoteDraft
hello = new_draft mail 1_000 (ascii "hi")

mixed-lt : (acc : ℕ) (bs : Bytes) → acc < 251 → mixed acc bs < 256
unfolding mixed
mixed-lt acc [] h = omega arith
mixed-lt acc (b ∷ bs) h = mixed-lt ((acc * 31 + b) % 251) bs (omega arith)

IsBytes-block : (n b : ℕ) → b < 256 → IsBytes (block n b)
unfolding block
IsBytes-block zero b h = tt
IsBytes-block (suc n) b h = (h, IsBytes-block n b h)

-- Bytes that fit a head.
abbrev AreShort : Bytes → Type 0
AreShort bs = (length bs < 2 ^ 64) × IsBytes bs

AreShort-block : (n b : ℕ) → n < 2 ^ 64 → b < 256 → AreShort (block n b)
AreShort-block n b few h = (omega (arith, length-block n b), IsBytes-block n b h)

hello-PayloadFits :
    (k : Signer) (to_cbor : Bytes)
    → AreShort k.from
    → ((m : Bytes) → AreShort (k.sign_from payload_sig_ds m))
    → PayloadFits (signed_payload toy_hash k to_cbor hello)
unfolding signed_payload payload_pairs content_pairs headers_cv headers_pairs ext_pair optional_pair
    items_of id_items height new_draft count_pairs count_items
hello-PayloadFits k to_cbor from sig = record {
  attachments = tt;
  canonical = (
    omega arith,
    from,
    (
      omega arith,
      sig (payload_hash toy_hash (unsigned_payload k hello) mail 1_000 to_cbor),
      omega arith,
    ),
  );
  shallow = omega arith;
}

AreShort-append :
    (n m b c : ℕ) → n + m < 2 ^ 64 → b < 256 → c < 256 → AreShort (block n b ++ block m c)
AreShort-append n m b c few h k = (
  omega (arith, length-append (block n b) (block m c), length-block n b, length-block m c),
  All-append (λ x. x < 256) (block n b) (block m c) (IsBytes-block n b h) (IsBytes-block m c k),
)

abbrev to_us : Bytes
to_us = tag_det_cbor (key us.our_ik)

abbrev sender : IdentityKey
sender = pair_of 32 64 7

abbrev ephemeral : IdentityKey
ephemeral = pair_of 32 64 8

abbrev payload : Payload
payload = signed_payload toy_hash (classical_signer sender ephemeral) to_us hello

abbrev sealed : Bytes
sealed = aad_bytes classical mail 1_000 to_us ++ payload_det_cbor payload

classical-PayloadFits : PayloadFits payload
unfolding classical_signer sign_domain toy_sign
classical-PayloadFits =
    hello-PayloadFits (classical_signer sender ephemeral) to_us
      (AreShort-block 32 7 (omega arith) (omega arith))
      λ m.
        AreShort-block 64 (mixed 7 (block 32 7 ++ (payload_sig_ds ++ m))) (omega arith)
          (mixed-lt 7 (block 32 7 ++ (payload_sig_ds ++ m)) (omega arith))

validate-build_mote_example :
    (e : Envelope) × (build_mote toy_hash toy_seal sender ephemeral us.our_ik [] hello ≡ ok e)
    × (validate toy_hash toy_ed toy_dsa toy_seal e us ≡ ok (due (is_deferred none true) payload))
unfolding toy_hash new_draft check_tiers
validate-build_mote_example =
    validate-build_mote toy_hash toy_ed toy_dsa toy_seal sender ephemeral hello [] sealed us
      (toy-IsKeyPair 7) (toy-IsKeyPair 8) (length-block 32 (mixed 11 sealed)) (toy_seal-Opens [] [])
      classical-PayloadFits tt refl refl

abbrev hybrid_payload : Payload
hybrid_payload = signed_payload toy_hash (hybrid_signer (hybrid_of 7) (hybrid_of 8)) to_us hello

hybrid-PayloadFits : PayloadFits hybrid_payload
unfolding hybrid_signer public sign_hybrid sign_domain toy_sign
hybrid-PayloadFits =
    hello-PayloadFits (hybrid_signer (hybrid_of 7) (hybrid_of 8)) to_us
      (AreShort-append 32 1952 7 7 (omega arith) (omega arith) (omega arith))
      λ m.
        (let text = payload_sig_ds ++ m in
          AreShort-append 64 3309 (mixed 7 (block 32 7 ++ text)) (mixed 7 (block 1952 7 ++ text))
            (omega arith) (mixed-lt 7 (block 32 7 ++ text) (omega arith))
            (mixed-lt 7 (block 1952 7 ++ text) (omega arith)))

abbrev hybrid_sealed : Bytes
hybrid_sealed = aad_bytes pq_hybrid mail 1_000 to_us ++ payload_det_cbor hybrid_payload

abbrev envelope : Envelope
envelope = signed_envelope toy_hash (classical_signer sender ephemeral) (key us.our_ik) hello sealed

-- A sealer that opens nothing.
abbrev no_seal : PayloadSeal
no_seal = record {
  seal = λ k aad pt. err decrypt_failed;
  open_sealed = λ secret aad ct. err decrypt_failed;
}

validate-before_opening_example :
    (validate toy_hash toy_ed toy_dsa toy_seal envelope us
      ≡ validate toy_hash toy_ed toy_dsa no_seal envelope us)
    ⊎ (IsAnonymouslyValid toy_hash toy_ed toy_dsa envelope us.our_ik
        × ((true ≡ true) ⊎ (envelope.challenge ≢ none)))
validate-before_opening_example =
    validate-before_opening toy_hash toy_ed toy_dsa toy_seal no_seal envelope us

abbrev first_delivery : Delivery
first_delivery = record {
  sealer = toy_seal;
  envelope =
      signed_envelope toy_hash (hybrid_signer (hybrid_of 7) (hybrid_of 8)) (key us.our_ik) hello
        hybrid_sealed;
  ctx = us;
}

abbrev second_delivery : Delivery
second_delivery = record { sealer = toy_seal; envelope = envelope; ctx = us }

second_accepted : outcome toy_hash toy_ed toy_dsa second_delivery ≡ ok (accepted payload)
unfolding build_mote build_with new_draft check_tiers due is_deferred classical_signer
second_accepted =
    let (e, built, validated) = validate-build_mote_example in
    subst (λ x. validate toy_hash toy_ed toy_dsa toy_seal x us ≡ ok (accepted payload))
      (sym (ok-inverse built)) validated

-- A message under the hybrid suite, then one under the classical suite, by the classical half of the same key: the second is
-- accepted too.
validate_pinned_never_refuses_example :
    (deliver toy_hash toy_ed toy_dsa
      (after_deliveries toy_hash toy_ed toy_dsa new (first_delivery ∷ []))
      second_delivery).0
    ≡ ok (accepted payload)
validate_pinned_never_refuses_example =
    validate_pinned_never_refuses toy_hash toy_ed toy_dsa (first_delivery ∷ []) second_delivery
      payload second_accepted
