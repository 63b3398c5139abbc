-- ===== src/Location/Tests.antt =====
-- Runs of the gate of crates/kotva-core/src/location.rs. `toy` takes a signature to be valid if it begins
-- with the key.
use dmtap.Prelude.{
  replicate, take, ◌≡◌, refl, arith, ℕ, true, [], ◌∷◌, none, some, eq_bytes, lookup, insert,
}
use dmtap.Result.{ok, err}
use dmtap.Keys.{Ed25519, IdentityKey, IsKeyPair, verify_domain, verifying_key, signature}
use dmtap.Location.{
  LocationRecord, LocationError, new_tracker, expired, substrate_or, effective_substrate, saturate,
  expires_at, check_fresh, check_sig, supports, is_stale, accept, verify, validate, admit, issue,
  from_high_water_marks, add_marks, highest_seq,
}
use dmtap.Location.Laws.{Arrival, after, admit-issue, admit_no_rollback}

unfoldable toy : Ed25519
unfolding eq_bytes
toy = record { valid_key = λ key. true; verify_strict = λ key msg sig. eq_bytes key (take 32 sig) }

abbrev sample : ℕ → LocationRecord
sample seq = record {
  ik = replicate 32 7;
  peer_id = 1 ∷ 2 ∷ [];
  addrs = (47 ∷ 105 ∷ []) ∷ [];
  seq = seq;
  ttl = 7200;
  ts = 1_700_000_000_000;
  sig = replicate 64 7;
  substrate = none;
}

abbrev clock : ℕ
clock = 1_700_000_000_500

admits_the_first : (admit toy new_tracker (sample 3) clock 5000 (1 ∷ [])).0 ≡ ok (sample 3).addrs
unfolding admit validate check_sig verify verify_domain verifying_key signature check_fresh supports
    effective_substrate substrate_or saturate expires_at is_stale accept lookup toy eq_bytes
admits_the_first = refl

expires_at_the_bound : check_fresh (sample 3) 1_700_007_200_000 5000 ≡ err expired
unfolding check_fresh saturate expires_at
expires_at_the_bound = refl

keeps_the_higher_mark :
    highest_seq (from_high_water_marks ((7 ∷ [], 5) ∷ (7 ∷ [], 4) ∷ [])) (7 ∷ []) ≡ some 5
unfolding highest_seq from_high_water_marks add_marks lookup insert eq_bytes
keeps_the_higher_mark = refl

abbrev first : Arrival
first = record { rec = sample 3; now = clock; skew_ms = 5000; supported = 1 ∷ [] }

abbrev second : Arrival
second = record { rec = sample 8; now = clock; skew_ms = 5000; supported = 1 ∷ [] }

admit_no_rollback_example :
    (e : LocationError) × (admit toy
        (after toy (admit toy new_tracker (sample 3) clock 5000 (1 ∷ [])).1 (second ∷ []))
        (sample 3)
        clock
        5000
        (1 ∷ [])
      ≡ (err e, after toy (admit toy new_tracker (sample 3) clock 5000 (1 ∷ [])).1 (second ∷ [])))
admit_no_rollback_example =
    admit_no_rollback toy new_tracker first (second ∷ []) (sample 3) clock 5000 (1 ∷ [])
      admits_the_first refl (omega arith)

abbrev toy_key : IdentityKey
toy_key = record { public = replicate 32 7; sign = λ m. replicate 64 7 }

toy_key-IsKeyPair : IsKeyPair toy toy_key
unfolding toy eq_bytes
toy_key-IsKeyPair = record {
  public_length = refl;
  public_valid = refl;
  sign_length = λ m. refl;
  sign_verifies = λ m. refl;
}

admit-issue_example :
    (admit toy new_tracker
      (issue toy_key (1 ∷ []) ((47 ∷ 105 ∷ []) ∷ []) 3 7200 1_700_000_000_000 none)
      clock
      5000
      (1 ∷ [])).0
    ≡ ok ((47 ∷ 105 ∷ []) ∷ [])
unfolding supports substrate_or lookup saturate
admit-issue_example =
    admit-issue toy new_tracker toy_key (1 ∷ []) ((47 ∷ 105 ∷ []) ∷ []) 3 7200 1_700_000_000_000
      none clock 5000 (1 ∷ []) toy_key-IsKeyPair (omega arith) (omega arith) refl tt
