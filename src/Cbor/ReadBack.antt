-- ===== src/Cbor/ReadBack.antt =====
-- A decoder over `Fields` of crates/kotva-core/src/cbor.rs reads back the pairs that an encoder wrote.
use dmtap.Prelude.{true, ℕ, ◌^◌, ◌<◌, ◌≤◌, ◌+◌, ◌≡◌, refl, Option, none, some, ◌==◌, arith}
use dmtap.Result.{Result, ok}
use dmtap.Cbor.Value.{Cv, Pairs, int_keys, map, no_pairs, pair, count_pairs, CborError}
use dmtap.Cbor.Canonical.{PairsCanonical, height}
use dmtap.Cbor.Encode.{encode}
use dmtap.Cbor.Decode.{max_nesting_depth}
use dmtap.Cbor.RoundTrip.{decode-encode}
use dmtap.Cbor.Reader.{
  Fields, from_cv, take_pair, take_result, take, optional, transpose, optional_pair, Step,
  decode_object,
}
use dmtap.Cbor.Consume.{Above, Above-trans, IsIncreasing, IsIncreasing-IsAscending}

abbrev pub OnSome : {A : Type 0} → (A → Type 0) → Option A → Type 0
OnSome P none = Unit {0}
OnSome P (some a) = P a

-- A key below all others is not there.
pub take_pair-Above :
    (k : ℕ) (ps : Pairs int_keys) → Above k ps → IsIncreasing ps → take_pair k ps ≡ none
unfolding take_pair
take_pair-Above k no_pairs above inc = refl
take_pair-Above k (pair j v no_pairs) above inc = ground arith
take_pair-Above k (pair j v (pair i w rest)) above inc =
    ground (arith, take_pair-Above k (pair i w rest) (omega arith) inc.1)

-- The pairs increase, and stand above `k`.
abbrev pub From : ℕ → Pairs int_keys → Type 0
From k ps = Above k ps × IsIncreasing ps

module _ {A : Type 0} (enc : A → Cv) (k : ℕ) where
  pub optional-optional_pair :
      (coerce : Cv → Result CborError A) (o : Option A) (tail : Pairs int_keys)
      → From k tail
      → OnSome (λ a. coerce (enc a) ≡ ok a) o
      → optional coerce k (record { map = optional_pair k enc o tail })
        ≡ ok (o, record { map = tail })
  unfolding optional take take_result transpose optional_pair
  optional-optional_pair coerce none tail inc h =
      rw (take_pair-Above k tail inc.0 inc.1, take_result, transpose) refl
  optional-optional_pair coerce (some a) tail inc h =
      let same : (k == k) ≡ true = ground arith in
      unfold take_pair in rw (same, take_result, transpose, h) refl

  pub From-optional_pair :
      (j : ℕ) (o : Option A) (tail : Pairs int_keys)
      → j < k
      → From k tail
      → From j (optional_pair k enc o tail)
  unfolding optional_pair
  From-optional_pair j none tail lt (above, inc) = (Above-trans j k tail lt above, inc)
  From-optional_pair j (some a) tail lt (above, inc) = (lt, (above, inc))

  pub count_pairs-optional_pair :
      (o : Option A) (tail : Pairs int_keys)
      → count_pairs (optional_pair k enc o tail) ≤ count_pairs tail + 1
  unfolding optional_pair count_pairs
  count_pairs-optional_pair none tail = omega arith
  count_pairs-optional_pair (some a) tail = omega arith

-- An object that its steps read back from its pairs is decoded from its encoding.
pub decode_object-encode {ℓ} :
    {A : Type ℓ} (steps : Step A) (ps : Pairs int_keys) (a : A) (left : Fields)
    → steps (record { map = ps }) ≡ ok (a, left)
    → IsIncreasing ps
    → PairsCanonical ps
    → count_pairs ps < 2 ^ 64
    → height (map ps) ≤ max_nesting_depth + 1
    → decode_object steps (encode (map ps)) ≡ ok a
unfolding decode_object from_cv
decode_object-encode steps ps a left reads inc canonical few shallow =
    rw
      (
        decode-encode (map ps) (few, IsIncreasing-IsAscending ps inc canonical, canonical) shallow,
        reads,
      )
      refl
