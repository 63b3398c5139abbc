-- ===== src/Cbor/Reader.antt =====
-- crates/kotva-core/src/cbor.rs, the field extraction helpers: the consuming reader `Fields`, and the
-- coercions from `Cv`.
use dmtap.Prelude.{
  List, [], ◌∷◌, ℕ, ◌^◌, Bool, false, ◌||◌, Bytes, Option, none, some, ltb, ◌==◌, if◌then◌else◌,
}
use dmtap.Result
use dmtap.Result.{Result, ok, err, ok_or}
use dmtap.Cbor.Value.{
  Cv, Items, Pairs, int_keys, u64, bytes, text, bool, array, map, no_pairs, pair, CborError,
  type_mismatch, missing_key, unknown_key, int_range, no_items, item,
}
use dmtap.Cbor.Decode.{decode}

pub record Fields : Type 0 where
  pub map : Pairs int_keys

unfoldable pub from_cv : Cv → Result CborError Fields
from_cv (map m) = ok (record { map = m })
from_cv _ = err type_mismatch

unfoldable pub has_pair : Pairs int_keys → ℕ → Bool
has_pair no_pairs k = false
has_pair (pair j v rest) k = j == k || has_pair rest k

unfoldable pub has : Fields → ℕ → Bool
unfolding has_pair
has f k = has_pair f.map k

-- `self.map.iter().position(…).map(|pos| self.map.remove(pos).1)`: the value at the first pair of
-- this key, and the pairs that are left.
unfoldable pub take_pair : ℕ → Pairs int_keys → Option (Cv × Pairs int_keys)
take_pair k no_pairs = none
take_pair k (pair j v rest) =
    let later = take_pair k rest in
    if j == k
    then some (v, rest)
    else (elim later [ none ↦ none | some (w, left) ↦ some (w, pair j v left) ])

unfoldable pub take_result : Fields → Option (Cv × Pairs int_keys) → Option Cv × Fields
take_result f none = (none, f)
take_result f (some (v, left)) = (some v, record { map = left })

unfoldable pub take : Fields → ℕ → Option Cv × Fields
unfolding take_pair take_result
take f k = take_result f (take_pair k f.map)

-- A step of a decoder that consumes fields.
abbrev pub Step {ℓ} : Type ℓ → Type ℓ
Step A = Fields → Result CborError (A × Fields)

unfoldable pub req : ℕ → Step Cv
unfolding take
req k f = let (found, f') = take f k in Result.map_ok (λ v. (v, f')) (ok_or found (missing_key k))

pub into_pairs : Fields → Pairs int_keys
into_pairs f = f.map

unfoldable pub deny_pairs : Pairs int_keys → Result CborError (Unit {0})
deny_pairs no_pairs = ok tt
deny_pairs (pair k v rest) = err (unknown_key k)

unfoldable pub deny_unknown : Fields → Result CborError (Unit {0})
unfolding deny_pairs
deny_unknown f = deny_pairs f.map

unfoldable pub as_u64 : Cv → Result CborError ℕ
as_u64 (u64 n) = ok n
as_u64 _ = err type_mismatch

-- `u8::try_from(n)` and `u32::try_from(n)`
unfoldable pub narrow : ℕ → ℕ → Result CborError ℕ
narrow bits n = if ltb n (2 ^ bits) then ok n else err int_range

unfoldable pub as_u8 : Cv → Result CborError ℕ
unfolding as_u64 narrow
as_u8 cv = Result.◌>>=◌ (as_u64 cv) (narrow 8)

unfoldable pub as_u32 : Cv → Result CborError ℕ
unfolding as_u64 narrow
as_u32 cv = Result.◌>>=◌ (as_u64 cv) (narrow 32)

unfoldable pub as_bytes : Cv → Result CborError Bytes
as_bytes (bytes b) = ok b
as_bytes _ = err type_mismatch

unfoldable pub as_text : Cv → Result CborError Bytes
as_text (text s) = ok s
as_text _ = err type_mismatch

unfoldable pub as_bool : Cv → Result CborError Bool
as_bool (bool b) = ok b
as_bool _ = err type_mismatch

unfoldable pub as_array : Cv → Result CborError Items
as_array (array a) = ok a
as_array _ = err type_mismatch

-- `f(g(k)?)?`: take a required field and coerce it.
unfoldable pub required {ℓ} : {A : Type ℓ} → (Cv → Result CborError A) → ℕ → Step A
unfolding req
required coerce k f = Result.◌>>=◌ (req k f) λ (cv, f'). Result.map_ok (λ a. (a, f')) (coerce cv)

-- `.into_iter().map(f).collect::<Result<_, _>>()`
unfoldable pub collect {ℓ} :
    {A : Type ℓ} → (Cv → Result CborError A) → Items → Result CborError (List A)
collect coerce no_items = ok []
collect coerce (item v vs) =
    let rest = collect coerce vs in Result.◌>>=◌ (coerce v) λ a. Result.map_ok (λ as'. a ∷ as') rest

-- `.iter().map(f).collect()` into the items of an array
unfoldable pub items_of {ℓ} : {A : Type ℓ} → (A → Cv) → List A → Items
items_of enc [] = no_items
items_of enc (a ∷ rest) = item (enc a) (items_of enc rest)

-- `.map(f).transpose()?`
unfoldable pub transpose {ℓ} :
    {A : Type ℓ} → (Cv → Result CborError A) → Option Cv → Result CborError (Option A)
transpose coerce none = ok none
transpose coerce (some cv) = Result.map_ok some (coerce cv)

-- `f.take(k).map(g).transpose()?`: an optional field.
unfoldable pub optional {ℓ} : {A : Type ℓ} → (Cv → Result CborError A) → ℕ → Step (Option A)
unfolding take transpose
optional coerce k f =
    let (found, f') = take f k in Result.map_ok (λ o. (o, f')) (transpose coerce found)

-- `if let Some(a) = o { m.push((k, enc(a))) }`, and what is pushed behind.
unfoldable pub optional_pair {ℓ} :
    {A : Type ℓ} → ℕ → (A → Cv) → Option A → Pairs int_keys → Pairs int_keys
optional_pair k enc none tail = tail
optional_pair k enc (some a) tail = pair k (enc a) tail

module _ {ℓ κ} {A : Type ℓ} {B : Type κ} where
  infixl 1 ◌>>=◌ ◌>>◌
  abbrev pub ◌>>=◌ : Step A → (A → Step B) → Step B
  ◌>>=◌ p next f = Result.◌>>=◌ (p f) λ (a, f'). next a f'

  abbrev pub ◌>>◌ : Step A → Step B → Step B
  p >> q = p >>= λ _. q

-- The last line of a decoder of a signed object: nothing may be left.
unfoldable pub done {ℓ} : {A : Type ℓ} → A → Step A
unfolding deny_unknown
done a f = Result.◌>>=◌ (deny_unknown f) λ _. ok (a, f)

-- `Fields::from_cv(cbor::decode(bytes)?)?`, and the steps of the decoder behind it.
unfoldable pub decode_object {ℓ} : {A : Type ℓ} → Step A → Bytes → Result CborError A
unfolding from_cv
decode_object steps bs =
    Result.◌>>=◌ (decode bs)
      λ cv. Result.◌>>=◌ (from_cv cv) λ f. Result.map_ok (λ (a, left). a) (steps f)
