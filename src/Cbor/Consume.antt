-- ===== src/Cbor/Consume.antt =====
-- A decoder over `Fields` of crates/kotva-core/src/cbor.rs that takes its keys in ascending order and
-- denies the rest accepts only the map of those pairs, in that order.
use Prim.Native.Nat.{compare, Ordering}
use dmtap.Prelude.{
  ℕ, ◌^◌, ◌<◌, ◌≤◌, ◌≡◌, refl, sym, ap, ap₂, ◌∙◌, Bytes, IsBytes, Option, none, some, ◌==◌, ◌+◌,
  arith, Bool-cases, Option-cases, inl, inr, ◌⊎◌, ==_iff, subst, ◌↔◌,
}
use dmtap.Result
use dmtap.Result.{
  Result, ok, err, Yields, returns, fails, Yields-intro, Yields-bind, Yields-map, Yields-map_ok,
  Yields-ok, Result-cases,
}
use dmtap.Cbor.Value.{count_pairs, Cv, Pairs, int_keys, map, no_pairs, pair, CborError}
use dmtap.Cbor.Encode.{encode}
use dmtap.Cbor.Decode.{decode, max_nesting_depth}
use dmtap.Cbor.Canonical.{IsCanonical, IsAscending, PairsCanonical, height}
use dmtap.Cbor.KeyOrder.{cmp_bytes-key_bytes}
use dmtap.Cbor.Sound.{decode-eq-ok_iff}
use dmtap.Cbor.RoundTrip.{decode-encode}
use dmtap.Cbor.Reader.{
  optional, transpose, optional_pair, Fields, from_cv, take_pair, take_result, take, req, required,
  Step, done, deny_unknown, deny_pairs, decode_object,
}

-- The keys stand in the order of the numbers, and above `k`.
abbrev pub Above : ℕ → Pairs int_keys → Type 0
Above k no_pairs = Unit
Above k (pair j v rest) = k < j

abbrev pub IsIncreasing : Pairs int_keys → Type 0
IsIncreasing no_pairs = Unit
IsIncreasing (pair k v rest) = Above k rest × IsIncreasing rest

lt_of_compare : (a b : ℕ) → compare a b ≡ Ordering.lt → a < b
lt_of_compare a b h = ground arith

compare_of_lt : (a b : ℕ) → a < b → compare a b ≡ Ordering.lt
compare_of_lt a b h = ground arith

pub PairsCanonical-IsIncreasing :
    (ps : Pairs int_keys) → IsAscending ps → PairsCanonical ps → IsIncreasing ps
PairsCanonical-IsIncreasing no_pairs a c = tt
PairsCanonical-IsIncreasing (pair k v no_pairs) a c = (tt, tt)
PairsCanonical-IsIncreasing (pair k v (pair j w rest)) a c = (
  lt_of_compare k j (sym (cmp_bytes-key_bytes k j c.0 c.2.0) ∙ a.0),
  PairsCanonical-IsIncreasing (pair j w rest) a.1 c.2,
)

pub Above-trans : (j k : ℕ) (ps : Pairs int_keys) → j < k → Above k ps → Above j ps
Above-trans j k no_pairs h a = tt
Above-trans j k (pair i v rest) h a = omega arith

-- The key was the first, or it was taken from the pairs behind the first.
abbrev Taken : ℕ → ℕ → Cv → Pairs int_keys → Cv → Pairs int_keys → Type 0
Taken k i w rest v left =
    ((i ≡ k) × (w ≡ v) × (rest ≡ left))
    ⊎ ((behind : Pairs int_keys) × (take_pair k rest ≡ some (v, behind))
        × (left ≡ pair {kind = int_keys} i w behind))

take_pair-cases :
    (k i : ℕ) (w v : Cv) (rest left : Pairs int_keys)
    → take_pair k (pair {kind = int_keys} i w rest) ≡ some (v, left)
    → Taken k i w rest v left
unfolding take_pair
take_pair-cases k i w v rest left h = elim (Bool-cases (i == k)) [
  | inl e ↦
      let same : ◌≡◌ {A = Option (Cv × Pairs int_keys)} (some (w, rest)) (some (v, left)) =
        ground arith in
      inl ((==_iff i k).0 e, cc, cc)
  | inr e ↦ elim (Option-cases (take_pair k rest)) [
    | inl none_left ↦ absurd (ground arith)
    | inr ((u, behind), found) ↦
        let same : ◌≡◌ {A = Option (Cv × Pairs int_keys)} (some (u, pair i w behind))
            (some (v, left)) =
          ground arith in
        inr (behind, found ∙ cc, cc)
  ]
]

-- What is left after a key was taken is still increasing, and above what it was above.
pub take_pair-IsIncreasing :
    (k : ℕ) (v : Cv) (ps left : Pairs int_keys)
    → IsIncreasing ps
    → take_pair k ps ≡ some (v, left)
    → IsIncreasing left × ((j : ℕ) → Above j ps → Above j left)
take_pair-IsIncreasing k v no_pairs left inc h = unfold take_pair in cc
take_pair-IsIncreasing k v (pair i w rest) left inc h = elim (take_pair-cases k i w v rest left h) [
  | inl (_, _, same) ↦
      (subst IsIncreasing same inc.1, λ j a. subst (Above j) same (Above-trans j i rest a inc.0))
  | inr (behind, found, same) ↦
      let (inc', above') = take_pair-IsIncreasing k v rest behind inc.1 found in
      rw same ((above' i inc.0, inc'), λ j a. a)
]

take_pair-gt :
    (k i : ℕ) (v : Cv) (ps left : Pairs int_keys)
    → IsIncreasing ps
    → Above i ps
    → take_pair k ps ≡ some (v, left)
    → i < k
take_pair-gt k i v no_pairs left inc a h = unfold take_pair in cc
take_pair-gt k i v (pair j w rest) left inc a h = elim (take_pair-cases k j w v rest left h) [
  | inl (same, _, _) ↦ omega arith
  | inr (behind, found, _) ↦
      take_pair-gt k i v rest behind inc.1 (Above-trans i j rest a inc.0) found
]

-- A key taken from in front of all that is left was the first.
pub take_pair-first :
    (k : ℕ) (v : Cv) (ps left : Pairs int_keys)
    → IsIncreasing ps
    → take_pair k ps ≡ some (v, left)
    → Above k left
    → ps ≡ pair k v left
take_pair-first k v no_pairs left inc h above = unfold take_pair in cc
take_pair-first k v (pair i w rest) left inc h above = elim (take_pair-cases k i w v rest left h) [
  | inl (key, val, same) ↦ cc
  | inr (behind, found, same) ↦
      let low : k < i = subst (Above k) same above in
      absurd (omega (arith, take_pair-gt k i v rest behind inc.1 inc.0 found))
]

-- What a required field took.
pub record Took {ℓ} {A : Type ℓ} (coerce : Cv → Result CborError A) (k : ℕ) (f : Fields) (a : A)
    (left : Fields) : Type ℓ where
  pub value : Cv
  pub taken : take_pair k f.map ≡ some (value, left.map)
  pub coerced : coerce value ≡ ok a
  pub increasing : IsIncreasing left.map

pub required-Yields {ℓ} :
    {A : Type ℓ} (coerce : Cv → Result CborError A) (k : ℕ) (f : Fields)
    → IsIncreasing f.map
    → Yields (λ (a, left). Took coerce k f a left) (required coerce k f)
unfolding required req take take_result
required-Yields coerce k f inc = elim (Option-cases (take_pair k f.map)) [
  | inl e ↦ rw (e, take_result) fails
  | inr ((v, left), e) ↦
      rw (e, take_result)
        (Yields-map_ok (λ a. (a, record { map = left })) (coerce v)
          λ a c. record {
            value = v;
            taken = e;
            coerced = c;
            increasing = (take_pair-IsIncreasing k v f.map left inc e).0;
          })
]

-- The pairs before a field was taken, from those after and the value that it was coerced from.
pub put_back {ℓ} :
    {A : Type ℓ} {coerce : Cv → Result CborError A} {k : ℕ} {f left : Fields} {a : A} {v : Cv}
    {tail : Pairs int_keys}
    → Took coerce k f a left
    → IsIncreasing f.map
    → ((w : Cv) → coerce w ≡ ok a → w ≡ v)
    → left.map ≡ tail
    → Above k tail
    → f.map ≡ pair k v tail
put_back {k = k} {f = f} {left = left} {v = v} t inc inverse same above =
    take_pair-first k t.value f.map left.map inc t.taken (subst (Above k) (sym same) above)
    ∙ ap₂ (pair k) (inverse t.value t.coerced) same

-- What an optional field took.
abbrev pub WasTaken :
    {A : Type 0} → (Cv → Result CborError A) → ℕ → Fields → Option A → Fields → Type 0
WasTaken coerce k f none left = left.map ≡ f.map
WasTaken coerce k f (some a) left = Took coerce k f a left

pub record TookOption {A : Type 0} (coerce : Cv → Result CborError A) (k : ℕ) (f : Fields)
    (o : Option A) (left : Fields) : Type 0 where
  pub increasing : IsIncreasing left.map
  pub found : WasTaken coerce k f o left

pub optional-Yields :
    {A : Type 0} (coerce : Cv → Result CborError A) (k : ℕ) (f : Fields)
    → IsIncreasing f.map
    → Yields (λ (o, left). TookOption coerce k f o left) (optional coerce k f)
unfolding optional take take_result transpose
optional-Yields coerce k f inc = elim (Option-cases (take_pair k f.map)) [
  | inl e ↦ rw (e, take_result) (returns (record { increasing = inc; found = refl }))
  | inr ((v, left), e) ↦
      rw (e, take_result)
        (elim (Result-cases (coerce v)) [
          | inr (x, c) ↦ rw (transpose, c) fails
          | inl (a, c) ↦
              rw (transpose, c)
                (let inc' = (take_pair-IsIncreasing k v f.map left inc e).0 in
                  returns (record {
                    increasing = inc';
                    found = record { value = v; taken = e; coerced = c; increasing = inc' };
                  }))
        ])
]

-- The pairs before an optional field was taken.
pub put_option_back :
    {A : Type 0} {coerce : Cv → Result CborError A} {k : ℕ} {f left : Fields} {back : A → Cv}
    {tail : Pairs int_keys} (o : Option A)
    → TookOption coerce k f o left
    → IsIncreasing f.map
    → ((w : Cv) (a : A) → coerce w ≡ ok a → w ≡ back a)
    → left.map ≡ tail
    → Above k tail
    → f.map ≡ optional_pair k back o tail
unfolding optional_pair
put_option_back none t inc inverse same above = sym t.found ∙ same
put_option_back (some a) t inc inverse same above =
    put_back t.found inc (λ w e. inverse w a e) same above

pub done-Yields {ℓ} :
    {A : Type ℓ} (a : A) (f : Fields)
    → Yields (λ (b, left). (b ≡ a) × (f.map ≡ no_pairs)) (done a f)
unfolding done deny_unknown
done-Yields a f = go f.map refl
  where
    go :
        (ps : Pairs int_keys)
        → f.map ≡ ps
        → Yields (λ (b, left). (b ≡ a) × (f.map ≡ no_pairs)) (done a f)
    go no_pairs e = rw (e, deny_pairs) (returns (refl, refl))
    go (pair k v rest) e = rw (e, deny_pairs) fails

-- Integer keys that fit the wire and increase are in the order of their encodings.
pub IsIncreasing-IsAscending :
    (ps : Pairs int_keys) → IsIncreasing ps → PairsCanonical ps → IsAscending ps
IsIncreasing-IsAscending no_pairs i c = tt
IsIncreasing-IsAscending (pair k v no_pairs) i c = (tt, tt)
IsIncreasing-IsAscending (pair k v (pair j w rest)) i c = (
  cmp_bytes-key_bytes k j c.0 c.2.0 ∙ compare_of_lt k j i.0,
  IsIncreasing-IsAscending (pair j w rest) i.1 c.2,
)

-- A decoder of objects of type `A`, whose pairs are `pairs_of`. Its steps accept nothing but the pairs
-- of the object that they return, which is of the kind `Fits`, and read those of such an object back.
module _ {ℓ} {A : Type ℓ} (steps : Step A) (pairs_of : A → Pairs int_keys) (Fits : A → Type 0)
    (sound : (f : Fields)
      → IsIncreasing f.map
      → Yields (λ (a, left). (map (pairs_of a) ≡ map f.map) × Fits a) (steps f))
    (reads : (a : A)
      → Fits a
      → (left : Fields) × (steps (record { map = pairs_of a }) ≡ ok (a, left)))
    (increasing : (a : A) → IsIncreasing (pairs_of a))
    (few : (a : A) → count_pairs (pairs_of a) < 2 ^ 64) where
  abbrev Accepted : Bytes → A → Type 0
  Accepted bs a =
      (bs ≡ encode (map (pairs_of a)))
      × PairsCanonical (pairs_of a)
      × Fits a
      × (height (map (pairs_of a)) ≤ max_nesting_depth + 1)

  Accepted-map :
      (bs : Bytes) (cv : Cv)
      → (bs ≡ encode cv) × IsCanonical cv × (height cv ≤ max_nesting_depth + 1)
      → Yields
          (Accepted bs)
          (Result.◌>>=◌ (from_cv cv) λ f. Result.map_ok (λ (a, left). a) (steps f))
  unfolding from_cv
  Accepted-map bs (map m) (same, canonical, levels) =
      let inc = PairsCanonical-IsIncreasing m canonical.1 canonical.2 in
      Yields-map_ok _ (steps (record { map = m })) λ (a, left) e.
        let (is_a, fits) : (map (pairs_of a) ≡ map m) × Fits a =
          Yields-ok e (sound (record { map = m }) inc) in
        (
          same ∙ ap encode (sym is_a),
          (subst IsCanonical (sym is_a) canonical).2,
          fits,
          subst (λ v. height v ≤ max_nesting_depth + 1) (sym is_a) levels,
        )
  Accepted-map bs _ _ = fails

  -- The decoder accepts exactly the encodings of the objects that fit the wire and are of that kind.
  pub decode_object_iff :
      (bs : Bytes) (a : A)
      → IsBytes bs
      → (decode_object steps bs ≡ ok a) ↔ (
          (bs ≡ encode (map (pairs_of a)))
          × PairsCanonical (pairs_of a)
          × Fits a
          × (height (map (pairs_of a)) ≤ max_nesting_depth + 1))
  unfolding decode_object from_cv
  decode_object_iff bs a all_bytes = (
    λ e. Yields-ok e (
        Yields-bind (Yields-intro (decode bs) λ cv d. (decode-eq-ok_iff bs cv all_bytes).0 d)
          (Accepted-map bs)),
    λ (same, fits, kind, levels).
        let canonical : IsCanonical (map (pairs_of a)) =
          (few a, IsIncreasing-IsAscending (pairs_of a) (increasing a) fits, fits) in
        rw (same, decode-encode (map (pairs_of a)) canonical levels, (reads a kind).1),
  )

-- The same for objects that are all read back and are never nested too deep.
module _ {ℓ} {A : Type ℓ} (steps : Step A) (pairs_of : A → Pairs int_keys)
    (sound : (f : Fields)
      → IsIncreasing f.map
      → Yields (λ (a, left). map (pairs_of a) ≡ map f.map) (steps f))
    (reads : (a : A) → (left : Fields) × (steps (record { map = pairs_of a }) ≡ ok (a, left)))
    (increasing : (a : A) → IsIncreasing (pairs_of a))
    (few : (a : A) → count_pairs (pairs_of a) < 2 ^ 64)
    (shallow : (a : A) → height (map (pairs_of a)) ≤ max_nesting_depth + 1) where
  pub decode_object-eq-ok_iff :
      (bs : Bytes) (a : A)
      → IsBytes bs
      → (decode_object steps bs ≡ ok a)
        ↔ ((bs ≡ encode (map (pairs_of a))) × PairsCanonical (pairs_of a))
  decode_object-eq-ok_iff bs a all_bytes =
      let iff =
        decode_object_iff steps pairs_of (λ o. Unit {0})
          (λ f inc. Yields-map (sound f inc) λ r e. (e, tt)) (λ o t. reads o) increasing few bs a
          all_bytes in
      (
        λ e. let (same, fits, kind, levels) = iff.0 e in (same, fits),
        λ (same, fits). iff.1 (same, fits, tt, shallow a),
      )
