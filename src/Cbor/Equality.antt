-- ===== src/Cbor/Equality.antt =====
-- The derived `==` of `Cv` in crates/kotva-core/src/cbor.rs.
use dmtap.Prelude.{◌≡◌, refl, ap, ap₂, Bool, true, false, ◌&&◌, ◌==◌, arith, eq_bytes, eq_bytes_iff}
use dmtap.Cbor.Value.{
  Cv, Items, Pairs, KeyKind, Key, int_keys, text_keys, u64, bytes, text, bool, array, map, text_map,
  no_items, item, no_pairs, pair,
}

unfoldable pub eq_bool : Bool → Bool → Bool
eq_bool true b = b
eq_bool false true = false
eq_bool false false = true

unfoldable pub eq_key : (kind : KeyKind) → Key kind → Key kind → Bool
eq_key int_keys j k = j == k
eq_key text_keys j k = eq_bytes j k

unfoldable mutual
  unfolding eq_bool eq_key

  pub eq_cv : Cv → Cv → Bool
  eq_cv (u64 m) (u64 n) = m == n
  eq_cv (bytes a) (bytes b) = eq_bytes a b
  eq_cv (text a) (text b) = eq_bytes a b
  eq_cv (bool a) (bool b) = eq_bool a b
  eq_cv (array a) (array b) = eq_items a b
  eq_cv (map a) (map b) = eq_pairs a b
  eq_cv (text_map a) (text_map b) = eq_pairs a b
  eq_cv _ _ = false

  pub eq_items : Items → Items → Bool
  eq_items no_items no_items = true
  eq_items (item v vs) (item w ws) = eq_cv v w && eq_items vs ws
  eq_items _ _ = false

  pub eq_pairs : {kind : KeyKind} → Pairs kind → Pairs kind → Bool
  eq_pairs no_pairs no_pairs = true
  eq_pairs (pair {kind} j v ps) (pair k w qs) = eq_key kind j k && (eq_cv v w && eq_pairs ps qs)
  eq_pairs _ _ = false

eq_key-eq : (kind : KeyKind) (j k : Key kind) → eq_key kind j k ≡ true → j ≡ k
unfolding eq_key
eq_key-eq int_keys j k h = ground arith
eq_key-eq text_keys j k h = (eq_bytes_iff j k).0 h

eq_bool-eq : (a b : Bool) → eq_bool a b ≡ true → a ≡ b
unfolding eq_bool
eq_bool-eq true true h = refl
eq_bool-eq true false h = cc
eq_bool-eq false true h = cc
eq_bool-eq false false h = refl

both : (a b : Bool) → (a && b) ≡ true → (a ≡ true) × (b ≡ true)
both true b h = (refl, h)
both false b h = cc

-- Values that the code takes for equal are equal.
mutual
  unfolding eq_cv

  pub eq_cv-eq : (a b : Cv) → eq_cv a b ≡ true → a ≡ b
  eq_cv-eq (u64 m) (u64 n) h = ap u64 (ground arith)
  eq_cv-eq (bytes a) (bytes b) h = ap bytes ((eq_bytes_iff a b).0 h)
  eq_cv-eq (text a) (text b) h = ap text ((eq_bytes_iff a b).0 h)
  eq_cv-eq (bool a) (bool b) h = ap bool (eq_bool-eq a b h)
  eq_cv-eq (array a) (array b) h = ap array (eq_items-eq a b h)
  eq_cv-eq (map a) (map b) h = ap map (eq_pairs-eq a b h)
  eq_cv-eq (text_map a) (text_map b) h = ap text_map (eq_pairs-eq a b h)
  eq_cv-eq _ _ h = cc

  pub eq_items-eq : (a b : Items) → eq_items a b ≡ true → a ≡ b
  eq_items-eq no_items no_items h = refl
  eq_items-eq (item v vs) (item w ws) h =
      let (first, rest) = both (eq_cv v w) (eq_items vs ws) h in
      ap₂ item (eq_cv-eq v w first) (eq_items-eq vs ws rest)
  eq_items-eq _ _ h = cc

  pub eq_pairs-eq : {kind : KeyKind} (a b : Pairs kind) → eq_pairs a b ≡ true → a ≡ b
  eq_pairs-eq no_pairs no_pairs h = refl
  eq_pairs-eq (pair {kind} j v ps) (pair k w qs) h =
      let (key, rest) = both (eq_key kind j k) (eq_cv v w && eq_pairs ps qs) h in
      let (value, tail) = both (eq_cv v w) (eq_pairs ps qs) rest in
      let same_key = eq_key-eq kind j k key in
      let same_value = eq_cv-eq v w value in let same_tail = eq_pairs-eq ps qs tail in cc
  eq_pairs-eq _ _ h = cc

eq_bool_refl : (b : Bool) → eq_bool b b ≡ true
unfolding eq_bool
eq_bool_refl true = refl
eq_bool_refl false = refl

eq_key_refl : (kind : KeyKind) (k : Key kind) → eq_key kind k k ≡ true
unfolding eq_key
eq_key_refl int_keys k = ground arith
eq_key_refl text_keys k = (eq_bytes_iff k k).1 refl

mutual
  unfolding eq_cv

  pub eq_cv_refl : (a : Cv) → eq_cv a a ≡ true
  eq_cv_refl (u64 m) = ground arith
  eq_cv_refl (bytes a) = (eq_bytes_iff a a).1 refl
  eq_cv_refl (text a) = (eq_bytes_iff a a).1 refl
  eq_cv_refl (bool a) = eq_bool_refl a
  eq_cv_refl (array a) = eq_items_refl a
  eq_cv_refl (map a) = eq_pairs_refl a
  eq_cv_refl (text_map a) = eq_pairs_refl a

  pub eq_items_refl : (a : Items) → eq_items a a ≡ true
  eq_items_refl no_items = refl
  eq_items_refl (item v vs) = rw (eq_cv_refl v, eq_items_refl vs)

  pub eq_pairs_refl : {kind : KeyKind} (a : Pairs kind) → eq_pairs a a ≡ true
  eq_pairs_refl no_pairs = refl
  eq_pairs_refl (pair {kind} j v ps) = rw (eq_key_refl kind j, eq_cv_refl v, eq_pairs_refl ps)
