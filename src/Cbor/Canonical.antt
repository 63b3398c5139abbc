-- ===== src/Cbor/Canonical.antt =====
-- The values that crates/kotva-core/src/cbor.rs can receive: what `decode` returns, and what `encode`
-- turns into bytes that `decode` accepts.
use dmtap.Prelude.{ℕ, suc, ◌^◌, ◌<◌, ◌≡◌, true, Bytes, IsBytes, Ordering, max, length, arith}
use dmtap.Cbor.Value.{
  Cv, Items, Pairs, KeyKind, Key, int_keys, text_keys, u64, bytes, text, bool, array, map, text_map,
  no_items, item, no_pairs, pair, count_items, count_pairs,
}
use dmtap.Cbor.Utf8.{is_utf8}
use dmtap.Cbor.Encode.{key_bytes, cmp_bytes}

-- The value that a key decodes to.
abbrev pub key_cv : (kind : KeyKind) → Key kind → Cv
key_cv int_keys k = u64 k
key_cv text_keys s = text s

-- A Rust `String` of a length that a head can carry.
abbrev pub IsText : Bytes → Type 0
IsText s = (length s < 2 ^ 64) × IsBytes s × (is_utf8 s ≡ true)

abbrev pub IsKey : (kind : KeyKind) → Key kind → Type 0
IsKey int_keys k = k < 2 ^ 64
IsKey text_keys s = IsText s

-- The first key stands behind `prev` in the order of encoded bytes.
abbrev pub StartsAfter : {kind : KeyKind} → Bytes → Pairs kind → Type 0
StartsAfter prev no_pairs = Unit
StartsAfter prev (pair {kind} k v fs) = cmp_bytes prev (key_bytes kind k) ≡ Ordering.lt

abbrev pub IsAscending : {kind : KeyKind} → Pairs kind → Type 0
IsAscending no_pairs = Unit
IsAscending (pair {kind} k v fs) = StartsAfter (key_bytes kind k) fs × IsAscending fs

-- A value of the wire subset: numbers and lengths of 64 bits, texts of UTF-8, keys strictly ascending,
-- and no empty text-keyed map, whose encoding is that of the empty integer-keyed one.
abbrev mutual
  pub IsCanonical : Cv → Type 0
  IsCanonical (u64 n) = n < 2 ^ 64
  IsCanonical (bytes b) = (length b < 2 ^ 64) × IsBytes b
  IsCanonical (text s) = IsText s
  IsCanonical (bool b) = Unit
  IsCanonical (array a) = (count_items a < 2 ^ 64) × AllCanonical a
  IsCanonical (map m) = (count_pairs m < 2 ^ 64) × IsAscending m × PairsCanonical m
  IsCanonical (text_map m) =
      (0 < count_pairs m) × (count_pairs m < 2 ^ 64) × IsAscending m × PairsCanonical m

  pub AllCanonical : Items → Type 0
  AllCanonical no_items = Unit
  AllCanonical (item v vs) = IsCanonical v × AllCanonical vs

  pub PairsCanonical : {kind : KeyKind} → Pairs kind → Type 0
  PairsCanonical no_pairs = Unit
  PairsCanonical (pair {kind} k v fs) = IsKey kind k × IsCanonical v × PairsCanonical fs

-- The levels of nesting that a value takes: one for a scalar or an empty container.
unfoldable mutual
  pub height : Cv → ℕ
  height (u64 n) = 1
  height (bytes b) = 1
  height (text s) = 1
  height (bool b) = 1
  height (array a) = suc (height_items a)
  height (map m) = suc (height_pairs m)
  height (text_map m) = suc (height_pairs m)

  pub height_items : Items → ℕ
  height_items no_items = 0
  height_items (item v vs) = max (height v) (height_items vs)

  pub height_pairs : {kind : KeyKind} → Pairs kind → ℕ
  height_pairs no_pairs = 0
  height_pairs (pair k v fs) = max (height v) (height_pairs fs)

pub height_pos : (v : Cv) → 0 < height v
unfolding height
height_pos (array a) = omega arith
height_pos _ = omega arith
