-- ===== src/Cbor/Encode.antt =====
-- crates/kotva-core/src/cbor.rs, the encoder. `enc` appends to `out`: a call here returns what the
-- source's call appends.
use dmtap.Prelude.{
  ℕ, ◌*◌, ◌%◌, ◌^◌, bit_or, true, false, Bytes, List, [], ◌∷◌, ◌++◌, length, ltb, leb,
  if◌then◌else◌, compare, Ordering, to_be_bytes,
}
use dmtap.Cbor.Value.{
  Cv, Items, Pairs, KeyKind, Key, int_keys, text_keys, u64, bytes, text, bool, array, map, text_map,
  no_items, item, no_pairs, pair, count_items,
}

unfoldable pub write_head : ℕ → ℕ → Bytes
write_head major arg =
    let m = major * 2 ^ 5 % 2 ^ 8 in
    if ltb arg 24
    then bit_or m (arg % 2 ^ 8) ∷ []
    else if leb arg 0xff
    then bit_or m 24 ∷ arg % 2 ^ 8 ∷ []
    else if leb arg 0xffff
    then bit_or m 25 ∷ to_be_bytes 2 (arg % 2 ^ 16)
    else if leb arg 0xffff_ffff
    then bit_or m 26 ∷ to_be_bytes 4 (arg % 2 ^ 32)
    else bit_or m 27 ∷ to_be_bytes 8 arg

-- The key bytes of a map entry: the head of an integer key; the head and the bytes of a text key.
unfoldable pub key_bytes : (kind : KeyKind) → Key kind → Bytes
key_bytes int_keys k = write_head 0 k
key_bytes text_keys k = write_head 3 (length k) ++ k

-- The order of `[u8]`: lexicographic.
unfoldable pub cmp_bytes : Bytes → Bytes → Ordering
cmp_bytes [] [] = Ordering.eq
cmp_bytes [] (y ∷ ys) = Ordering.lt
cmp_bytes (x ∷ xs) [] = Ordering.gt
cmp_bytes (x ∷ xs) (y ∷ ys) =
    let rest = cmp_bytes xs ys in
    elim (compare x y) [
      | Ordering.lt ↦ Ordering.lt
      | Ordering.gt ↦ Ordering.gt
      | Ordering.eq ↦ rest
    ]

-- An entry of `items`: the key bytes, and what `enc` writes for the value.
abbrev pub Entry : Type 0
Entry = Bytes × Bytes

-- `items.sort_by(|a, b| a.0.cmp(&b.0))`, which is stable: an entry stands behind its equals.
unfoldable pub insert_entry : Entry → List Entry → List Entry
insert_entry e [] = e ∷ []
insert_entry e (f ∷ fs) =
    let behind = insert_entry e fs in
    elim (cmp_bytes e.0 f.0) [ Ordering.gt ↦ f ∷ behind | _ ↦ e ∷ f ∷ fs ]

unfoldable pub sort_entries : List Entry → List Entry
sort_entries [] = []
sort_entries (e ∷ es) = insert_entry e (sort_entries es)

unfoldable pub write_entries : List Entry → Bytes
write_entries [] = []
write_entries ((kb, val) ∷ es) = kb ++ (val ++ write_entries es)

unfoldable pub enc_map : List Entry → Bytes
enc_map items = write_head 5 (length items) ++ write_entries (sort_entries items)

unfoldable mutual
  pub enc : Cv → Bytes
  enc (u64 n) = write_head 0 n
  enc (bytes b) = write_head 2 (length b) ++ b
  enc (text s) = write_head 3 (length s) ++ s
  enc (bool true) = 0xf5 ∷ []
  enc (bool false) = 0xf4 ∷ []
  enc (array a) = write_head 4 (count_items a) ++ enc_items a
  enc (map m) = enc_map (entries m)
  enc (text_map m) = enc_map (entries m)

  pub enc_items : Items → Bytes
  enc_items no_items = []
  enc_items (item e es) = enc e ++ enc_items es

  pub entries : {kind : KeyKind} → Pairs kind → List Entry
  entries no_pairs = []
  entries (pair {kind} k val fs) = (key_bytes kind k, enc val) ∷ entries fs

unfoldable pub encode : Cv → Bytes
unfolding enc
encode v = enc v
