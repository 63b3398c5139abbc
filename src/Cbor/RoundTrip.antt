-- ===== src/Cbor/RoundTrip.antt =====
-- crates/kotva-core/src/cbor.rs: what `encode` writes, `decode` reads back.
use dmtap.Prelude.{
  ℕ, zero, suc, ◌+◌, ◌^◌, ◌<◌, ◌≤◌, ◌≡◌, refl, ◌∙◌, Bool, true, false, Bytes, inl, ◌==◌, pred, [],
  ◌++◌, append_assoc, append-nil, length, arith,
}
use dmtap.Result.{ok}
use dmtap.Cbor.Value.{
  Cv, Items, Pairs, KeyKind, Key, u64, bytes, text, bool, array, map, text_map, no_items, item,
  no_pairs, pair, count_items, count_pairs,
}
use dmtap.Cbor.Encode.{
  write_head, key_bytes, sort_entries, write_entries, enc_map, enc, enc_items, entries, encode,
}
use dmtap.Cbor.Decode.{
  byte, simple, dispatch, decode_map, value, array_items, MapState, map_start, map_loop, map_result,
  decode, max_nesting_depth, push_entry,
}
use dmtap.Cbor.Canonical.{
  IsCanonical, AllCanonical, PairsCanonical, IsText, IsAscending, StartsAfter, height, height_items,
  height_pairs, height_pos,
}
use dmtap.Cbor.Head.{info, tail_bytes, argument-tail_bytes, take_bytes-append}
use dmtap.Cbor.Order.{enc_map-entries}
use dmtap.Cbor.ReadKey.{value-write_head}
use dmtap.Cbor.MapLoop.{
  push_pairs, Accepts, map_entry_lem, Accepts-push_entry, map_result-ints, map_result-texts,
}

-- `value` reads `v` off the front of any input, from every depth that leaves levels enough.
abbrev ReadsValue : Cv → Type 0
ReadsValue v =
    (levels : ℕ) (rest : Bytes)
    → IsCanonical v
    → height v ≤ levels
    → value levels (enc v ++ rest) ≡ ok (v, rest)

abbrev ReadsItems : Items → Type 0
ReadsItems vs =
    (levels : ℕ) (rest : Bytes)
    → AllCanonical vs
    → height_items vs ≤ levels
    → array_items (value levels) (count_items vs) (enc_items vs ++ rest) ≡ ok (vs, rest)

abbrev StartsOn : {kind : KeyKind} → MapState → Pairs kind → Type 0
StartsOn st no_pairs = Unit
StartsOn st (pair {kind} k v fs) = Accepts kind st (key_bytes kind k)

abbrev ReadsPairs : {kind : KeyKind} → Pairs kind → Type 0
ReadsPairs fs =
    (levels : ℕ) (st : MapState) (rest : Bytes)
    → IsAscending fs
    → PairsCanonical fs
    → height_pairs fs ≤ levels
    → StartsOn st fs
    → map_loop (value levels) (count_pairs fs) st (write_entries (entries fs) ++ rest)
      ≡ ok (push_pairs st fs, rest)

-- The head of an item with a count, and what follows it.
open_head :
    (levels major n : ℕ) (body rest : Bytes)
    → major < 8
    → value (suc levels) ((write_head major n ++ body) ++ rest)
      ≡ dispatch (value levels) major (info n) (tail_bytes n ++ (body ++ rest))
open_head levels major n body rest h =
    rw (append_assoc (write_head major n) body rest)
      (value-write_head levels major n (body ++ rest) h)

starts_on :
    {kind : KeyKind} (key : Key kind) (v : Cv) (st : MapState) (fs : Pairs kind)
    → StartsAfter (key_bytes kind key) fs
    → StartsOn (push_entry kind st (key_bytes kind key) key v) fs
starts_on key v st no_pairs h = tt
starts_on {kind} key v st (pair k w fs) h =
    Accepts-push_entry kind st (key_bytes kind key) key v (key_bytes kind k) h

-- A map that is not empty is read by its loop.
decode_map_lem :
    {kind : KeyKind} (levels : ℕ) (fs : Pairs kind) (v : Cv) (rest : Bytes)
    → IsAscending fs
    → count_pairs fs < 2 ^ 64
    → map_loop (value levels) (count_pairs fs) map_start (write_entries (entries fs) ++ rest)
      ≡ ok (push_pairs map_start fs, rest)
    → map_result (push_pairs map_start fs).kind (push_pairs map_start fs) ≡ v
    → 0 < count_pairs fs
    → value (suc levels) (enc_map (entries fs) ++ rest) ≡ ok (v, rest)
unfolding dispatch decode_map
decode_map_lem levels fs v rest ascending small loop result some =
    rw (enc_map-entries fs ascending) (
      open_head levels 5 (count_pairs fs) (write_entries (entries fs)) rest (omega arith)
      ∙ rw (
        argument-tail_bytes (count_pairs fs) (write_entries (entries fs) ++ rest) small,
        ne_zero (count_pairs fs) some,
        loop,
        result,
      ))
  where
    ne_zero : (n : ℕ) → 0 < n → (n == 0) ≡ false
    ne_zero n h = ground arith

scalar_levels : (v : Cv) (levels : ℕ) → height v ≤ levels → suc (pred levels) ≡ levels
scalar_levels v levels h = omega (arith, height_pos v)

reads_map_start : {kind : KeyKind} (fs : Pairs kind) → StartsOn map_start fs
reads_map_start no_pairs = tt
reads_map_start (pair k v fs) = (inl refl, inl refl)

write_pair :
    (kind : KeyKind) (k : Key kind) (written more rest : Bytes)
    → (key_bytes kind k ++ (written ++ more)) ++ rest
      ≡ key_bytes kind k ++ (written ++ (more ++ rest))
write_pair kind k written more rest = simp append_assoc

reads_u64 :
    (n levels : ℕ) (rest : Bytes)
    → n < 2 ^ 64
    → value (suc levels) (write_head 0 n ++ rest) ≡ ok (u64 n, rest)
unfolding dispatch
reads_u64 n l rest c = value-write_head l 0 n rest (omega arith) ∙ rw (argument-tail_bytes n rest c)

reads_bytes :
    (b : Bytes) (levels : ℕ) (rest : Bytes)
    → length b < 2 ^ 64
    → value (suc levels) ((write_head 2 (length b) ++ b) ++ rest) ≡ ok (bytes b, rest)
unfolding dispatch
reads_bytes b l rest c =
    open_head l 2 (length b) b rest (omega arith)
    ∙ rw (argument-tail_bytes (length b) (b ++ rest) c, take_bytes-append b rest)

reads_text :
    (s : Bytes) (levels : ℕ) (rest : Bytes)
    → IsText s
    → value (suc levels) ((write_head 3 (length s) ++ s) ++ rest) ≡ ok (text s, rest)
unfolding dispatch
reads_text s l rest c =
    open_head l 3 (length s) s rest (omega arith)
    ∙ rw (argument-tail_bytes (length s) (s ++ rest) c.0, take_bytes-append s rest, c.2)

reads_bool :
    (b : Bool) (levels : ℕ) (rest : Bytes)
    → value (suc levels) (enc (bool b) ++ rest) ≡ ok (bool b, rest)
unfolding value byte dispatch simple enc
reads_bool true l rest = refl
reads_bool false l rest = refl

reads_empty_map :
    (levels : ℕ) (rest : Bytes)
    → value (suc levels) (enc (map no_pairs) ++ rest) ≡ ok (map no_pairs, rest)
unfolding dispatch decode_map enc_map enc sort_entries write_entries
reads_empty_map l rest =
    open_head l 5 0 [] rest (omega arith) ∙ rw (argument-tail_bytes 0 rest (omega arith))

-- An array whose items are read.
reads_array :
    (a : Items) (levels : ℕ) (rest : Bytes)
    → count_items a < 2 ^ 64
    → array_items (value levels) (count_items a) (enc_items a ++ rest) ≡ ok (a, rest)
    → value (suc levels) ((write_head 4 (count_items a) ++ enc_items a) ++ rest)
      ≡ ok (array a, rest)
unfolding dispatch
reads_array a l rest small items =
    open_head l 4 (count_items a) (enc_items a) rest (omega arith)
    ∙ rw (argument-tail_bytes (count_items a) (enc_items a ++ rest) small, items)

-- One induction over values, items and pairs; each level of nesting takes one of `levels`.
mutual
  unfolding enc height array_items map_loop count_items count_pairs write_entries push_pairs

  reads_value : (v : Cv) → ReadsValue v
  reads_value v zero rest c h = absurd (omega (arith, height_pos v))
  reads_value (array a) (suc l) rest c h =
      reads_array a l rest c.0 (reads_items a l rest c.1 (omega arith))
  reads_value (map no_pairs) (suc l) rest c h = reads_empty_map l rest
  reads_value (map (pair k v fs)) (suc l) rest c h =
      decode_map_lem l (pair k v fs) _ rest c.1 c.0
        (reads_pairs (pair k v fs) l map_start rest c.1 c.2 (omega arith) (inl refl, inl refl))
        (map_result-ints (pair k v fs)) (omega arith)
  reads_value (text_map m) (suc l) rest c h =
      decode_map_lem l m _ rest c.2 c.1
        (reads_pairs m l map_start rest c.2 c.3 (omega arith) (reads_map_start m))
        (map_result-texts m c.0) c.0
  reads_value (u64 n) (suc l) rest c h = reads_u64 n l rest c
  reads_value (bytes b) (suc l) rest c h = reads_bytes b l rest c.0
  reads_value (text s) (suc l) rest c h = reads_text s l rest c
  reads_value (bool b) (suc l) rest c h = reads_bool b l rest

  reads_items : (vs : Items) → ReadsItems vs
  reads_items no_items l rest c h = refl
  reads_items (item v vs) l rest c h = rw (
    append_assoc (enc v) (enc_items vs) rest,
    reads_value v l (enc_items vs ++ rest) c.0 (omega arith),
    reads_items vs l rest c.1 (omega arith),
  )

  reads_pairs : {kind : KeyKind} (fs : Pairs kind) → ReadsPairs fs
  reads_pairs no_pairs l st rest a c h s = refl
  reads_pairs (pair k v fs) zero st rest a c h s = absurd (omega (arith, height_pos v))
  reads_pairs (pair {kind} k v fs) (suc l) st rest a c h s =
      rw
        (
          write_pair kind k (enc v) (write_entries (entries fs)) rest,
          map_entry_lem kind l st k v (enc v) (write_entries (entries fs) ++ rest) c.0 s
              (reads_value v (suc l) (write_entries (entries fs) ++ rest) c.1 (omega arith)),
        )
        (reads_pairs fs (suc l) _ rest a.1 c.2 (omega arith) (starts_on k v st fs a.0))

-- Every canonical value that is nested at most `max_nesting_depth` deep is decoded from its encoding.
pub decode-encode :
    (v : Cv) → IsCanonical v → height v ≤ max_nesting_depth + 1 → decode (encode v) ≡ ok v
unfolding decode encode
decode-encode v c h =
    let whole = reads_value v (max_nesting_depth + 1) [] c h in rw (rw append-nil at whole)
