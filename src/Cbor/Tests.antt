-- ===== src/Cbor/Tests.antt =====
-- Runs of the codec on the inputs of the source's tests. `run_encode` and `run_decode` are the codec
-- with all that it calls unfolded.
use dmtap.Prelude.{
  ◌≡◌, ◌≤◌, ◌+◌, ◌↔◌, refl, true, arith, Bytes, [], ◌∷◌, to_be_bytes, from_be_bytes, replicate,
  ◌++◌,
}
use dmtap.Result
use dmtap.Result.{Result, ok, err}
use dmtap.Cbor.Value.{
  Cv, u64, text, bool, array, map, no_items, item, no_pairs, pair, CborError, non_shortest_form,
  duplicate_key, map_key_order, trailing_data, float_present, malformed, count_items, count_pairs,
  push_pair, indefinite_length,
}
use dmtap.Cbor.Canonical.{IsCanonical, height}
use dmtap.Cbor.Sound.{decode-eq-ok_iff}
use dmtap.Cbor.Utf8.{is_utf8}
use dmtap.Cbor.Encode.{
  encode, enc_map, sort_entries, insert_entry, write_entries, cmp_bytes, key_bytes, write_head,
}
use dmtap.Cbor.Decode.{
  decode, value, dispatch, decode_map, map_loop, map_entry, add_entry, push_entry, map_result,
  check_key_order, read_key, array_items, simple, argument, wide_argument, take_bytes, byte,
  max_nesting_depth,
}

run_encode : Cv → Bytes
unfolding encode enc_map sort_entries insert_entry write_entries cmp_bytes key_bytes write_head
    count_items to_be_bytes
run_encode v = encode v

run_decode : Bytes → Result CborError Cv
unfolding decode value dispatch decode_map map_loop map_entry add_entry push_entry map_result
    push_pair check_key_order read_key array_items simple argument wide_argument take_bytes byte
    cmp_bytes is_utf8 from_be_bytes
run_decode bs = decode bs

abbrev sample : Cv
sample = map (
    pair 10 (u64 1)
      (pair 2 (text (0x68 ∷ 0x69 ∷ [])) (pair 24 (array (item (bool true) no_items)) no_pairs)))

abbrev sorted_sample : Cv
sorted_sample = map (
    pair 2 (text (0x68 ∷ 0x69 ∷ []))
      (pair 10 (u64 1) (pair 24 (array (item (bool true) no_items)) no_pairs)))

encode_sample :
    run_encode sample ≡ 0xa3 ∷ 2 ∷ 0x62 ∷ 0x68 ∷ 0x69 ∷ 10 ∷ 1 ∷ 0x18 ∷ 0x18 ∷ 0x81 ∷ 0xf5 ∷ []
unfolding run_encode
encode_sample = refl

decode_sample : run_decode (run_encode sample) ≡ ok sorted_sample
unfolding run_encode run_decode
decode_sample = refl

wide_integer : run_encode (u64 1_700_000_000_000) ≡ 0x1b ∷ to_be_bytes 8 1_700_000_000_000
unfolding run_encode
wide_integer = refl

rejects_non_shortest : run_decode (0x19 ∷ 0 ∷ 0xc8 ∷ []) ≡ err non_shortest_form
unfolding run_decode
rejects_non_shortest = refl

rejects_duplicate_key : run_decode (0xa2 ∷ 1 ∷ 0 ∷ 1 ∷ 1 ∷ []) ≡ err (duplicate_key 1)
unfolding run_decode
rejects_duplicate_key = refl

rejects_descending_keys : run_decode (0xa2 ∷ 2 ∷ 0 ∷ 1 ∷ 0 ∷ []) ≡ err map_key_order
unfolding run_decode
rejects_descending_keys = refl

rejects_trailing_data : run_decode (0 ∷ 0 ∷ []) ≡ err trailing_data
unfolding run_decode
rejects_trailing_data = refl

rejects_float : run_decode (0xf9 ∷ 0 ∷ 0 ∷ []) ≡ err float_present
unfolding run_decode
rejects_float = refl

rejects_indefinite_array : run_decode (0x9f ∷ 0xff ∷ []) ≡ err indefinite_length
unfolding run_decode
rejects_indefinite_array = refl

-- 66 nested arrays around a scalar are too deep; 64 are not.
rejects_deep_nesting : run_decode (replicate 66 0x81 ++ 0 ∷ []) ≡ err malformed
unfolding run_decode
rejects_deep_nesting = refl

accepts_nesting_at_the_bound :
    Result.map_ok run_encode (run_decode (replicate 64 0x81 ++ 0 ∷ []))
    ≡ ok (replicate 64 0x81 ++ 0 ∷ [])
unfolding run_encode run_decode
accepts_nesting_at_the_bound = refl

sorted_bytes : Bytes
unfolding run_encode
sorted_bytes = run_encode sorted_sample

sorted_sample-IsCanonical : IsCanonical sorted_sample
unfolding cmp_bytes key_bytes write_head count_items count_pairs is_utf8
sorted_sample-IsCanonical = (
  omega arith,
  (refl, (refl, (tt, tt))),
  (
    omega arith,
    (omega arith, omega arith, refl),
    (omega arith, omega arith, (omega arith, (omega arith, (tt, tt)), tt)),
  ),
)

sorted_sample-shallow : height sorted_sample ≤ max_nesting_depth + 1
unfolding height
sorted_sample-shallow = omega arith

abbrev wire : Bytes
wire = 0xa3 ∷ 2 ∷ 0x62 ∷ 0x68 ∷ 0x69 ∷ 10 ∷ 1 ∷ 0x18 ∷ 0x18 ∷ 0x81 ∷ 0xf5 ∷ []

decode-eq-ok_iff_example : (decode wire ≡ ok sorted_sample) ↔ (
    (wire ≡ encode sorted_sample)
    × IsCanonical sorted_sample
    × (height sorted_sample ≤ max_nesting_depth + 1))
decode-eq-ok_iff_example = decode-eq-ok_iff wire sorted_sample (omega arith)
