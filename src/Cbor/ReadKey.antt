-- ===== src/Cbor/ReadKey.antt =====
-- Reading heads and keys through `value` of crates/kotva-core/src/cbor.rs.
use dmtap.Prelude.{
  ℕ, suc, ◌+◌, ◌-◌, ◌*◌, ◌/◌, ◌^◌, ◌<◌, ◌≡◌, ◌∙◌, bit_and, Bytes, ◌++◌, append_assoc, length, arith,
  length-append, take-append,
}
use dmtap.Result.{ok}
use dmtap.Cbor.Value.{KeyKind, Key, int_keys, text_keys}
use dmtap.Cbor.Encode.{write_head, key_bytes}
use dmtap.Cbor.Decode.{byte, dispatch, value, read_key}
use dmtap.Cbor.Canonical.{key_cv, IsKey}
use dmtap.Cbor.Head.{
  info, tail_bytes, info-lt, and_head, write_head_lem, argument-tail_bytes, take_bytes-append,
}

-- A head is dispatched on its major type, with its argument still to be read.
pub value-write_head :
    (levels major arg : ℕ) (rest : Bytes)
    → major < 8
    → value (suc levels) (write_head major arg ++ rest)
      ≡ dispatch (value levels) major (info arg) (tail_bytes arg ++ rest)
unfolding value byte
value-write_head levels major arg rest h =
    let ib = major * 2 ^ 5 + info arg in
    let small : info arg < 32 = info-lt arg in
    let high : ib / 2 ^ 5 ≡ major = omega arith in
    let low : bit_and ib 0x1f ≡ info arg = and_head ib (omega arith) ∙ omega arith in
    rw (write_head_lem major arg h, high, low)

-- A key that fits the wire is read back from its bytes.
pub value-key_bytes :
    (kind : KeyKind) (levels : ℕ) (k : Key kind) (rest : Bytes)
    → IsKey kind k
    → value (suc levels) (key_bytes kind k ++ rest) ≡ ok (key_cv kind k, rest)
unfolding key_bytes dispatch
value-key_bytes int_keys levels k rest h =
    value-write_head levels 0 k rest (omega arith) ∙ rw (argument-tail_bytes k rest h)
value-key_bytes text_keys levels s rest (small, bytes, utf8) = rw append_assoc (
    value-write_head levels 3 (length s) (s ++ rest) (omega arith)
    ∙ rw (argument-tail_bytes (length s) (s ++ rest) small, take_bytes-append s rest, utf8))

-- The bytes that a key took are what stood in front of the rest.
pub read_key-key_bytes :
    (kind : KeyKind) (levels : ℕ) (k : Key kind) (rest : Bytes)
    → IsKey kind k
    → read_key (value (suc levels)) (key_bytes kind k ++ rest)
      ≡ ok ((key_cv kind k, key_bytes kind k), rest)
unfolding read_key
read_key-key_bytes kind levels k rest h =
    let consumed : length (key_bytes kind k ++ rest) - length rest ≡ length (key_bytes kind k) =
      omega (arith, length-append (key_bytes kind k) rest) in
    rw (value-key_bytes kind levels k rest h, consumed, take-append (key_bytes kind k) rest)
