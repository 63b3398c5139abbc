-- ===== src/Cbor/KeyOrder.antt =====
-- For integer keys the order of the encoded bytes that crates/kotva-core/src/cbor.rs sorts by is the
-- order of the numbers.
use dmtap.Prelude.{
  ℕ, zero, suc, ◌/◌, ◌%◌, ◌^◌, ◌<◌, ◌≡◌, ◌∙◌, Bytes, [], ◌∷◌, ◌++◌, compare, Ordering, length,
  arith, to_be_bytes, pow-suc, length-to_be_bytes,
}
use dmtap.Cbor.Value.{int_keys}
use dmtap.Cbor.Encode.{key_bytes, cmp_bytes}
use dmtap.Cbor.Head.{info, tail_bytes, write_head_lem}

abbrev and_then : Ordering → Ordering → Ordering
and_then Ordering.eq o = o
and_then Ordering.lt o = Ordering.lt
and_then Ordering.gt o = Ordering.gt

cmp_bytes-append :
    (xs ys : Bytes) (x y : ℕ)
    → length xs ≡ length ys
    → cmp_bytes (xs ++ x ∷ []) (ys ++ y ∷ []) ≡ and_then (cmp_bytes xs ys) (compare x y)
unfolding cmp_bytes
cmp_bytes-append [] [] x y h = ground arith
cmp_bytes-append [] (b ∷ ys) x y h = absurd (omega arith)
cmp_bytes-append (a ∷ xs) [] x y h = absurd (omega arith)
cmp_bytes-append (a ∷ xs) (b ∷ ys) x y h = ground (arith, cmp_bytes-append xs ys x y (omega arith))

cmp_bytes-to_be_bytes :
    (k a b : ℕ)
    → a < 256 ^ k
    → b < 256 ^ k
    → cmp_bytes (to_be_bytes k a) (to_be_bytes k b) ≡ compare a b
unfolding to_be_bytes cmp_bytes
cmp_bytes-to_be_bytes zero a b ha hb = ground arith
cmp_bytes-to_be_bytes (suc k) a b ha hb =
    cmp_bytes-append (to_be_bytes k (a / 256)) (to_be_bytes k (b / 256)) (a % 256) (b % 256)
      (omega (arith, length-to_be_bytes k (a / 256), length-to_be_bytes k (b / 256)))
    ∙ ground (
      arith,
      cmp_bytes-to_be_bytes k (a / 256) (b / 256) (omega (arith, pow-suc 256 k))
          (omega (arith, pow-suc 256 k)),
    )

-- Two integer keys that fit 64 bits compare by their encodings as by their values.
pub cmp_bytes-key_bytes :
    (a b : ℕ)
    → a < 2 ^ 64
    → b < 2 ^ 64
    → cmp_bytes (key_bytes int_keys a) (key_bytes int_keys b) ≡ compare a b
unfolding key_bytes cmp_bytes info tail_bytes
cmp_bytes-key_bytes a b ha hb =
    rw (write_head_lem 0 a (omega arith), write_head_lem 0 b (omega arith))
      (ground (
        arith,
        cmp_bytes-to_be_bytes 2 a b,
        cmp_bytes-to_be_bytes 4 a b,
        cmp_bytes-to_be_bytes 8 a b,
      ))
