-- ===== src/Cbor/Head.antt =====
-- Heads: what `write_head` of crates/kotva-core/src/cbor.rs writes, `argument` reads back, and
-- `argument` accepts nothing else.
use dmtap.Prelude.{
  ℕ, zero, suc, ◌+◌, ◌*◌, ◌%◌, ◌^◌, ◌<◌, ◌≡◌, refl, ap, ap₂, ◌∙◌, subst, bit_and, bit_or, Bool,
  true, ◌&&◌, Bytes, IsBytes, [], ◌∷◌, ◌++◌, length, ltb, leb, ◌==◌, if◌then◌else◌, arith,
  to_be_bytes, from_be_bytes, length-append, take-append, drop-append, length-take,
  take-append-drop, le→leb, ==_iff, length-to_be_bytes, from_be_bytes-to_be_bytes,
  to_be_bytes-from_be_bytes, from_be_bytes-lt, All-append_left,
}
use dmtap.Result.{ok, >>=-inverse}
use dmtap.Cbor.Encode.{write_head}
use dmtap.Cbor.Decode.{take_bytes, wide_argument, argument, byte, raise, pure}
use dmtap.Cbor.Value.{non_shortest_form}

-- `test` passes at each number under the bound.
passes : (ℕ → Bool) → ℕ → Bool
passes test zero = true
passes test (suc bound) = passes test bound && test bound

passes-lt :
    (test : ℕ → Bool) {k : ℕ} (bound : ℕ) → k < bound → passes test bound ≡ true → test k ≡ true
unfolding passes
passes-lt test zero below all = elim below [ ]
passes-lt test {k} (suc bound) below all = ground (arith, passes-lt test {k = k} bound)

or_table : passes (λ m. passes (λ a. bit_or (m * 2 ^ 5 % 2 ^ 8) a == m * 2 ^ 5 + a) 32) 8 ≡ true
unfolding passes
or_table = refl

or_head : (m a : ℕ) → m < 8 → a < 32 → bit_or (m * 2 ^ 5 % 2 ^ 8) a ≡ m * 2 ^ 5 + a
or_head m a hm ha = (==_iff _ _).0 (passes-lt _ 32 ha (passes-lt _ 8 hm or_table))

and_table : passes (λ b. bit_and b 0x1f == b % 32) 256 ≡ true
unfolding passes
and_table = refl

pub and_head : (b : ℕ) → b < 256 → bit_and b 0x1f ≡ b % 32
and_head b h = (==_iff _ _).0 (passes-lt _ 256 h and_table)

-- The additional information of the head of `arg`, and the bytes behind the head.
unfoldable pub info : ℕ → ℕ
info arg =
    if ltb arg 24
    then arg
    else if leb arg 0xff
    then 24
    else if leb arg 0xffff
    then 25
    else if leb arg 0xffff_ffff
    then 26
    else 27

unfoldable pub tail_bytes : ℕ → Bytes
tail_bytes arg =
    if ltb arg 24
    then []
    else if leb arg 0xff
    then arg ∷ []
    else if leb arg 0xffff
    then to_be_bytes 2 arg
    else if leb arg 0xffff_ffff
    then to_be_bytes 4 arg
    else to_be_bytes 8 arg

pub info-lt : (arg : ℕ) → info arg < 32
unfolding info
info-lt arg = ground arith

write_head_parts :
    (major arg : ℕ)
    → write_head major arg ≡ bit_or (major * 2 ^ 5 % 2 ^ 8) (info arg) ∷ tail_bytes arg
unfolding write_head info tail_bytes
write_head_parts major arg = ground arith

-- A head is one byte with the major type above the additional information, then the tail.
pub write_head_lem :
    (major arg : ℕ) → major < 8 → write_head major arg ≡ (major * 2 ^ 5 + info arg) ∷ tail_bytes arg
write_head_lem major arg h =
    write_head_parts major arg
    ∙ ap (λ b. b ∷ tail_bytes arg) (or_head major (info arg) h (info-lt arg))

pub take_bytes-append : (xs ys : Bytes) → take_bytes (length xs) (xs ++ ys) ≡ ok (xs, ys)
unfolding take_bytes
take_bytes-append xs ys = rw (
  le→leb (length xs) (length (xs ++ ys)) (omega (arith, length-append xs ys)),
  take-append xs ys,
  drop-append xs ys,
)

pub take_bytes-eq-ok :
    (n : ℕ) (bs xs rest : Bytes)
    → take_bytes n bs ≡ ok (xs, rest)
    → (bs ≡ xs ++ rest) × (length xs ≡ n)
unfolding take_bytes
take_bytes-eq-ok n bs xs rest h = ground (arith, take-append-drop n bs, length-take n bs)

wide_argument-append :
    (bs rest : Bytes) (shorter_max : ℕ)
    → shorter_max < from_be_bytes bs
    → wide_argument (length bs) shorter_max (bs ++ rest) ≡ ok (from_be_bytes bs, rest)
unfolding wide_argument
wide_argument-append bs rest shorter_max h = rw (take_bytes-append bs rest) (ground arith)

-- What follows a head is read back, and no more.
wide_argument-to_be_bytes :
    (width shorter_max arg : ℕ) (rest : Bytes)
    → arg < 256 ^ width
    → shorter_max < arg
    → wide_argument width shorter_max (to_be_bytes width arg ++ rest) ≡ ok (arg, rest)
wide_argument-to_be_bytes width shorter_max arg rest h above =
    let value : from_be_bytes (to_be_bytes width arg) ≡ arg =
      from_be_bytes-to_be_bytes width arg h in
    let len : length (to_be_bytes width arg) ≡ width = length-to_be_bytes width arg in
    rw (value, len) at
      (wide_argument-append (to_be_bytes width arg) rest shorter_max (rw value above))

pub argument-tail_bytes :
    (arg : ℕ) (rest : Bytes)
    → arg < 2 ^ 64
    → argument (info arg) (tail_bytes arg ++ rest) ≡ ok (arg, rest)
unfolding argument info tail_bytes byte
argument-tail_bytes arg rest h = ground (
  arith,
  wide_argument-to_be_bytes 2 0xff arg rest,
  wide_argument-to_be_bytes 4 0xffff arg rest,
  wide_argument-to_be_bytes 8 0xffff_ffff arg rest,
)

wide_value :
    (xs : Bytes) {mid rest : Bytes} (shorter_max : ℕ) {n : ℕ}
    → IsBytes xs
    → (if leb (from_be_bytes xs) shorter_max
          then raise non_shortest_form
          else pure (from_be_bytes xs))
        mid
      ≡ ok (n, rest)
    → (xs ≡ to_be_bytes (length xs) n) × (mid ≡ rest) × (shorter_max < n) × (n < 256 ^ length xs)
wide_value xs {mid} {rest} shorter_max {n} bytes h =
    let same : to_be_bytes (length xs) (from_be_bytes xs) ≡ xs =
      to_be_bytes-from_be_bytes xs bytes in
    let below : from_be_bytes xs < 256 ^ length xs = from_be_bytes-lt xs bytes in ground arith

wide_argument-eq-ok :
    (width shorter_max n : ℕ) (bs rest : Bytes)
    → IsBytes bs
    → wide_argument width shorter_max bs ≡ ok (n, rest)
    → (bs ≡ to_be_bytes width n ++ rest) × (shorter_max < n) × (n < 256 ^ width)
unfolding wide_argument
wide_argument-eq-ok width shorter_max n bs rest bytes h =
    let ((xs, mid), checked, taken) = >>=-inverse (take_bytes width bs) _ h in
    let (split, len) = take_bytes-eq-ok width bs xs mid taken in
    let (value, after, above, below) =
      wide_value xs shorter_max (All-append_left _ xs mid (subst IsBytes split bytes)) checked in
    (split ∙ ap₂ ◌++◌ (value ∙ ap (λ k. to_be_bytes k n) len) after, above, rw len at below)

pub argument-eq-ok :
    (ai n : ℕ) (bs rest : Bytes)
    → IsBytes bs
    → argument ai bs ≡ ok (n, rest)
    → (ai ≡ info n) × (bs ≡ tail_bytes n ++ rest) × (n < 2 ^ 64)
unfolding argument info tail_bytes byte
argument-eq-ok ai n bs rest bytes h = ground (
  arith,
  wide_argument-eq-ok 2 0xff n bs rest bytes,
  wide_argument-eq-ok 4 0xffff n bs rest bytes,
  wide_argument-eq-ok 8 0xffff_ffff n bs rest bytes,
)
