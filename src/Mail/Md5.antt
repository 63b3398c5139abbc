-- ===== src/Mail/Md5.antt =====
-- crates/kotva-mail/src/util.rs: MD5, for the APOP digest. A word is a number below 2 ^ 32.
use dmtap.Prelude.{
  ℕ, zero, suc, ◌+◌, ◌-◌, ◌*◌, ◌/◌, ◌%◌, ◌^◌, Bytes, List, [], ◌∷◌, ◌++◌, Option, none, some,
  bit_and, bit_or, bit_xor, length, take, drop, get_elem?, replicate, ltb, if◌then◌else◌,
}

abbrev shifts : List ℕ
shifts =
    7 ∷ 12 ∷ 17 ∷ 22 ∷ 7 ∷ 12 ∷ 17 ∷ 22 ∷ 7 ∷ 12 ∷ 17 ∷ 22 ∷ 7 ∷ 12 ∷ 17 ∷ 22 ∷ 5 ∷ 9 ∷ 14 ∷ 20 ∷ 5
    ∷ 9 ∷ 14 ∷ 20 ∷ 5 ∷ 9 ∷ 14 ∷ 20 ∷ 5 ∷ 9 ∷ 14 ∷ 20 ∷ 4 ∷ 11 ∷ 16 ∷ 23 ∷ 4 ∷ 11 ∷ 16 ∷ 23 ∷ 4 ∷ 11
    ∷ 16 ∷ 23 ∷ 4 ∷ 11 ∷ 16 ∷ 23 ∷ 6 ∷ 10 ∷ 15 ∷ 21 ∷ 6 ∷ 10 ∷ 15 ∷ 21 ∷ 6 ∷ 10 ∷ 15 ∷ 21 ∷ 6 ∷ 10
    ∷ 15 ∷ 21 ∷ []

abbrev sines : List ℕ
sines =
    0xd76aa478 ∷ 0xe8c7b756 ∷ 0x242070db ∷ 0xc1bdceee ∷ 0xf57c0faf ∷ 0x4787c62a ∷ 0xa8304613
    ∷ 0xfd469501 ∷ 0x698098d8 ∷ 0x8b44f7af ∷ 0xffff5bb1 ∷ 0x895cd7be ∷ 0x6b901122 ∷ 0xfd987193
    ∷ 0xa679438e ∷ 0x49b40821 ∷ 0xf61e2562 ∷ 0xc040b340 ∷ 0x265e5a51 ∷ 0xe9b6c7aa ∷ 0xd62f105d
    ∷ 0x02441453 ∷ 0xd8a1e681 ∷ 0xe7d3fbc8 ∷ 0x21e1cde6 ∷ 0xc33707d6 ∷ 0xf4d50d87 ∷ 0x455a14ed
    ∷ 0xa9e3e905 ∷ 0xfcefa3f8 ∷ 0x676f02d9 ∷ 0x8d2a4c8a ∷ 0xfffa3942 ∷ 0x8771f681 ∷ 0x6d9d6122
    ∷ 0xfde5380c ∷ 0xa4beea44 ∷ 0x4bdecfa9 ∷ 0xf6bb4b60 ∷ 0xbebfbc70 ∷ 0x289b7ec6 ∷ 0xeaa127fa
    ∷ 0xd4ef3085 ∷ 0x04881d05 ∷ 0xd9d4d039 ∷ 0xe6db99e5 ∷ 0x1fa27cf8 ∷ 0xc4ac5665 ∷ 0xf4292244
    ∷ 0x432aff97 ∷ 0xab9423a7 ∷ 0xfc93a039 ∷ 0x655b59c3 ∷ 0x8f0ccc92 ∷ 0xffeff47d ∷ 0x85845dd1
    ∷ 0x6fa87e4f ∷ 0xfe2ce6e0 ∷ 0xa3014314 ∷ 0x4e0811a1 ∷ 0xf7537e82 ∷ 0xbd3af235 ∷ 0x2ad7d2bb
    ∷ 0xeb86d391 ∷ []

unfoldable pub word_or : Option ℕ → ℕ
word_or none = 0
word_or (some w) = w

unfoldable pub at : List ℕ → ℕ → ℕ
at ws i = word_or (get_elem? ws i)

-- `!w`
unfoldable pub invert : ℕ → ℕ
invert w = 2 ^ 32 - 1 - w

unfoldable pub rotate_left : ℕ → ℕ → ℕ
rotate_left w n = w * 2 ^ n % 2 ^ 32 + w / 2 ^ (32 - n)

unfoldable pub to_le_bytes : ℕ → ℕ → Bytes
to_le_bytes zero v = []
to_le_bytes (suc k) v = v % 256 ∷ to_le_bytes k (v / 256)

-- The words of a chunk.
unfoldable pub le_words : Bytes → List ℕ
le_words (b0 ∷ b1 ∷ b2 ∷ b3 ∷ rest) = (b0 + b1 * 2 ^ 8 + b2 * 2 ^ 16 + b3 * 2 ^ 24) ∷ le_words rest
le_words _ = []

pub record Md5State : Type 0 where
  pub a : ℕ
  pub b : ℕ
  pub c : ℕ
  pub d : ℕ

unfoldable pub md5_start : Md5State
md5_start = record { a = 0x67452301; b = 0xefcdab89; c = 0x98badcfe; d = 0x10325476 }

-- `(f, g)` of round `i`
unfoldable pub mix : Md5State → ℕ → ℕ × ℕ
mix s i =
    if ltb i 16
    then (bit_or (bit_and s.b s.c) (bit_and (invert s.b) s.d), i)
    else if ltb i 32
    then (bit_or (bit_and s.d s.b) (bit_and (invert s.d) s.c), (5 * i + 1) % 16)
    else if ltb i 48
    then (bit_xor (bit_xor s.b s.c) s.d, (3 * i + 5) % 16)
    else (bit_xor s.c (bit_or s.b (invert s.d)), 7 * i % 16)

unfoldable pub md5_round : List ℕ → ℕ → Md5State → Md5State
md5_round m i s =
    let (f, g) = mix s i in
    let f' = (f + s.a + at sines i + at m g) % 2 ^ 32 in
    record { a = s.d; b = (s.b + rotate_left f' (at shifts i)) % 2 ^ 32; c = s.b; d = s.c }

-- The rounds from `i` on, `n` of them.
unfoldable pub md5_rounds : List ℕ → ℕ → ℕ → Md5State → Md5State
md5_rounds m i zero s = s
md5_rounds m i (suc n) s = md5_rounds m (suc i) n (md5_round m i s)

unfoldable pub md5_chunk : Bytes → Md5State → Md5State
md5_chunk chunk s =
    let t = md5_rounds (le_words chunk) 0 64 s in
    record {
      a = (s.a + t.a) % 2 ^ 32;
      b = (s.b + t.b) % 2 ^ 32;
      c = (s.c + t.c) % 2 ^ 32;
      d = (s.d + t.d) % 2 ^ 32;
    }

-- `chunks_exact(64)`; the length counts more chunks than there are.
unfoldable pub md5_loop : ℕ → Bytes → Md5State → Md5State
md5_loop zero msg s = s
md5_loop (suc fuel) msg s =
    let rest = md5_loop fuel (drop 64 msg) (md5_chunk (take 64 msg) s) in
    if ltb (length msg) 64 then s else rest

-- The byte 0x80, zeros up to 56 behind a multiple of 64, and the length in bits.
unfoldable pub padded : Bytes → Bytes
padded input =
    (input ++ 0x80 ∷ [])
    ++ replicate ((64 + 55 - length input % 64) % 64) 0
    ++ to_le_bytes 8 (length input * 8 % 2 ^ 64)

unfoldable pub digest_bytes : Md5State → Bytes
digest_bytes s = to_le_bytes 4 s.a ++ to_le_bytes 4 s.b ++ to_le_bytes 4 s.c ++ to_le_bytes 4 s.d

unfoldable pub md5 : Bytes → Bytes
md5 input = let msg = padded input in digest_bytes (md5_loop (length msg) msg md5_start)
