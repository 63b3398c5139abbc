-- ===== src/Mail/Base64.antt =====
-- crates/kotva-mail/src/util.rs: base64 and hexadecimal digits.
pub mod RoundTrip
use dmtap.Prelude.{
  ℕ, zero, suc, ◌+◌, ◌-◌, ◌*◌, ◌/◌, ◌%◌, ◌^◌, Bool, true, false, ◌&&◌, ◌||◌, Bytes, List, [], ◌∷◌,
  ◌++◌, Option, none, some, ascii, get_elem?, ltb, leb, ◌==◌, if◌then◌else◌,
}
use mathlib.Core.Option.{map as map_option}

abbrev pub b64 : Bytes
b64 = ascii "ABCDEFGHIJKLMNOPQRSTUVWXYZabcdefghijklmnopqrstuvwxyz0123456789+/"

unfoldable pub letter_or : Option ℕ → ℕ
letter_or none = 0
letter_or (some c) = c

-- `B64[v]`, for an index below 64.
unfoldable pub letter : ℕ → ℕ
letter v = letter_or (get_elem? b64 v)

-- The letters of a chunk, of which the number is `n`: the first two, and what stands behind them.
unfoldable pub quad : ℕ → ℕ → ℕ → Bytes → Bytes
quad n third fourth rest =
    letter (n / 2 ^ 18 % 64) ∷ letter (n / 2 ^ 12 % 64) ∷ third ∷ fourth ∷ rest

-- A byte that is missing in the last chunk counts as 0, and its letter is `=`.
unfoldable pub base64_encode : Bytes → Bytes
base64_encode [] = []
base64_encode (b0 ∷ []) = quad (b0 * 2 ^ 16) b'=' b'=' []
base64_encode (b0 ∷ b1 ∷ []) =
    let n = b0 * 2 ^ 16 + b1 * 2 ^ 8 in quad n (letter (n / 2 ^ 6 % 64)) b'=' []
base64_encode (b0 ∷ b1 ∷ b2 ∷ rest) =
    let n = b0 * 2 ^ 16 + b1 * 2 ^ 8 + b2 in
    quad n (letter (n / 2 ^ 6 % 64)) (letter (n % 64)) (base64_encode rest)

unfoldable pub b64_val : ℕ → Option ℕ
b64_val c =
    if leb b'A' c && leb c b'Z'
    then some (c - b'A')
    else if leb b'a' c && leb c b'z'
    then some (c - b'a' + 26)
    else if leb b'0' c && leb c b'9'
    then some (c - b'0' + 52)
    else if c == b'+'
    then some 62
    else if c == b'/'
    then some 63
    else none

-- `c == b'=' || c.is_ascii_whitespace()`
unfoldable pub is_skipped : ℕ → Bool
is_skipped c = c == b'=' || c == 32 || c == 9 || c == 10 || c == 12 || c == 13

-- `bits` is a `u32`, whose upper bits shift out; `nbits` of its bits are not written yet.
unfoldable pub base64_loop : ℕ → ℕ → Bytes → Option Bytes
base64_loop bits nbits [] = some []
base64_loop bits nbits (c ∷ cs) =
    let skipped = base64_loop bits nbits cs in
    let value = b64_val c in
    if is_skipped c then skipped else (elim value [
      | none ↦ none
      | some v ↦
          (let bits' = bits * 64 % 2 ^ 32 + v in
            let more = base64_loop bits' (nbits + 6) cs in
            let rest = base64_loop bits' (nbits + 6 - 8) cs in
            if leb 8 (nbits + 6)
            then map_option (λ out. bits' / 2 ^ (nbits + 6 - 8) % 256 ∷ out) rest
            else more)
    ])

unfoldable pub base64_decode : Bytes → Option Bytes
base64_decode input = base64_loop 0 0 input

unfoldable pub hex_digit : ℕ → ℕ
hex_digit d = if ltb d 10 then b'0' + d else b'a' + (d - 10)

unfoldable pub hex : Bytes → Bytes
hex [] = []
hex (b ∷ bs) = hex_digit (b / 16) ∷ hex_digit (b % 16) ∷ hex bs
