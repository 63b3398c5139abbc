-- ===== src/Mail/Text.antt =====
-- What crates/kotva-mail/src/pop3.rs and auth.rs use of Rust's strings: trimming and splitting at white space,
-- ASCII case, numbers read and printed, and the replies as text. A string is its UTF-8 bytes.
pub mod Laws
pub mod Lossy
use mathlib.Core.Option.{map as map_option}
use dmtap.Prelude.{
  ℕ, zero, suc, ◌+◌, ◌-◌, ◌*◌, ◌/◌, ◌%◌, ◌^◌, Bool, true, false, ◌&&◌, ◌||◌, Bytes, List, [], ◌∷◌,
  ◌++◌, Option, none, some, length, ltb, leb, ◌==◌, if◌then◌else◌,
}

abbrev between : ℕ → ℕ → ℕ → Bool
between lo hi b = leb lo b && leb b hi

-- `str::find` of a text: the offset of its first occurrence.
unfoldable pub starts_with : Bytes → Bytes → Bool
starts_with [] s = true
starts_with (p ∷ ps) [] = false
starts_with (p ∷ ps) (c ∷ cs) = p == c && starts_with ps cs

unfoldable pub find_text : Bytes → Bytes → Option ℕ
find_text pattern [] = if starts_with pattern [] then some 0 else none
find_text pattern (b ∷ bs) =
    let rest = map_option (λ i. suc i) (find_text pattern bs) in
    if starts_with pattern (b ∷ bs) then some 0 else rest

-- `str::find` of a character.
unfoldable pub find_byte : ℕ → Bytes → Option ℕ
find_byte c [] = none
find_byte c (b ∷ bs) =
    let rest = map_option (λ i. suc i) (find_byte c bs) in if b == c then some 0 else rest

-- The length of the white-space character at the front, `char::is_whitespace`, or 0: tab to carriage return,
-- space, U+0085, U+00A0, U+1680, U+2000 to U+200A, U+2028, U+2029, U+202F, U+205F and U+3000.
unfoldable pub white_length : Bytes → ℕ
white_length [] = 0
white_length (b ∷ []) = if between 9 13 b || b == 32 then 1 else 0
white_length (b ∷ c ∷ []) =
    if between 9 13 b || b == 32 then 1 else if b == 0xc2 && (c == 0x85 || c == 0xa0) then 2 else 0
white_length (b ∷ c ∷ d ∷ rest) =
    if between 9 13 b || b == 32
    then 1
    else if b == 0xc2 && (c == 0x85 || c == 0xa0)
    then 2
    else if b == 0xe1 && (c == 0x9a && d == 0x80)
    then 3
    else if b == 0xe2 && (c == 0x80 && (between 0x80 0x8a d || d == 0xa8 || d == 0xa9 || d == 0xaf))
    then 3
    else if b == 0xe2 && (c == 0x81 && d == 0x9f)
    then 3
    else if b == 0xe3 && (c == 0x80 && d == 0x80)
    then 3
    else 0

-- `trim_start`: what is `skip`ped are the other bytes of a white-space character.
unfoldable pub trim_start_from : ℕ → Bytes → Bytes
trim_start_from skip [] = []
trim_start_from (suc skip) (b ∷ bs) = trim_start_from skip bs
trim_start_from zero (b ∷ bs) = elim (white_length (b ∷ bs)) [
  | zero ↦ b ∷ bs
  | suc more ↦ trim_start_from more bs
]

-- `trim_end`: `held` is white space that is kept if something follows it.
unfoldable pub trim_end_from : ℕ → Bytes → Bytes → Bytes
trim_end_from skip held [] = []
trim_end_from (suc skip) held (b ∷ bs) = trim_end_from skip (held ++ b ∷ []) bs
trim_end_from zero held (b ∷ bs) = elim (white_length (b ∷ bs)) [
  | zero ↦ held ++ b ∷ trim_end_from zero [] bs
  | suc more ↦ trim_end_from more (held ++ b ∷ []) bs
]

unfoldable pub trim : Bytes → Bytes
trim s = trim_end_from 0 [] (trim_start_from 0 s)

unfoldable pub flush : Bytes → List Bytes → List Bytes
flush [] words = words
flush (b ∷ bs) words = (b ∷ bs) ∷ words

unfoldable pub words_from : ℕ → Bytes → Bytes → List Bytes
words_from skip word [] = flush word []
words_from (suc skip) word (b ∷ bs) = words_from skip word bs
words_from zero word (b ∷ bs) = elim (white_length (b ∷ bs)) [
  | zero ↦ words_from zero (word ++ b ∷ []) bs
  | suc more ↦ flush word (words_from more [] bs)
]

unfoldable pub split_whitespace : Bytes → List Bytes
split_whitespace s = words_from 0 [] s

-- `split_once(' ')`
unfoldable pub split_once_from : Bytes → Bytes → Option (Bytes × Bytes)
split_once_from before [] = none
split_once_from before (b ∷ bs) =
    if b == 32 then some (before, bs) else split_once_from (before ++ b ∷ []) bs

unfoldable pub split_once : Bytes → Option (Bytes × Bytes)
split_once s = split_once_from [] s

unfoldable pub to_ascii_uppercase : Bytes → Bytes
to_ascii_uppercase [] = []
to_ascii_uppercase (b ∷ bs) = (if between 97 122 b then b - 32 else b) ∷ to_ascii_uppercase bs

unfoldable pub to_ascii_lowercase : Bytes → Bytes
to_ascii_lowercase [] = []
to_ascii_lowercase (b ∷ bs) = (if between 65 90 b then b + 32 else b) ∷ to_ascii_lowercase bs

unfoldable pub digits_value : ℕ → Bytes → Option ℕ
digits_value acc [] = some acc
digits_value acc (b ∷ bs) =
    let rest = digits_value (acc * 10 + (b - 48)) bs in if between 48 57 b then rest else none

-- A number that does not fit 64 bits is an error.
unfoldable pub fitting : Option ℕ → Option ℕ
fitting none = none
fitting (some n) = if ltb n (2 ^ 64) then some n else none

unfoldable pub unsigned : Bytes → Option ℕ
unsigned [] = none
unsigned (b ∷ bs) = fitting (digits_value 0 (b ∷ bs))

-- `str::parse::<usize>` on 64 bits: a plus sign may stand in front.
unfoldable pub parse_usize : Bytes → Option ℕ
parse_usize [] = none
parse_usize (b ∷ bs) = if b == 43 then unsigned bs else unsigned (b ∷ bs)

-- The digits of `{n}` in front of `tail`; a number has at most as many digits as it counts.
unfoldable pub decimal_loop : ℕ → ℕ → Bytes → Bytes
decimal_loop zero n tail = tail
decimal_loop (suc fuel) n tail =
    let d = 48 + n % 10 in
    let more = decimal_loop fuel (n / 10) (d ∷ tail) in if ltb n 10 then d ∷ tail else more

unfoldable pub decimal : ℕ → Bytes
decimal n = decimal_loop (suc n) n []
