-- ===== src/Mail/Text/Laws.antt =====
-- What the string functions of Mail/Text leave as it is, and the numbers they read and print.
use dmtap.Prelude.{
  ℕ, zero, suc, ◌+◌, ◌-◌, ◌*◌, ◌/◌, ◌%◌, ◌^◌, ◌<◌, ◌≡◌, ◌≢◌, inl, inr, Bool-cases, refl, ap, ◌∙◌,
  true, false, ◌&&◌, Bytes, [], ◌∷◌, some, All, arith, ltb, leb, ◌==◌,
}
use dmtap.Mail.Text.{
  white_length, trim_start_from, trim_end_from, trim, digits_value, fitting, unsigned, parse_usize,
  decimal_loop, decimal,
}

-- A visible ASCII character.
abbrev pub IsGraphic : ℕ → Type 0
IsGraphic b = (32 < b) × (b < 127)

white_length-IsGraphic : (b : ℕ) (bs : Bytes) → IsGraphic b → white_length (b ∷ bs) ≡ 0
unfolding white_length
white_length-IsGraphic b [] h = ground arith
white_length-IsGraphic b (c ∷ []) h = ground arith
white_length-IsGraphic b (c ∷ d ∷ rest) h = ground arith

trim_end-IsGraphic : (s : Bytes) → All IsGraphic s → trim_end_from 0 [] s ≡ s
unfolding trim_end_from
trim_end-IsGraphic [] h = refl
trim_end-IsGraphic (b ∷ bs) h =
    rw (trim_end_from, white_length-IsGraphic b bs h.0)
      (ap (λ t. b ∷ t) (trim_end-IsGraphic bs h.1))

trim_start-IsGraphic : (s : Bytes) → All IsGraphic s → trim_start_from 0 s ≡ s
unfolding trim_start_from
trim_start-IsGraphic [] h = refl
trim_start-IsGraphic (b ∷ bs) h = rw (trim_start_from, white_length-IsGraphic b bs h.0) refl

pub trim-IsGraphic : (s : Bytes) → All IsGraphic s → trim s ≡ s
unfolding trim
trim-IsGraphic s h = rw (trim_start-IsGraphic s h) (trim_end-IsGraphic s h)

-- A decimal digit.
abbrev pub IsDigit : ℕ → Type 0
IsDigit b = (47 < b) × (b < 58)

IsDigit-IsGraphic : (s : Bytes) → All IsDigit s → All IsGraphic s
IsDigit-IsGraphic [] h = tt
IsDigit-IsGraphic (b ∷ bs) h = (omega (arith, h.0), IsDigit-IsGraphic bs h.1)

digits_value-decimal_loop :
    (fuel n : ℕ) (tail : Bytes)
    → n < fuel
    → digits_value 0 (decimal_loop fuel n tail) ≡ digits_value n tail
unfolding digits_value decimal_loop
digits_value-decimal_loop zero n tail h = absurd (omega arith)
digits_value-decimal_loop (suc fuel) n tail h = elim (Bool-cases (ltb n 10)) [
  | inl e ↦
      (let one : 0 * 10 + (48 + n % 10 - 48) ≡ n = ground arith in
        let is_digit : (leb 48 (48 + n % 10) && leb (48 + n % 10) 57) ≡ true = ground arith in
        rw e (rw (is_digit, one) refl))
  | inr e ↦
      (let more = digits_value-decimal_loop fuel (n / 10) ((48 + n % 10) ∷ tail) (ground arith) in
        let one : n / 10 * 10 + (48 + n % 10 - 48) ≡ n = omega arith in
        let is_digit : (leb 48 (48 + n % 10) && leb (48 + n % 10) 57) ≡ true = ground arith in
        rw e (more ∙ rw (digits_value, is_digit, one) refl))
]

decimal_loop-IsDigit :
    (fuel n : ℕ) (tail : Bytes) → All IsDigit tail → All IsDigit (decimal_loop fuel n tail)
unfolding decimal_loop
decimal_loop-IsDigit zero n tail h = h
decimal_loop-IsDigit (suc fuel) n tail h =
    let d : IsDigit (48 + n % 10) = omega arith in
    elim (Bool-cases (ltb n 10)) [
      | inl e ↦ rw e (d, h)
      | inr e ↦ rw e (decimal_loop-IsDigit fuel (n / 10) ((48 + n % 10) ∷ tail) (d, h))
    ]

decimal_loop_filled : (fuel n d : ℕ) (tail : Bytes) → decimal_loop fuel n (d ∷ tail) ≢ []
unfolding decimal_loop
decimal_loop_filled zero n d tail = λ e. cc
decimal_loop_filled (suc fuel) n d tail =
    ground (arith, decimal_loop_filled fuel (n / 10) (48 + n % 10) (d ∷ tail))

pub decimal_filled : (n : ℕ) → decimal n ≢ []
unfolding decimal decimal_loop
decimal_filled n = ground (arith, decimal_loop_filled n (n / 10) (48 + n % 10) [])

unsigned-digits :
    (s : Bytes) (n : ℕ)
    → All IsDigit s
    → digits_value 0 s ≡ some n
    → s ≢ []
    → n < 2 ^ 64
    → parse_usize s ≡ some n
unfolding parse_usize unsigned fitting
unsigned-digits [] n h e filled bound = absurd (filled refl)
unsigned-digits (b ∷ bs) n h e filled bound =
    let no_plus : (b == 43) ≡ false = ground arith in
    let fits : ltb n (2 ^ 64) ≡ true = ground arith in
    rw (parse_usize, no_plus, unsigned, e, fitting, fits) refl

pub decimal-IsDigit : (n : ℕ) → All IsDigit (decimal n)
unfolding decimal
decimal-IsDigit n = decimal_loop-IsDigit (suc n) n [] tt

pub trim-decimal : (n : ℕ) → trim (decimal n) ≡ decimal n
trim-decimal n = trim-IsGraphic (decimal n) (IsDigit-IsGraphic (decimal n) (decimal-IsDigit n))

-- A number is read back from its decimal digits, if it fits 64 bits.
pub parse_usize-decimal : (n : ℕ) → n < 2 ^ 64 → parse_usize (trim (decimal n)) ≡ some n
unfolding decimal digits_value
parse_usize-decimal n h =
    let digits = decimal_loop-IsDigit (suc n) n [] tt in
    let value = digits_value-decimal_loop (suc n) n [] (omega arith) in
    rw (trim-IsGraphic (decimal n) (IsDigit-IsGraphic (decimal n) digits))
      (unsigned-digits (decimal n) n digits value (decimal_filled n) h)
