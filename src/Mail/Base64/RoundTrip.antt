-- ===== src/Mail/Base64/RoundTrip.antt =====
-- `base64_decode` of crates/kotva-mail/src/util.rs reads back what `base64_encode` writes.
use mathlib.Core.Option.{map as map_option}
use dmtap.Prelude.{
  ℕ, zero, suc, ◌+◌, ◌-◌, ◌*◌, ◌/◌, ◌%◌, ◌^◌, ◌<◌, ◌≡◌, refl, ◌∙◌, Bool, true, false, ◌&&◌, Bytes,
  IsBytes, All, [], ◌∷◌, Option, none, some, arith, ltb, leb, ◌==◌, if◌then◌else◌, inl, inr,
  Bool-cases,
}
use dmtap.Mail.Text.Laws.{IsGraphic}
use dmtap.Mail.Base64.{
  letter, letter_or, b64_val, is_skipped, base64_loop, base64_encode, base64_decode, quad,
}

-- Whether `letter` gives a letter that is read back, for the numbers below `n`.
reads_back : ℕ → Bool
reads_back v = elim (b64_val (letter v)) [
  | none ↦ false
  | some w ↦
      if is_skipped (letter v) then false else w == v && (ltb 32 (letter v) && ltb (letter v) 127)
]

all_below : ℕ → Bool
all_below zero = true
all_below (suc n) = reads_back n && all_below n

all_64 : all_below 64 ≡ true
unfolding all_below reads_back b64_val letter letter_or is_skipped
all_64 = refl

all_below-reads_back : (n v : ℕ) → all_below n ≡ true → v < n → reads_back v ≡ true
unfolding all_below
all_below-reads_back zero v h lt = absurd (omega arith)
all_below-reads_back (suc n) v h lt = elim (Bool-cases (v == n)) [
  | inl e ↦ (let same : v ≡ n = ground arith in rw same (ground arith))
  | inr other ↦ all_below-reads_back n v (ground arith) (ground arith)
]

letter_lem :
    (v : ℕ)
    → v < 64
    → (b64_val (letter v) ≡ some v) × ((is_skipped (letter v) ≡ false) × IsGraphic (letter v))
unfolding reads_back
letter_lem v h = let back = all_below-reads_back 64 v all_64 h in ground arith

-- A letter is worth six bits.
base64_loop-letter :
    (bits nbits v : ℕ) (cs : Bytes)
    → v < 64
    → base64_loop bits nbits (letter v ∷ cs) ≡ (
        let bits' = bits * 64 % 2 ^ 32 + v in
        if leb 8 (nbits + 6)
        then map_option
            (λ out. bits' / 2 ^ (nbits + 6 - 8) % 256 ∷ out)
            (base64_loop bits' (nbits + 6 - 8) cs)
        else base64_loop bits' (nbits + 6) cs)
unfolding base64_loop
base64_loop-letter bits nbits v cs h = let found = letter_lem v h in rw (found.0, found.1.0) refl

pushes :
    (a b c : ℕ) (o : Option Bytes)
    → map_option (λ out. a ∷ out) (map_option (λ out. b ∷ out) (map_option (λ out. c ∷ out) o))
      ≡ map_option (λ out. a ∷ b ∷ c ∷ out) o
pushes a b c none = refl
pushes a b c (some out) = refl

-- Three bytes are worth four letters, whatever the upper bits of the accumulator are.
base64_loop-quad :
    (bits b0 b1 b2 : ℕ) (rest : Bytes)
    → b0 < 256
    → b1 < 256
    → b2 < 256
    → (bits' : ℕ) × (let n = b0 * 2 ^ 16 + b1 * 2 ^ 8 + b2 in
        base64_loop bits 0 (quad n (letter (n / 2 ^ 6 % 64)) (letter (n % 64)) rest)
        ≡ map_option (λ out. b0 ∷ b1 ∷ b2 ∷ out) (base64_loop bits' 0 rest))
unfolding quad
base64_loop-quad bits b0 b1 b2 rest h0 h1 h2 =
    let n : ℕ = b0 * 2 ^ 16 + b1 * 2 ^ 8 + b2 in
    let v0 : ℕ = n / 2 ^ 18 % 64 in
    let v1 : ℕ = n / 2 ^ 12 % 64 in
    let v2 : ℕ = n / 2 ^ 6 % 64 in
    let v3 : ℕ = n % 64 in
    let i1 : ℕ = bits * 64 % 2 ^ 32 + v0 in
    let i2 : ℕ = i1 * 64 % 2 ^ 32 + v1 in
    let i3 : ℕ = i2 * 64 % 2 ^ 32 + v2 in
    let i4 : ℕ = i3 * 64 % 2 ^ 32 + v3 in
    let first : i2 / 16 % 256 ≡ b0 = omega arith in
    let second : i3 / 4 % 256 ≡ b1 = omega arith in
    let third' : i4 / 1 % 256 ≡ b2 = omega arith in
    let t3 : Bytes = letter v3 ∷ rest in
    let t2 : Bytes = letter v2 ∷ t3 in
    let t1 : Bytes = letter v1 ∷ t2 in
    let f0 : base64_loop bits 0 (letter v0 ∷ t1) ≡ base64_loop i1 6 t1 =
      base64_loop-letter bits 0 v0 t1 (omega arith) in
    let f1 : base64_loop i1 6 t1 ≡ map_option (λ out. i2 / 16 % 256 ∷ out) (base64_loop i2 4 t2) =
      base64_loop-letter i1 6 v1 t2 (omega arith) in
    let f2 : base64_loop i2 4 t2 ≡ map_option (λ out. i3 / 4 % 256 ∷ out) (base64_loop i3 2 t3) =
      base64_loop-letter i2 4 v2 t3 (omega arith) in
    let f3 : base64_loop i3 2 t3 ≡ map_option (λ out. i4 / 1 % 256 ∷ out) (base64_loop i4 0 rest) =
      base64_loop-letter i3 2 v3 rest (omega arith) in
    (i4, f0 ∙ rw (f1, f2, f3, first, second, third') (pushes b0 b1 b2 (base64_loop i4 0 rest)))

base64_loop-pad :
    (bits nbits : ℕ) (cs : Bytes) → base64_loop bits nbits (b'=' ∷ cs) ≡ base64_loop bits nbits cs
unfolding base64_loop is_skipped
base64_loop-pad bits nbits cs = refl

base64_loop-nil : (bits nbits : ℕ) → base64_loop bits nbits [] ≡ some []
unfolding base64_loop
base64_loop-nil bits nbits = refl

base64_loop-encode :
    (bits : ℕ) (bs : Bytes) → IsBytes bs → base64_loop bits 0 (base64_encode bs) ≡ some bs
unfolding base64_encode quad
base64_loop-encode bits [] h = base64_loop-nil bits 0
base64_loop-encode bits (b0 ∷ []) h =
    let n : ℕ = b0 * 2 ^ 16 in
    let v0 : ℕ = n / 2 ^ 18 % 64 in
    let v1 : ℕ = n / 2 ^ 12 % 64 in
    let i1 : ℕ = bits * 64 % 2 ^ 32 + v0 in
    let i2 : ℕ = i1 * 64 % 2 ^ 32 + v1 in
    let first : i2 / 16 % 256 ≡ b0 = omega (arith, h.0) in
    let t2 : Bytes = b'=' ∷ b'=' ∷ [] in
    let f0 : base64_loop bits 0 (letter v0 ∷ letter v1 ∷ t2) ≡ base64_loop i1 6 (letter v1 ∷ t2) =
      base64_loop-letter bits 0 v0 (letter v1 ∷ t2) (omega arith) in
    let f1 : base64_loop i1 6 (letter v1 ∷ t2)
        ≡ map_option (λ out. i2 / 16 % 256 ∷ out) (base64_loop i2 4 t2) =
      base64_loop-letter i1 6 v1 t2 (omega arith) in
    f0
    ∙ rw
        (f1, first, base64_loop-pad i2 4 (b'=' ∷ []), base64_loop-pad i2 4 [], base64_loop-nil i2 4)
        refl
base64_loop-encode bits (b0 ∷ b1 ∷ []) (h0, h) =
    let n : ℕ = b0 * 2 ^ 16 + b1 * 2 ^ 8 in
    let v0 : ℕ = n / 2 ^ 18 % 64 in
    let v1 : ℕ = n / 2 ^ 12 % 64 in
    let v2 : ℕ = n / 2 ^ 6 % 64 in
    let i1 : ℕ = bits * 64 % 2 ^ 32 + v0 in
    let i2 : ℕ = i1 * 64 % 2 ^ 32 + v1 in
    let i3 : ℕ = i2 * 64 % 2 ^ 32 + v2 in
    let first : i2 / 16 % 256 ≡ b0 = omega (arith, h.0) in
    let second : i3 / 4 % 256 ≡ b1 = omega (arith, h.0) in
    let t3 : Bytes = b'=' ∷ [] in
    let t2 : Bytes = letter v2 ∷ t3 in
    let f0 : base64_loop bits 0 (letter v0 ∷ letter v1 ∷ t2) ≡ base64_loop i1 6 (letter v1 ∷ t2) =
      base64_loop-letter bits 0 v0 (letter v1 ∷ t2) (omega arith) in
    let f1 : base64_loop i1 6 (letter v1 ∷ t2)
        ≡ map_option (λ out. i2 / 16 % 256 ∷ out) (base64_loop i2 4 t2) =
      base64_loop-letter i1 6 v1 t2 (omega arith) in
    let f2 : base64_loop i2 4 t2 ≡ map_option (λ out. i3 / 4 % 256 ∷ out) (base64_loop i3 2 t3) =
      base64_loop-letter i2 4 v2 t3 (omega arith) in
    f0 ∙ rw (f1, f2, first, second, base64_loop-pad i3 2 [], base64_loop-nil i3 2) refl
base64_loop-encode bits (b0 ∷ b1 ∷ b2 ∷ rest) (h0, (h1, (h2, h))) =
    let (bits', e) = base64_loop-quad bits b0 b1 b2 (base64_encode rest) h0 h1 h2 in
    e ∙ rw (base64_loop-encode bits' rest h) refl

-- Every string of bytes is decoded from its encoding.
pub base64_decode-base64_encode :
    (bs : Bytes) → IsBytes bs → base64_decode (base64_encode bs) ≡ some bs
unfolding base64_decode
base64_decode-base64_encode bs h = base64_loop-encode 0 bs h

letter-IsGraphic : (v : ℕ) → v < 64 → IsGraphic (letter v)
letter-IsGraphic v h = (letter_lem v h).1.1

pub base64_encode-IsGraphic : (bs : Bytes) → IsBytes bs → All IsGraphic (base64_encode bs)
unfolding base64_encode quad
base64_encode-IsGraphic [] h = tt
base64_encode-IsGraphic (b0 ∷ []) h = (
  letter-IsGraphic _ (omega arith),
  (letter-IsGraphic _ (omega arith), (omega arith, (omega arith, tt))),
)
base64_encode-IsGraphic (b0 ∷ b1 ∷ []) h = (
  letter-IsGraphic _ (omega arith),
  (letter-IsGraphic _ (omega arith), (letter-IsGraphic _ (omega arith), (omega arith, tt))),
)
base64_encode-IsGraphic (b0 ∷ b1 ∷ b2 ∷ rest) (h0, (h1, (h2, h))) = (
  letter-IsGraphic _ (omega arith),
  (
    letter-IsGraphic _ (omega arith),
    (
      letter-IsGraphic _ (omega arith),
      (letter-IsGraphic _ (omega arith), base64_encode-IsGraphic rest h),
    ),
  ),
)
