-- ===== src/Prelude/BigEndian.antt =====
-- Big-endian byte strings: `to_be_bytes` and `from_be_bytes` of Rust's unsigned integers.
use Prim.Native.Nat.{ℕ, zero, suc, ◌+◌, ◌*◌, ◌/◌, ◌%◌, ◌^◌, ◌≤◌, ◌<◌}
use mathlib.Core.Path.{◌≡◌, refl, ◌∙◌}
use mathlib.Core.List.{List, [], ◌∷◌, ◌++◌, append_assoc, append-nil}
use native.Mathlib.Omega.{arith}
use native.Mathlib.Nat.{pow-suc, add-zero, mul-le-mul_right}
use dmtap.Prelude.Lists.{length, All, length-append}

-- `v.to_be_bytes()` of an integer of `k` bytes
unfoldable pub to_be_bytes : ℕ → ℕ → List ℕ
to_be_bytes zero v = []
to_be_bytes (suc k) v = to_be_bytes k (v / 256) ++ (v % 256 ∷ [])

from_be_loop : ℕ → List ℕ → ℕ
from_be_loop acc [] = acc
from_be_loop acc (b ∷ bs) = from_be_loop (acc * 256 + b) bs

-- `uN::from_be_bytes`
unfoldable pub from_be_bytes : List ℕ → ℕ
unfolding from_be_loop
from_be_bytes bs = from_be_loop 0 bs

from_be_loop-append :
    (acc : ℕ) (xs ys : List ℕ) → from_be_loop acc (xs ++ ys) ≡ from_be_loop (from_be_loop acc xs) ys
unfolding from_be_loop
from_be_loop-append acc [] ys = refl
from_be_loop-append acc (x ∷ xs) ys = from_be_loop-append (acc * 256 + x) xs ys

pub length-to_be_bytes : (k v : ℕ) → length (to_be_bytes k v) ≡ k
unfolding to_be_bytes
length-to_be_bytes zero v = refl
length-to_be_bytes (suc k) v =
    omega (
      arith,
      length-append (to_be_bytes k (v / 256)) (v % 256 ∷ []),
      length-to_be_bytes k (v / 256),
    )

pub from_be_bytes-to_be_bytes : (k v : ℕ) → v < 256 ^ k → from_be_bytes (to_be_bytes k v) ≡ v
unfolding to_be_bytes from_be_bytes
from_be_bytes-to_be_bytes zero v h = omega arith
from_be_bytes-to_be_bytes (suc k) v h =
    from_be_loop-append 0 (to_be_bytes k (v / 256)) (v % 256 ∷ [])
    ∙ omega (arith, from_be_bytes-to_be_bytes k (v / 256) (omega (arith, pow-suc 256 k)))

to_be_bytes-append :
    (k acc b : ℕ) → b < 256 → to_be_bytes (suc k) (acc * 256 + b) ≡ to_be_bytes k acc ++ (b ∷ [])
unfolding to_be_bytes
to_be_bytes-append k acc b h =
    let low : (acc * 256 + b) % 256 ≡ b = omega arith in
    let high : (acc * 256 + b) / 256 ≡ acc = omega arith in rw (low, high)

to_be_bytes-from_be_loop :
    (k acc : ℕ) (bs : List ℕ)
    → All (λ b. b < 256) bs
    → to_be_bytes (k + length bs) (from_be_loop acc bs) ≡ to_be_bytes k acc ++ bs
unfolding from_be_loop
to_be_bytes-from_be_loop k acc [] h = rw (add-zero, append-nil)
to_be_bytes-from_be_loop k acc (b ∷ bs) h =
    let shift : k + suc (length bs) ≡ suc k + length bs = omega arith in
    rw shift (
      to_be_bytes-from_be_loop (suc k) (acc * 256 + b) bs h.1
      ∙ rw (to_be_bytes-append k acc b h.0, append_assoc))

-- Bytes read as a number are that number's bytes again.
pub to_be_bytes-from_be_bytes :
    (bs : List ℕ) → All (λ b. b < 256) bs → to_be_bytes (length bs) (from_be_bytes bs) ≡ bs
unfolding from_be_bytes to_be_bytes
to_be_bytes-from_be_bytes bs h =
    let zero_front : 0 + length bs ≡ length bs = omega arith in
    rw zero_front at (to_be_bytes-from_be_loop 0 0 bs h) ∙ refl

shift_lt : (r acc b p : ℕ) → b < 256 → r < (acc * 256 + b + 1) * p → r < (acc + 1) * (p * 256)
shift_lt r acc b p hb h =
    let room : (acc * 256 + b + 1) * p ≤ (acc + 1) * 256 * p =
      mul-le-mul_right p (omega (arith, hb)) in
    omega arith

from_be_loop-lt :
    (acc : ℕ) (bs : List ℕ)
    → All (λ b. b < 256) bs
    → from_be_loop acc bs < (acc + 1) * 256 ^ length bs
unfolding from_be_loop
from_be_loop-lt acc [] h = omega arith
from_be_loop-lt acc (b ∷ bs) h =
    rw (pow-suc 256 (length bs))
      (shift_lt _ acc b (256 ^ length bs) h.0 (from_be_loop-lt (acc * 256 + b) bs h.1))

pub from_be_bytes-lt : (bs : List ℕ) → All (λ b. b < 256) bs → from_be_bytes bs < 256 ^ length bs
unfolding from_be_bytes
from_be_bytes-lt bs h = omega (arith, from_be_loop-lt 0 bs h)
