-- ===== src/Kt/Merkle/Fold.antt =====
-- The loop of `fold_inclusion` in crates/kotva-core/src/kt.rs, on the digests of the path.
use dmtap.Prelude.{
  ℕ, zero, suc, ◌+◌, ◌*◌, ◌/◌, ◌%◌, ◌^◌, ◌<◌, ◌≡◌, ◌≢◌, refl, ap, ◌∙◌, true, false, Bytes, List, [],
  ◌∷◌, ◌++◌, Option, none, some, length, All, ◌==◌, arith, map, pow-suc,
}
use mathlib.Core.Option.{some-injective}
use native.Mathlib.Nat.{le-mul_of_pos_right}
use dmtap.Kt.Merkle.{
  digest_of, digest32, as_content_id, FoldState, skip_levels, node, fold_step, fold_path,
}
use dmtap.Kt.Merkle.Split.{le-pow}

abbrev pub IsDigest : Bytes → Type 0
IsDigest d = length d ≡ 32

pub digest32-as_content_id : (d : Bytes) → IsDigest d → digest32 (as_content_id d) ≡ some d
unfolding digest32 digest_of as_content_id
digest32-as_content_id d h = ground arith

abbrev pub state : ℕ → ℕ → Bytes → FoldState
state node_idx last_idx r = record { node_idx = node_idx; last_idx = last_idx; r = r }

skip_levels-stop : (fuel n l : ℕ) → n / 2 % 2 ≡ 1 → skip_levels (suc fuel) (n, l) ≡ (n / 2, l / 2)
unfolding skip_levels
skip_levels-stop fuel n l h = let odd : (n / 2 % 2 == 1) ≡ true = ground arith in rw odd

skip_levels-go :
    (fuel n l : ℕ)
    → n / 2 % 2 ≡ 0
    → 0 < n / 2
    → skip_levels (suc fuel) (n, l) ≡ skip_levels fuel (n / 2, l / 2)
unfolding skip_levels
skip_levels-go fuel n l h pos =
    let even : (n / 2 % 2 == 1) ≡ false = ground arith in
    let more : (n / 2 == 0) ≡ false = ground arith in rw (even, more)

odd_shift-suc : (q s : ℕ) → (2 * q + 1) * 2 ^ suc s ≡ (2 * q + 1) * 2 ^ s * 2
odd_shift-suc q s = omega (arith, ap (λ (t : ℕ). (2 * q + 1) * t) (pow-suc 2 s))

pub odd_shift_lt : (q s : ℕ) → s < (2 * q + 1) * 2 ^ s
odd_shift_lt q s =
    omega (arith, le-pow s, le-mul_of_pos_right {m = 2 * q + 1} (2 ^ s) (omega arith))

-- Halving an odd number times a power of two stops at the odd number.
skip_levels-odd :
    (s fuel q : ℕ)
    → s < fuel
    → skip_levels fuel ((2 * q + 1) * 2 ^ suc s, (2 * q + 1) * 2 ^ suc s) ≡ (2 * q + 1, 2 * q + 1)
skip_levels-odd s zero q h = absurd (omega arith)
skip_levels-odd zero (suc fuel) q h =
    let half : (2 * q + 1) * 2 ^ 1 / 2 ≡ 2 * q + 1 = omega arith in
    rw half at (skip_levels-stop fuel ((2 * q + 1) * 2 ^ 1) ((2 * q + 1) * 2 ^ 1) (omega arith))
skip_levels-odd (suc s) (suc fuel) q h =
    let n = (2 * q + 1) * 2 ^ suc (suc s) in
    let double : n ≡ (2 * q + 1) * 2 ^ suc s * 2 = odd_shift-suc q (suc s) in
    let half : n / 2 ≡ (2 * q + 1) * 2 ^ suc s = omega arith in
    let even : n / 2 % 2 ≡ 0 = omega (arith, odd_shift-suc q s) in
    let pos : 0 < n / 2 = omega (arith, odd_shift_lt q (suc s)) in
    skip_levels-go fuel n n even pos ∙ rw half (skip_levels-odd s fuel q (omega arith))

module _ (blake3 : Bytes → Bytes) where
  -- The loop over the digests themselves.
  unfoldable pub run : FoldState → List Bytes → Option FoldState
  run st [] = some st
  run st (d ∷ ds) =
      let rest = run (fold_step blake3 st d) ds in
      elim (st.last_idx == 0) [ true ↦ none | false ↦ rest ]

  pub fold_path-map :
      (st : FoldState) (ds : List Bytes)
      → All IsDigest ds
      → fold_path blake3 st (map as_content_id ds) ≡ run st ds
  unfolding fold_path run
  fold_path-map st [] h = refl
  fold_path-map st (d ∷ ds) h =
      rw (fold_path, digest32-as_content_id d h.0)
        (ap (λ o. elim (st.last_idx == 0) [ true ↦ none | false ↦ o ])
          (fold_path-map (fold_step blake3 st d) ds h.1))

  pub run-snoc :
      (st mid : FoldState) (ds : List Bytes) (d : Bytes)
      → run st ds ≡ some mid
      → 0 < mid.last_idx
      → run st (ds ++ d ∷ []) ≡ some (fold_step blake3 mid d)
  unfolding run
  run-snoc st mid [] d h pos =
      let same : st ≡ mid = some-injective st mid h in
      let pos_st : 0 < st.last_idx = rw same pos in
      let more : (st.last_idx == 0) ≡ false = ground arith in
      rw (run, more) (ap (λ (s : FoldState). some (fold_step blake3 s d)) same)
  run-snoc st mid (e ∷ ds) d h pos = ground (arith, run-snoc (fold_step blake3 st e) mid ds d)

  step-even :
      (n l : ℕ) (a d : Bytes)
      → n % 2 ≡ 0
      → n ≢ l
      → fold_step blake3 (state n l a) d ≡ state (n / 2) (l / 2) (node blake3 a d)
  unfolding fold_step
  step-even n l a d h h' =
      let even : (n % 2 == 1) ≡ false = ground arith in
      let inner : (n == l) ≡ false = ground arith in rw (even, inner)

  step-odd :
      (n l : ℕ) (a d : Bytes)
      → n % 2 ≡ 1
      → fold_step blake3 (state n l a) d ≡ state (n / 2) (l / 2) (node blake3 d a)
  unfolding fold_step
  step-odd n l a d h = let odd : (n % 2 == 1) ≡ true = ground arith in rw odd

  step-last :
      (n p l : ℕ) (a d : Bytes)
      → n % 2 ≡ 0
      → skip_levels n (n, n) ≡ (p, l)
      → fold_step blake3 (state n n a) d ≡ state (p / 2) (l / 2) (node blake3 d a)
  unfolding fold_step
  step-last n p l a d h e =
      let even : (n % 2 == 1) ≡ false = ground arith in
      let last : (n == n) ≡ true = ground arith in rw (even, last, e)

  -- A sibling on the right.
  pub step-left :
      (q l : ℕ) (a d : Bytes)
      → 2 * q < l
      → fold_step blake3 (state (2 * q) l a) d ≡ state q (l / 2) (node blake3 a d)
  step-left q l a d h =
      let half : 2 * q / 2 ≡ q = omega arith in
      rw half at (step-even (2 * q) l a d (omega arith) (λ e. omega arith))

  -- A sibling on the left of a node at an odd place.
  pub step-right :
      (q l : ℕ) (a d : Bytes)
      → fold_step blake3 (state (2 * q + 1) l a) d ≡ state q (l / 2) (node blake3 d a)
  step-right q l a d =
      let half : (2 * q + 1) / 2 ≡ q = omega arith in
      rw half at (step-odd (2 * q + 1) l a d (omega arith))

  -- A sibling on the left of the last node, which stands for a subtree of fewer levels.
  pub step-edge :
      (q s : ℕ) (a d : Bytes)
      → fold_step blake3 (state ((2 * q + 1) * 2 ^ s) ((2 * q + 1) * 2 ^ s) a) d
        ≡ state q q (node blake3 d a)
  step-edge q zero a d =
      let one : (2 * q + 1) * 2 ^ 0 ≡ 2 * q + 1 = omega arith in
      let half : (2 * q + 1) / 2 ≡ q = omega arith in
      rw one (rw half at (step-right q (2 * q + 1) a d))
  step-edge q (suc s) a d =
      let n = (2 * q + 1) * 2 ^ suc s in
      let half : (2 * q + 1) / 2 ≡ q = omega arith in
      let enough : s < n = omega (arith, odd_shift_lt q (suc s)) in
      rw half at (
        step-last n (2 * q + 1) (2 * q + 1) a d (omega (arith, odd_shift-suc q s))
          (skip_levels-odd s n q enough))
