-- ===== src/Kt/Merkle/Split.antt =====
-- The split point of crates/kotva-core/src/kt.rs, and the recursions over it without their fuel.
use dmtap.Prelude.{
  ℕ, zero, suc, ◌+◌, ◌-◌, ◌*◌, ◌^◌, ◌<◌, ◌≤◌, ◌≡◌, refl, ap, ap₂, Bytes, List, [], ◌∷◌, ◌++◌,
  length, take, drop, ltb, if◌then◌else◌, arith, length-take, length-drop, pow-suc, lt→ltb, le→ltb,
}
use native.Mathlib.Nat.{le-mul_of_pos_right}
use dmtap.Kt.Merkle.{split_loop, split_point, node, mth_loop, mth, audit_loop, audit_path}

split_loop_bounds :
    (fuel k n : ℕ) → 0 < k → k < n → (0 < split_loop fuel k n) × (split_loop fuel k n < n)
unfolding split_loop
split_loop_bounds zero k n pos h = (pos, h)
split_loop_bounds (suc fuel) k n pos h = ground (arith, split_loop_bounds fuel (k * 2) n)

-- Both parts of a split are shorter than the whole and not empty.
pub split_point_bounds : (n : ℕ) → 1 < n → (0 < split_point n) × (split_point n < n)
unfolding split_point
split_point_bounds n h = split_loop_bounds n 1 n (omega arith) h

split_loop-stop : (spare k n : ℕ) → n ≤ k * 2 → split_loop spare k n ≡ k
unfolding split_loop
split_loop-stop zero k n h = refl
split_loop-stop (suc spare) k n h = rw (le→ltb (k * 2) n h)

pub le-pow : (j : ℕ) → j < 2 ^ j
le-pow zero = omega arith
le-pow (suc j) = omega (arith, le-pow j, pow-suc 2 j)

split_loop-go :
    (spare k n : ℕ) → k * 2 < n → split_loop (suc spare) k n ≡ split_loop spare (k * 2) n
unfolding split_loop
split_loop-go spare k n h = rw (lt→ltb (k * 2) n h)

-- Doubling reaches `p`, the greatest of its kind below `n`.
split_loop-reach :
    (steps spare k p n : ℕ)
    → k * 2 ^ steps ≡ p
    → p < n
    → n ≤ p * 2
    → split_loop (steps + spare) k n ≡ p
split_loop-reach zero spare k p n e above below =
    let same : k ≡ p = omega arith in
    let fuel : 0 + spare ≡ spare = omega arith in rw (fuel, same) (split_loop-stop spare p n below)
split_loop-reach (suc steps) spare k p n e above below =
    let pos = le-pow steps in
    let next : k * 2 * 2 ^ steps ≡ p = omega (arith, ap (λ (t : ℕ). k * t) (pow-suc 2 steps)) in
    let grows : k * 2 ≤ k * 2 * 2 ^ steps = le-mul_of_pos_right (k * 2) (omega arith) in
    let fuel : suc steps + spare ≡ suc (steps + spare) = omega arith in
    rw (fuel, split_loop-go (steps + spare) k n (omega arith))
      (split_loop-reach steps spare (k * 2) p n next above below)

-- The split point is the greatest power of two below the size.
pub split_point-pow : (j n : ℕ) → 2 ^ j < n → n ≤ 2 ^ suc j → split_point n ≡ 2 ^ j
unfolding split_point
split_point-pow j n above below =
    let fuel : j + (n - j) ≡ n = omega (arith, le-pow j) in
    rw fuel at
      (split_loop-reach j (n - j) 1 (2 ^ j) n (omega arith) above (omega (arith, pow-suc 2 j)))

module _ (blake3 : Bytes → Bytes) where
  abbrev k_of : List Bytes → ℕ
  k_of leaves = split_point (length leaves)

  mth_loop-eq :
      (f g : ℕ) (leaves : List Bytes)
      → length leaves ≤ f
      → length leaves ≤ g
      → mth_loop blake3 f leaves ≡ mth_loop blake3 g leaves
  unfolding mth_loop
  mth_loop-eq zero zero leaves hf hg = refl
  mth_loop-eq zero (suc g) [] hf hg = refl
  mth_loop-eq zero (suc g) (x ∷ l) hf hg = absurd (omega arith)
  mth_loop-eq (suc f) zero [] hf hg = refl
  mth_loop-eq (suc f) zero (x ∷ l) hf hg = absurd (omega arith)
  mth_loop-eq (suc f) (suc g) [] hf hg = refl
  mth_loop-eq (suc f) (suc g) (x ∷ []) hf hg = refl
  mth_loop-eq (suc f) (suc g) (x ∷ y ∷ rest) hf hg =
      let leaves = x ∷ y ∷ rest in
      let k = k_of leaves in
      let (pos, small) = split_point_bounds (length leaves) (omega arith) in
      let left : length (take k leaves) ≡ k = length-take k leaves (omega arith) in
      let right = length-drop k leaves in
      ap₂ (node blake3) (mth_loop-eq f g (take k leaves) (omega arith) (omega arith))
        (mth_loop-eq f g (drop k leaves) (omega arith) (omega arith))

  -- The root of a split tree is the node over the roots of its parts.
  pub mth-split :
      (leaves : List Bytes)
      → 1 < length leaves
      → mth blake3 leaves
        ≡ node blake3
            (mth blake3 (take (k_of leaves) leaves))
            (mth blake3 (drop (k_of leaves) leaves))
  unfolding mth
  mth-split [] h = absurd (omega arith)
  mth-split (x ∷ []) h = absurd (omega arith)
  mth-split (x ∷ y ∷ rest) h =
      let leaves = x ∷ y ∷ rest in
      let (pos, small) = split_point_bounds (length leaves) h in
      let k = k_of leaves in
      let left : length (take k leaves) ≡ k = length-take k leaves (omega arith) in
      let right = length-drop k leaves in
      unfold mth_loop in
      ap₂ (node blake3)
        (mth_loop-eq (suc (length rest)) (length (take k leaves)) (take k leaves) (omega arith)
          (omega arith))
        (mth_loop-eq (suc (length rest)) (length (drop k leaves)) (drop k leaves) (omega arith)
          (omega arith))

  audit_loop-eq :
      (f g m : ℕ) (leaves : List Bytes)
      → length leaves ≤ f
      → length leaves ≤ g
      → audit_loop blake3 f m leaves ≡ audit_loop blake3 g m leaves
  unfolding audit_loop
  audit_loop-eq zero zero m leaves hf hg = refl
  audit_loop-eq zero (suc g) m [] hf hg = refl
  audit_loop-eq zero (suc g) m (x ∷ l) hf hg = absurd (omega arith)
  audit_loop-eq (suc f) zero m [] hf hg = refl
  audit_loop-eq (suc f) zero m (x ∷ l) hf hg = absurd (omega arith)
  audit_loop-eq (suc f) (suc g) m [] hf hg = refl
  audit_loop-eq (suc f) (suc g) m (x ∷ []) hf hg = refl
  audit_loop-eq (suc f) (suc g) m (x ∷ y ∷ rest) hf hg =
      let leaves = x ∷ y ∷ rest in
      let k = k_of leaves in
      let (pos, small) = split_point_bounds (length leaves) (omega arith) in
      let left : length (take k leaves) ≡ k = length-take k leaves (omega arith) in
      let right = length-drop k leaves in
      rw (
        audit_loop-eq f g m (take k leaves) (omega arith) (omega arith),
        audit_loop-eq f g (m - k) (drop k leaves) (omega arith) (omega arith),
      )

  -- The path of a leaf in the left part, then the root of the right part; and the other way round.
  pub audit_path-split :
      (m : ℕ) (leaves : List Bytes)
      → 1 < length leaves
      → audit_path blake3 m leaves ≡ (
          if ltb m (k_of leaves)
          then audit_path blake3 m (take (k_of leaves) leaves)
            ++ mth blake3 (drop (k_of leaves) leaves) ∷ []
          else audit_path blake3 (m - k_of leaves) (drop (k_of leaves) leaves)
            ++ mth blake3 (take (k_of leaves) leaves) ∷ [])
  unfolding audit_path
  audit_path-split m [] h = absurd (omega arith)
  audit_path-split m (x ∷ []) h = absurd (omega arith)
  audit_path-split m (x ∷ y ∷ rest) h =
      let leaves = x ∷ y ∷ rest in
      let (pos, small) = split_point_bounds (length leaves) h in
      let k = k_of leaves in
      let left : length (take k leaves) ≡ k = length-take k leaves (omega arith) in
      let right = length-drop k leaves in
      unfold audit_loop in
      rw (
        audit_loop-eq (suc (length rest)) (length (take k leaves)) m (take k leaves) (omega arith)
            (omega arith),
        audit_loop-eq (suc (length rest)) (length (drop k leaves)) (m - k) (drop k leaves)
            (omega arith) (omega arith),
      )
