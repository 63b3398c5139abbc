-- ===== src/Kt/Merkle/Digests.antt =====
-- The roots and paths of crates/kotva-core/src/kt.rs are made of digests.
use dmtap.Prelude.{
  ℕ, zero, suc, ◌-◌, ◌<◌, ◌≡◌, Bytes, List, [], ◌∷◌, length, All, All-append, All-take, All-drop,
  take, drop, ltb, arith, length-take, length-drop, Bool-cases, inl, inr,
}
use dmtap.Kt.Merkle.{node, split_point, mth, mth_loop, audit_path, audit_loop}
use dmtap.Kt.Merkle.Split.{split_point_bounds}
use dmtap.Kt.Merkle.Fold.{IsDigest}

module _ (blake3 : Bytes → Bytes) (digest_len : (b : Bytes) → IsDigest (blake3 b)) where
  pub mth-IsDigest :
      (leaves : List Bytes) → 0 < length leaves → All IsDigest leaves → IsDigest (mth blake3 leaves)
  unfolding mth mth_loop node
  mth-IsDigest [] pos h = absurd (omega arith)
  mth-IsDigest (x ∷ []) pos h = h.0
  mth-IsDigest (x ∷ y ∷ rest) pos h = digest_len _

  audit_loop-IsDigest :
      (fuel m : ℕ) (leaves : List Bytes)
      → All IsDigest leaves
      → All IsDigest (audit_loop blake3 fuel m leaves)
  unfolding audit_loop
  audit_loop-IsDigest zero m leaves h = tt
  audit_loop-IsDigest (suc fuel) m [] h = tt
  audit_loop-IsDigest (suc fuel) m (x ∷ []) h = tt
  audit_loop-IsDigest (suc fuel) m (x ∷ y ∷ rest) h =
      let leaves = x ∷ y ∷ rest in
      let k = split_point (length leaves) in
      let (pos, small) = split_point_bounds (length leaves) (omega arith) in
      let left : length (take k leaves) ≡ k = length-take k leaves (omega arith) in
      let right = length-drop k leaves in
      let in_left = All-take IsDigest k leaves h in
      let in_right = All-drop IsDigest k leaves h in
      elim (Bool-cases (ltb m k)) [
        | inl e ↦ rw e (
            All-append IsDigest (audit_loop blake3 fuel m (take k leaves))
              (mth blake3 (drop k leaves) ∷ []) (audit_loop-IsDigest fuel m (take k leaves) in_left)
              (mth-IsDigest (drop k leaves) (omega arith) in_right, tt))
        | inr e ↦ rw e (
            All-append IsDigest (audit_loop blake3 fuel (m - k) (drop k leaves))
              (mth blake3 (take k leaves) ∷ [])
              (audit_loop-IsDigest fuel (m - k) (drop k leaves) in_right)
              (mth-IsDigest (take k leaves) (omega arith) in_left, tt))
      ]

  pub audit_path-IsDigest :
      (m : ℕ) (leaves : List Bytes)
      → All IsDigest leaves
      → All IsDigest (audit_path blake3 m leaves)
  unfolding audit_path
  audit_path-IsDigest m leaves h = audit_loop-IsDigest (length leaves) m leaves h
