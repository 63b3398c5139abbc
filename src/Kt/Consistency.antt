-- ===== src/Kt/Consistency.antt =====
-- crates/kotva-core/src/kt.rs, consistency proofs: `verify_consistency`, `subproof` and `consistency_path`. `blake3` is
-- the hash of the crate of that name.
mod Tests
use dmtap.Prelude.{
  ℕ, zero, suc, ◌-◌, ◌/◌, ◌%◌, Bool, true, false, ◌||◌, ◌&&◌, Bytes, Option, none, some, List, [],
  ◌∷◌, ◌++◌, length, take, drop, ltb, leb, ◌==◌, if◌then◌else◌, eq_bytes, map,
}
use dmtap.Result.{Result, ok, err}
use dmtap.Id.{ContentId}
use dmtap.Kt.Wire.{SignedTreeHead, ConsistencyProof}
use dmtap.Kt.Merkle.{
  KtError, not_consistent, MerkleTree, digest32, as_content_id, is_odd, split_point, node, mth,
}

-- `while node_idx & 1 == 1 { node_idx >>= 1; last_idx >>= 1; }`; the index is fuel enough, as it halves.
unfoldable pub skip_right : ℕ → ℕ × ℕ → ℕ × ℕ
skip_right zero (node_idx, last_idx) = (node_idx, last_idx)
skip_right (suc fuel) (node_idx, last_idx) =
    let more = skip_right fuel (node_idx / 2, last_idx / 2) in
    if is_odd node_idx then more else (node_idx, last_idx)

unfoldable pub digests : List ContentId → Option (List Bytes)
digests [] = some []
digests (h ∷ hs) = elim (digest32 h) [
  | none ↦ none
  | some d ↦ elim (digests hs) [ none ↦ none | some ds ↦ some (d ∷ ds) ]
]

-- The variables of the loops of `verify_consistency`; `path` is what the iterator has left.
pub record Folded : Type 0 where
  pub old_hash : Bytes
  pub new_hash : Bytes
  pub path : List Bytes

unfoldable pub is_none {ℓ} : {A : Type ℓ} → List A → Bool
is_none [] = true
is_none (x ∷ xs) = false

module _ (blake3 : Bytes → Bytes) where
  -- A right child takes its sibling into both hashes.
  unfoldable pub fold_both : Bytes → Bytes → List Bytes → Option Folded
  fold_both old new [] = none
  fold_both old new (s ∷ path) =
      some (record { old_hash = node blake3 s old; new_hash = node blake3 s new; path = path })

  -- A left child with a sibling takes it into the new hash.
  unfoldable pub fold_new : Bytes → Bytes → List Bytes → Option Folded
  fold_new old new [] = none
  fold_new old new (s ∷ path) =
      some (record { old_hash = old; new_hash = node blake3 new s; path = path })

  unfoldable pub climb_step : ℕ → ℕ → Folded → Option Folded
  climb_step node_idx last_idx st =
      if is_odd node_idx
      then fold_both st.old_hash st.new_hash st.path
      else if ltb node_idx last_idx
      then fold_new st.old_hash st.new_hash st.path
      else some st

  -- `while node_idx > 0`, and the last index behind it; the index is fuel enough.
  unfoldable pub climb : ℕ → ℕ → ℕ → Folded → Option (ℕ × Folded)
  climb zero node_idx last_idx st = some (last_idx, st)
  climb (suc fuel) zero last_idx st = some (last_idx, st)
  climb (suc fuel) (suc node_idx) last_idx st = elim (climb_step (suc node_idx) last_idx st) [
    | none ↦ none
    | some st' ↦ climb fuel (suc node_idx / 2) (last_idx / 2) st'
  ]

  -- `while last_idx > 0`; the index is fuel enough.
  unfoldable pub grow : ℕ → ℕ → Folded → Option Folded
  grow zero last_idx st = some st
  grow (suc fuel) zero st = some st
  grow (suc fuel) (suc last_idx) st = elim (fold_new st.old_hash st.new_hash st.path) [
    | none ↦ none
    | some st' ↦ grow fuel (suc last_idx / 2) st'
  ]

  unfoldable pub folded : ℕ × ℕ → Folded → Option Folded
  folded (node_idx, last_idx) st = elim (climb node_idx node_idx last_idx st) [
    | none ↦ none
    | some (last, st') ↦ grow last last st'
  ]

  -- The hash that both folds begin with: the first of the path, or the old root if the old tree is a whole subtree.
  unfoldable pub seeded : ℕ → Bytes → List Bytes → Option Folded
  seeded zero old_root path =
      some (record { old_hash = old_root; new_hash = old_root; path = path })
  seeded (suc node_idx) old_root [] = none
  seeded (suc node_idx) old_root (h ∷ path) =
      some (record { old_hash = h; new_hash = h; path = path })

  unfoldable pub reaches : Option Folded → Bytes → Bytes → Bool
  reaches none old_root new_root = false
  reaches (some st) old_root new_root =
      is_none st.path && (eq_bytes st.old_hash old_root && eq_bytes st.new_hash new_root)

  unfoldable pub fold_consistency : ℕ → ℕ → Bytes → Bytes → List Bytes → Bool
  fold_consistency m n old_root new_root path =
      let (node_idx, last_idx) = skip_right m (m - 1, n - 1) in
      elim (seeded node_idx old_root path) [
        | none ↦ false
        | some st ↦ reaches (folded (node_idx, last_idx) st) old_root new_root
      ]

  unfoldable pub consistent_roots : ℕ → ℕ → List ContentId → Option Bytes → Option Bytes → Bool
  consistent_roots m n path none new_root = false
  consistent_roots m n path (some old_root) none = false
  consistent_roots m n path (some old_root) (some new_root) =
      if m == n
      then is_none path && eq_bytes old_root new_root
      else if m == 0
      then is_none path
      else (elim (digests path) [
        | none ↦ false
        | some ds ↦ fold_consistency m n old_root new_root ds
      ])

  unfoldable pub verify_consistency :
      SignedTreeHead → SignedTreeHead → ConsistencyProof → Result KtError (Unit {0})
  verify_consistency old new proof =
      let m = old.tree_size in
      let n = new.tree_size in
      let bound = (proof.first_size == m && proof.second_size == n) && leb m n in
      if bound
        && consistent_roots m n proof.proof_path (digest32 old.root_hash) (digest32 new.root_hash)
      then ok tt
      else err not_consistent

  -- A recursive call is on a shorter list, so the length is fuel enough.
  unfoldable pub subproof_loop : ℕ → ℕ → List Bytes → Bool → List Bytes
  subproof_loop zero m leaves b = []
  subproof_loop (suc fuel) m leaves b =
      let k = split_point (length leaves) in
      let left = subproof_loop fuel m (take k leaves) b ++ mth blake3 (drop k leaves) ∷ [] in
      let right =
        subproof_loop fuel (m - k) (drop k leaves) false ++ mth blake3 (take k leaves) ∷ [] in
      if m == length leaves
      then (if b then [] else mth blake3 leaves ∷ [])
      else if leb m k
      then left
      else right

  unfoldable pub subproof : ℕ → List Bytes → Bool → List Bytes
  subproof m leaves b = subproof_loop (length leaves) m leaves b

  unfoldable pub consistency_path : MerkleTree → ℕ → Option (List ContentId)
  consistency_path t first =
      let n = length t.leaves in
      if first == 0 || ltb n first
      then none
      else some (map as_content_id (if first == n then [] else subproof first t.leaves true))
