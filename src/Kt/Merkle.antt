-- ===== src/Kt/Merkle.antt =====
-- crates/kotva-core/src/kt.rs, the RFC 6962 arithmetic and the in-memory tree. `blake3` is the hash of
-- the crate of that name, as a parameter; a digest is its bytes.
pub mod Split
pub mod Fold
pub mod Unique
pub mod Verify
mod Digests
pub mod Inclusion
use dmtap.Prelude.{
  ℕ, zero, suc, ◌+◌, ◌-◌, ◌*◌, ◌/◌, ◌%◌, Bool, true, false, ◌||◌, ◌&&◌, Bytes, Option, none, some,
  List, [], ◌∷◌, ◌++◌, length, take, drop, ltb, leb, ◌==◌, if◌then◌else◌, eq_bytes, map,
}
use dmtap.Result.{Result, ok, err}
use dmtap.Id.{ContentId, mh_blake3_256}
use dmtap.Kt.Wire.{SignedTreeHead, InclusionProof}

-- `self.0.first()` and `self.0.get(1..)`, compared with the prefix and the length of a digest.
unfoldable pub digest_of : Bytes → Option Bytes
digest_of [] = none
digest_of (a ∷ digest) = if a == mh_blake3_256 && length digest == 32 then some digest else none

unfoldable pub digest32 : ContentId → Option Bytes
unfolding digest_of
digest32 i = digest_of i.bytes

unfoldable pub as_content_id : Bytes → ContentId
as_content_id digest = record { bytes = mh_blake3_256 ∷ digest }

-- `while k << 1 < n { k <<= 1; }`; `n` rounds are enough, as `k` doubles. The shift is that of sizes up
-- to 2^63, where it loses no bit.
unfoldable pub split_loop : ℕ → ℕ → ℕ → ℕ
split_loop zero k n = k
split_loop (suc fuel) k n =
    let more = split_loop fuel (k * 2) n in if ltb (k * 2) n then more else k

unfoldable pub split_point : ℕ → ℕ
split_point n = split_loop n 1 n

pub data KtError : Type 0 where
  proof_invalid leaf_hash_mismatch not_consistent : KtError

unfoldable pub code : KtError → ℕ
code proof_invalid = 0x0108
code leaf_hash_mismatch = 0x0117
code not_consistent = 0x0110

-- The variables of the loop of `fold_inclusion`.
pub record FoldState : Type 0 where
  pub node_idx : ℕ
  pub last_idx : ℕ
  pub r : Bytes

abbrev pub is_odd : ℕ → Bool
is_odd n = n % 2 == 1

-- `loop { node_idx >>= 1; last_idx >>= 1; if node_idx & 1 == 1 || node_idx == 0 { break; } }`;
-- `node_idx` rounds are enough, as it halves.
unfoldable pub skip_levels : ℕ → ℕ × ℕ → ℕ × ℕ
skip_levels zero (node_idx, last_idx) = (node_idx, last_idx)
skip_levels (suc fuel) (node_idx, last_idx) =
    let more = skip_levels fuel (node_idx / 2, last_idx / 2) in
    if is_odd (node_idx / 2) || node_idx / 2 == 0 then (node_idx / 2, last_idx / 2) else more

unfoldable pub ends_at : Option FoldState → Bytes → Bool
ends_at none root = false
ends_at (some st) root = st.last_idx == 0 && eq_bytes st.r root

pub record MerkleTree : Type 0 where
  pub leaves : List Bytes

abbrev pub empty_tree : MerkleTree
empty_tree = record { leaves = [] }

unfoldable pub append_digest : MerkleTree → Option Bytes → Option ℕ × MerkleTree
append_digest t none = (none, t)
append_digest t (some d) =
    let leaves = t.leaves ++ d ∷ [] in (some (length leaves - 1), record { leaves = leaves })

unfoldable pub append : MerkleTree → ContentId → Option ℕ × MerkleTree
append t leaf_hash = append_digest t (digest32 leaf_hash)

unfoldable pub size : MerkleTree → ℕ
size t = length t.leaves

module _ (blake3 : Bytes → Bytes) where
  unfoldable pub node : Bytes → Bytes → Bytes
  node left right = blake3 (0x01 ∷ (left ++ right))

  -- A recursive call is on a shorter list, so the length is fuel enough. The source panics on an
  -- empty list, which no caller passes: the first clause.
  unfoldable pub mth_loop : ℕ → List Bytes → Bytes
  mth_loop zero leaves = []
  mth_loop (suc fuel) [] = []
  mth_loop (suc fuel) (x ∷ []) = x
  mth_loop (suc fuel) (x ∷ y ∷ rest) =
      let leaves = x ∷ y ∷ rest in
      let k = split_point (length leaves) in
      node (mth_loop fuel (take k leaves)) (mth_loop fuel (drop k leaves))

  unfoldable pub mth : List Bytes → Bytes
  mth leaves = mth_loop (length leaves) leaves

  unfoldable pub audit_loop : ℕ → ℕ → List Bytes → List Bytes
  audit_loop zero m leaves = []
  audit_loop (suc fuel) m [] = []
  audit_loop (suc fuel) m (x ∷ []) = []
  audit_loop (suc fuel) m (x ∷ y ∷ rest) =
      let leaves = x ∷ y ∷ rest in
      let k = split_point (length leaves) in
      let left = audit_loop fuel m (take k leaves) ++ mth (drop k leaves) ∷ [] in
      let right = audit_loop fuel (m - k) (drop k leaves) ++ mth (take k leaves) ∷ [] in
      if ltb m k then left else right

  unfoldable pub audit_path : ℕ → List Bytes → List Bytes
  audit_path m leaves = audit_loop (length leaves) m leaves

  -- The two indices and the hash of the parent, once the sibling `pd` is folded in.
  unfoldable pub fold_step : FoldState → Bytes → FoldState
  fold_step st pd =
      if is_odd st.node_idx || st.node_idx == st.last_idx
      then (let (node_idx, last_idx) =
            if is_odd st.node_idx
            then (st.node_idx, st.last_idx)
            else skip_levels st.node_idx (st.node_idx, st.last_idx) in
          record { node_idx = node_idx / 2; last_idx = last_idx / 2; r = node pd st.r })
      else record { node_idx = st.node_idx / 2; last_idx = st.last_idx / 2; r = node st.r pd }

  -- The loop; `none` is a `return false`.
  unfoldable pub fold_path : FoldState → List ContentId → Option FoldState
  fold_path st [] = some st
  fold_path st (p ∷ ps) = elim (digest32 p) [
    | none ↦ none
    | some pd ↦ elim (st.last_idx == 0) [ true ↦ none | false ↦ fold_path (fold_step st pd) ps ]
  ]

  unfoldable pub fold_from : InclusionProof → Option Bytes → Option Bytes → Bool
  fold_from proof none root = false
  fold_from proof (some leaf) none = false
  fold_from proof (some leaf) (some root) =
      if leb proof.tree_size proof.leaf_index
      then false
      else ends_at
          (fold_path
            (record { node_idx = proof.leaf_index; last_idx = proof.tree_size - 1; r = leaf })
            proof.audit_path)
          root

  unfoldable pub fold_inclusion : InclusionProof → ContentId → Bool
  fold_inclusion proof root = fold_from proof (digest32 proof.leaf_hash) (digest32 root)

  unfoldable pub verify_root : InclusionProof → ContentId → Result KtError (Unit {0})
  verify_root proof root = if fold_inclusion proof root then ok tt else err proof_invalid

  unfoldable pub verify_against : InclusionProof → SignedTreeHead → Result KtError (Unit {0})
  verify_against proof sth =
      if proof.tree_size == sth.tree_size
      then verify_root proof sth.root_hash
      else err proof_invalid

  unfoldable pub root_of : List Bytes → Option ContentId
  root_of [] = none
  root_of (x ∷ rest) = some (as_content_id (mth (x ∷ rest)))

  unfoldable pub root : MerkleTree → Option ContentId
  root t = root_of t.leaves

  unfoldable pub inclusion_path : MerkleTree → ℕ → Option (List ContentId)
  inclusion_path t index =
      if leb (length t.leaves) index
      then none
      else some (map as_content_id (audit_path index t.leaves))
