-- ===== src/Kt/Tests.antt =====
-- Runs of the log of crates/kotva-core/src/kt.rs. `toy` stands for the hash: a sum of bytes, padded to
-- the length of a digest.
use dmtap.Prelude.{
  ◌≡◌, ◌↔◌, ◌⊎◌, refl, arith, ℕ, ◌+◌, ◌%◌, Bytes, List, [], ◌∷◌, ◌++◌, true, replicate, map, some,
  none, eq_bytes, get_elem?,
}
use dmtap.Result.{ok, err}
use dmtap.Suite.{classical}
use dmtap.Cbor.Canonical.{PairsCanonical}
use dmtap.Id.{ContentId}
use dmtap.Kt.Wire.{
  SignedTreeHead, sth_pairs, sth_det_cbor, sth_from_det_cbor, InclusionProof, ConsistencyProof,
}
use dmtap.Kt.WireLaws.{sth_from_det_cbor-eq-ok_iff}
use dmtap.Kt.Merkle.{
  digest_of, digest32, as_content_id, split_loop, split_point, proof_invalid, skip_levels, node,
  mth_loop, mth, audit_loop, audit_path, fold_step, fold_path, ends_at, fold_from, fold_inclusion,
  verify_root, MerkleTree, append, size, root_of, root, inclusion_path,
}
use dmtap.Kt.Merkle.Verify.{
  IsWellFormed, proof_of, append-IsWellFormed, verify_root-inclusion_path, verify_root_sound,
}
use dmtap.Kt.Merkle.Unique.{Collision}
use dmtap.Kt.Merkle.Fold.{IsDigest}

sum : Bytes → ℕ
sum [] = 0
sum (b ∷ bs) = b + sum bs

toy : Bytes → Bytes
unfolding sum
toy bs = sum bs % 256 ∷ replicate 31 0

toy-IsDigest : (bs : Bytes) → IsDigest (toy bs)
unfolding toy
toy-IsDigest bs = omega arith

abbrev leaf : ℕ → Bytes
leaf n = n ∷ replicate 31 7

abbrev five : MerkleTree
five = record { leaves = leaf 10 ∷ leaf 20 ∷ leaf 30 ∷ leaf 40 ∷ leaf 50 ∷ [] }

five-IsWellFormed : IsWellFormed five
five-IsWellFormed = omega arith

five_root : ContentId
five_root = as_content_id (mth toy five.leaves)

third_path : List ContentId
third_path = map as_content_id (audit_path toy 3 five.leaves)

five_root-eq : root toy five ≡ some five_root
unfolding root root_of five_root
five_root-eq = refl

third_path-eq : inclusion_path toy five 3 ≡ some third_path
unfolding inclusion_path third_path
third_path-eq = refl

accepts_third : verify_root toy (proof_of 5 3 (leaf 40) third_path) five_root ≡ ok tt
unfolding verify_root fold_inclusion fold_from fold_path fold_step ends_at skip_levels digest32
    digest_of as_content_id node mth mth_loop audit_path audit_loop split_point split_loop
    third_path five_root toy sum eq_bytes
accepts_third = refl

refuses_other_leaf :
    verify_root toy (proof_of 5 3 (leaf 41) third_path) five_root ≡ err proof_invalid
unfolding verify_root fold_inclusion fold_from fold_path fold_step ends_at skip_levels digest32
    digest_of as_content_id node mth mth_loop audit_path audit_loop split_point split_loop
    third_path five_root toy sum eq_bytes
refuses_other_leaf = refl

append-IsWellFormed_example :
    IsWellFormed (append five (as_content_id (leaf 60))).1
    × (((append five (as_content_id (leaf 60)) ≡ (none, five))
          × (digest32 (as_content_id (leaf 60)) ≡ none))
        ⊎ ((d : Bytes) × (as_content_id (leaf 60) ≡ as_content_id d)
            × ((append five (as_content_id (leaf 60))).0 ≡ some (size five))
            × ((append five (as_content_id (leaf 60))).1.leaves ≡ five.leaves ++ d ∷ [])))
append-IsWellFormed_example = append-IsWellFormed five (as_content_id (leaf 60)) five-IsWellFormed

verify_root-inclusion_path_example :
    verify_root toy (proof_of (size five) 3 (leaf 40) third_path) five_root ≡ ok tt
verify_root-inclusion_path_example =
    verify_root-inclusion_path toy toy-IsDigest five 3 (leaf 40) third_path five_root
      five-IsWellFormed refl third_path-eq five_root-eq

five-size : 5 ≡ size five
unfolding size
five-size = refl

verify_root_sound_example :
    ((inclusion_path toy five 3 ≡ some third_path)
      × (l : Bytes) × (get_elem? five.leaves 3 ≡ some l)
      × (as_content_id (leaf 40) ≡ as_content_id l))
    ⊎ Collision toy
verify_root_sound_example =
    verify_root_sound toy toy-IsDigest five (proof_of 5 3 (leaf 40) third_path) five_root
      five-IsWellFormed five_root-eq five-size accepts_third

abbrev head : SignedTreeHead
head = record {
  suite = classical;
  log_id = 1 ∷ 2 ∷ [];
  tree_size = 5;
  timestamp = 1_700_000_000;
  root_hash = record { bytes = 0x1e ∷ 9 ∷ [] };
  sig = 4 ∷ [];
}

-- {1: 1, 2: h'0102', 3: 5, 4: 1700000000, 5: h'1e09', 6: h'04'}
abbrev head_wire : Bytes
head_wire =
    0xa6 ∷ 1 ∷ 1 ∷ 2 ∷ 0x42 ∷ 1 ∷ 2 ∷ 3 ∷ 5 ∷ 4 ∷ 0x1a ∷ 0x65 ∷ 0x53 ∷ 0xf1 ∷ 0 ∷ 5 ∷ 0x42 ∷ 0x1e
    ∷ 9 ∷ 6 ∷ 0x41 ∷ 4 ∷ []

sth_from_det_cbor-eq-ok_iff_example :
    (sth_from_det_cbor head_wire ≡ ok head)
    ↔ ((head_wire ≡ sth_det_cbor head) × PairsCanonical (sth_pairs head true))
sth_from_det_cbor-eq-ok_iff_example = sth_from_det_cbor-eq-ok_iff head_wire head (omega arith)

abbrev small_proof : InclusionProof
small_proof = record {
  tree_size = 2;
  leaf_index = 1;
  leaf_hash = record { bytes = 0x1e ∷ 9 ∷ [] };
  audit_path = (record { bytes = 0x1e ∷ 8 ∷ [] }) ∷ [];
}

-- {1: 2, 2: 1, 3: h'1e09', 4: [h'1e08']}
abbrev small_proof_wire : Bytes
small_proof_wire = 0xa4 ∷ 1 ∷ 2 ∷ 2 ∷ 1 ∷ 3 ∷ 0x42 ∷ 0x1e ∷ 9 ∷ 4 ∷ 0x81 ∷ 0x42 ∷ 0x1e ∷ 8 ∷ []

abbrev extension : ConsistencyProof
extension = record {
  first_size = 1;
  second_size = 2;
  proof_path = (record { bytes = 0x1e ∷ 8 ∷ [] }) ∷ [];
}

-- {1: 1, 2: 2, 3: [h'1e08']}
abbrev extension_wire : Bytes
extension_wire = 0xa3 ∷ 1 ∷ 1 ∷ 2 ∷ 2 ∷ 3 ∷ 0x81 ∷ 0x42 ∷ 0x1e ∷ 8 ∷ []
