-- ===== src/Kt/Consistency/Tests.antt =====
-- Runs of `verify_consistency` of crates/kotva-core/src/kt.rs: a log of seven leaves extends each of its beginnings, and
-- a fork of it does not.
use dmtap.Prelude.{
  ℕ, zero, suc, ◌+◌, ◌*◌, ◌%◌, ◌≡◌, refl, Bool, true, false, ◌&&◌, Bytes, List, [], ◌∷◌, Option,
  none, some, replicate, take, drop, length, eq_bytes,
}
use dmtap.Result.{ok, err}
use dmtap.Id.{ContentId}
use dmtap.Suite.{Suite}
use dmtap.Kt.Wire.{SignedTreeHead}
use dmtap.Kt.Merkle.{
  digest32, digest_of, as_content_id, node, mth, mth_loop, split_point, split_loop,
}
use dmtap.Kt.Consistency.{
  verify_consistency, consistent_roots, fold_consistency, reaches, seeded, folded, grow, climb,
  climb_step, fold_new, fold_both, is_none, digests, skip_right, consistency_path, subproof,
  subproof_loop,
}

unfoldable mixed : ℕ → Bytes → ℕ
mixed acc [] = acc
mixed acc (b ∷ bs) = mixed ((acc * 31 + b) % 65537) bs

-- A hash of 32 bytes, for the runs.
unfoldable toy : Bytes → Bytes
toy bs = mixed 7 bs % 256 ∷ mixed 11 bs % 256 ∷ replicate 30 0

abbrev leaves : ℕ → List Bytes
leaves zero = []
leaves (suc n) = (n ∷ replicate 31 7) ∷ leaves n

abbrev head_of : List Bytes → SignedTreeHead
head_of ls = record {
  suite = Suite.classical;
  log_id = [];
  tree_size = length ls;
  timestamp = 0;
  root_hash = as_content_id (mth toy ls);
  sig = [];
}

unfoldable path_of : Option (List ContentId) → List ContentId
path_of none = []
path_of (some path) = path

-- The log's own proof, that the first `m` of its leaves are a beginning of it.
unfoldable accepts : ℕ → List Bytes → List Bytes → Bool
accepts m old new =
    elim (verify_consistency toy (head_of old) (head_of new) (record {
      first_size = m;
      second_size = length new;
      proof_path = path_of (consistency_path toy (record { leaves = new }) m);
    })) [ ok u ↦ true | err e ↦ false ]

unfoldable accepts_up_to : ℕ → List Bytes → Bool
accepts_up_to zero new = true
accepts_up_to (suc m) new = accepts (suc m) (take (suc m) new) new && accepts_up_to m new

extends_its_beginnings : accepts_up_to 7 (leaves 7) ≡ true
unfolding accepts_up_to accepts path_of verify_consistency consistent_roots fold_consistency reaches
    seeded folded grow climb climb_step fold_new fold_both is_none digests skip_right
    consistency_path subproof subproof_loop digest32 digest_of as_content_id node mth mth_loop
    split_point split_loop toy mixed eq_bytes
extends_its_beginnings = refl

refuses_a_fork : accepts 3 ((9 ∷ replicate 31 7) ∷ take 2 (drop 1 (leaves 7))) (leaves 7) ≡ false
unfolding accepts path_of verify_consistency consistent_roots fold_consistency reaches seeded folded
    grow climb climb_step fold_new fold_both is_none digests skip_right consistency_path subproof
    subproof_loop digest32 digest_of as_content_id node mth mth_loop split_point split_loop toy
    mixed eq_bytes
refuses_a_fork = refl
