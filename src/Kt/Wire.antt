-- ===== src/Kt/Wire.antt =====
-- crates/kotva-core/src/kt.rs, the wire objects: `SignedTreeHead`, `InclusionProof` and
-- `ConsistencyProof`. A `ContentId` (crates/kotva-core/src/id.rs) is its bytes.
use dmtap.Prelude.{ℕ, Bool, true, false, Bytes, List, [], ◌∷◌}
use dmtap.Result
use dmtap.Result.{Result, ok, err, ok_or}
use dmtap.Id.{ContentId}
use dmtap.Suite.{Suite, as_u8 as suite_byte, from_u8}
use dmtap.Cbor.Value.{
  Cv, Items, Pairs, int_keys, u64, bytes, array, map, no_items, item, no_pairs, pair, CborError,
  unknown_suite,
}
use dmtap.Cbor.Encode.{encode}
use dmtap.Cbor.Reader.{
  Step, required, done, decode_object, as_u8, as_u64, as_bytes, as_array, ◌>>=◌,
}

unfoldable pub suite_from_cv : Cv → Result CborError Suite
suite_from_cv cv = Result.◌>>=◌ (as_u8 cv) λ b. ok_or (from_u8 b) (unknown_suite b)

unfoldable pub id_from_cv : Cv → Result CborError ContentId
id_from_cv cv = Result.map_ok (λ b. record { bytes = b }) (as_bytes cv)

-- `into_iter().map(|c| as_bytes(c).map(ContentId)).collect::<Result<_, _>>()`
unfoldable pub collect_ids : Items → Result CborError (List ContentId)
unfolding id_from_cv
collect_ids no_items = ok []
collect_ids (item v vs) =
    Result.◌>>=◌ (id_from_cv v) λ i. Result.map_ok (λ is. i ∷ is) (collect_ids vs)

unfoldable pub ids_from_cv : Cv → Result CborError (List ContentId)
ids_from_cv cv = Result.◌>>=◌ (as_array cv) collect_ids

unfoldable pub id_items : List ContentId → Items
id_items [] = no_items
id_items (h ∷ hs) = item (bytes h.bytes) (id_items hs)

pub record SignedTreeHead : Type 0 where
  pub suite : Suite
  pub log_id : Bytes
  pub tree_size : ℕ
  pub timestamp : ℕ
  pub root_hash : ContentId
  pub sig : Bytes

-- The pairs behind key 5: the signature, unless the signing body is wanted.
unfoldable pub sig_pairs : SignedTreeHead → Bool → Pairs int_keys
sig_pairs s true = pair 6 (bytes s.sig) no_pairs
sig_pairs s false = no_pairs

unfoldable pub sth_pairs : SignedTreeHead → Bool → Pairs int_keys
unfolding sig_pairs
sth_pairs s include_sig = pair 1 (u64 (suite_byte s.suite)) (
    pair 2 (bytes s.log_id) (
      pair 3 (u64 s.tree_size)
        (pair 4 (u64 s.timestamp) (pair 5 (bytes s.root_hash.bytes) (sig_pairs s include_sig)))))

unfoldable pub sth_det_cbor : SignedTreeHead → Bytes
sth_det_cbor s = encode (map (sth_pairs s true))

unfoldable pub signing_body : SignedTreeHead → Bytes
signing_body s = encode (map (sth_pairs s false))

unfoldable pub sth_steps : Step SignedTreeHead
sth_steps = do
  suite ← required suite_from_cv 1
  log_id ← required as_bytes 2
  tree_size ← required as_u64 3
  timestamp ← required as_u64 4
  root_hash ← required id_from_cv 5
  sig ← required as_bytes 6
  done (record {
    suite = suite;
    log_id = log_id;
    tree_size = tree_size;
    timestamp = timestamp;
    root_hash = root_hash;
    sig = sig;
  })

unfoldable pub sth_from_det_cbor : Bytes → Result CborError SignedTreeHead
sth_from_det_cbor bs = decode_object sth_steps bs

pub record InclusionProof : Type 0 where
  pub tree_size : ℕ
  pub leaf_index : ℕ
  pub leaf_hash : ContentId
  pub audit_path : List ContentId

unfoldable pub inclusion_pairs : InclusionProof → Pairs int_keys
inclusion_pairs p = pair 1 (u64 p.tree_size) (
    pair 2 (u64 p.leaf_index)
      (pair 3 (bytes p.leaf_hash.bytes) (pair 4 (array (id_items p.audit_path)) no_pairs)))

unfoldable pub inclusion_det_cbor : InclusionProof → Bytes
inclusion_det_cbor p = encode (map (inclusion_pairs p))

unfoldable pub inclusion_steps : Step InclusionProof
inclusion_steps = do
  tree_size ← required as_u64 1
  leaf_index ← required as_u64 2
  leaf_hash ← required id_from_cv 3
  audit_path ← required ids_from_cv 4
  done (record {
    tree_size = tree_size;
    leaf_index = leaf_index;
    leaf_hash = leaf_hash;
    audit_path = audit_path;
  })

unfoldable pub inclusion_from_det_cbor : Bytes → Result CborError InclusionProof
inclusion_from_det_cbor bs = decode_object inclusion_steps bs

pub record ConsistencyProof : Type 0 where
  pub first_size : ℕ
  pub second_size : ℕ
  pub proof_path : List ContentId

unfoldable pub consistency_pairs : ConsistencyProof → Pairs int_keys
consistency_pairs p =
    pair 1 (u64 p.first_size)
      (pair 2 (u64 p.second_size) (pair 3 (array (id_items p.proof_path)) no_pairs))

unfoldable pub consistency_det_cbor : ConsistencyProof → Bytes
consistency_det_cbor p = encode (map (consistency_pairs p))

unfoldable pub consistency_steps : Step ConsistencyProof
consistency_steps = do
  first_size ← required as_u64 1
  second_size ← required as_u64 2
  proof_path ← required ids_from_cv 3
  done (record { first_size = first_size; second_size = second_size; proof_path = proof_path })

unfoldable pub consistency_from_det_cbor : Bytes → Result CborError ConsistencyProof
consistency_from_det_cbor bs = decode_object consistency_steps bs
