-- ===== src/Kt/WireLaws.antt =====
-- The wire objects of crates/kotva-core/src/kt.rs round trip both ways: a decoder reads back what
-- `det_cbor` writes, and accepts nothing else.
use dmtap.Prelude.{◌≤◌, ◌≡◌, ◌↔◌, sym, ap, true, Bytes, IsBytes, List, [], ◌∷◌, arith}
use dmtap.Result.{ok, Yields, Yields-bind, Yields-map}
use dmtap.Cbor.Value.{map, no_pairs, count_pairs}
use dmtap.Cbor.Canonical.{PairsCanonical, height, height_items}
use dmtap.Cbor.Reader.{
  Fields, required, req, take, take_pair, take_result, done, deny_unknown, as_u64, as_bytes,
}
use dmtap.Cbor.Consume.{
  required-Yields, done-Yields, put_back, IsIncreasing, decode_object-eq-ok_iff,
}
use dmtap.Id.{ContentId}
use dmtap.Kt.Wire.{
  suite_from_cv, id_from_cv, ids_from_cv, id_items, SignedTreeHead, sth_pairs, sth_steps,
  sth_det_cbor, sth_from_det_cbor, InclusionProof, inclusion_pairs, inclusion_steps,
  inclusion_det_cbor, inclusion_from_det_cbor, ConsistencyProof, consistency_pairs,
  consistency_steps, consistency_det_cbor, consistency_from_det_cbor,
}
use dmtap.Cbor.Inverse.{as_u64-inverse, as_bytes-inverse}
use dmtap.Kt.Coercions.{
  id_from_cv-inverse, suite_from_cv-inverse, suite_from_cv-u64, ids_from_cv-array,
  ids_from_cv-inverse,
}

sth_steps-Yields :
    (f : Fields)
    → IsIncreasing f.map
    → Yields (λ (s, left). map (sth_pairs s true) ≡ map f.map) (sth_steps f)
unfolding sth_steps sth_pairs
sth_steps-Yields f inc = Yields-bind (required-Yields suite_from_cv 1 f inc) λ (suite, f₁) t₁.
    Yields-bind (required-Yields as_bytes 2 f₁ t₁.increasing) λ (log_id, f₂) t₂.
      Yields-bind (required-Yields as_u64 3 f₂ t₂.increasing) λ (tree_size, f₃) t₃.
        Yields-bind (required-Yields as_u64 4 f₃ t₃.increasing) λ (timestamp, f₄) t₄.
          Yields-bind (required-Yields id_from_cv 5 f₄ t₄.increasing) λ (root_hash, f₅) t₅.
            Yields-bind (required-Yields as_bytes 6 f₅ t₅.increasing) λ (sig, f₆) t₆.
              Yields-map (done-Yields _ f₆) λ (s, left) (is_s, end).
                let e₆ = put_back t₆ t₅.increasing (λ v. as_bytes-inverse v sig) end tt in
                let e₅ =
                  put_back t₅ t₄.increasing (λ v. id_from_cv-inverse v root_hash) e₆
                    (omega arith) in
                let e₄ =
                  put_back t₄ t₃.increasing (λ v. as_u64-inverse v timestamp) e₅ (omega arith) in
                let e₃ =
                  put_back t₃ t₂.increasing (λ v. as_u64-inverse v tree_size) e₄ (omega arith) in
                let e₂ =
                  put_back t₂ t₁.increasing (λ v. as_bytes-inverse v log_id) e₃ (omega arith) in
                let e₁ = put_back t₁ inc (λ v. suite_from_cv-inverse v suite) e₂ (omega arith) in
                rw is_s (ap map (sym e₁))

sth_steps-pairs :
    (s : SignedTreeHead)
    → sth_steps (record { map = sth_pairs s true }) ≡ ok (s, record { map = no_pairs })
unfolding sth_steps sth_pairs required req take take_pair take_result done deny_unknown id_from_cv
    as_bytes as_u64
sth_steps-pairs s = rw (suite_from_cv-u64 s.suite)

-- The decoder of signed tree heads accepts a string of bytes with a tree head exactly when it is what
-- `det_cbor` writes for that tree head, and its numbers and lengths fit the wire.
pub sth_from_det_cbor-eq-ok_iff :
    (bs : Bytes) (s : SignedTreeHead)
    → IsBytes bs
    → (sth_from_det_cbor bs ≡ ok s) ↔ ((bs ≡ sth_det_cbor s) × PairsCanonical (sth_pairs s true))
unfolding sth_from_det_cbor sth_det_cbor
sth_from_det_cbor-eq-ok_iff =
    decode_object-eq-ok_iff sth_steps (λ s. sth_pairs s true) sth_steps-Yields
      (λ s. (_, sth_steps-pairs s)) (λ s. unfold sth_pairs in omega arith)
      (λ s. unfold sth_pairs count_pairs in omega arith)
      (λ s. unfold sth_pairs height in omega arith)

inclusion_steps-Yields :
    (f : Fields)
    → IsIncreasing f.map
    → Yields (λ (p, left). map (inclusion_pairs p) ≡ map f.map) (inclusion_steps f)
unfolding inclusion_steps inclusion_pairs
inclusion_steps-Yields f inc = Yields-bind (required-Yields as_u64 1 f inc) λ (tree_size, f₁) t₁.
    Yields-bind (required-Yields as_u64 2 f₁ t₁.increasing) λ (leaf_index, f₂) t₂.
      Yields-bind (required-Yields id_from_cv 3 f₂ t₂.increasing) λ (leaf_hash, f₃) t₃.
        Yields-bind (required-Yields ids_from_cv 4 f₃ t₃.increasing) λ (path, f₄) t₄.
          Yields-map (done-Yields _ f₄) λ (p, left) (is_p, end).
            let e₄ = put_back t₄ t₃.increasing (λ v. ids_from_cv-inverse v path) end tt in
            let e₃ =
              put_back t₃ t₂.increasing (λ v. id_from_cv-inverse v leaf_hash) e₄ (omega arith) in
            let e₂ =
              put_back t₂ t₁.increasing (λ v. as_u64-inverse v leaf_index) e₃ (omega arith) in
            let e₁ = put_back t₁ inc (λ v. as_u64-inverse v tree_size) e₂ (omega arith) in
            rw is_p (ap map (sym e₁))

inclusion_steps-pairs :
    (p : InclusionProof)
    → inclusion_steps (record { map = inclusion_pairs p }) ≡ ok (p, record { map = no_pairs })
unfolding inclusion_steps inclusion_pairs required req take take_pair take_result done deny_unknown
    id_from_cv as_bytes as_u64
inclusion_steps-pairs p = rw (ids_from_cv-array p.audit_path)

height-id_items : (hs : List ContentId) → height_items (id_items hs) ≤ 1
unfolding height id_items
height-id_items [] = omega arith
height-id_items (h ∷ hs) = omega (arith, height-id_items hs)

-- The decoder of inclusion proofs accepts a string of bytes with a proof exactly when it is what
-- `det_cbor` writes for that proof, and its numbers and lengths fit the wire.
inclusion_from_det_cbor-eq-ok_iff :
    (bs : Bytes) (p : InclusionProof)
    → IsBytes bs
    → (inclusion_from_det_cbor bs ≡ ok p)
      ↔ ((bs ≡ inclusion_det_cbor p) × PairsCanonical (inclusion_pairs p))
unfolding inclusion_from_det_cbor inclusion_det_cbor
inclusion_from_det_cbor-eq-ok_iff =
    decode_object-eq-ok_iff inclusion_steps inclusion_pairs inclusion_steps-Yields
      (λ p. (_, inclusion_steps-pairs p)) (λ p. unfold inclusion_pairs in omega arith)
      (λ p. unfold inclusion_pairs count_pairs in omega arith)
      (λ p. unfold inclusion_pairs height in omega (arith, height-id_items p.audit_path))

consistency_steps-Yields :
    (f : Fields)
    → IsIncreasing f.map
    → Yields (λ (p, left). map (consistency_pairs p) ≡ map f.map) (consistency_steps f)
unfolding consistency_steps consistency_pairs
consistency_steps-Yields f inc = Yields-bind (required-Yields as_u64 1 f inc) λ (first_size, f₁) t₁.
    Yields-bind (required-Yields as_u64 2 f₁ t₁.increasing) λ (second_size, f₂) t₂.
      Yields-bind (required-Yields ids_from_cv 3 f₂ t₂.increasing) λ (path, f₃) t₃.
        Yields-map (done-Yields _ f₃) λ (p, left) (is_p, end).
          let e₃ = put_back t₃ t₂.increasing (λ v. ids_from_cv-inverse v path) end tt in
          let e₂ = put_back t₂ t₁.increasing (λ v. as_u64-inverse v second_size) e₃ (omega arith) in
          let e₁ = put_back t₁ inc (λ v. as_u64-inverse v first_size) e₂ (omega arith) in
          rw is_p (ap map (sym e₁))

consistency_steps-pairs :
    (p : ConsistencyProof)
    → consistency_steps (record { map = consistency_pairs p }) ≡ ok (p, record { map = no_pairs })
unfolding consistency_steps consistency_pairs required req take take_pair take_result done
    deny_unknown as_u64
consistency_steps-pairs p = rw (ids_from_cv-array p.proof_path)

-- The decoder of consistency proofs accepts a string of bytes with a proof exactly when it is what
-- `det_cbor` writes for that proof, and its numbers and lengths fit the wire.
consistency_from_det_cbor-eq-ok_iff :
    (bs : Bytes) (p : ConsistencyProof)
    → IsBytes bs
    → (consistency_from_det_cbor bs ≡ ok p)
      ↔ ((bs ≡ consistency_det_cbor p) × PairsCanonical (consistency_pairs p))
unfolding consistency_from_det_cbor consistency_det_cbor
consistency_from_det_cbor-eq-ok_iff =
    decode_object-eq-ok_iff consistency_steps consistency_pairs consistency_steps-Yields
      (λ p. (_, consistency_steps-pairs p)) (λ p. unfold consistency_pairs in omega arith)
      (λ p. unfold consistency_pairs count_pairs in omega arith)
      (λ p. unfold consistency_pairs height in omega (arith, height-id_items p.proof_path))
