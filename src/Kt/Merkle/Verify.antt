-- ===== src/Kt/Merkle/Verify.antt =====
-- crates/kotva-core/src/kt.rs: `MerkleTree` against `InclusionProof::verify_root`.
use mathlib.Core.Option.{some-injective}
use dmtap.Prelude.{
  ℕ, zero, suc, ◌-◌, ◌<◌, ◌≡◌, ◌⊎◌, inl, inr, refl, sym, ap, ap₂, ◌∙◌, true, false, Bytes, List, [],
  ◌∷◌, ◌++◌, Option, none, some, length, All, All-append, leb, arith, map, Option-cases, eq_bytes,
  eq_bytes_iff, get_elem?, length-append,
}
use dmtap.Result.{ok}
use dmtap.Id.{ContentId}
use dmtap.Kt.Wire.{InclusionProof}
use dmtap.Kt.Merkle.{
  digest32, as_content_id, FoldState, fold_path, fold_step, ends_at, fold_from, fold_inclusion,
  verify_root, MerkleTree, append_digest, append, size, root, root_of, inclusion_path, mth,
  audit_path,
}
use dmtap.Kt.Merkle.Fold.{state, run, fold_path-map, IsDigest, digest32-as_content_id}
use dmtap.Kt.Merkle.Inclusion.{run-audit_path}
use dmtap.Kt.Merkle.Unique.{digest32-eq-some, Collision, Ends, run_unique}
use dmtap.Kt.Merkle.Digests.{mth-IsDigest, audit_path-IsDigest}

-- The leaves of a tree are digests of 32 bytes.
abbrev pub IsWellFormed : MerkleTree → Type 0
IsWellFormed t = All IsDigest t.leaves

-- The proof that the log hands out for the leaf at `index`.
abbrev pub proof_of : ℕ → ℕ → Bytes → List ContentId → InclusionProof
proof_of tree_size index leaf path = record {
  tree_size = tree_size;
  leaf_index = index;
  leaf_hash = as_content_id leaf;
  audit_path = path;
}

get_elem?-lt :
    (leaves : List Bytes) (m : ℕ) (x : Bytes) → get_elem? leaves m ≡ some x → m < length leaves
get_elem?-lt [] m x h = cc
get_elem?-lt (y ∷ leaves) zero x h = omega arith
get_elem?-lt (y ∷ leaves) (suc m) x h = omega (arith, get_elem?-lt leaves m x h)

lt-get_elem? :
    (leaves : List Bytes) (m : ℕ) → m < length leaves → (x : Bytes) × (get_elem? leaves m ≡ some x)
lt-get_elem? [] m h = absurd (omega arith)
lt-get_elem? (y ∷ leaves) zero h = (y, refl)
lt-get_elem? (y ∷ leaves) (suc m) h = lt-get_elem? leaves m (omega arith)

get_elem?-IsDigest :
    (leaves : List Bytes) (m : ℕ) (x : Bytes)
    → All IsDigest leaves
    → get_elem? leaves m ≡ some x
    → IsDigest x
get_elem?-IsDigest [] m x h e = cc
get_elem?-IsDigest (y ∷ leaves) zero x h e = rw at_head h.0
  where
    at_head : x ≡ y
    at_head = sym (some-injective y x e)
get_elem?-IsDigest (y ∷ leaves) (suc m) x h e = get_elem?-IsDigest leaves m x h.1 e

-- `append` on a digest adds it as the last leaf and returns its place, the size before; on any other
-- bytes it returns nothing and leaves the tree as it was. The tree stays well-formed.
pub append-IsWellFormed :
    (t : MerkleTree) (leaf_hash : ContentId)
    → IsWellFormed t
    → IsWellFormed (append t leaf_hash).1
      × (((append t leaf_hash ≡ (none, t)) × (digest32 leaf_hash ≡ none))
          ⊎ ((d : Bytes) × (leaf_hash ≡ as_content_id d)
              × ((append t leaf_hash).0 ≡ some (size t))
              × ((append t leaf_hash).1.leaves ≡ t.leaves ++ d ∷ [])))
unfolding append append_digest size
append-IsWellFormed t leaf_hash h = elim (Option-cases (digest32 leaf_hash)) [
  | inl e ↦ rw e (h, inl (refl, refl))
  | inr (d, e) ↦
      (let (same, len) = digest32-eq-some leaf_hash d e in
        let last : length (t.leaves ++ d ∷ []) - 1 ≡ length t.leaves =
          omega (arith, length-append t.leaves (d ∷ [])) in
        rw e (All-append IsDigest t.leaves (d ∷ []) h (len, tt), inr (d, same, ap some last, refl)))
]

ends_at-Ends :
    (blake3 : Bytes → Bytes) (o : Option FoldState) (r : Bytes)
    → ends_at o r ≡ true
    → Ends blake3 o r
unfolding ends_at
ends_at-Ends blake3 none r h = cc
ends_at-Ends blake3 (some st) r h = (st, refl, ground arith, ground (arith, eq_bytes_iff st.r r))

module _ (blake3 : Bytes → Bytes) where
  fold_inclusion-run :
      (n m : ℕ) (x r : Bytes) (ds : List Bytes)
      → All IsDigest (x ∷ ds)
      → IsDigest r
      → m < n
      → fold_inclusion blake3 (proof_of n m x (map as_content_id ds)) (as_content_id r)
        ≡ ends_at (run blake3 (state m (n - 1) x) ds) r
  unfolding fold_inclusion fold_from
  fold_inclusion-run n m x r ds h hr below =
      let inside : leb n m ≡ false = ground arith in
      rw (
        digest32-as_content_id x h.0,
        digest32-as_content_id r hr,
        inside,
        fold_path-map blake3 (state m (n - 1) x) ds h.1,
      )

  fold_path-digests :
      (st st' : FoldState) (ps : List ContentId)
      → fold_path blake3 st ps ≡ some st'
      → (ds : List Bytes) × (ps ≡ map as_content_id ds) × All IsDigest ds
  unfolding fold_path
  fold_path-digests st st' [] h = ([], refl, tt)
  fold_path-digests st st' (p ∷ ps) h = elim (Option-cases (digest32 p)) [
    | inl e ↦ absurd (let bad = rw (fold_path, e) at h in cc)
    | inr (d, e) ↦
        (let (same, len) = digest32-eq-some p d e in
          let rest : fold_path blake3 (fold_step blake3 st d) ps ≡ some st' =
            (let g = rw (fold_path, e) at h in ground arith) in
          let (ds, is_map, all) = fold_path-digests (fold_step blake3 st d) st' ps rest in
          (d ∷ ds, ap₂ (λ a b. a ∷ b) same is_map, (len, all)))
  ]

  fold_from-digests :
      (p : InclusionProof) (x root : Bytes)
      → (p.leaf_hash ≡ as_content_id x) × IsDigest x
      → fold_from blake3 p (some x) (some root) ≡ true
      → (p.leaf_index < p.tree_size)
        × (x : Bytes) × (ds : List Bytes) × IsDigest x
        × All IsDigest ds
        × (p ≡ proof_of p.tree_size p.leaf_index x (map as_content_id ds))
  unfolding fold_from ends_at
  fold_from-digests p x root (is_x, len) h =
      let inside : leb p.tree_size p.leaf_index ≡ false = ground arith in
      let st = state p.leaf_index (p.tree_size - 1) x in
      elim (Option-cases (fold_path blake3 st p.audit_path)) [
        | inl e ↦ absurd (let bad = rw (fold_from, inside, e) at h in cc)
        | inr (st', e) ↦
            (let (ds, is_map, all) = fold_path-digests st st' p.audit_path e in
              (
                ground arith,
                x,
                ds,
                len,
                all,
                ap₂
                    (λ l a. record {
                      tree_size = p.tree_size;
                      leaf_index = p.leaf_index;
                      leaf_hash = l;
                      audit_path = a;
                    })
                    is_x is_map,
              ))
      ]

  -- An accepted proof is in range, and its hashes are digests.
  fold_inclusion-digests :
      (p : InclusionProof) (r : ContentId)
      → fold_inclusion blake3 p r ≡ true
      → (p.leaf_index < p.tree_size)
        × (x : Bytes) × (ds : List Bytes) × IsDigest x
        × All IsDigest ds
        × (p ≡ proof_of p.tree_size p.leaf_index x (map as_content_id ds))
  unfolding fold_inclusion fold_from
  fold_inclusion-digests p r h = elim (Option-cases (digest32 p.leaf_hash)) [
    | inl e ↦ (let bad : fold_from blake3 p none (digest32 r) ≡ true = rw e at h in absurd (cc))
    | inr (x, e) ↦ elim (Option-cases (digest32 r)) [
      | inl e' ↦
          (let bad : fold_from blake3 p (some x) none ≡ true = rw (e, e') at h in absurd (cc))
      | inr (root, e') ↦
          fold_from-digests p x root (digest32-eq-some p.leaf_hash x e) (rw (e, e') at h)
    ]
  ]

  root_of-eq-some :
      (leaves : List Bytes) (r : ContentId)
      → root_of blake3 leaves ≡ some r
      → (r ≡ as_content_id (mth blake3 leaves)) × (0 < length leaves)
  unfolding root_of
  root_of-eq-some [] r h = cc
  root_of-eq-some (x ∷ rest) r h =
      (sym (some-injective (as_content_id (mth blake3 (x ∷ rest))) r h), omega arith)

module _ (blake3 : Bytes → Bytes) (digest_len : (b : Bytes) → IsDigest (blake3 b)) where
  -- For a hash with digests of 32 bytes, every path that a well-formed tree hands out is accepted: the
  -- path for one of its leaves proves that leaf, at its place, against the root of the tree.
  pub verify_root-inclusion_path :
      (t : MerkleTree) (m : ℕ) (leaf : Bytes) (path : List ContentId) (r : ContentId)
      → IsWellFormed t
      → get_elem? t.leaves m ≡ some leaf
      → inclusion_path blake3 t m ≡ some path
      → root blake3 t ≡ some r
      → verify_root blake3 (proof_of (size t) m leaf path) r ≡ ok tt
  unfolding verify_root size inclusion_path root ends_at
  verify_root-inclusion_path t m leaf path r h at_m is_path is_root =
      let (root_is, pos) = root_of-eq-some blake3 t.leaves r is_root in
      let below = get_elem?-lt t.leaves m leaf at_m in
      let digests = audit_path-IsDigest blake3 digest_len m t.leaves h in
      let inside : leb (length t.leaves) m ≡ false = ground arith in
      let path_is : some (map as_content_id (audit_path blake3 m t.leaves)) ≡ some path =
        rw inside at is_path in
      let path_is' =
        some-injective (map as_content_id (audit_path blake3 m t.leaves)) path path_is in
      let top = mth blake3 t.leaves in
      let equal : eq_bytes top top ≡ true = ground (arith, eq_bytes_iff top top) in
      rw (
        root_is,
        sym path_is',
        fold_inclusion-run blake3 (length t.leaves) m leaf top (audit_path blake3 m t.leaves)
            (get_elem?-IsDigest t.leaves m leaf h at_m, digests)
            (mth-IsDigest blake3 digest_len t.leaves pos h) below,
        run-audit_path blake3 m t.leaves leaf below at_m,
        equal,
      )

  -- For a hash with digests of 32 bytes: a proof accepted against the root of a well-formed tree, and
  -- made for the size of that tree, holds the tree's own path and leaf at its index, or else two inputs
  -- with one digest are exhibited.
  pub verify_root_sound :
      (t : MerkleTree) (p : InclusionProof) (r : ContentId)
      → IsWellFormed t
      → root blake3 t ≡ some r
      → p.tree_size ≡ size t
      → verify_root blake3 p r ≡ ok tt
      → ((inclusion_path blake3 t p.leaf_index ≡ some p.audit_path)
          × (leaf : Bytes) × (get_elem? t.leaves p.leaf_index ≡ some leaf)
          × (p.leaf_hash ≡ as_content_id leaf))
        ⊎ Collision blake3
  unfolding verify_root size inclusion_path root
  verify_root_sound t p r h is_root same_size accepted =
      let (root_is, pos) = root_of-eq-some blake3 t.leaves r is_root in
      let folds : fold_inclusion blake3 p r ≡ true = ground arith in
      let (inside, x, ds, len, digests, is_proof) = fold_inclusion-digests blake3 p r folds in
      let m = p.leaf_index in
      let top = mth blake3 t.leaves in
      let top_digest = mth-IsDigest blake3 digest_len t.leaves pos h in
      let (leaf, at_m) = lt-get_elem? t.leaves m (omega arith) in
      let path = audit_path blake3 m t.leaves in
      let is_proof' : p ≡ proof_of (size t) m x (map as_content_id ds) =
        is_proof ∙ ap (λ n. proof_of n m x (map as_content_id ds)) same_size in
      let in_range : leb (length t.leaves) m ≡ false = ground arith in
      let mine : Ends blake3 (run blake3 (state m (size t - 1) x) ds) top =
        ends_at-Ends blake3 (run blake3 (state m (size t - 1) x) ds) top (
          sym
            (fold_inclusion-run blake3 (size t) m x top ds (len, digests) top_digest (omega arith))
          ∙ ap₂ (λ a b. fold_inclusion blake3 a b) (sym is_proof') (sym root_is)
          ∙ folds) in
      let theirs : Ends blake3 (run blake3 (state m (size t - 1) leaf) path) top =
        (state 0 0 top, run-audit_path blake3 m t.leaves leaf (omega arith) at_m, refl, refl) in
      elim (run_unique blake3 digest_len m (size t - 1) x leaf top ds path (len, digests)
        (
          get_elem?-IsDigest t.leaves m leaf h at_m,
          audit_path-IsDigest blake3 digest_len m t.leaves h,
        )
        mine theirs) [
          | inr c ↦ inr c
          | inl (same, same_path) ↦ inl (
            rw in_range (
                ap some (
                  ap (λ l. map as_content_id l) (sym same_path)
                  ∙ sym (ap (λ (q : InclusionProof). q.audit_path) is_proof'))),
            leaf,
            at_m,
            ap (λ (q : InclusionProof). q.leaf_hash) is_proof' ∙ ap as_content_id same,
          )
        ]
