-- ===== src/Kt/Merkle/Unique.antt =====
-- What two accepted runs of the loop of `fold_inclusion` in crates/kotva-core/src/kt.rs have in common.
use mathlib.Core.Option.{some-injective}
use dmtap.Prelude.{
  ℕ, ◌<◌, ◌≡◌, ◌≢◌, ◌⊎◌, inl, inr, refl, sym, ap, ap₂, ◌∙◌, true, false, Bool, Bytes, List, [], ◌∷◌,
  ◌++◌, Option, some, length, All, ◌==◌, ◌||◌, arith, Bool-cases, take, drop, eq_bytes,
  eq_bytes_iff, take-append, drop-append, if◌then◌else◌,
}
use dmtap.Id.{ContentId, mh_blake3_256}
use dmtap.Kt.Merkle.{digest_of, digest32, as_content_id, FoldState, node, fold_step, is_odd}
use dmtap.Kt.Merkle.Fold.{state, run, IsDigest}

digest_of-eq-some : (bs d : Bytes) → digest_of bs ≡ some d → (bs ≡ mh_blake3_256 ∷ d) × IsDigest d
unfolding digest_of
digest_of-eq-some [] d h = cc
digest_of-eq-some (a ∷ rest) d h = ground arith

pub digest32-eq-some :
    (i : ContentId) (d : Bytes) → digest32 i ≡ some d → (i ≡ as_content_id d) × IsDigest d
unfolding digest32 as_content_id
digest32-eq-some i d h =
    let (same, len) = digest_of-eq-some i.bytes d h in
    (ap (λ (b : Bytes). record { bytes = b }) same, len)

module _ (blake3 : Bytes → Bytes) where
  -- Two inputs that `blake3` takes to one digest.
  abbrev pub Collision : Type 0
  Collision = (x y : Bytes) × (x ≢ y) × (blake3 x ≡ blake3 y)

  node-cases :
      (a b c d : Bytes)
      → length a ≡ length c
      → node blake3 a b ≡ node blake3 c d
      → ((a ≡ c) × (b ≡ d)) ⊎ Collision
  unfolding node
  node-cases a b c d len h = elim (Bool-cases (eq_bytes (a ++ b) (c ++ d))) [
    | inl e ↦
        (let same : a ++ b ≡ c ++ d = ground (arith, eq_bytes_iff (a ++ b) (c ++ d)) in
          inl (
            sym (take-append a b) ∙ ap₂ take len same ∙ take-append c d,
            sym (drop-append a b) ∙ ap₂ drop len same ∙ drop-append c d,
          ))
    | inr e ↦ inr (
      0x01 ∷ (a ++ b),
      0x01 ∷ (c ++ d),
      (λ q. let same : a ++ b ≡ c ++ d = cc in ground (arith, eq_bytes_iff (a ++ b) (c ++ d))),
      h,
    )
  ]

  -- The indices of the next level do not depend on the hashes, nor does the side of the sibling.
  fold_step-state :
      (n l : ℕ) (x d : Bytes)
      → fold_step blake3 (state n l x) d
        ≡ state
            (fold_step blake3 (state n l []) []).node_idx
            (fold_step blake3 (state n l []) []).last_idx
            (if is_odd n || n == l then node blake3 d x else node blake3 x d)
  unfolding fold_step
  fold_step-state n l x d = elim (Bool-cases (is_odd n || n == l)) [ inl e ↦ rw e | inr e ↦ rw e ]

  abbrev pub Ends : Option FoldState → Bytes → Type 0
  Ends o r = (st : FoldState) × (o ≡ some st) × (st.last_idx ≡ 0) × (st.r ≡ r)

  Ends-nil :
      (st : FoldState) (root : Bytes)
      → Ends (run blake3 st []) root
      → (st.last_idx ≡ 0) × (st.r ≡ root)
  unfolding run
  Ends-nil st root (st', e, last, r) =
      let same : st ≡ st' = some-injective st st' e in
      (ap (λ (s : FoldState). s.last_idx) same ∙ last, ap (λ (s : FoldState). s.r) same ∙ r)

  Ends-cons :
      (st : FoldState) (d : Bytes) (ds : List Bytes) (root : Bytes)
      → Ends (run blake3 st (d ∷ ds)) root
      → (0 < st.last_idx) × Ends (run blake3 (fold_step blake3 st d) ds) root
  unfolding run
  Ends-cons st d ds root (st', e, last, r) = ground arith

module _ (blake3 : Bytes → Bytes) (digest_len : (b : Bytes) → IsDigest (blake3 b)) where
  parent-cases :
      (left : Bool) (x y d e : Bytes)
      → IsDigest x
      → IsDigest y
      → IsDigest d
      → IsDigest e
      → (if left then node blake3 d x else node blake3 x d)
        ≡ (if left then node blake3 e y else node blake3 y e)
      → ((x ≡ y) × (d ≡ e)) ⊎ Collision blake3
  parent-cases true x y d e hx hy hd he h = elim (node-cases blake3 d x e y (hd ∙ sym he) h) [
    | inl (same, same') ↦ inl (same', same)
    | inr c ↦ inr c
  ]
  parent-cases false x y d e hx hy hd he h = node-cases blake3 x d y e (hx ∙ sym hy) h

  parent-IsDigest :
      (left : Bool) (x d : Bytes) → IsDigest (if left then node blake3 d x else node blake3 x d)
  unfolding node
  parent-IsDigest true x d = digest_len _
  parent-IsDigest false x d = digest_len _

  -- The runs of two paths from one place to one root are the same, or show a collision.
  pub run_unique :
      (n l : ℕ) (x y root : Bytes) (ds es : List Bytes)
      → All IsDigest (x ∷ ds)
      → All IsDigest (y ∷ es)
      → Ends blake3 (run blake3 (state n l x) ds) root
      → Ends blake3 (run blake3 (state n l y) es) root
      → ((x ≡ y) × (ds ≡ es)) ⊎ Collision blake3
  run_unique n l x y root [] [] hx hy h h' = inl (
    (Ends-nil blake3 (state n l x) root h).1 ∙ sym (Ends-nil blake3 (state n l y) root h').1,
    refl,
  )
  run_unique n l x y root [] (e ∷ es) hx hy h h' =
      let zero_left = (Ends-nil blake3 (state n l x) root h).0 in
      let some_left = (Ends-cons blake3 (state n l y) e es root h').0 in absurd (omega arith)
  run_unique n l x y root (d ∷ ds) [] hx hy h h' =
      let zero_left = (Ends-nil blake3 (state n l y) root h').0 in
      let some_left = (Ends-cons blake3 (state n l x) d ds root h).0 in absurd (omega arith)
  run_unique n l x y root (d ∷ ds) (e ∷ es) hx hy h h' =
      let left = is_odd n || n == l in
      let n' = (fold_step blake3 (state n l []) []).node_idx in
      let l' = (fold_step blake3 (state n l []) []).last_idx in
      let x' = if left then node blake3 d x else node blake3 x d in
      let y' = if left then node blake3 e y else node blake3 y e in
      let hx' : All IsDigest (x' ∷ ds) = (parent-IsDigest left x d, hx.1.1) in
      let hy' : All IsDigest (y' ∷ es) = (parent-IsDigest left y e, hy.1.1) in
      let step = fold_step-state blake3 n l x d in
      let step' = fold_step-state blake3 n l y e in
      let run_x : Ends blake3 (run blake3 (state n' l' x') ds) root =
        rw step at (Ends-cons blake3 (state n l x) d ds root h).1 in
      let run_y : Ends blake3 (run blake3 (state n' l' y') es) root =
        rw step' at (Ends-cons blake3 (state n l y) e es root h').1 in
      elim (run_unique n' l' x' y' root ds es hx' hy' run_x run_y) [
        | inr c ↦ inr c
        | inl (same, rest) ↦ elim (parent-cases left x y d e hx.0 hy.0 hx.1.0 hy.1.0 same) [
          | inr c ↦ inr c
          | inl (same_x, same_d) ↦ inl (same_x, ap₂ (λ a b. a ∷ b) same_d rest)
        ]
      ]
