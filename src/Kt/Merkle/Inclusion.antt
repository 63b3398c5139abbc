-- ===== src/Kt/Merkle/Inclusion.antt =====
-- The proofs that the tree of crates/kotva-core/src/kt.rs issues, against `fold_inclusion`.
use dmtap.Prelude.{
  ℕ, zero, suc, ◌+◌, ◌-◌, ◌*◌, ◌/◌, ◌^◌, ◌<◌, ◌≤◌, ◌≡◌, inl, inr, refl, sym, ap, ap₂, ◌∙◌, Bytes,
  List, [], ◌∷◌, some, length, take, drop, get_elem?, ltb, leb, arith, pow-suc, length-take,
  length-drop, get_elem?-take, get_elem?-drop, lt→ltb, le→ltb, Bool-cases,
}
use mathlib.Core.Option.{some-injective}
use dmtap.Kt.Merkle.{FoldState, split_point, mth, mth_loop, audit_path, audit_loop, fold_step}
use dmtap.Kt.Merkle.Split.{split_point-pow, mth-split, audit_path-split, le-pow}
use dmtap.Kt.Merkle.Fold.{state, run, run-snoc, step-left, step-right, step-edge, odd_shift_lt}

-- The place of a node one level down.
halve :
    (p l t : ℕ)
    → t < p * 2
    → (l' t' : ℕ) × (l * (p * 2) + t ≡ l' * p + t') × (t' < p) × (l' / 2 ≡ l) × (2 * l ≤ l')
halve p l t h = elim (Bool-cases (ltb t p)) [
  | inl e ↦ (2 * l, t, omega arith, ground arith, omega arith, omega arith)
  | inr e ↦ (2 * l + 1, t - p, ground arith, ground arith, omega arith, omega arith)
]

module _ (blake3 : Bytes → Bytes) where
  -- A path for the leaf `m` of a subtree, from the place `m` of the subtree's first leaf on.
  Reaches : List Bytes → ℕ → ℕ → ℕ → FoldState → Type 0
  Reaches leaves m node_idx last_idx st =
      (x : Bytes)
      → get_elem? leaves m ≡ some x
      → run blake3 (state node_idx last_idx x) (audit_path blake3 m leaves) ≡ some st

  moved :
      (leaves : List Bytes) (m : ℕ) {n n' l l' : ℕ} {st st' : FoldState}
      → n ≡ n'
      → l ≡ l'
      → st' ≡ st
      → Reaches leaves m n' l' st'
      → Reaches leaves m n l st
  moved leaves m en el es h = rw (en, el, sym es) h

  one_leaf :
      (q l t m : ℕ) (leaves : List Bytes)
      → length leaves ≡ 1
      → m ≡ 0
      → Reaches leaves m q l (state q l (mth blake3 leaves))
  unfolding Reaches run mth mth_loop audit_path audit_loop
  one_leaf q l t m [] len hm x e = absurd (omega arith)
  one_leaf q l t zero (y ∷ []) len hm x e =
      ap (λ (r : Bytes). some (state q l r)) (sym (some-injective y x e))
  one_leaf q l t (suc m) (y ∷ []) len hm x e = absurd (omega arith)
  one_leaf q l t m (y ∷ z ∷ rest) len hm x e = absurd (omega arith)

  Reaches-left :
      (leaves : List Bytes) (m n l : ℕ) (st : FoldState)
      → 1 < length leaves
      → m < split_point (length leaves)
      → 0 < st.last_idx
      → Reaches (take (split_point (length leaves)) leaves) m n l st
      → Reaches leaves m n l
          (fold_step blake3 st (mth blake3 (drop (split_point (length leaves)) leaves)))
  unfolding Reaches
  Reaches-left leaves m n l st big h pos ih x e =
      let k = split_point (length leaves) in
      let path = audit_path-split blake3 m leaves big in
      let below = lt→ltb m k h in
      rw (path, below)
        (run-snoc blake3 (state n l x) st (audit_path blake3 m (take k leaves))
          (mth blake3 (drop k leaves)) (ih x (get_elem?-take k m leaves h ∙ e)) pos)

  Reaches-right :
      (leaves : List Bytes) (m n l : ℕ) (st : FoldState)
      → 1 < length leaves
      → split_point (length leaves) ≤ m
      → 0 < st.last_idx
      → Reaches (drop (split_point (length leaves)) leaves) (m - split_point (length leaves)) n l st
      → Reaches leaves m n l
          (fold_step blake3 st (mth blake3 (take (split_point (length leaves)) leaves)))
  unfolding Reaches
  Reaches-right leaves m n l st big h pos ih x e =
      let k = split_point (length leaves) in
      let path = audit_path-split blake3 m leaves big in
      let above = le→ltb m k h in
      rw (path, above)
        (run-snoc blake3 (state n l x) st (audit_path blake3 (m - k) (drop k leaves))
          (mth blake3 (take k leaves)) (ih x (get_elem?-drop k m leaves h ∙ e)) pos)

  -- In a full subtree, the path ends at the subtree's place, `q` of its level, which is not the last.
  Reaches-full :
      (j q l t m : ℕ) (leaves : List Bytes)
      → length leaves ≡ 2 ^ j
      → m < 2 ^ j
      → t < 2 ^ j
      → q < l
      → Reaches leaves m (q * 2 ^ j + m) (l * 2 ^ j + t) (state q l (mth blake3 leaves))
  Reaches-full zero q l t m leaves len hm ht hq =
      moved leaves m (omega arith) (omega arith) refl (one_leaf q l t m leaves len (omega arith))
  Reaches-full (suc j) q l t m leaves len hm ht hq =
      let two = pow-suc 2 j in
      let pos = le-pow j in
      let k = split_point (length leaves) in
      let at_k : k ≡ 2 ^ j = split_point-pow j (length leaves) (omega arith) (omega arith) in
      let left : length (take k leaves) ≡ k = length-take k leaves (omega arith) in
      let right = length-drop k leaves in
      let whole = mth-split blake3 leaves (omega arith) in
      let (l', t', place, small, half, even) = halve (2 ^ j) l t (omega arith) in
      let last : l * 2 ^ suc j + t ≡ l' * 2 ^ j + t' = omega (arith, ap (λ (p : ℕ). l * p) two) in
      elim (Bool-cases (ltb m k)) [
        | inl e ↦
            (let first : q * 2 ^ suc j + m ≡ 2 * q * 2 ^ j + m =
                omega (arith, ap (λ (p : ℕ). q * p) two) in
              let step =
                step-left blake3 q l' (mth blake3 (take k leaves)) (mth blake3 (drop k leaves))
                  (omega arith) in
              let goal =
                Reaches-left leaves m (2 * q * 2 ^ j + m) (l' * 2 ^ j + t')
                  (state (2 * q) l' (mth blake3 (take k leaves))) (omega arith) (ground arith)
                  (omega arith)
                  (Reaches-full j (2 * q) l' t' m (take k leaves) (omega arith) (ground arith) small
                    (omega arith)) in
              moved leaves m first last (step ∙ ap₂ (λ a r. state q a r) half (sym whole)) goal)
        | inr e ↦
            (let first : q * 2 ^ suc j + m ≡ (2 * q + 1) * 2 ^ j + (m - k) =
                (let above : k ≤ m = ground arith in omega (arith, ap (λ (p : ℕ). q * p) two)) in
              let step =
                step-right blake3 q l' (mth blake3 (drop k leaves)) (mth blake3 (take k leaves)) in
              let goal =
                Reaches-right leaves m ((2 * q + 1) * 2 ^ j + (m - k)) (l' * 2 ^ j + t')
                  (state (2 * q + 1) l' (mth blake3 (drop k leaves))) (omega arith) (ground arith)
                  (omega arith)
                  (Reaches-full j (2 * q + 1) l' t' (m - k) (drop k leaves) (omega arith)
                    (omega arith) small (omega arith)) in
              moved leaves m first last (step ∙ ap₂ (λ a r. state q a r) half (sym whole)) goal)
      ]

  edge-left :
      (j q m : ℕ) (leaves : List Bytes)
      → 2 ^ j < length leaves
      → length leaves ≤ 2 ^ suc j
      → m < split_point (length leaves)
      → Reaches leaves m
          (q * 2 ^ suc j + m)
          (q * 2 ^ suc j + (length leaves - 1))
          (state q q (mth blake3 leaves))
  edge-left j q m leaves above below hm =
      let two = pow-suc 2 j in
      let pos = le-pow j in
      let k = split_point (length leaves) in
      let at_k : k ≡ 2 ^ j = split_point-pow j (length leaves) above below in
      let left : length (take k leaves) ≡ k = length-take k leaves (omega arith) in
      let t = length leaves - 1 - 2 ^ j in
      let whole = mth-split blake3 leaves (omega arith) in
      let double = ap (λ (p : ℕ). q * p) two in
      let first : q * 2 ^ suc j + m ≡ 2 * q * 2 ^ j + m = omega (arith, double) in
      let last : q * 2 ^ suc j + (length leaves - 1) ≡ (2 * q + 1) * 2 ^ j + t =
        omega (arith, double) in
      let half : (2 * q + 1) / 2 ≡ q = omega arith in
      let step =
        step-left blake3 q (2 * q + 1) (mth blake3 (take k leaves)) (mth blake3 (drop k leaves))
          (omega arith) in
      moved leaves m first last (step ∙ ap₂ (λ a r. state q a r) half (sym whole)) (
        Reaches-left leaves m (2 * q * 2 ^ j + m) ((2 * q + 1) * 2 ^ j + t)
          (state (2 * q) (2 * q + 1) (mth blake3 (take k leaves))) (omega arith) hm (omega arith)
          (Reaches-full j (2 * q) (2 * q + 1) t m (take k leaves) (omega arith) (omega arith)
            (omega arith) (omega arith)))

  edge-right :
      (j q m s : ℕ) (leaves : List Bytes)
      → 2 ^ j < length leaves
      → length leaves ≤ 2 ^ suc j
      → split_point (length leaves) ≤ m
      → Reaches
          (drop (split_point (length leaves)) leaves)
          (m - split_point (length leaves))
          ((2 * q + 1) * 2 ^ j + (m - split_point (length leaves)))
          ((2 * q + 1) * 2 ^ j + (length (drop (split_point (length leaves)) leaves) - 1))
          (state
            ((2 * q + 1) * 2 ^ s)
            ((2 * q + 1) * 2 ^ s)
            (mth blake3 (drop (split_point (length leaves)) leaves)))
      → Reaches leaves m
          (q * 2 ^ suc j + m)
          (q * 2 ^ suc j + (length leaves - 1))
          (state q q (mth blake3 leaves))
  edge-right j q m s leaves above below hm ih =
      let two = pow-suc 2 j in
      let k = split_point (length leaves) in
      let at_k : k ≡ 2 ^ j = split_point-pow j (length leaves) above below in
      let right = length-drop k leaves in
      let whole = mth-split blake3 leaves (omega (arith, le-pow j)) in
      let double = ap (λ (p : ℕ). q * p) two in
      let first : q * 2 ^ suc j + m ≡ (2 * q + 1) * 2 ^ j + (m - k) = omega (arith, double) in
      let last : q * 2 ^ suc j + (length leaves - 1)
          ≡ (2 * q + 1) * 2 ^ j + (length (drop k leaves) - 1) =
        omega (arith, double) in
      let step = step-edge blake3 q s (mth blake3 (drop k leaves)) (mth blake3 (take k leaves)) in
      moved leaves m first last (step ∙ ap (λ r. state q q r) (sym whole)) (
        Reaches-right leaves m ((2 * q + 1) * 2 ^ j + (m - k))
          ((2 * q + 1) * 2 ^ j + (length (drop k leaves) - 1))
          (state ((2 * q + 1) * 2 ^ s) ((2 * q + 1) * 2 ^ s) (mth blake3 (drop k leaves)))
          (omega (arith, le-pow j)) hm (omega (arith, odd_shift_lt q s)) ih)

  -- On the right edge of a tree, a subtree may be short of levels: the place is not shifted for those.
  Reaches-edge :
      (j q m : ℕ) (leaves : List Bytes)
      → length leaves ≤ 2 ^ j
      → m < length leaves
      → (s : ℕ) × Reaches leaves m
          (q * 2 ^ j + m)
          (q * 2 ^ j + (length leaves - 1))
          (state (q * 2 ^ s) (q * 2 ^ s) (mth blake3 leaves))
  Reaches-edge zero q m leaves len hm =
      let one : q * 2 ^ 0 ≡ q = omega arith in
      (
        0,
        moved leaves m (omega arith) (omega arith)
            (ap (λ x. state x x (mth blake3 leaves)) (sym one))
            (one_leaf q q 0 m leaves (omega arith) (omega arith)),
      )
  Reaches-edge (suc j) q m leaves len hm =
      let double = ap (λ (p : ℕ). q * p) (pow-suc 2 j) in
      let k = split_point (length leaves) in
      let one : q * 2 ^ 0 ≡ q = omega arith in
      let back = ap (λ x. state x x (mth blake3 leaves)) (sym one) in
      elim (Bool-cases (leb (length leaves) (2 ^ j))) [
        | inl e ↦
            (let small : length leaves ≤ 2 ^ j = ground arith in
              let (s, ih) = Reaches-edge j (2 * q) m leaves small hm in
              let place : q * 2 ^ suc s ≡ 2 * q * 2 ^ s =
                omega (arith, ap (λ (p : ℕ). q * p) (pow-suc 2 s)) in
              (
                suc s,
                moved leaves m (omega (arith, double)) (omega (arith, double))
                    (ap (λ x. state x x (mth blake3 leaves)) (sym place)) ih,
              ))
        | inr e ↦
            (let above : 2 ^ j < length leaves = ground arith in
              let at_k : k ≡ 2 ^ j = split_point-pow j (length leaves) above len in
              let right = length-drop k leaves in
              elim (Bool-cases (ltb m k)) [
                | inl e' ↦
                    (let hk : m < k = ground arith in
                      (0, moved leaves m refl refl back (edge-left j q m leaves above len hk)))
                | inr e' ↦
                    (let hk : k ≤ m = ground arith in
                      let (s, ih) =
                        Reaches-edge j (2 * q + 1) (m - k) (drop k leaves)
                          (omega (arith, pow-suc 2 j)) (omega arith) in
                      (
                        0,
                        moved leaves m refl refl back (edge-right j q m s leaves above len hk ih),
                      ))
              ])
      ]

  -- The loop of `fold_inclusion` over the path of a leaf ends at level 0 with the root.
  pub run-audit_path :
      (m : ℕ) (leaves : List Bytes) (x : Bytes)
      → m < length leaves
      → get_elem? leaves m ≡ some x
      → run blake3 (state m (length leaves - 1) x) (audit_path blake3 m leaves)
        ≡ some (state 0 0 (mth blake3 leaves))
  unfolding Reaches
  run-audit_path m leaves x hm e =
      let n = length leaves in
      let (s, h) = Reaches-edge n 0 m leaves (omega (arith, le-pow n)) hm in
      let none_left : 0 * 2 ^ s ≡ 0 = omega arith in
      moved leaves m (omega arith) (omega arith) (ap (λ x. state x x (mth blake3 leaves)) none_left)
        h x e
