-- ===== src/Suite/Negotiate.antt =====
-- What `negotiate_suite` of crates/kotva-core/src/suite.rs chooses.
use dmtap.Prelude.{
  ◌≤◌, ◌≡◌, inl, inr, true, false, ◌&&◌, none, some, List, [], ◌∷◌, arith, refl, Option-cases, ◌↔◌,
  ap,
}
use dmtap.Result.{ok, err}
use dmtap.Suite.{
  Suite, as_u8, as_u8-injective, contains, common, max_suite, negotiate_suite, intersection_empty,
}

max_suite-mem : (ss : List Suite) (s : Suite) → max_suite ss ≡ some s → contains ss s ≡ true
unfolding max_suite contains
max_suite-mem [] s h = cc
max_suite-mem (x ∷ ss) s h = elim (Option-cases (max_suite ss)) [
  | inl e ↦ ground arith
  | inr (t, e) ↦ ground (arith, max_suite-mem ss t e)
]

max_suite-none : (ss : List Suite) (t : Suite) → max_suite ss ≡ none → contains ss t ≡ false
unfolding max_suite contains
max_suite-none [] t h = refl
max_suite-none (x ∷ ss) t h = ground arith

max_suite-ge :
    (ss : List Suite) (s t : Suite)
    → max_suite ss ≡ some s
    → contains ss t ≡ true
    → as_u8 t ≤ as_u8 s
unfolding max_suite contains
max_suite-ge [] s t m h = cc
max_suite-ge (x ∷ ss) s t m h = elim (Option-cases (max_suite ss)) [
  | inl e ↦ ground (arith, max_suite-none ss t e)
  | inr (u, e) ↦ ground (arith, max_suite-ge ss u t e)
]

contains-common :
    (sender recipient : List Suite) (t : Suite)
    → contains (common sender recipient) t ≡ contains sender t && contains recipient t
unfolding common contains
contains-common [] recipient t = refl
contains-common (s ∷ sender) recipient t =
    ground (arith, contains-common sender recipient t, as_u8-injective s t)

-- A suite that both parties support.
abbrev pub Shared : List Suite → List Suite → Suite → Type 0
Shared sender recipient t = (contains sender t ≡ true) × (contains recipient t ≡ true)

Shared-iff :
    (sender recipient : List Suite) (t : Suite)
    → (contains (common sender recipient) t ≡ true) ↔ Shared sender recipient t
Shared-iff sender recipient t = (
  λ h. ground (arith, contains-common sender recipient t),
  λ h. ground (arith, contains-common sender recipient t),
)

antisym : (s t : Suite) → as_u8 s ≤ as_u8 t → as_u8 t ≤ as_u8 s → s ≡ t
antisym s t h k = as_u8-injective s t (omega arith)

-- Negotiation returns a suite exactly if both parties support it and no suite that both support has
-- a greater byte.
pub negotiate_suite-eq-ok_iff :
    (sender recipient : List Suite) (s : Suite)
    → (negotiate_suite sender recipient ≡ ok s)
      ↔ (Shared sender recipient s × ((t : Suite) → Shared sender recipient t → as_u8 t ≤ as_u8 s))
unfolding negotiate_suite
negotiate_suite-eq-ok_iff sender recipient s = (
  λ h.
      let found : max_suite (common sender recipient) ≡ some s = ground arith in
      (
        (Shared-iff sender recipient s).0 (max_suite-mem (common sender recipient) s found),
        λ t both.
            max_suite-ge (common sender recipient) s t found
              ((Shared-iff sender recipient t).1 both),
      ),
  λ (both, top). elim (Option-cases (max_suite (common sender recipient))) [
    | inl e ↦
        cc (max_suite-none (common sender recipient) s e, (Shared-iff sender recipient s).1 both)
    | inr (u, e) ↦
        let u_shared =
          (Shared-iff sender recipient u).0 (max_suite-mem (common sender recipient) u e) in
        let above =
          max_suite-ge (common sender recipient) u s e ((Shared-iff sender recipient s).1 both) in
        rw e (ap ok (antisym u s (top u u_shared) above))
  ],
)

-- Negotiation fails exactly if no suite is supported by both: there is no silent downgrade.
pub negotiate_suite-eq-err_iff :
    (sender recipient : List Suite)
    → (negotiate_suite sender recipient ≡ err intersection_empty)
      ↔ ((t : Suite) → ¬ Shared sender recipient t)
unfolding negotiate_suite
negotiate_suite-eq-err_iff sender recipient = (
  λ h t both.
      let nothing : max_suite (common sender recipient) ≡ none = ground arith in
      cc (
        max_suite-none (common sender recipient) t nothing,
        (Shared-iff sender recipient t).1 both,
      ),
  λ apart. elim (Option-cases (max_suite (common sender recipient))) [
    | inl e ↦ rw e
    | inr (u, e) ↦
        absurd (
          apart u ((Shared-iff sender recipient u).0 (max_suite-mem (common sender recipient) u e)))
  ],
)
