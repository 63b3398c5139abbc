-- ===== src/Mail/Pop3/Numbers.antt =====
-- The message numbers of crates/kotva-mail/src/pop3.rs.
use mathlib.Core.Option.{some-injective}
use dmtap.Prelude.{
  ℕ, zero, suc, ◌+◌, ◌-◌, ◌^◌, ◌<◌, ◌≡◌, ◌↔◌, inl, inr, refl, false, ◌||◌, List, [], ◌∷◌, Option,
  none, some, length, get_elem?, ltb, ◌==◌, arith, Bool-cases,
}
use dmtap.Mail.Text.{decimal}
use dmtap.Mail.Text.Laws.{parse_usize-decimal}
use dmtap.Mail.Pop3.{Slot, Pop3Session, kept, index_of}

get_elem?-bound :
    {A : Type 0} (xs : List A) (i : ℕ) (x : A) → get_elem? xs i ≡ some x → i < length xs
get_elem?-bound [] i x e = cc
get_elem?-bound (y ∷ xs) zero x e = omega arith
get_elem?-bound (y ∷ xs) (suc i) x e = omega (arith, get_elem?-bound xs i x e)

kept-eq-some :
    (j i : ℕ) (o : Option Slot)
    → kept j o ≡ some i
    → (j ≡ i) × (slot : Slot) × (o ≡ some slot) × (slot.deleted ≡ false)
unfolding kept
kept-eq-some j i none h = cc
kept-eq-some j i (some slot) h = elim (Bool-cases slot.deleted) [
  | inl d ↦ (let bad : none ≡ some i = rw d at h in cc)
  | inr d ↦ (some-injective j i (rw d at h), slot, refl, d)
]

some-kept :
    (j : ℕ) (o : Option Slot) (slot : Slot)
    → o ≡ some slot
    → slot.deleted ≡ false
    → kept j o ≡ some j
unfolding kept
some-kept j o slot e d = rw (e, kept, d) refl

-- A number names a message exactly if it is the place, counted from one, of a slot that is not marked as
-- deleted: zero, numbers beyond the last slot and deleted messages name none.
pub index_of-decimal_iff :
    (s : Pop3Session) (n i : ℕ)
    → n < 2 ^ 64
    → (index_of s (decimal n) ≡ some i)
      ↔ ((n ≡ i + 1) × (slot : Slot) × (get_elem? s.slots i ≡ some slot) × (slot.deleted ≡ false))
unfolding index_of
index_of-decimal_iff s n i h =
    let read = parse_usize-decimal n h in
    elim (Bool-cases (n == 0 || ltb (length s.slots) n)) [
      | inl out ↦
          rw (index_of, read, out)
            (
              (λ e. cc),
              λ (place, slot, at_i, there).
                  (let bound = get_elem?-bound s.slots i slot at_i in
                    let bad : (n == 0 || ltb (length s.slots) n) ≡ false = ground arith in
                    cc (bad, out)),
            )
      | inr within ↦
          rw (index_of, read, within)
            (
              (λ e.
                  (let (place, slot, at_i, there) =
                      kept-eq-some (n - 1) i (get_elem? s.slots (n - 1)) e in
                    (ground arith, slot, rw place at at_i, there))),
              λ (place, slot, at_i, there).
                  (let before : n - 1 ≡ i = omega arith in
                    rw before (some-kept i (get_elem? s.slots i) slot at_i there)),
            )
    ]
