-- ===== src/Store/Lookup.antt =====
-- What `append` and `remove_at` of crates/kotva-mail/src/store.rs do to `index_of_uid`.
use mathlib.Core.Option.{some-injective}
use dmtap.Prelude.{
  ℕ, zero, suc, inl, inr, ◌+◌, ◌≡◌, refl, ap, true, false, Bytes, List, [], ◌∷◌, ◌++◌, none, some,
  length, get_elem?, All, arith, Option-cases,
}
use dmtap.Store.{Flag, Message, new_message, Mailbox, exists, append, remove_at, index_of_uid}
use dmtap.Store.Uids.{holds, holds-remove, IsOlder, IsWellFormed, HasRoom}
use dmtap.Store.Keep.{append_lem, remove_at_lem, append_op, remove_op, step, step-IsWellFormed}
use dmtap.Store.Search.{index_of_uid-eq-some_iff}

get_elem?-last : {A : Type 0} (xs : List A) (x : A) → get_elem? (xs ++ x ∷ []) (length xs) ≡ some x
get_elem?-last [] x = refl
get_elem?-last (y ∷ xs) x = get_elem?-last xs x

holds-older : (ms : List Message) (n h : ℕ) → All (IsOlder n h) ms → holds ms n ≡ false
unfolding holds
holds-older [] n h older = refl
holds-older (m ∷ ms) n h older = ground (arith, holds-older ms n h older.1)

holds-get_elem? :
    (ms : List Message) (i : ℕ) (m : Message) → get_elem? ms i ≡ some m → holds ms m.uid ≡ true
unfolding holds
holds-get_elem? [] i m e = cc
holds-get_elem? (x ∷ ms) zero m e =
    let same : x.uid ≡ m.uid = ap (λ (y : Message). y.uid) (some-injective x m e) in ground arith
holds-get_elem? (x ∷ ms) (suc i) m e = ground (arith, holds-get_elem? ms i m e)

-- A message that is appended to a well-formed mailbox, while the counters have room, gets a UID that the
-- mailbox did not hold, and is then found under it, in the last place.
index_of_uid-append :
    (mb : Mailbox) (raw : Bytes) (flags : List Flag) (date : ℕ)
    → HasRoom mb
    → IsWellFormed mb
    → (holds mb.messages (append mb raw flags date).0 ≡ false)
      × (index_of_uid (append mb raw flags date).1 (append mb raw flags date).0 ≡ some (exists mb))
unfolding exists step
index_of_uid-append mb raw flags date room (rising, older, gone) =
    let wf : IsWellFormed mb = (rising, older, gone) in
    let m = new_message mb.uid_next flags date (mb.highest_modseq + 1) raw in
    let wf' = step-IsWellFormed mb (append_op raw flags date) room wf in
    let eq = append_lem mb raw flags date room in
    (
      rw eq (holds-older mb.messages mb.uid_next mb.highest_modseq older),
      (index_of_uid-eq-some_iff (append mb raw flags date).1 (append mb raw flags date).0
            (length mb.messages) wf').1
          (rw eq (m, get_elem?-last mb.messages m, refl)),
    )

-- In a well-formed mailbox, while the counters have room, a UID that `remove_at` returns was found at the
-- index given and is not found any more.
index_of_uid-remove_at :
    (mb : Mailbox) (i u : ℕ)
    → HasRoom mb
    → IsWellFormed mb
    → (remove_at mb i).0 ≡ some u
    → (index_of_uid mb u ≡ some i) × (index_of_uid (remove_at mb i).1 u ≡ none)
unfolding remove_at step
index_of_uid-remove_at mb i u room wf removed = elim (Option-cases (get_elem? mb.messages i)) [
  | inl e ↦ (let bad : none ≡ some u = rw (remove_at, e) at removed in cc)
  | inr (m, e) ↦
      (let eq = remove_at_lem mb i m room e in
        let is_u : m.uid ≡ u = some-injective m.uid u (rw eq at removed) in
        let wf' = step-IsWellFormed mb (remove_op i) room wf in
        let out : holds (remove_at mb i).1.messages u ≡ false =
          rw eq (let gone = holds-remove 0 mb.messages i m u wf.0 e in ground arith) in
        (
          (index_of_uid-eq-some_iff mb u i wf).1 (m, e, is_u),
          elim (Option-cases (index_of_uid (remove_at mb i).1 u)) [
            | inl none_left ↦ none_left
            | inr (j, found) ↦
                (let (n, at_j, n_u) =
                    (index_of_uid-eq-some_iff (remove_at mb i).1 u j wf').0 found in
                  let here = holds-get_elem? (remove_at mb i).1.messages j n at_j in
                  let here' : holds (remove_at mb i).1.messages u ≡ true = rw n_u at here in
                  absurd (cc (here', out)))
          ],
        ))
]
