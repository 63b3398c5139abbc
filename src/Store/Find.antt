-- ===== src/Store/Find.antt =====
-- What `by_uid` of crates/kotva-mail/src/store.rs finds in a mailbox, before and after `append` and `remove_at`.
use mathlib.Core.Option.{some-injective}
use dmtap.Prelude.{
  ℕ, zero, suc, ◌+◌, ◌<◌, ◌≤◌, ◌≡◌, inl, inr, refl, sym, ap, ◌∙◌, Bytes, List, [], ◌∷◌, ◌++◌,
  Option, none, some, get_elem?, All, ◌==◌, arith, if◌then◌else◌, Option-cases, Bool-cases,
}
use dmtap.Store.{
  Flag, Message, new_message, Mailbox, index_of_uid, by_uid, append, remove, remove_at,
}
use dmtap.Store.Uids.{IsRising, IsOlder, IsWellFormed, HasRoom}
use dmtap.Store.Keep.{append_op, remove_op, step, step-IsWellFormed, append_lem, remove_at_lem}
use dmtap.Store.Search.{index_of_uid-eq-some_iff}

-- The message with the UID `u`, first come.
unfoldable find : List Message → ℕ → Option Message
find [] u = none
find (m ∷ ms) u = if m.uid == u then some m else find ms u

find-below : (lo : ℕ) (ms : List Message) (u : ℕ) → IsRising lo ms → u < lo → find ms u ≡ none
unfolding find
find-below lo [] u rising h = refl
find-below lo (m ∷ ms) u rising h = ground (arith, find-below (suc m.uid) ms u rising.1)

get-find :
    (lo : ℕ) (ms : List Message) (i : ℕ) (m : Message)
    → IsRising lo ms
    → get_elem? ms i ≡ some m
    → (find ms m.uid ≡ some m) × (lo ≤ m.uid)
unfolding find
get-find lo [] i m rising e = cc
get-find lo (x ∷ ms) zero m rising e =
    let same : x ≡ m = some-injective x m e in
    let uids : x.uid ≡ m.uid = ap (λ (y : Message). y.uid) same in ground arith
get-find lo (x ∷ ms) (suc i) m rising e =
    let rest = get-find (suc x.uid) ms i m rising.1 e in ground arith

find-get :
    (ms : List Message) (u : ℕ) (m : Message)
    → find ms u ≡ some m
    → (i : ℕ) × (get_elem? ms i ≡ some m) × (m.uid ≡ u)
unfolding find
find-get [] u m e = cc
find-get (x ∷ ms) u m e = elim (Bool-cases (x.uid == u)) [
  | inl here ↦
      (let same : x ≡ m = some-injective x m (rw here at e) in
        (0, ap (λ y. some y) same, ap (λ (y : Message). y.uid) (sym same) ∙ ground arith))
  | inr other ↦ (let (i, at_i, is_u) = find-get ms u m (rw other at e) in (suc i, at_i, is_u))
]

by_uid-find : (mb : Mailbox) (u : ℕ) → IsWellFormed mb → by_uid mb u ≡ find mb.messages u
unfolding by_uid
by_uid-find mb u wf = elim (Option-cases (index_of_uid mb u)) [
  | inr (i, e) ↦
      (let (m, at_i, is_u) = (index_of_uid-eq-some_iff mb u i wf).0 e in
        rw (by_uid, e) (at_i ∙ rw is_u at (sym (get-find 0 mb.messages i m wf.0 at_i).0)))
  | inl e ↦ elim (Option-cases (find mb.messages u)) [
    | inl f ↦ rw (by_uid, e, f) refl
    | inr (m, f) ↦
        (let (i, at_i, is_u) = find-get mb.messages u m f in
          let found = (index_of_uid-eq-some_iff mb u i wf).1 (m, at_i, is_u) in
          absurd (cc (e, found)))
  ]
]

find-remove :
    (lo : ℕ) (ms : List Message) (i : ℕ) (m : Message) (u : ℕ)
    → IsRising lo ms
    → get_elem? ms i ≡ some m
    → find (remove ms i) u ≡ (if m.uid == u then none else find ms u)
unfolding find remove
find-remove lo [] i m u rising e = cc
find-remove lo (x ∷ ms) zero m u rising e =
    let same : x ≡ m = some-injective x m e in
    let uids : x.uid ≡ m.uid = ap (λ (y : Message). y.uid) same in
    ground (arith, find-below (suc x.uid) ms u rising.1)
find-remove lo (x ∷ ms) (suc i) m u rising e =
    let rest = find-remove (suc x.uid) ms i m u rising.1 e in
    let higher = (get-find (suc x.uid) ms i m rising.1 e).1 in ground arith

-- What is left when the message at an index is removed.
pub removed-by_uid :
    (mb : Mailbox) (i u : ℕ) (m : Message)
    → HasRoom mb
    → IsWellFormed mb
    → get_elem? mb.messages i ≡ some m
    → by_uid (remove_at mb i).1 u ≡ (if m.uid == u then none else by_uid mb u)
unfolding step
removed-by_uid mb i u m room wf at_i =
    let messages : (remove_at mb i).1.messages ≡ remove mb.messages i =
      rw (remove_at_lem mb i m room at_i) refl in
    by_uid-find (remove_at mb i).1 u (step-IsWellFormed mb (remove_op i) room wf)
    ∙ ap (λ ms. find ms u) messages
    ∙ find-remove 0 mb.messages i m u wf.0 at_i
    ∙ rw (by_uid-find mb u wf) refl

find-append :
    (ms : List Message) (m : Message) (n h u : ℕ)
    → All (IsOlder n h) ms
    → m.uid ≡ n
    → find (ms ++ m ∷ []) u ≡ (if n == u then some m else find ms u)
unfolding find
find-append [] m n h u older e = ground arith
find-append (x ∷ ms) m n h u older e = ground (arith, find-append ms m n h u older.1 e)

-- With room in the counters, what is appended is found under its UID, and all else as before.
pub appended-by_uid :
    (mb : Mailbox) (raw : Bytes) (flags : List Flag) (date u : ℕ)
    → HasRoom mb
    → IsWellFormed mb
    → by_uid (append mb raw flags date).1 u ≡ (
        if mb.uid_next == u
        then some (new_message mb.uid_next flags date (mb.highest_modseq + 1) raw)
        else by_uid mb u)
unfolding step
appended-by_uid mb raw flags date u room (rising, older, gone) =
    let wf : IsWellFormed mb = (rising, older, gone) in
    let m = new_message mb.uid_next flags date (mb.highest_modseq + 1) raw in
    let messages : (append mb raw flags date).1.messages ≡ mb.messages ++ m ∷ [] =
      rw (append_lem mb raw flags date room) refl in
    by_uid-find (append mb raw flags date).1 u
      (step-IsWellFormed mb (append_op raw flags date) room wf)
    ∙ ap (λ ms. find ms u) messages
    ∙ find-append mb.messages m mb.uid_next mb.highest_modseq u older refl
    ∙ rw (by_uid-find mb u wf) refl
