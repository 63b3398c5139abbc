-- ===== src/Store/Keep.antt =====
-- The operations on a mailbox of crates/kotva-mail/src/store.rs keep it well-formed.
use mathlib.Core.Option.{some-injective}
use dmtap.Prelude.{
  ℕ, zero, suc, ◌+◌, ◌%◌, ◌^◌, ◌<◌, ◌≡◌, inl, inr, refl, subst, Bytes, List, [], ◌∷◌, ◌++◌, none,
  some, get_elem?, All, All-append, arith, Option-cases,
}
use dmtap.Store.{Flag, Message, new_message, Mailbox, append, remove, remove_at}
use dmtap.Store.Uids.{
  IsOlder, IsGone, IsWellFormed, HasRoom, IsRising-append, holds-append, IsRising-remove,
  All-remove, holds-remove,
}

All-map :
    {A : Type 0} {P Q : A → Type 0} (xs : List A) → ((x : A) → P x → Q x) → All P xs → All Q xs
All-map [] f h = tt
All-map (x ∷ xs) f h = (f x h.0, All-map xs f h.1)

pub All-get :
    {A : Type 0} (P : A → Type 0) (xs : List A) (i : ℕ) (x : A)
    → All P xs
    → get_elem? xs i ≡ some x
    → P x
All-get P [] i x h e = cc
All-get P (y ∷ xs) zero x h e = subst P (some-injective y x e) h.0
All-get P (y ∷ xs) (suc i) x h e = All-get P xs i x h.1 e

-- With room in the counters, the operations on a mailbox are these.
pub append_lem :
    (mb : Mailbox) (raw : Bytes) (flags : List Flag) (date : ℕ)
    → HasRoom mb
    → append mb raw flags date ≡ (
      mb.uid_next,
      record mb {
        uid_next = mb.uid_next + 1;
        highest_modseq = mb.highest_modseq + 1;
        messages =
            mb.messages ++ new_message mb.uid_next flags date (mb.highest_modseq + 1) raw ∷ [];
      },
    )
unfolding append
append_lem mb raw flags date room =
    let uid : (mb.uid_next + 1) % 2 ^ 32 ≡ mb.uid_next + 1 = omega arith in
    let modseq : (mb.highest_modseq + 1) % 2 ^ 64 ≡ mb.highest_modseq + 1 = omega arith in
    rw (uid, modseq)

pub remove_at_lem :
    (mb : Mailbox) (i : ℕ) (m : Message)
    → HasRoom mb
    → get_elem? mb.messages i ≡ some m
    → remove_at mb i ≡ (
      some m.uid,
      record mb {
        highest_modseq = mb.highest_modseq + 1;
        expunged = mb.expunged ++ (m.uid, mb.highest_modseq + 1) ∷ [];
        messages = remove mb.messages i;
      },
    )
unfolding remove_at
remove_at_lem mb i m room e =
    let modseq : (mb.highest_modseq + 1) % 2 ^ 64 ≡ mb.highest_modseq + 1 = omega arith in
    rw (remove_at, e, modseq)

pub remove_at-none :
    (mb : Mailbox) (i : ℕ) → get_elem? mb.messages i ≡ none → remove_at mb i ≡ (none, mb)
unfolding remove_at
remove_at-none mb i e = rw (remove_at, e)

append-IsWellFormed_lem :
    (mb : Mailbox) (raw : Bytes) (flags : List Flag) (date : ℕ)
    → HasRoom mb
    → IsWellFormed mb
    → IsWellFormed (append mb raw flags date).1
append-IsWellFormed_lem mb raw flags date room (rising, older, gone) =
    let m = new_message mb.uid_next flags date (mb.highest_modseq + 1) raw in
    rw (append_lem mb raw flags date room) (
      IsRising-append 0 mb.messages m mb.uid_next mb.highest_modseq rising older (omega arith) refl,
      All-append (IsOlder (mb.uid_next + 1) (mb.highest_modseq + 1)) mb.messages (m ∷ [])
          (All-map mb.messages (λ x h. omega arith) older) (omega arith),
      All-map mb.expunged (λ x h. let fresh = holds-append mb.messages m x.0 in ground arith) gone,
    )

removed-IsWellFormed :
    (mb : Mailbox) (i : ℕ) (m : Message)
    → HasRoom mb
    → IsWellFormed mb
    → get_elem? mb.messages i ≡ some m
    → IsWellFormed (remove_at mb i).1
removed-IsWellFormed mb i m room (rising, older, gone) e =
    let is_old : m.uid < mb.uid_next =
      (All-get (IsOlder mb.uid_next mb.highest_modseq) mb.messages i m older e).0 in
    rw (remove_at_lem mb i m room e) (
      IsRising-remove 0 mb.messages i rising,
      All-remove (IsOlder mb.uid_next (mb.highest_modseq + 1)) mb.messages i
          (All-map mb.messages (λ x h. omega arith) older),
      All-append (IsGone (remove mb.messages i) mb.uid_next (mb.highest_modseq + 1)) mb.expunged
          ((m.uid, mb.highest_modseq + 1) ∷ [])
          (All-map mb.expunged
            (λ x h. let rest = holds-remove 0 mb.messages i m x.0 rising e in ground arith) gone)
          (let rest = holds-remove 0 mb.messages i m m.uid rising e in ground arith),
    )

-- An operation on a mailbox. An index out of range removes nothing.
pub data Op : Type 0 where
  append_op : Bytes → List Flag → ℕ → Op
  remove_op : ℕ → Op

unfoldable pub step : Mailbox → Op → Mailbox
step mb (append_op raw flags date) = (append mb raw flags date).1
step mb (remove_op i) = (remove_at mb i).1

-- `append` and `remove_at` keep a mailbox well-formed while the counters have room: the UIDs of the
-- messages ascend and are below `uid_next`, no message is ahead of `highest_modseq`, and no entry of
-- the log of vanished UIDs is ahead of it or names a message that is there.
pub step-IsWellFormed :
    (mb : Mailbox) (op : Op) → HasRoom mb → IsWellFormed mb → IsWellFormed (step mb op)
unfolding step
step-IsWellFormed mb (append_op raw flags date) room wf =
    append-IsWellFormed_lem mb raw flags date room wf
step-IsWellFormed mb (remove_op i) room wf = elim (Option-cases (get_elem? mb.messages i)) [
  | inl e ↦ (let same = remove_at-none mb i e in rw (step, same) wf)
  | inr (m, e) ↦ removed-IsWellFormed mb i m room wf e
]
