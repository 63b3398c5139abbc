-- ===== src/Mail/Shelf.antt =====
-- The mailbox of crates/kotva-mail/src/store.rs as its clients see it: a map from UIDs to messages. A client
-- delivers, fetches by UID, and removes by UID as QUIT of crates/kotva-mail/src/pop3.rs does.
use dmtap.Prelude.{
  ℕ, suc, ◌+◌, ◌≡◌, inl, inr, refl, sym, ap, ◌∙◌, Bytes, List, [], ◌∷◌, Option, none, some, length,
  ◌==◌, arith, if◌then◌else◌, Option-cases,
}
use dmtap.Store.{Flag, Message, new_message, Mailbox, append, by_uid, index_of_uid, remove_at}
use dmtap.Store.Uids.{IsWellFormed, HasRoom}
use dmtap.Store.Keep.{append_op, step-IsWellFormed, append_lem, remove_at_lem, step}
use dmtap.Store.Search.{index_of_uid-eq-some_iff}
use dmtap.Store.Find.{appended-by_uid}
use dmtap.Store.Sync.{HasRoomFor}
use dmtap.Mail.Pop3.{expunge}
use dmtap.Mail.Pop3.Quit.{expunge-IsWithout, expunge-counters}

pub data Request : Type 0 where
  deliver : Bytes → List Flag → ℕ → Request
  fetch : ℕ → Request
  discard : ℕ → Request

pub data Answer : Type 0 where
  filed : ℕ → Answer
  shown : Option Message → Answer
  done : Answer

unfoldable pub serve : Mailbox → Request → Answer × Mailbox
serve mb (deliver raw flags date) = let (uid, mb') = append mb raw flags date in (filed uid, mb')
serve mb (fetch u) = (shown (by_uid mb u), mb)
serve mb (discard u) = (done, expunge mb u)

-- The specification: no positions, no order, no log, and counters that do not wrap.
pub record Shelf : Type 0 where
  pub next : ℕ
  pub clock : ℕ
  pub at : ℕ → Option Message

unfoldable pub put : Shelf → Bytes → List Flag → ℕ → Shelf
put s raw flags date = record {
  next = s.next + 1;
  clock = s.clock + 1;
  at = λ u. if s.next == u then some (new_message s.next flags date (s.clock + 1) raw) else s.at u;
}

unfoldable pub take_off : Shelf → ℕ → Shelf
take_off s u = elim (s.at u) [
  | none ↦ s
  | some m ↦ record {
    next = s.next;
    clock = s.clock + 1;
    at = λ v. if u == v then none else s.at v;
  }
]

unfoldable pub answer : Shelf → Request → Answer × Shelf
unfolding put take_off
answer s (deliver raw flags date) = (filed s.next, put s raw flags date)
answer s (fetch u) = (shown (s.at u), s)
answer s (discard u) = (done, take_off s u)

-- The answers to a sequence of requests.
unfoldable pub answers {ℓ} :
    {S : Type ℓ} → (S → Request → Answer × S) → S → List Request → List Answer
answers handle s [] = []
answers handle s (r ∷ rs) = (handle s r).0 ∷ answers handle (handle s r).1 rs

-- What a client sees of a mailbox.
unfoldable pub shelf_of : Mailbox → Shelf
shelf_of mb = record { next = mb.uid_next; clock = mb.highest_modseq; at = by_uid mb }

-- A well-formed mailbox stands for a shelf.
abbrev Represents : Mailbox → Shelf → Type 0
Represents mb s =
    IsWellFormed mb
    × (mb.uid_next ≡ s.next)
    × (mb.highest_modseq ≡ s.clock)
    × ((u : ℕ) → by_uid mb u ≡ s.at u)

put-Represents :
    (mb : Mailbox) (s : Shelf) (raw : Bytes) (flags : List Flag) (date : ℕ)
    → HasRoom mb
    → Represents mb s
    → Represents (append mb raw flags date).1 (put s raw flags date)
unfolding put step
put-Represents mb s raw flags date room (wf, next, clock, same) =
    let eq = append_lem mb raw flags date room in
    (
      step-IsWellFormed mb (append_op raw flags date) room wf,
      rw (eq, next) refl,
      rw (eq, clock) refl,
      λ u. appended-by_uid mb raw flags date u room wf ∙ rw (← next, ← clock, ← same u) refl,
    )

take_off-Represents :
    (mb : Mailbox) (s : Shelf) (u : ℕ)
    → HasRoom mb
    → Represents mb s
    → Represents (expunge mb u) (take_off s u)
unfolding expunge take_off by_uid
take_off-Represents mb s u room (wf, next, clock, same) =
    let left = expunge-IsWithout mb u room wf in
    elim (Option-cases (index_of_uid mb u)) [
      | inl e ↦
          (let absent : s.at u ≡ none = sym (same u) ∙ rw (by_uid, e) refl in
            let still : expunge mb u ≡ mb = rw (expunge, e) refl in
            let rests : take_off s u ≡ s = rw (take_off, absent) refl in
            rw (still, rests) (wf, next, clock, same))
      | inr (i, e) ↦
          (let (m, at_i, is_u) = (index_of_uid-eq-some_iff mb u i wf).0 e in
            let present : s.at u ≡ some m = sym (same u) ∙ rw (by_uid, e) at_i in
            let removed : expunge mb u ≡ (remove_at mb i).1 = rw (expunge, e) refl in
            let eq = remove_at_lem mb i m room at_i in
            (
              left.well_formed,
              rw (removed, eq, take_off, present) next,
              rw (removed, eq, take_off, present) (ap (λ c. c + 1) clock),
              λ v. left.by_uid_lem v ∙ rw (take_off, present, same v) refl,
            ))
    ]

serve-Represents :
    (mb : Mailbox) (s : Shelf) (r : Request)
    → HasRoom mb
    → Represents mb s
    → ((serve mb r).0 ≡ (answer s r).0) × Represents (serve mb r).1 (answer s r).1
unfolding serve answer append
serve-Represents mb s (deliver raw flags date) room (wf, next, clock, same) =
    (ap filed next, put-Represents mb s raw flags date room (wf, next, clock, same))
serve-Represents mb s (fetch u) room (wf, next, clock, same) =
    (ap shown (same u), (wf, next, clock, same))
serve-Represents mb s (discard u) room shows = (refl, take_off-Represents mb s u room shows)

serve-HasRoomFor :
    (mb : Mailbox) (r : Request) (n : ℕ)
    → IsWellFormed mb
    → HasRoomFor (suc n) mb
    → HasRoomFor n (serve mb r).1
unfolding serve
serve-HasRoomFor mb (deliver raw flags date) n wf room =
    rw (append_lem mb raw flags date (omega arith)) (omega arith)
serve-HasRoomFor mb (fetch u) n wf room = omega arith
serve-HasRoomFor mb (discard u) n wf room =
    let (uids, modseqs) = expunge-counters mb u (omega arith) wf in omega arith

answers-Represents :
    (mb : Mailbox) (s : Shelf) (rs : List Request)
    → HasRoomFor (length rs) mb
    → Represents mb s
    → answers serve mb rs ≡ answers answer s rs
unfolding answers
answers-Represents mb s [] room shows = refl
answers-Represents mb s (r ∷ rs) room shows =
    let (same, shows') = serve-Represents mb s r (omega arith) shows in
    let room' = serve-HasRoomFor mb r (length rs) shows.0 room in
    rw (same, answers-Represents (serve mb r).1 (answer s r).1 rs room' shows') refl

-- A client cannot tell a well-formed mailbox from a map of UIDs to messages: whatever it delivers,
-- fetches and removes, as long as the counters have room for as many requests, the answers are the same.
pub answers-shelf_of :
    (mb : Mailbox) (rs : List Request)
    → HasRoomFor (length rs) mb
    → IsWellFormed mb
    → answers serve mb rs ≡ answers answer (shelf_of mb) rs
unfolding shelf_of
answers-shelf_of mb rs room wf =
    answers-Represents mb (shelf_of mb) rs room (wf, refl, refl, λ u. refl)
