-- ===== src/Mail/Pop3/Quit.antt =====
-- What QUIT of crates/kotva-mail/src/pop3.rs does to the INBOX of the store.
use dmtap.Prelude.{
  ℕ, ◌+◌, ◌^◌, ◌<◌, ◌≤◌, ◌≡◌, ◌≢◌, inl, inr, refl, sym, ap, ◌∙◌, Bool, false, ◌||◌, ◌&&◌, Bytes,
  List, [], ◌∷◌, none, some, length, insert, lookup-insert, eq_bytes, eq_bytes_iff, ◌==◌, arith,
  if◌then◌else◌, Option-cases, Bool-cases,
}
use dmtap.Store.{Mailbox, index_of_uid, by_uid}
use dmtap.Store.Uids.{IsWellFormed, HasRoom}
use dmtap.Store.Keep.{remove_op, step, step-IsWellFormed, remove_at_lem}
use dmtap.Store.Search.{index_of_uid-eq-some_iff}
use dmtap.Store.Find.{removed-by_uid}
use dmtap.Store.Memory.{MemoryStore, mailbox, inbox_name}
use dmtap.Mail.Pop3.{
  Pop3Session, Slot, transaction, to_delete, expunge, expunge_all, update, quit, committed,
}

-- The counters do not wrap for `n` removals.
abbrev pub HasRoomFor : ℕ → Mailbox → Type 0
HasRoomFor n mb = (mb.uid_next + 1 < 2 ^ 32) × (mb.highest_modseq + n + 1 < 2 ^ 64)

-- What is left: the same messages but the ones with these UIDs, in a well-formed mailbox.
pub record IsWithout (gone : ℕ → Bool) (mb mb' : Mailbox) : Type 0 where
  pub well_formed : IsWellFormed mb'
  pub by_uid_lem : (u : ℕ) → by_uid mb' u ≡ (if gone u then none else by_uid mb u)

absent-IsWithout :
    (mb : Mailbox) (uid u : ℕ)
    → index_of_uid mb uid ≡ none
    → by_uid mb u ≡ (if uid == u then none else by_uid mb u)
unfolding by_uid
absent-IsWithout mb uid u e = elim (Bool-cases (uid == u)) [
  | inl same ↦ (let eq : uid ≡ u = ground arith in rw (same, sym eq, by_uid, e) refl)
  | inr other ↦ rw other refl
]

pub expunge-IsWithout :
    (mb : Mailbox) (uid : ℕ)
    → HasRoom mb
    → IsWellFormed mb
    → IsWithout (λ u. uid == u) mb (expunge mb uid)
unfolding expunge step
expunge-IsWithout mb uid room wf = elim (Option-cases (index_of_uid mb uid)) [
  | inl e ↦
      rw (expunge, e) (record { well_formed = wf; by_uid_lem = λ u. absent-IsWithout mb uid u e })
  | inr (i, e) ↦
      (let (m, at_i, is_uid) = (index_of_uid-eq-some_iff mb uid i wf).0 e in
        rw (expunge, e)
          (record {
            well_formed = step-IsWellFormed mb (remove_op i) room wf;
            by_uid_lem = λ u. removed-by_uid mb i u m room wf at_i ∙ rw is_uid refl;
          }))
]

pub expunge-counters :
    (mb : Mailbox) (uid : ℕ)
    → HasRoom mb
    → IsWellFormed mb
    → ((expunge mb uid).uid_next ≡ mb.uid_next)
      × ((expunge mb uid).highest_modseq ≤ mb.highest_modseq + 1)
unfolding expunge
expunge-counters mb uid room wf = elim (Option-cases (index_of_uid mb uid)) [
  | inl e ↦ rw (expunge, e) (refl, omega arith)
  | inr (i, e) ↦
      (let (m, at_i, is_uid) = (index_of_uid-eq-some_iff mb uid i wf).0 e in
        rw (expunge, e, remove_at_lem mb i m room at_i) (refl, omega arith))
]

unfoldable pub among : List ℕ → ℕ → Bool
among [] u = false
among (uid ∷ uids) u = uid == u || among uids u

expunge_all-IsWithout :
    (mb : Mailbox) (uids : List ℕ)
    → HasRoomFor (length uids) mb
    → IsWellFormed mb
    → IsWithout (among uids) mb (expunge_all mb uids)
unfolding expunge_all among
expunge_all-IsWithout mb [] room wf = record { well_formed = wf; by_uid_lem = λ u. refl }
expunge_all-IsWithout mb (uid ∷ uids) room wf =
    let first = expunge-IsWithout mb uid (omega arith, omega arith) wf in
    let counters = expunge-counters mb uid (omega arith, omega arith) wf in
    let rest =
      expunge_all-IsWithout (expunge mb uid) uids (omega arith, omega arith) first.well_formed in
    record {
      well_formed = rest.well_formed;
      by_uid_lem = λ u. rest.by_uid_lem u ∙ rw (first.by_uid_lem u) (ground arith);
    }

-- Whether a slot with the UID is marked as deleted.
unfoldable pub is_marked : List Slot → ℕ → Bool
is_marked [] u = false
is_marked (slot ∷ slots) u = slot.deleted && slot.uid == u || is_marked slots u

among-to_delete : (slots : List Slot) (u : ℕ) → among (to_delete slots) u ≡ is_marked slots u
unfolding among to_delete is_marked
among-to_delete [] u = refl
among-to_delete (slot ∷ slots) u = ground (arith, among-to_delete slots u)

update-some :
    (store : MemoryStore) (mb : Mailbox) (uids : List ℕ)
    → mailbox store inbox_name ≡ some mb
    → update store uids
      ≡ record store { mailboxes = insert inbox_name (expunge_all mb uids) store.mailboxes }
unfolding update
update-some store mb uids found = rw (update, found) refl

quit-store :
    (s : Pop3Session) (mb : Mailbox)
    → s.state ≡ transaction
    → mailbox s.store inbox_name ≡ some mb
    → (quit s).1.store ≡ record s.store {
      mailboxes = insert inbox_name (expunge_all mb (to_delete s.slots)) s.store.mailboxes;
    }
unfolding quit committed
quit-store s mb st found =
    ap (λ t. (committed t s).store) st ∙ update-some s.store mb (to_delete s.slots) found

-- QUIT after a login, with a well-formed INBOX whose counters have room: of the messages of the INBOX exactly
-- those go whose UID a slot marked as deleted has, the others are found as before, the INBOX stays
-- well-formed, and every other mailbox is as it was.
pub quit-IsWithout :
    (s : Pop3Session) (mb : Mailbox)
    → s.state ≡ transaction
    → mailbox s.store inbox_name ≡ some mb
    → HasRoomFor (length (to_delete s.slots)) mb
    → IsWellFormed mb
    → (mb' : Mailbox) × (mailbox (quit s).1.store inbox_name ≡ some mb')
      × IsWithout (is_marked s.slots) mb mb'
      × ((name : Bytes) → inbox_name ≢ name → mailbox (quit s).1.store name ≡ mailbox s.store name)
unfolding mailbox eq_bytes
quit-IsWithout s mb st found room wf =
    let uids = to_delete s.slots in
    let rest = expunge_all-IsWithout mb uids room wf in
    let is_store = quit-store s mb st found in
    (
      expunge_all mb uids,
      ap (λ t. mailbox t inbox_name) is_store
          ∙ lookup-insert inbox_name inbox_name (expunge_all mb uids) s.store.mailboxes,
      record {
        well_formed = rest.well_formed;
        by_uid_lem = λ u. rest.by_uid_lem u ∙ rw (among-to_delete s.slots u) refl;
      },
      λ name other.
          (let no : eq_bytes inbox_name name ≡ false =
              ground (arith, eq_bytes_iff inbox_name name) in
            ap (λ t. mailbox t name) is_store
            ∙ lookup-insert inbox_name name (expunge_all mb uids) s.store.mailboxes
            ∙ rw no refl),
    )
