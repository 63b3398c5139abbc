-- ===== src/Store/Tests.antt =====
-- Runs of the mailbox of crates/kotva-mail/src/store.rs.
use dmtap.Prelude.{
  ◌≡◌, ◌↔◌, refl, arith, List, [], ◌∷◌, true, false, none, some, Bytes, ◌≢◌, eq_bytes,
  if◌then◌else◌, ◌⊎◌,
}
use dmtap.Result.{ok, err}
use dmtap.Store.{
  seen, new_message, Mailbox, new_mailbox, append, search, index_of_uid, remove, remove_at,
  expunged_since, insert_uid, sort_uids, vanished_since,
}
use dmtap.Store.Memory.{
  StoreError, MemoryStore, inbox_name, inbox_only, mailbox as mailbox_of, eq_ignore_ascii_case,
  create, delete, rename,
}
use dmtap.Store.Folders.{mailbox-delete, mailbox-rename}
use dmtap.Store.Uids.{holds, IsWellFormed}
use dmtap.Store.Keep.{append_op, remove_op, Op, step, step-IsWellFormed}
use dmtap.Store.Search.{IsAt, index_of_uid-eq-some_iff}
use dmtap.Store.Sync.{run, IsTold, vanished_since-run}

-- Three messages; UIDs 3 and 5 went before.
abbrev mailbox : Mailbox
mailbox = record (new_mailbox [] none) {
  uid_next = 7;
  highest_modseq = 9;
  messages =
      new_message 2 [] 0 3 []
      ∷ new_message 4 (seen ∷ []) 0 5 (72 ∷ [])
      ∷ new_message 6 [] 0 7 []
      ∷ [];
  expunged = (5, 8) ∷ (3, 9) ∷ [];
}

mailbox-IsWellFormed : IsWellFormed mailbox
unfolding holds
mailbox-IsWellFormed = (
  omega arith,
  omega arith,
  ((omega arith, omega arith, refl), ((omega arith, omega arith, refl), tt)),
)

sorts_the_vanished : vanished_since mailbox 7 ≡ 3 ∷ 5 ∷ []
unfolding vanished_since expunged_since sort_uids insert_uid
sorts_the_vanished = refl

finds_the_last : index_of_uid mailbox 6 ≡ some 2
unfolding index_of_uid search
finds_the_last = refl

misses_the_vanished : index_of_uid mailbox 5 ≡ none
unfolding index_of_uid search
misses_the_vanished = refl

abbrev history : List Op
history = append_op (1 ∷ []) [] 0 ∷ remove_op 1 ∷ remove_op 9 ∷ []

reports_the_removed : vanished_since (run mailbox history) 9 ≡ 4 ∷ []
unfolding run step append remove_at remove vanished_since expunged_since sort_uids insert_uid
reports_the_removed = refl

here : holds mailbox.messages 4 ≡ true
unfolding holds
here = refl

vanished_since-run_example : IsTold (run mailbox history) 9 4
vanished_since-run_example =
    vanished_since-run mailbox history 4 (omega arith) mailbox-IsWellFormed here

step-IsWellFormed_example : IsWellFormed (step mailbox (remove_op 1))
step-IsWellFormed_example =
    step-IsWellFormed mailbox (remove_op 1) (omega arith) mailbox-IsWellFormed

index_of_uid-eq-some_iff_example : (index_of_uid mailbox 6 ≡ some 2) ↔ IsAt mailbox.messages 6 2
index_of_uid-eq-some_iff_example = index_of_uid-eq-some_iff mailbox 6 2 mailbox-IsWellFormed

removes_four : (remove_at mailbox 1).0 ≡ some 4
unfolding remove_at
removes_four = refl

-- "a" and "b"
abbrev a_name : Bytes
a_name = 97 ∷ []

abbrev b_name : Bytes
b_name = 98 ∷ []

abbrev folders : MemoryStore
folders = (create inbox_only a_name).1

mailbox-delete_example :
    (((delete folders a_name).0 ≡ ok tt)
      × (eq_ignore_ascii_case a_name inbox_name ≡ false)
      × (mailbox_of folders a_name ≢ none)
      × ((k : Bytes)
          → mailbox_of (delete folders a_name).1 k
            ≡ (if eq_bytes a_name k then none else mailbox_of folders k)))
    ⊎ ((e : StoreError) × (delete folders a_name ≡ (err e, folders)))
mailbox-delete_example = mailbox-delete folders a_name

mailbox-rename_example :
    (((rename folders a_name b_name).0 ≡ ok tt)
      × (eq_ignore_ascii_case a_name inbox_name ≡ false)
      × (mailbox_of folders b_name ≡ none)
      × (mb : Mailbox) × (mailbox_of folders a_name ≡ some mb)
      × ((k : Bytes)
          → mailbox_of (rename folders a_name b_name).1 k ≡ (
              if eq_bytes b_name k
              then some (record mb { name = b_name })
              else if eq_bytes a_name k
              then none
              else mailbox_of folders k)))
    ⊎ ((e : StoreError) × (rename folders a_name b_name ≡ (err e, folders)))
mailbox-rename_example = mailbox-rename folders a_name b_name
