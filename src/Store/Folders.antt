-- ===== src/Store/Folders.antt =====
-- What deleting and renaming a mailbox do to the store of crates/kotva-mail/src/store.rs.
use dmtap.Prelude.{
  ◌≡◌, ◌≢◌, ◌⊎◌, inl, inr, false, Bytes, none, some, if◌then◌else◌, eq_bytes, lookup, lookup-insert,
  Option-cases, Bool-cases,
}
use dmtap.Result.{ok, err}
use dmtap.Store.{Mailbox}
use dmtap.Store.Memory.{
  StoreError, inbox_immutable, no_such_mailbox, already_exists, MemoryStore, inbox_name, mailbox,
  eq_ignore_ascii_case, remove_key, delete, rename, lookup-remove_key,
}

-- Either a mailbox other than INBOX is deleted, and then it alone is gone, or an error is returned and
-- the store is as it was.
pub mailbox-delete :
    (s : MemoryStore) (name : Bytes)
    → (((delete s name).0 ≡ ok tt)
        × (eq_ignore_ascii_case name inbox_name ≡ false)
        × (mailbox s name ≢ none)
        × ((k : Bytes)
            → mailbox (delete s name).1 k ≡ (if eq_bytes name k then none else mailbox s k)))
      ⊎ ((e : StoreError) × (delete s name ≡ (err e, s)))
unfolding delete mailbox
mailbox-delete s name = elim (Bool-cases (eq_ignore_ascii_case name inbox_name)) [
  | inl i ↦ inr (inbox_immutable, rw (delete, i))
  | inr i ↦ elim (Option-cases (lookup name s.mailboxes)) [
    | inl e ↦ inr (no_such_mailbox, rw (delete, i, e))
    | inr (mb, e) ↦ inl (
      rw (delete, i, e),
      i,
      (λ h. cc (h, e)),
      λ k. rw (delete, i, e) (lookup-remove_key name k s.mailboxes),
    )
  ]
]

-- Either a mailbox other than INBOX is renamed to a name that was free, and then it is found under that
-- name, no more under the old one, and every other mailbox as before; or an error is returned and the
-- store is as it was.
pub mailbox-rename :
    (s : MemoryStore) (src dst : Bytes)
    → (((rename s src dst).0 ≡ ok tt)
        × (eq_ignore_ascii_case src inbox_name ≡ false)
        × (mailbox s dst ≡ none)
        × (mb : Mailbox) × (mailbox s src ≡ some mb)
        × ((k : Bytes)
            → mailbox (rename s src dst).1 k ≡ (
                if eq_bytes dst k
                then some (record mb { name = dst })
                else if eq_bytes src k
                then none
                else mailbox s k)))
      ⊎ ((e : StoreError) × (rename s src dst ≡ (err e, s)))
unfolding rename mailbox
mailbox-rename s src dst = elim (Bool-cases (eq_ignore_ascii_case src inbox_name)) [
  | inl i ↦ inr (inbox_immutable, rw (rename, i))
  | inr i ↦ elim (Option-cases (lookup dst s.mailboxes)) [
    | inr (mb, e) ↦ inr (already_exists, rw (rename, i, e))
    | inl e ↦ elim (Option-cases (lookup src s.mailboxes)) [
      | inl f ↦ inr (no_such_mailbox, rw (rename, i, e, f))
      | inr (mb, f) ↦ inl (
        rw (rename, i, e, f),
        i,
        e,
        mb,
        f,
        λ k. rw (
          rename,
          i,
          e,
          f,
          lookup-insert dst k (record mb { name = dst }) (remove_key src s.mailboxes),
          lookup-remove_key src k s.mailboxes,
        ),
      )
    ]
  ]
]
