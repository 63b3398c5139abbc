-- ===== src/Store/Memory.antt =====
-- crates/kotva-mail/src/store.rs, `MemoryStore`: the mailboxes by name, and the order of their names. The
-- `BTreeMap` is an association list.
use dmtap.Prelude.{
  ℕ, ◌+◌, ◌≡◌, Bool, true, false, ◌&&◌, Bytes, List, [], ◌∷◌, ◌++◌, Option, none, some, arith, leb,
  ◌==◌, if◌then◌else◌, eq_bytes, eq_bytes_iff, lookup, insert,
}
use dmtap.Result.{Result, ok, err}
use dmtap.Store.{inbox, sent, drafts, trash, junk, archive, Flag, Mailbox, new_mailbox, append}

pub data StoreError : Type 0 where
  already_exists no_such_mailbox inbox_immutable : StoreError

pub record MemoryStore : Type 0 where
  pub mailboxes : List (Bytes × Mailbox)
  pub order : List Bytes

unfoldable pub insert_mailbox : MemoryStore → Mailbox → MemoryStore
insert_mailbox s mb = record {
  mailboxes = insert mb.name mb s.mailboxes;
  order = s.order ++ mb.name ∷ [];
}

-- "INBOX"
abbrev pub inbox_name : Bytes
inbox_name = 73 ∷ 78 ∷ 66 ∷ 79 ∷ 88 ∷ []

abbrev pub empty_store : MemoryStore
empty_store = record { mailboxes = []; order = [] }

-- `MemoryStore::empty`: INBOX alone.
unfoldable pub inbox_only : MemoryStore
inbox_only = insert_mailbox empty_store (new_mailbox inbox_name (some inbox))

-- "Sent", "Drafts", "Trash", "Junk" and "Archive" behind it.
unfoldable pub new_store : MemoryStore
new_store =
    let s = insert_mailbox inbox_only (new_mailbox (83 ∷ 101 ∷ 110 ∷ 116 ∷ []) (some sent)) in
    let s = insert_mailbox s (new_mailbox (68 ∷ 114 ∷ 97 ∷ 102 ∷ 116 ∷ 115 ∷ []) (some drafts)) in
    let s = insert_mailbox s (new_mailbox (84 ∷ 114 ∷ 97 ∷ 115 ∷ 104 ∷ []) (some trash)) in
    let s = insert_mailbox s (new_mailbox (74 ∷ 117 ∷ 110 ∷ 107 ∷ []) (some junk)) in
    insert_mailbox s (new_mailbox (65 ∷ 114 ∷ 99 ∷ 104 ∷ 105 ∷ 118 ∷ 101 ∷ []) (some archive))

unfoldable pub mailbox : MemoryStore → Bytes → Option Mailbox
mailbox s name = lookup name s.mailboxes

unfoldable pub lowercase_byte : ℕ → ℕ
lowercase_byte b = if leb 65 b && leb b 90 then b + 32 else b

unfoldable pub eq_ignore_ascii_case : Bytes → Bytes → Bool
eq_ignore_ascii_case [] [] = true
eq_ignore_ascii_case [] (c ∷ cs) = false
eq_ignore_ascii_case (b ∷ bs) [] = false
eq_ignore_ascii_case (b ∷ bs) (c ∷ cs) =
    lowercase_byte b == lowercase_byte c && eq_ignore_ascii_case bs cs

-- `BTreeMap::remove`
unfoldable pub remove_key : Bytes → List (Bytes × Mailbox) → List (Bytes × Mailbox)
remove_key k [] = []
remove_key k ((j, v) ∷ m) =
    let rest = remove_key k m in if eq_bytes j k then rest else (j, v) ∷ rest

-- `order.retain(|n| n != name)`
unfoldable pub without_name : Bytes → List Bytes → List Bytes
without_name name [] = []
without_name name (n ∷ ns) =
    let rest = without_name name ns in if eq_bytes n name then rest else n ∷ rest

unfoldable pub renamed : Bytes → Bytes → List Bytes → List Bytes
renamed src dst [] = []
renamed src dst (n ∷ ns) = (if eq_bytes n src then dst else n) ∷ renamed src dst ns

unfoldable pub create : MemoryStore → Bytes → Result StoreError (Unit {0}) × MemoryStore
create s name = elim (lookup name s.mailboxes) [
  | some mb ↦ (err already_exists, s)
  | none ↦ (ok tt, insert_mailbox s (new_mailbox name none))
]

unfoldable pub delete : MemoryStore → Bytes → Result StoreError (Unit {0}) × MemoryStore
delete s name =
    if eq_ignore_ascii_case name inbox_name
    then (err inbox_immutable, s)
    else (elim (lookup name s.mailboxes) [
      | none ↦ (err no_such_mailbox, s)
      | some mb ↦ (
        ok tt,
        record { mailboxes = remove_key name s.mailboxes; order = without_name name s.order },
      )
    ])

abbrev pub move_mailbox : MemoryStore → Bytes → Bytes → Mailbox → MemoryStore
move_mailbox s src dst mb = record {
  mailboxes = insert dst (record mb { name = dst }) (remove_key src s.mailboxes);
  order = renamed src dst s.order;
}

unfoldable pub rename : MemoryStore → Bytes → Bytes → Result StoreError (Unit {0}) × MemoryStore
rename s src dst =
    if eq_ignore_ascii_case src inbox_name
    then (err inbox_immutable, s)
    else (elim (lookup dst s.mailboxes) [
      | some mb ↦ (err already_exists, s)
      | none ↦ elim (lookup src s.mailboxes) [
        | none ↦ (err no_such_mailbox, s)
        | some mb ↦ (ok tt, move_mailbox s src dst mb)
      ]
    ])

unfoldable pub deliver_raw : MemoryStore → Bytes → Bytes → List Flag → ℕ → Option ℕ × MemoryStore
deliver_raw s name raw flags internal_date = elim (lookup name s.mailboxes) [
  | none ↦ (none, s)
  | some mb ↦
      (let (uid, mb') = append mb raw flags internal_date in
        (some uid, record s { mailboxes = insert name mb' s.mailboxes }))
]

pub lookup-remove_key :
    (k j : Bytes) (m : List (Bytes × Mailbox))
    → lookup j (remove_key k m) ≡ (if eq_bytes k j then none else lookup j m)
unfolding lookup remove_key
lookup-remove_key k j [] = ground arith
lookup-remove_key k j ((i, v) ∷ m) =
    ground (arith, eq_bytes_iff k j, eq_bytes_iff i k, eq_bytes_iff i j, lookup-remove_key k j m)
