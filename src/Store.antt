-- ===== src/Store.antt =====
-- crates/kotva-mail/src/store.rs: `Message` and `Mailbox`. A string is its bytes; the memoised MIME parse
-- of a message is left out, as it is a function of `raw`.
pub mod Memory
pub mod Folders
pub mod Uids
pub mod Keep
pub mod Search
pub mod Find
pub mod Lookup
pub mod Sync
mod Tests
use mathlib.Core.Option.{map as map_option}
use dmtap.Prelude.{
  ℕ, zero, suc, ◌+◌, ◌-◌, ◌/◌, ◌%◌, ◌^◌, Bool, true, false, ◌||◌, Bytes, List, [], ◌∷◌, ◌++◌,
  Option, none, some, length, take, drop, get_elem?, ltb, leb, ◌==◌, if◌then◌else◌, eq_bytes,
  compare, Ordering,
}

pub data Flag : Type 0 where
  seen answered flagged deleted draft recent : Flag
  keyword : Bytes → Flag

-- The derived `==`.
unfoldable pub eq_flag : Flag → Flag → Bool
eq_flag seen seen = true
eq_flag answered answered = true
eq_flag flagged flagged = true
eq_flag deleted deleted = true
eq_flag draft draft = true
eq_flag recent recent = true
eq_flag (keyword j) (keyword k) = eq_bytes j k
eq_flag _ _ = false

pub data SpecialUse : Type 0 where
  inbox sent drafts trash junk archive all : SpecialUse

pub record Message : Type 0 where
  pub uid : ℕ
  pub flags : List Flag
  pub internal_date : ℕ
  pub modseq : ℕ
  pub created_modseq : ℕ
  pub raw : Bytes

abbrev pub new_message : ℕ → List Flag → ℕ → ℕ → Bytes → Message
new_message uid flags internal_date modseq raw = record {
  uid = uid;
  flags = flags;
  internal_date = internal_date;
  modseq = modseq;
  created_modseq = modseq;
  raw = raw;
}

unfoldable pub flag_in : List Flag → Flag → Bool
flag_in [] f = false
flag_in (g ∷ gs) f = eq_flag g f || flag_in gs f

unfoldable pub has_flag : Message → Flag → Bool
has_flag m f = flag_in m.flags f

unfoldable pub set_flag : Message → Flag → Message
set_flag m f = if flag_in m.flags f then m else record m { flags = m.flags ++ f ∷ [] }

unfoldable pub without_flag : List Flag → Flag → List Flag
without_flag [] f = []
without_flag (g ∷ gs) f = if eq_flag g f then without_flag gs f else g ∷ without_flag gs f

unfoldable pub clear_flag : Message → Flag → Message
clear_flag m f = record m { flags = without_flag m.flags f }

pub record Mailbox : Type 0 where
  pub name : Bytes
  pub special_use : Option SpecialUse
  pub uid_validity : ℕ
  pub uid_next : ℕ
  pub highest_modseq : ℕ
  pub subscribed : Bool
  pub messages : List Message
  pub expunged : List (ℕ × ℕ)

abbrev pub new_mailbox : Bytes → Option SpecialUse → Mailbox
new_mailbox name special_use = record {
  name = name;
  special_use = special_use;
  uid_validity = 1;
  uid_next = 1;
  highest_modseq = 1;
  subscribed = true;
  messages = [];
  expunged = [];
}

unfoldable pub exists : Mailbox → ℕ
exists mb = length mb.messages

-- `messages.last()`
unfoldable pub last_uid : ℕ → List Message → ℕ
last_uid u [] = u
last_uid u (m ∷ ms) = last_uid m.uid ms

unfoldable pub max_uid : Mailbox → ℕ
max_uid mb = last_uid 0 mb.messages

unfoldable pub first_unseen : List Message → Option ℕ
first_unseen [] = none
first_unseen (m ∷ ms) =
    if has_flag m seen then map_option (λ i. suc i) (first_unseen ms) else some 0

unfoldable pub first_unseen_seq : Mailbox → Option ℕ
first_unseen_seq mb = map_option (λ i. i + 1) (first_unseen mb.messages)

unfoldable pub count_recent : List Message → ℕ
count_recent [] = 0
count_recent (m ∷ ms) = if has_flag m recent then suc (count_recent ms) else count_recent ms

unfoldable pub count_unseen : List Message → ℕ
count_unseen [] = 0
count_unseen (m ∷ ms) = if has_flag m seen then count_unseen ms else suc (count_unseen ms)

unfoldable pub recent_count : Mailbox → ℕ
unfolding count_recent
recent_count mb = count_recent mb.messages

unfoldable pub unseen_count : Mailbox → ℕ
unfolding count_unseen
unseen_count mb = count_unseen mb.messages

-- The counters are `u32` and `u64` and wrap.
unfoldable pub append : Mailbox → Bytes → List Flag → ℕ → ℕ × Mailbox
append mb raw flags internal_date =
    let modseq = (mb.highest_modseq + 1) % 2 ^ 64 in
    (
      mb.uid_next,
      record mb {
        uid_next = (mb.uid_next + 1) % 2 ^ 32;
        highest_modseq = modseq;
        messages = mb.messages ++ new_message mb.uid_next flags internal_date modseq raw ∷ [];
      },
    )

-- `binary_search_by` on the messages from `base` on; the search range halves, so its size is fuel enough.
unfoldable pub search : ℕ → ℕ → List Message → ℕ → Option ℕ
search zero base ms uid = none
search (suc fuel) base ms uid =
    let mid = length ms / 2 in
    let below = search fuel base (take mid ms) uid in
    let above = search fuel (base + mid + 1) (drop (mid + 1) ms) uid in
    elim (get_elem? ms mid) [
      | none ↦ none
      | some m ↦ elim (compare m.uid uid) [
        | Ordering.lt ↦ above
        | Ordering.eq ↦ some (base + mid)
        | Ordering.gt ↦ below
      ]
    ]

unfoldable pub index_of_uid : Mailbox → ℕ → Option ℕ
index_of_uid mb uid = search (length mb.messages) 0 mb.messages uid

unfoldable pub seq_of_uid : Mailbox → ℕ → Option ℕ
seq_of_uid mb uid = map_option (λ i. i + 1) (index_of_uid mb uid)

unfoldable pub by_uid : Mailbox → ℕ → Option Message
by_uid mb uid = elim (index_of_uid mb uid) [ none ↦ none | some i ↦ get_elem? mb.messages i ]

-- `Vec::remove`
unfoldable pub remove {ℓ} : {A : Type ℓ} → List A → ℕ → List A
remove [] n = []
remove (x ∷ xs) zero = xs
remove (x ∷ xs) (suc n) = x ∷ remove xs n

unfoldable pub remove_at : Mailbox → ℕ → Option ℕ × Mailbox
remove_at mb index = elim (get_elem? mb.messages index) [
  | none ↦ (none, mb)
  | some m ↦
      (let modseq = (mb.highest_modseq + 1) % 2 ^ 64 in
        (
          some m.uid,
          record mb {
            highest_modseq = modseq;
            expunged = mb.expunged ++ (m.uid, modseq) ∷ [];
            messages = remove mb.messages index;
          },
        ))
]

-- `filter` and `map` over the log.
unfoldable pub expunged_since : List (ℕ × ℕ) → ℕ → List ℕ
expunged_since [] modseq = []
expunged_since ((u, ms) ∷ log) modseq =
    let rest = expunged_since log modseq in if ltb modseq ms then u ∷ rest else rest

unfoldable pub insert_uid : ℕ → List ℕ → List ℕ
insert_uid u [] = u ∷ []
insert_uid u (v ∷ vs) = if leb u v then u ∷ v ∷ vs else v ∷ insert_uid u vs

-- `sort_unstable`
unfoldable pub sort_uids : List ℕ → List ℕ
sort_uids [] = []
sort_uids (u ∷ us) = insert_uid u (sort_uids us)

unfoldable pub vanished_since : Mailbox → ℕ → List ℕ
vanished_since mb modseq = sort_uids (expunged_since mb.expunged modseq)
