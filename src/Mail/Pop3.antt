-- ===== src/Mail/Pop3.antt =====
-- crates/kotva-mail/src/pop3.rs: a POP3 session over a `MemoryStore`. Each handler returns its reply and the
-- session after it; a reply is its bytes.
pub mod Lines
pub mod Numbers
pub mod Guard
pub mod Quit
use mathlib.Core.Option.{map as map_option}
use dmtap.Prelude.{
  ℕ, zero, suc, ◌+◌, ◌-◌, Bool, true, false, ◌&&◌, ◌||◌, Bytes, List, [], ◌∷◌, ◌++◌, map, Option,
  none, some, String, ascii, length, get_elem?, insert, lookup, take, drop, ltb, ◌==◌,
  if◌then◌else◌, eq_bytes,
}
use dmtap.Store.{Message, Mailbox, index_of_uid, remove_at}
use dmtap.Store.Memory.{MemoryStore, mailbox, inbox_name}
use dmtap.Mail.Text.{
  trim, split_whitespace, split_once, to_ascii_uppercase, to_ascii_lowercase, parse_usize, decimal,
}
use dmtap.Mail.Base64.{hex}
use dmtap.Mail.Md5.{md5}
use dmtap.Mail.Auth.{Authenticator, SaslCredential, ct_eq, decode_plain}

pub data State : Type 0 where
  authorization transaction : State

pub record Slot : Type 0 where
  pub uid : ℕ
  pub raw : Bytes
  pub deleted : Bool

pub data SaslStep : Type 0 where
  plain_step : SaslStep

pub record Pop3Session : Type 0 where
  pub store : MemoryStore
  pub tls : Bool
  pub state : State
  pub user : Option Bytes
  pub identity : Option Bytes
  pub slots : List Slot
  pub pending_sasl : Option SaslStep

-- The banner, the same in every session.
abbrev pub banner : Bytes
banner = ascii "<envoir.1.1@mail.dmtap.local>"

unfoldable pub new_session : MemoryStore → Bool → Pop3Session
new_session store tls = record {
  store = store;
  tls = tls;
  state = authorization;
  user = none;
  identity = none;
  slots = [];
  pending_sasl = none;
}

unfoldable pub is_authenticated : Pop3Session → Bool
is_authenticated s = elim s.identity [ none ↦ false | some i ↦ true ]

abbrev pub line : String → Bytes
line t = ascii t ++ 13 ∷ 10 ∷ []

unfoldable pub greeting : Bytes
greeting = ascii "+OK Envoir DMTAP POP3 ready " ++ (banner ++ 13 ∷ 10 ∷ [])

abbrev pub no_such_message : Bytes
no_such_message = line "-ERR no such message"

abbrev pub not_permitted : Bytes
not_permitted = line "-ERR command not permitted in this state"

unfoldable pub capa : Pop3Session → Bytes
capa s =
    line "+OK Capability list follows"
    ++ (line "TOP" ++ line "UIDL" ++ line "USER" ++ line "RESP-CODES" ++ line "PIPELINING")
    ++ (if s.tls then line "SASL PLAIN" else line "STLS")
    ++ line "."

unfoldable pub slot_of_message : Message → Slot
slot_of_message m = record { uid = m.uid; raw = m.raw; deleted = false }

unfoldable pub slots_of : Option Mailbox → List Slot
slots_of none = []
slots_of (some mb) = map slot_of_message mb.messages

unfoldable pub load_inbox : Pop3Session → Pop3Session
load_inbox s = record s { slots = slots_of (mailbox s.store inbox_name) }

unfoldable pub login_ok : Pop3Session → Bytes → Bytes × Pop3Session
login_ok s identity =
    let s' = load_inbox (record s { identity = some identity; state = transaction }) in
    (ascii "+OK mailbox ready, " ++ decimal (length s'.slots) ++ line " messages", s')

-- `self.active()`, with the number of each slot.
unfoldable pub active : ℕ → List Slot → List (ℕ × Slot)
active i [] = []
active i (slot ∷ slots) =
    let rest = active (suc i) slots in if slot.deleted then rest else (i, slot) ∷ rest

unfoldable pub total : List (ℕ × Slot) → ℕ × ℕ
total [] = (0, 0)
total ((i, slot) ∷ rest) = let (c, s) = total rest in (c + 1, s + length slot.raw)

unfoldable pub stat : Pop3Session → Bytes
stat s =
    let (count, size) = total (active 0 s.slots) in
    ascii "+OK " ++ decimal count ++ ascii " " ++ decimal size ++ 13 ∷ 10 ∷ []

unfoldable pub numbers : ℕ → ℕ → Bytes
numbers i n = decimal (i + 1) ++ ascii " " ++ decimal n ++ 13 ∷ 10 ∷ []

unfoldable pub scan_lines : List (ℕ × Slot) → Bytes
scan_lines [] = line "."
scan_lines ((i, slot) ∷ rest) = numbers i (length slot.raw) ++ scan_lines rest

unfoldable pub uid_lines : List (ℕ × Slot) → Bytes
uid_lines [] = line "."
uid_lines ((i, slot) ∷ rest) = numbers i slot.uid ++ uid_lines rest

unfoldable pub kept : ℕ → Option Slot → Option ℕ
kept i none = none
kept i (some slot) = if slot.deleted then none else some i

unfoldable pub index_of : Pop3Session → Bytes → Option ℕ
index_of s num = elim (parse_usize (trim num)) [
  | none ↦ none
  | some n ↦
      if n == 0 || ltb (length s.slots) n then none else kept (n - 1) (get_elem? s.slots (n - 1))
]

unfoldable pub slot_of : Pop3Session → Bytes → Option (ℕ × Slot)
slot_of s num = elim (index_of s num) [
  | none ↦ none
  | some i ↦ map_option (λ slot. (i, slot)) (get_elem? s.slots i)
]

unfoldable pub list : Pop3Session → Bytes → Bytes
list s rest =
    if length rest == 0
    then line "+OK scan listing follows" ++ scan_lines (active 0 s.slots)
    else (elim (slot_of s rest) [
      | none ↦ no_such_message
      | some (i, slot) ↦ ascii "+OK " ++ numbers i (length slot.raw)
    ])

unfoldable pub uidl : Pop3Session → Bytes → Bytes
uidl s rest =
    if length rest == 0
    then line "+OK unique-id listing follows" ++ uid_lines (active 0 s.slots)
    else (elim (slot_of s rest) [
      | none ↦ no_such_message
      | some (i, slot) ↦ ascii "+OK " ++ numbers i slot.uid
    ])

-- The lines of `split_inclusive`, each with a dot in front if it begins with one. `fresh` says that a line begins.
unfoldable pub stuff_lines : Bool → Bytes → Bytes
stuff_lines fresh [] = []
stuff_lines fresh (b ∷ bs) =
    let rest = b ∷ stuff_lines (b == 10) bs in if fresh && b == b'.' then b'.' ∷ rest else rest

-- `out.last() == Some(&b'\n')`
unfoldable pub ends_line : Bool → Bytes → Bool
ends_line last [] = last
ends_line last (b ∷ bs) = ends_line (b == 10) bs

unfoldable pub dot_stuff : Bytes → Bytes
dot_stuff raw =
    let out = stuff_lines true raw in if ends_line false out then out else out ++ 13 ∷ 10 ∷ []

unfoldable pub retr : Pop3Session → Bytes → Bytes
retr s rest = elim (slot_of s rest) [
  | none ↦ no_such_message
  | some (i, slot) ↦
      ascii "+OK " ++ decimal (length slot.raw) ++ line " octets" ++ dot_stuff slot.raw ++ line "."
]

-- `mime::body_offset` of mime.rs, from the offset `i` on.
unfoldable pub body_offset : ℕ → Bytes → ℕ
body_offset i [] = i
body_offset i (b ∷ []) = i + 1
body_offset i (b ∷ c ∷ []) = if b == 10 && c == 10 then i + 2 else body_offset (i + 1) (c ∷ [])
body_offset i (b ∷ c ∷ d ∷ rest) =
    let next = body_offset (i + 1) (c ∷ d ∷ rest) in
    if b == 10 && c == 10 then i + 2 else if b == 10 && (c == 13 && d == 10) then i + 3 else next

-- `body.split_inclusive(|&b| b == b'\n').take(n)`, put together again.
unfoldable pub take_lines : ℕ → Bytes → Bytes
take_lines zero bs = []
take_lines (suc n) [] = []
take_lines (suc n) (b ∷ bs) =
    let ended = take_lines n bs in
    let more = take_lines (suc n) bs in b ∷ (if b == 10 then ended else more)

unfoldable pub line_count : List Bytes → ℕ
line_count [] = 0
line_count (word ∷ rest) = elim (parse_usize word) [ none ↦ 0 | some n ↦ n ]

-- The headers and the first `n` lines of the body.
unfoldable pub top_of : Bytes → ℕ → Bytes
top_of raw n = let s = body_offset 0 raw in take s raw ++ take_lines n (drop s raw)

unfoldable pub top_words : Pop3Session → List Bytes → Bytes
top_words s [] = no_such_message
top_words s (num ∷ rest) = elim (slot_of s num) [
  | none ↦ no_such_message
  | some (i, slot) ↦ line "+OK" ++ dot_stuff (top_of slot.raw (line_count rest)) ++ line "."
]

-- Without a word the number is the empty string, which is none.
unfoldable pub top : Pop3Session → Bytes → Bytes
top s rest = top_words s (split_whitespace rest)

unfoldable pub mark_at : List Slot → ℕ → List Slot
mark_at [] i = []
mark_at (slot ∷ slots) zero = record slot { deleted = true } ∷ slots
mark_at (slot ∷ slots) (suc i) = slot ∷ mark_at slots i

unfoldable pub dele : Pop3Session → Bytes → Bytes × Pop3Session
dele s rest = elim (index_of s rest) [
  | none ↦ (no_such_message, s)
  | some i ↦ (line "+OK message deleted", record s { slots = mark_at s.slots i })
]

unfoldable pub unmark : List Slot → List Slot
unmark [] = []
unmark (slot ∷ slots) = record slot { deleted = false } ∷ unmark slots

unfoldable pub rset : Pop3Session → Bytes × Pop3Session
rset s = (line "+OK", record s { slots = unmark s.slots })

unfoldable pub to_delete : List Slot → List ℕ
to_delete [] = []
to_delete (slot ∷ slots) =
    let rest = to_delete slots in if slot.deleted then slot.uid ∷ rest else rest

unfoldable pub expunge : Mailbox → ℕ → Mailbox
expunge mb uid = elim (index_of_uid mb uid) [ none ↦ mb | some pos ↦ (remove_at mb pos).1 ]

unfoldable pub expunge_all : Mailbox → List ℕ → Mailbox
expunge_all mb [] = mb
expunge_all mb (uid ∷ uids) = expunge_all (expunge mb uid) uids

-- The UPDATE state, on what `mailbox_mut` lends.
unfoldable pub update : MemoryStore → List ℕ → MemoryStore
update store uids = elim (mailbox store inbox_name) [
  | none ↦ store
  | some mb ↦ record store { mailboxes = insert inbox_name (expunge_all mb uids) store.mailboxes }
]

unfoldable pub committed : State → Pop3Session → Pop3Session
committed authorization s = s
committed transaction s = record s { store = update s.store (to_delete s.slots) }

unfoldable pub quit : Pop3Session → Bytes × Pop3Session
quit s = (line "+OK Envoir POP3 signing off", committed s.state s)

-- The commands that `feed_line_raw` tells apart.
pub data Verb : Type 0 where
  capa_verb quit_verb noop_verb stls_verb user_verb pass_verb apop_verb auth_verb : Verb
  stat_verb list_verb uidl_verb retr_verb top_verb dele_verb rset_verb : Verb

abbrev pub verbs : List (Bytes × Verb)
verbs =
    (ascii "CAPA", capa_verb)
    ∷ (ascii "QUIT", quit_verb)
    ∷ (ascii "NOOP", noop_verb)
    ∷ (ascii "STLS", stls_verb)
    ∷ (ascii "USER", user_verb)
    ∷ (ascii "PASS", pass_verb)
    ∷ (ascii "APOP", apop_verb)
    ∷ (ascii "AUTH", auth_verb)
    ∷ (ascii "STAT", stat_verb)
    ∷ (ascii "LIST", list_verb)
    ∷ (ascii "UIDL", uidl_verb)
    ∷ (ascii "RETR", retr_verb)
    ∷ (ascii "TOP", top_verb)
    ∷ (ascii "DELE", dele_verb)
    ∷ (ascii "RSET", rset_verb)
    ∷ []

-- The verb in upper case, and what stands behind it.
unfoldable pub parts_of : Bytes → Bytes × Bytes
parts_of text = elim (split_once text) [
  | some (v, r) ↦ (to_ascii_uppercase v, trim r)
  | none ↦ (to_ascii_uppercase (trim text), [])
]

module _ (auth : Authenticator) where
  unfoldable pub login : Pop3Session → Bytes → Bytes → Bytes → Bytes × Pop3Session
  login s username password refusal = elim (auth.verify username password) [
    | none ↦ (refusal, s)
    | some id ↦ login_ok s id
  ]

  unfoldable pub pass : Pop3Session → Bytes → Bytes × Pop3Session
  pass s password = elim s.user [
    | none ↦ (line "-ERR USER first", s)
    | some user ↦ login s user password (line "-ERR [AUTH] invalid credentials")
  ]

  unfoldable pub apop_with : Pop3Session → Bytes → Bytes → Bytes × Pop3Session
  apop_with s name digest = elim (auth.secret_for name) [
    | none ↦ (line "-ERR [AUTH] APOP not available for this user", s)
    | some secret ↦
        if ct_eq (hex (md5 (banner ++ secret))) (to_ascii_lowercase digest)
        then login s name secret (line "-ERR [AUTH] APOP failed")
        else (line "-ERR [AUTH] APOP digest mismatch", s)
  ]

  unfoldable pub apop_words : Pop3Session → List Bytes → Bytes × Pop3Session
  apop_words s (name ∷ digest ∷ rest) = apop_with s name digest
  apop_words s _ = (line "-ERR APOP requires name and digest", s)

  unfoldable pub apop : Pop3Session → Bytes → Bytes × Pop3Session
  apop s rest = apop_words s (split_whitespace rest)

  unfoldable pub finish_plain : Pop3Session → Bytes → Bytes × Pop3Session
  finish_plain s ir = elim (decode_plain ir) [
    | none ↦ (line "-ERR malformed SASL PLAIN", s)
    | some cred ↦ login s cred.authcid cred.password (line "-ERR [AUTH] invalid credentials")
  ]

  unfoldable pub plain_with : Pop3Session → List Bytes → Bytes × Pop3Session
  plain_with s [] = (line "+ ", record s { pending_sasl = some plain_step })
  plain_with s (ir ∷ rest) = finish_plain s ir

  unfoldable pub auth_words : Pop3Session → List Bytes → Bytes × Pop3Session
  auth_words s [] = (line "-ERR unsupported SASL mechanism", s)
  auth_words s (mech ∷ rest) =
      if eq_bytes (to_ascii_uppercase mech) (ascii "PLAIN")
      then plain_with s rest
      else (line "-ERR unsupported SASL mechanism", s)

  unfoldable pub auth_cmd : Pop3Session → Bytes → Bytes × Pop3Session
  auth_cmd s rest = auth_words s (split_whitespace rest)

  unfoldable pub continue_sasl : Pop3Session → SaslStep → Bytes → Bytes × Pop3Session
  continue_sasl s plain_step text = finish_plain s (trim text)

  -- The `match` of `feed_line_raw`.
  unfoldable pub run_verb : Pop3Session → State → Verb → Bytes → Bytes × Pop3Session
  run_verb s _ capa_verb rest = (capa s, s)
  run_verb s _ quit_verb rest = quit s
  run_verb s _ noop_verb rest = (line "+OK", s)
  run_verb s authorization stls_verb rest = (line "+OK Begin TLS", record s { tls = true })
  run_verb s authorization user_verb rest = (line "+OK send PASS", record s { user = some rest })
  run_verb s authorization pass_verb rest = pass s rest
  run_verb s authorization apop_verb rest = apop s rest
  run_verb s authorization auth_verb rest = auth_cmd s rest
  run_verb s transaction stat_verb rest = (stat s, s)
  run_verb s transaction list_verb rest = (list s rest, s)
  run_verb s transaction uidl_verb rest = (uidl s rest, s)
  run_verb s transaction retr_verb rest = (retr s rest, s)
  run_verb s transaction top_verb rest = (top s rest, s)
  run_verb s transaction dele_verb rest = dele s rest
  run_verb s transaction rset_verb rest = rset s
  run_verb s _ _ rest = (not_permitted, s)

  unfoldable pub run : Pop3Session → Bytes × Bytes → Bytes × Pop3Session
  run s (verb, rest) = elim (lookup verb verbs) [
    | none ↦ (not_permitted, s)
    | some v ↦ run_verb s s.state v rest
  ]

  unfoldable pub feed_line_raw : Pop3Session → Bytes → Bytes × Pop3Session
  feed_line_raw s text = elim s.pending_sasl [
    | some step ↦ continue_sasl (record s { pending_sasl = none }) step text
    | none ↦ run s (parts_of text)
  ]
