-- ===== src/Mail/Smtp.antt =====
-- crates/kotva-mail/src/smtp.rs: a session of message submission. Each handler returns its reply and the session
-- after it; a reply is its bytes. `Panic` is the panic of a slice whose end lies before its begin.
pub mod Sound
pub mod Transaction
pub mod Accept
pub mod Panics
pub mod Receive
mod Tests
use mathlib.Core.Option.{map as map_option}
use dmtap.Prelude.{
  ℕ, suc, ◌+◌, ◌-◌, ◌*◌, Bool, true, false, ◌&&◌, not, Bytes, List, [], ◌∷◌, ◌++◌, Option, none,
  some, ascii, length, take, drop, ltb, leb, ◌==◌, if◌then◌else◌, eq_bytes, lookup,
}
use dmtap.Result.{Result, ok, err, map_ok}
use dmtap.Store.Memory.{eq_ignore_ascii_case}
use dmtap.Mail.Text.{
  trim, trim_start_from, split_whitespace, split_once, to_ascii_uppercase, parse_usize, decimal,
  find_text, find_byte,
}
use dmtap.Mail.Text.Lossy.{from_utf8_lossy}
use dmtap.Mail.Base64.{base64_encode}
use dmtap.Mail.Auth.{
  Authenticator, SaslMechanism, plain, login, SaslCredential, parse_mechanism, decode_plain,
  decode_login_field,
}
use dmtap.Mail.Pop3.{line, parts_of}

pub data Panic : Type 0 where
  slice_out_of_order : Panic

abbrev pub max_message : ℕ
max_message = 50 * 1024 * 1024

pub data Ret : Type 0 where
  full headers : Ret

unfoldable pub parse_ret : Bytes → Option Ret
parse_ret v =
    if eq_bytes (to_ascii_uppercase v) (ascii "FULL")
    then some full
    else if eq_bytes (to_ascii_uppercase v) (ascii "HDRS")
    then some headers
    else none

pub record Submission : Type 0 where
  pub mail_from : Bytes
  pub rcpt_to : List Bytes
  pub data_bytes : Bytes
  pub envid : Option Bytes
  pub ret : Option Ret
  pub dsn_notify : List (Option Bytes)

pub data Phase : Type 0 where
  greeting_phase command_phase data_phase : Phase

pub data SmtpPendingAuth : Type 0 where
  plain_auth login_user : SmtpPendingAuth
  login_pass : Bytes → SmtpPendingAuth

pub record SmtpSession : Type 0 where
  pub tls : Bool
  pub require_auth : Bool
  pub max_size : ℕ
  pub phase : Phase
  pub authed : Option Bytes
  pub mail_from : Option Bytes
  pub rcpt_to : List Bytes
  pub dsn_notify : List (Option Bytes)
  pub envid : Option Bytes
  pub ret : Option Ret
  pub data_buf : Bytes
  pub data_oversized : Bool
  pub pending_auth : Option SmtpPendingAuth
  pub submissions : List Submission

abbrev pub new_smtp : Bool → SmtpSession
new_smtp tls = record {
  tls = tls;
  require_auth = true;
  max_size = max_message;
  phase = greeting_phase;
  authed = none;
  mail_from = none;
  rcpt_to = [];
  dsn_notify = [];
  envid = none;
  ret = none;
  data_buf = [];
  data_oversized = false;
  pending_auth = none;
  submissions = [];
}

unfoldable pub set_max_size : SmtpSession → ℕ → SmtpSession
set_max_size s max = record s { max_size = max }

unfoldable pub greet : SmtpSession → Bytes × SmtpSession
greet s =
    (line "220 mail.dmtap.local Envoir DMTAP Submission ready", record s { phase = command_phase })

unfoldable pub take_submissions : SmtpSession → List Submission × SmtpSession
take_submissions s = (s.submissions, record s { submissions = [] })

unfoldable pub reset_txn : SmtpSession → SmtpSession
reset_txn s = record s {
  mail_from = none;
  rcpt_to = [];
  dsn_notify = [];
  envid = none;
  ret = none;
  data_buf = [];
}

unfoldable pub ehlo_lines : SmtpSession → Bytes → Bytes
ehlo_lines s domain =
    (ascii "250-mail.dmtap.local greets " ++ domain ++ 13 ∷ 10 ∷ [])
    ++ (ascii "250-SIZE " ++ decimal s.max_size ++ 13 ∷ 10 ∷ [])
    ++ line "250-8BITMIME"
    ++ line "250-SMTPUTF8"
    ++ line "250-PIPELINING"
    ++ line "250-DSN"
    ++ line "250-ENHANCEDSTATUSCODES"
    ++ (if s.tls then line "250-AUTH PLAIN LOGIN" else line "250-STARTTLS")
    ++ line "250 HELP"

unfoldable pub ehlo : SmtpSession → Bytes → Bool → Bytes × SmtpSession
ehlo s domain true = (ehlo_lines s domain, reset_txn s)
ehlo s domain false = (ascii "250 mail.dmtap.local greets " ++ domain ++ 13 ∷ 10 ∷ [], reset_txn s)

-- `&s[from..to]`
unfoldable pub slice : Bytes → ℕ → ℕ → Result Panic Bytes
slice s from to =
    if leb from to then ok (take (to - from) (drop from s)) else err slice_out_of_order

unfoldable pub first_word : List Bytes → Option Bytes
first_word [] = none
first_word (w ∷ ws) = some w

-- The address in angle brackets, or up to the first space if there is not one of each.
unfoldable pub address : Bytes → Option ℕ → Option ℕ → Result Panic (Option Bytes)
address after (some lt) (some gt) = map_ok (λ a. some a) (slice after (lt + 1) gt)
address after _ _ = ok (first_word (split_whitespace after))

unfoldable pub path_after : Bytes → Bytes → Result Panic (Option Bytes)
path_after keyword rest = elim (find_text (keyword ++ b':' ∷ []) (to_ascii_uppercase rest)) [
  | none ↦ ok none
  | some idx ↦
      (let after = trim_start_from 0 (drop (idx + length keyword + 1) rest) in
        address after (find_byte b'<' after) (find_byte b'>' after))
]

unfoldable pub parse_path_param : Bytes → Bytes → Result Panic (Option Bytes)
parse_path_param rest keyword = path_after keyword rest

-- `tok.split_once('=')`
unfoldable pub split_equals : Bytes → Option (Bytes × Bytes)
split_equals tok = map_option (λ i. (take i tok, drop (suc i) tok)) (find_byte b'=' tok)

unfoldable pub value_of : Bytes → Option (Bytes × Bytes) → Option Bytes
value_of key none = none
value_of key (some (k, v)) = if eq_ignore_ascii_case k key then some v else none

unfoldable pub find_value : Bytes → List Bytes → Option Bytes
find_value key [] = none
find_value key (tok ∷ toks) = elim (value_of key (split_equals tok)) [
  | some v ↦ some v
  | none ↦ find_value key toks
]

unfoldable pub param_value : Bytes → Bytes → Option Bytes
param_value rest key = find_value key (split_whitespace rest)

-- Whether a declared SIZE is beyond the limit.
unfoldable pub is_too_large : ℕ → Option Bytes → Bool
is_too_large max none = false
is_too_large max (some v) = elim (parse_usize v) [ none ↦ false | some n ↦ ltb max n ]

unfoldable pub ret_of : Option Bytes → Option Ret
ret_of none = none
ret_of (some v) = parse_ret v

unfoldable pub mail_checked : SmtpSession → Bytes → Option Bytes → Bytes × SmtpSession
mail_checked s rest none = (line "501 5.5.4 Syntax: MAIL FROM:<address>", s)
mail_checked s rest (some addr) =
    if is_too_large s.max_size (param_value rest (ascii "SIZE"))
    then (line "552 5.3.4 Message size exceeds fixed limit", s)
    else (
      line "250 2.1.0 Sender OK",
      record s {
        ret = ret_of (param_value rest (ascii "RET"));
        envid = param_value rest (ascii "ENVID");
        mail_from = some addr;
        rcpt_to = [];
        dsn_notify = [];
      },
    )

unfoldable pub is_some {ℓ} : {A : Type ℓ} → Option A → Bool
is_some none = false
is_some (some a) = true

unfoldable pub cmd_mail : SmtpSession → Bytes → Result Panic (Bytes × SmtpSession)
cmd_mail s rest =
    if s.require_auth && not (is_some s.authed)
    then ok (line "530 5.7.0 Authentication required", s)
    else map_ok (mail_checked s rest) (parse_path_param rest (ascii "FROM"))

unfoldable pub add_rcpt : SmtpSession → Bytes → Option Bytes → Bytes × SmtpSession
add_rcpt s rest none = (line "501 5.5.4 Syntax: RCPT TO:<address>", s)
add_rcpt s rest (some addr) = (
  line "250 2.1.5 Recipient OK",
  record s {
    rcpt_to = s.rcpt_to ++ addr ∷ [];
    dsn_notify = s.dsn_notify ++ param_value rest (ascii "NOTIFY") ∷ [];
  },
)

unfoldable pub cmd_rcpt : SmtpSession → Bytes → Result Panic (Bytes × SmtpSession)
cmd_rcpt s rest =
    if is_some s.mail_from
    then map_ok (add_rcpt s rest) (parse_path_param rest (ascii "TO"))
    else ok (line "503 5.5.1 Need MAIL before RCPT", s)

unfoldable pub cmd_data : SmtpSession → Bytes × SmtpSession
cmd_data s =
    if is_some s.mail_from && not (length s.rcpt_to == 0)
    then (
      line "354 End data with <CR><LF>.<CR><LF>",
      record s { phase = data_phase; data_buf = []; data_oversized = false },
    )
    else (line "503 5.5.1 Need MAIL and RCPT before DATA", s)

-- `unwrap_or_default`
unfoldable pub text_or : Option Bytes → Bytes
text_or none = []
text_or (some t) = t

unfoldable pub submission_of : SmtpSession → Submission
submission_of s = record {
  mail_from = text_or s.mail_from;
  rcpt_to = s.rcpt_to;
  data_bytes = s.data_buf;
  envid = s.envid;
  ret = s.ret;
  dsn_notify = s.dsn_notify;
}

-- The line of a single dot.
unfoldable pub end_data : SmtpSession → Bytes × SmtpSession
end_data s =
    if s.data_oversized
    then (
      line "552 5.3.4 Message exceeds fixed maximum message size",
      reset_txn (record s { phase = command_phase; data_buf = [] }),
    )
    else (
      line "250 2.0.0 OK: queued as MOTE",
      record s {
        phase = command_phase;
        mail_from = none;
        rcpt_to = [];
        data_buf = [];
        envid = none;
        ret = none;
        dsn_notify = [];
        submissions = s.submissions ++ submission_of s ∷ [];
      },
    )

unfoldable pub strip_dot : Bytes → Bytes
strip_dot [] = []
strip_dot (b ∷ bs) = if b == b'.' then bs else b ∷ bs

unfoldable pub buffered : SmtpSession → Bytes → Bytes
buffered s content =
    if leb (length s.data_buf) s.max_size
    then (s.data_buf ++ content) ++ 13 ∷ 10 ∷ []
    else s.data_buf

unfoldable pub add_content : SmtpSession → Bytes → SmtpSession
add_content s content =
    let buf = buffered s content in
    record s {
      data_buf = buf;
      data_oversized = if ltb s.max_size (length buf) then true else s.data_oversized;
    }

unfoldable pub feed_data_line : SmtpSession → Bytes → Bytes × SmtpSession
feed_data_line s text =
    if eq_bytes text (b'.' ∷ []) then end_data s else ([], add_content s (strip_dot text))

-- The commands that `feed_line_bytes` tells apart.
pub data SmtpVerb : Type 0 where
  ehlo_verb helo_verb starttls_verb smtp_auth_verb mail_verb rcpt_verb data_verb : SmtpVerb
  smtp_rset_verb smtp_noop_verb vrfy_verb smtp_quit_verb help_verb : SmtpVerb

abbrev pub smtp_verbs : List (Bytes × SmtpVerb)
smtp_verbs =
    (ascii "EHLO", ehlo_verb)
    ∷ (ascii "HELO", helo_verb)
    ∷ (ascii "STARTTLS", starttls_verb)
    ∷ (ascii "AUTH", smtp_auth_verb)
    ∷ (ascii "MAIL", mail_verb)
    ∷ (ascii "RCPT", rcpt_verb)
    ∷ (ascii "DATA", data_verb)
    ∷ (ascii "RSET", smtp_rset_verb)
    ∷ (ascii "NOOP", smtp_noop_verb)
    ∷ (ascii "VRFY", vrfy_verb)
    ∷ (ascii "QUIT", smtp_quit_verb)
    ∷ (ascii "HELP", help_verb)
    ∷ []

module _ (auth : Authenticator) where
  unfoldable pub finish_credentials : SmtpSession → Bytes → Bytes → Bytes × SmtpSession
  finish_credentials s user password = elim (auth.verify user password) [
    | none ↦ (line "535 5.7.8 Authentication credentials invalid", s)
    | some id ↦ (line "235 2.7.0 Authentication successful", record s { authed = some id })
  ]

  unfoldable pub finish_smtp_plain : SmtpSession → Bytes → Bytes × SmtpSession
  finish_smtp_plain s ir = elim (decode_plain ir) [
    | none ↦ (line "501 5.5.2 Cannot decode AUTH PLAIN", s)
    | some cred ↦ finish_credentials s cred.authcid cred.password
  ]

  unfoldable pub auth_with : SmtpSession → Option SaslMechanism → Option Bytes → Bytes × SmtpSession
  auth_with s (some plain) (some ir) = finish_smtp_plain s ir
  auth_with s (some plain) none = (line "334 ", record s { pending_auth = some plain_auth })
  auth_with s (some login) initial = (
    ascii "334 " ++ base64_encode (ascii "Username:") ++ 13 ∷ 10 ∷ [],
    record s { pending_auth = some login_user },
  )
  auth_with s none initial = (line "504 5.5.4 Unrecognized authentication type", s)

  unfoldable pub mechanism_words : SmtpSession → List Bytes → Bytes × SmtpSession
  mechanism_words s [] = auth_with s (parse_mechanism []) none
  mechanism_words s (mech ∷ rest) = auth_with s (parse_mechanism mech) (first_word rest)

  unfoldable pub cmd_auth : SmtpSession → Bytes → Bytes × SmtpSession
  cmd_auth s rest =
      if is_some s.authed
      then (line "503 5.5.1 Already authenticated", s)
      else if s.tls
      then mechanism_words s (split_whitespace rest)
      else (line "538 5.7.11 Encryption required for requested authentication mechanism", s)

  unfoldable pub continue_auth : SmtpSession → SmtpPendingAuth → Bytes → Bytes × SmtpSession
  continue_auth s plain_auth text = finish_smtp_plain s (trim text)
  continue_auth s login_user text = (
    ascii "334 " ++ base64_encode (ascii "Password:") ++ 13 ∷ 10 ∷ [],
    record s { pending_auth = some (login_pass (text_or (decode_login_field (trim text)))) },
  )
  continue_auth s (login_pass user) text =
      finish_credentials s user (text_or (decode_login_field (trim text)))

  -- The `match` of `feed_line_bytes`.
  unfoldable pub run_smtp_verb : SmtpSession → SmtpVerb → Bytes → Result Panic (Bytes × SmtpSession)
  run_smtp_verb s ehlo_verb rest = ok (ehlo s rest true)
  run_smtp_verb s helo_verb rest = ok (ehlo s rest false)
  run_smtp_verb s starttls_verb rest =
      ok (line "220 2.0.0 Ready to start TLS", record s { tls = true })
  run_smtp_verb s smtp_auth_verb rest = ok (cmd_auth s rest)
  run_smtp_verb s mail_verb rest = cmd_mail s rest
  run_smtp_verb s rcpt_verb rest = cmd_rcpt s rest
  run_smtp_verb s data_verb rest = ok (cmd_data s)
  run_smtp_verb s smtp_rset_verb rest = ok (line "250 2.0.0 OK", reset_txn s)
  run_smtp_verb s smtp_noop_verb rest = ok (line "250 2.0.0 OK", s)
  run_smtp_verb s vrfy_verb rest =
      ok (line "252 2.1.5 Cannot VRFY, but will accept and attempt delivery", s)
  run_smtp_verb s smtp_quit_verb rest = ok (line "221 2.0.0 Bye", s)
  run_smtp_verb s help_verb rest = ok (line "214 2.0.0 Envoir DMTAP submission", s)

  unfoldable pub run_command : SmtpSession → Bytes × Bytes → Result Panic (Bytes × SmtpSession)
  run_command s (verb, rest) = elim (lookup verb smtp_verbs) [
    | none ↦ ok (line "500 5.5.1 Command unrecognized", s)
    | some v ↦ run_smtp_verb s v rest
  ]

  unfoldable pub feed_command : SmtpSession → Bytes → Result Panic (Bytes × SmtpSession)
  feed_command s text = elim s.pending_auth [
    | some p ↦ ok (continue_auth (record s { pending_auth = none }) p text)
    | none ↦ run_command s (parts_of text)
  ]

  -- `feed_line_bytes` in a phase.
  unfoldable pub feed_in : SmtpSession → Phase → Bytes → Result Panic (Bytes × SmtpSession)
  feed_in s data_phase text = ok (feed_data_line s text)
  feed_in s _ text = feed_command s (from_utf8_lossy text)

  unfoldable pub feed_line_bytes : SmtpSession → Bytes → Result Panic (Bytes × SmtpSession)
  feed_line_bytes s text = feed_in s s.phase text
