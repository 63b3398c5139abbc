-- ===== src/Mail/Smtp/Panics.antt =====
-- Which lines make a session of crates/kotva-mail/src/smtp.rs panic.
use dmtap.Prelude.{
  ℕ, ◌+◌, ◌≤◌, ◌≡◌, ◌⊎◌, inl, inr, refl, false, ◌&&◌, not, Bytes, [], ◌∷◌, ◌++◌, some, length, drop,
  arith, ascii, leb, lookup, Bool-cases, Option-cases,
}
use dmtap.Result.{Result, ok, err, map_ok, Result-cases}
use dmtap.Mail.Text.{trim_start_from, to_ascii_uppercase, find_text, find_byte}
use dmtap.Mail.Text.Lossy.{from_utf8_lossy}
use dmtap.Mail.Auth.{Authenticator}
use dmtap.Mail.Pop3.{parts_of}
use dmtap.Mail.Smtp.{
  Panic, slice_out_of_order, Phase, greeting_phase, command_phase, data_phase, SmtpSession, slice,
  address, path_after, parse_path_param, mail_checked, add_rcpt, is_some, cmd_mail, cmd_rcpt,
  SmtpVerb, smtp_verbs, run_smtp_verb, run_command, feed_command, feed_in, feed_line_bytes,
  ehlo_verb, helo_verb, starttls_verb, smtp_auth_verb, mail_verb, rcpt_verb, data_verb,
  smtp_rset_verb, smtp_noop_verb, vrfy_verb, smtp_quit_verb, help_verb,
}

-- The first closing bracket stands before the first opening one.
abbrev pub IsCrossed : Bytes → Type 0
IsCrossed after =
    (lt : ℕ) × (gt : ℕ) × (find_byte b'<' after ≡ some lt)
    × (find_byte b'>' after ≡ some gt)
    × (gt ≤ lt)

-- What stands behind the keyword and its colon.
abbrev pub HasCrossed : Bytes → Bytes → Type 0
HasCrossed rest keyword =
    (idx : ℕ) × (find_text (keyword ++ b':' ∷ []) (to_ascii_uppercase rest) ≡ some idx)
    × IsCrossed (trim_start_from 0 (drop (idx + length keyword + 1) rest))

address-err :
    (after : Bytes) (e : Panic)
    → address after (find_byte b'<' after) (find_byte b'>' after) ≡ err e
    → IsCrossed after
unfolding address slice
address-err after e h = elim (Option-cases (find_byte b'<' after)) [
  | inl missing ↦ absurd (let bad = rw (missing, address) at h in cc)
  | inr (lt, at_lt) ↦ elim (Option-cases (find_byte b'>' after)) [
    | inl missing ↦ absurd (let bad = rw (at_lt, missing, address) at h in cc)
    | inr (gt, at_gt) ↦ elim (Bool-cases (leb (lt + 1) gt)) [
      | inl fine ↦ absurd (let bad = rw (at_lt, at_gt, address, slice, fine) at h in cc)
      | inr crossed ↦ (lt, gt, at_lt, at_gt, ground arith)
    ]
  ]
]

parse_path_param-err :
    (rest keyword : Bytes) (e : Panic)
    → parse_path_param rest keyword ≡ err e
    → HasCrossed rest keyword
unfolding parse_path_param path_after
parse_path_param-err rest keyword e h =
    elim (Option-cases (find_text (keyword ++ b':' ∷ []) (to_ascii_uppercase rest))) [
      | inl missing ↦ absurd (let bad = rw (path_after, missing) at h in cc)
      | inr (idx, found) ↦ (idx, found, address-err _ e (rw (path_after, found) at h))
    ]

err-parse_path_param :
    (rest keyword : Bytes)
    → HasCrossed rest keyword
    → parse_path_param rest keyword ≡ err slice_out_of_order
unfolding parse_path_param path_after address slice
err-parse_path_param rest keyword (idx, found, (lt, gt, at_lt, at_gt, le)) =
    let crossed : leb (lt + 1) gt ≡ false = ground arith in
    rw (parse_path_param, path_after, found, at_lt, at_gt, address, slice, crossed) refl

map_ok-err :
    {A B : Type 0} (f : A → B) (r : Result Panic A) (e : Panic) → map_ok f r ≡ err e → r ≡ err e
map_ok-err f (ok a) e h = cc
map_ok-err f (err e') e h = cc

cmd_mail-err :
    (s : SmtpSession) (rest : Bytes) (e : Panic)
    → cmd_mail s rest ≡ err e
    → HasCrossed rest (ascii "FROM")
unfolding cmd_mail
cmd_mail-err s rest e h = elim (Bool-cases (s.require_auth && not (is_some s.authed))) [
  | inl c ↦ absurd (let bad = rw (cmd_mail, c) at h in cc)
  | inr c ↦
      parse_path_param-err rest (ascii "FROM") e
        (map_ok-err (mail_checked s rest) _ e (rw (cmd_mail, c) at h))
]

cmd_rcpt-err :
    (s : SmtpSession) (rest : Bytes) (e : Panic)
    → cmd_rcpt s rest ≡ err e
    → HasCrossed rest (ascii "TO")
unfolding cmd_rcpt
cmd_rcpt-err s rest e h = elim (Bool-cases (is_some s.mail_from)) [
  | inl c ↦
      parse_path_param-err rest (ascii "TO") e
        (map_ok-err (add_rcpt s rest) _ e (rw (cmd_rcpt, c) at h))
  | inr c ↦ absurd (let bad = rw (cmd_rcpt, c) at h in cc)
]

module _ (auth : Authenticator) where
  run_smtp_verb-err :
      (s : SmtpSession) (v : SmtpVerb) (rest : Bytes) (e : Panic)
      → run_smtp_verb auth s v rest ≡ err e
      → HasCrossed rest (ascii "FROM") ⊎ HasCrossed rest (ascii "TO")
  unfolding run_smtp_verb
  run_smtp_verb-err s mail_verb rest e h = inl (cmd_mail-err s rest e h)
  run_smtp_verb-err s rcpt_verb rest e h = inr (cmd_rcpt-err s rest e h)
  run_smtp_verb-err s ehlo_verb rest e h = cc
  run_smtp_verb-err s helo_verb rest e h = cc
  run_smtp_verb-err s starttls_verb rest e h = cc
  run_smtp_verb-err s smtp_auth_verb rest e h = cc
  run_smtp_verb-err s data_verb rest e h = cc
  run_smtp_verb-err s smtp_rset_verb rest e h = cc
  run_smtp_verb-err s smtp_noop_verb rest e h = cc
  run_smtp_verb-err s vrfy_verb rest e h = cc
  run_smtp_verb-err s smtp_quit_verb rest e h = cc
  run_smtp_verb-err s help_verb rest e h = cc

  feed_command-err :
      (s : SmtpSession) (text : Bytes) (e : Panic)
      → feed_command auth s text ≡ err e
      → HasCrossed (parts_of text).1 (ascii "FROM") ⊎ HasCrossed (parts_of text).1 (ascii "TO")
  unfolding feed_command run_command
  feed_command-err s text e h = elim (Option-cases s.pending_auth) [
    | inr (p, waiting) ↦ absurd (let bad = rw (feed_command, waiting) at h in cc)
    | inl idle ↦ elim (Option-cases (lookup (parts_of text).0 smtp_verbs)) [
      | inl unknown ↦ absurd (let bad = rw (feed_command, idle, run_command, unknown) at h in cc)
      | inr (v, known) ↦
          run_smtp_verb-err s v (parts_of text).1 e
            (rw (feed_command, idle, run_command, known) at h)
    ]
  ]

  feed_in-err :
      (s : SmtpSession) (phase : Phase) (text : Bytes) (e : Panic)
      → feed_in auth s phase text ≡ err e
      → HasCrossed (parts_of (from_utf8_lossy text)).1 (ascii "FROM")
        ⊎ HasCrossed (parts_of (from_utf8_lossy text)).1 (ascii "TO")
  unfolding feed_in
  feed_in-err s data_phase text e h = cc
  feed_in-err s greeting_phase text e h = feed_command-err s (from_utf8_lossy text) e h
  feed_in-err s command_phase text e h = feed_command-err s (from_utf8_lossy text) e h

  -- A line always gets a reply, unless its argument has a closing bracket before the first opening one, behind
  -- `FROM:` or `TO:`.
  pub feed_line_bytes-eq-ok :
      (s : SmtpSession) (text : Bytes)
      → (HasCrossed (parts_of (from_utf8_lossy text)).1 (ascii "FROM") → ⊥)
      → (HasCrossed (parts_of (from_utf8_lossy text)).1 (ascii "TO") → ⊥)
      → (reply : Bytes) × (s' : SmtpSession) × (feed_line_bytes auth s text ≡ ok (reply, s'))
  unfolding feed_line_bytes
  feed_line_bytes-eq-ok s text sender recipient =
      elim (Result-cases (feed_line_bytes auth s text)) [
        | inl ((reply, s'), e) ↦ (reply, s', e)
        | inr (p, e) ↦ elim (feed_in-err s s.phase text p e) [
          | inl c ↦ absurd (sender c)
          | inr c ↦ absurd (recipient c)
        ]
      ]
