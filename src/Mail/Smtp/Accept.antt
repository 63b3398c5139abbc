-- ===== src/Mail/Smtp/Accept.antt =====
-- What a session of crates/kotva-mail/src/smtp.rs accepts: `feed_line_bytes` over any sequence of lines.
use dmtap.Prelude.{
  ℕ, ◌≡◌, ◌≢◌, inl, inr, refl, Bool, true, Bytes, List, [], ◌∷◌, none, lookup, Option-cases,
}
use dmtap.Result.{Result, ok, Yields, returns, Yields-bind, ◌>>=◌}
use dmtap.Mail.Text.Lossy.{from_utf8_lossy}
use dmtap.Mail.Auth.{Authenticator}
use dmtap.Mail.Pop3.{parts_of}
use dmtap.Mail.Smtp.{
  Panic, Phase, greeting_phase, command_phase, data_phase, SmtpSession, new_smtp, set_max_size,
  greet, ehlo, is_some, SmtpVerb, smtp_verbs, run_smtp_verb, run_command, feed_command, feed_in,
  feed_line_bytes, ehlo_verb, helo_verb, starttls_verb, smtp_auth_verb, mail_verb, rcpt_verb,
  data_verb, smtp_rset_verb, smtp_noop_verb, vrfy_verb, smtp_quit_verb, help_verb,
}
use dmtap.Mail.Smtp.Sound.{
  IsSound, others-IsSound, reset_txn-IsSound, cmd_auth-IsSound, continue_auth-IsSound,
}
use dmtap.Mail.Smtp.Transaction.{
  cmd_data-IsSound, feed_data_line-IsSound, cmd_mail-IsSound, cmd_rcpt-IsSound,
}

module _ (auth : Authenticator) where
  module _ (max : ℕ) where
    run_smtp_verb-IsSound :
        (s : SmtpSession) (v : SmtpVerb) (rest : Bytes)
        → s.phase ≢ data_phase
        → IsSound auth max s
        → Yields (λ (reply, s'). IsSound auth max s') (run_smtp_verb auth s v rest)
    unfolding run_smtp_verb ehlo
    run_smtp_verb-IsSound s ehlo_verb rest command h =
        returns (reset_txn-IsSound auth max s command h)
    run_smtp_verb-IsSound s helo_verb rest command h =
        returns (reset_txn-IsSound auth max s command h)
    run_smtp_verb-IsSound s starttls_verb rest command h =
        returns (others-IsSound auth max s true s.pending_auth h)
    run_smtp_verb-IsSound s smtp_auth_verb rest command h =
        returns (cmd_auth-IsSound auth max s rest h)
    run_smtp_verb-IsSound s mail_verb rest command h = cmd_mail-IsSound auth max s rest command h
    run_smtp_verb-IsSound s rcpt_verb rest command h = cmd_rcpt-IsSound auth max s rest command h
    run_smtp_verb-IsSound s data_verb rest command h = returns (cmd_data-IsSound auth max s h)
    run_smtp_verb-IsSound s smtp_rset_verb rest command h =
        returns (reset_txn-IsSound auth max s command h)
    run_smtp_verb-IsSound s smtp_noop_verb rest command h = returns h
    run_smtp_verb-IsSound s vrfy_verb rest command h = returns h
    run_smtp_verb-IsSound s smtp_quit_verb rest command h = returns h
    run_smtp_verb-IsSound s help_verb rest command h = returns h

    feed_command-IsSound :
        (s : SmtpSession) (text : Bytes)
        → s.phase ≢ data_phase
        → IsSound auth max s
        → Yields (λ (reply, s'). IsSound auth max s') (feed_command auth s text)
    unfolding feed_command run_command
    feed_command-IsSound s text command h = elim (Option-cases s.pending_auth) [
      | inr (p, e) ↦
          rw (feed_command, e)
            (returns (
              continue_auth-IsSound auth max (record s { pending_auth = none }) p text
                (others-IsSound auth max s s.tls none h)))
      | inl e ↦
          (let (verb, rest) = parts_of text in
            elim (Option-cases (lookup verb smtp_verbs)) [
              | inl f ↦ rw (feed_command, e, run_command, f) (returns h)
              | inr (v, f) ↦
                  rw (feed_command, e, run_command, f) (run_smtp_verb-IsSound s v rest command h)
            ])
    ]

    feed_in-IsSound :
        (s : SmtpSession) (phase : Phase) (text : Bytes)
        → s.phase ≡ phase
        → IsSound auth max s
        → Yields (λ (reply, s'). IsSound auth max s') (feed_in auth s phase text)
    unfolding feed_in
    feed_in-IsSound s data_phase text e h = returns (feed_data_line-IsSound auth max s text e h)
    feed_in-IsSound s greeting_phase text e h =
        feed_command-IsSound s (from_utf8_lossy text) (λ d. cc) h
    feed_in-IsSound s command_phase text e h =
        feed_command-IsSound s (from_utf8_lossy text) (λ d. cc) h

  -- The session after the lines, as far as no line makes it panic.
  unfoldable pub after : SmtpSession → List Bytes → Result Panic SmtpSession
  after s [] = ok s
  after s (text ∷ later) = feed_line_bytes auth s text >>= λ (reply, s'). after s' later

  after-IsSound :
      (max : ℕ) (s : SmtpSession) (texts : List Bytes)
      → IsSound auth max s
      → Yields (IsSound auth max) (after s texts)
  unfolding after feed_line_bytes
  after-IsSound max s [] h = returns h
  after-IsSound max s (text ∷ later) h =
      Yields-bind (feed_in-IsSound max s s.phase text refl h)
        λ (reply, s') h'. after-IsSound max s' later h'

  -- A session with its limit set, after any lines that it survives: if it has accepted a submission, it holds an
  -- identity that the authenticator returned for a user name and a password, and each submission has
  -- recipients, a notification setting for each, and data within the limit.
  pub after-new_smtp :
      (tls : Bool) (max : ℕ) (texts : List Bytes)
      → Yields (IsSound auth max) (after (greet (set_max_size (new_smtp tls) max)).1 texts)
  unfolding greet set_max_size is_some
  after-new_smtp tls max texts =
      after-IsSound max (greet (set_max_size (new_smtp tls) max)).1 texts (record {
        limit = refl;
        required = refl;
        proven = λ id e. cc;
        no_sender = λ e. refl;
        receiving = λ e. absurd (cc);
        aligned = refl;
        accepted = tt;
        anonymous = λ e. refl;
      })
