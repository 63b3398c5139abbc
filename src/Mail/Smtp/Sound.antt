-- ===== src/Mail/Smtp/Sound.antt =====
-- The sessions of crates/kotva-mail/src/smtp.rs that are sound, and that authentication keeps them so.
use dmtap.Prelude.{
  ℕ, ◌<◌, ◌≤◌, ◌≡◌, ◌≢◌, inl, inr, refl, ◌∙◌, Bool, true, false, Bytes, List, [], ◌∷◌, Option, none,
  some, length, All, if◌then◌else◌, Bool-cases, Option-cases,
}
use dmtap.Mail.Text.{split_whitespace, trim}
use dmtap.Mail.Auth.{
  Authenticator, SaslMechanism, plain, login, parse_mechanism, decode_plain, decode_login_field,
}
use dmtap.Mail.Smtp.{
  Submission, data_phase, SmtpPendingAuth, plain_auth, login_user, login_pass, SmtpSession,
  reset_txn, is_some, finish_credentials, finish_smtp_plain, auth_with, mechanism_words, first_word,
  cmd_auth, continue_auth, text_or,
}

-- A submission has recipients, a notification setting for each, and data within the limit.
abbrev pub IsAccepted : ℕ → Submission → Type 0
IsAccepted max x =
    (0 < length x.rcpt_to) × (length x.dsn_notify ≡ length x.rcpt_to) × (length x.data_bytes ≤ max)

-- While the data arrive: there are a sender and recipients, and the buffer is within the limit or marked.
abbrev pub IsReceiving : ℕ → SmtpSession → Type 0
IsReceiving max s =
    (is_some s.mail_from ≡ true)
    × (0 < length s.rcpt_to)
    × (s.data_oversized ≡ false → length s.data_buf ≤ max)

module _ (auth : Authenticator) where
  pub record IsSound (max : ℕ) (s : SmtpSession) : Type 0 where
    pub limit : s.max_size ≡ max
    pub required : s.require_auth ≡ true
    -- The identity is one that the authenticator returned.
    pub proven :
        (id : Bytes)
        → s.authed ≡ some id
        → (user : Bytes) × (password : Bytes) × (auth.verify user password ≡ some id)
    pub no_sender : is_some s.authed ≡ false → is_some s.mail_from ≡ false
    pub receiving : s.phase ≡ data_phase → IsReceiving max s
    pub aligned : length s.dsn_notify ≡ length s.rcpt_to
    pub accepted : All (IsAccepted max) s.submissions
    pub anonymous : is_some s.authed ≡ false → s.submissions ≡ []

  module _ (max : ℕ) where
    pub others-IsSound :
        (s : SmtpSession) (tls : Bool) (pending : Option SmtpPendingAuth)
        → IsSound max s
        → IsSound max (record s { tls = tls; pending_auth = pending })
    others-IsSound s tls pending h = record {
      limit = h.limit;
      required = h.required;
      proven = h.proven;
      no_sender = h.no_sender;
      receiving = h.receiving;
      aligned = h.aligned;
      accepted = h.accepted;
      anonymous = h.anonymous;
    }

    pub reset_txn-IsSound :
        (s : SmtpSession) → s.phase ≢ data_phase → IsSound max s → IsSound max (reset_txn s)
    unfolding reset_txn is_some
    reset_txn-IsSound s command h = record {
      limit = h.limit;
      required = h.required;
      proven = h.proven;
      no_sender = λ e. refl;
      receiving = λ e. absurd (command e);
      aligned = refl;
      accepted = h.accepted;
      anonymous = h.anonymous;
    }

    finish_credentials-IsSound :
        (s : SmtpSession) (user password : Bytes)
        → IsSound max s
        → IsSound max (finish_credentials auth s user password).1
    unfolding finish_credentials is_some
    finish_credentials-IsSound s user password h = elim (Option-cases (auth.verify user password)) [
      | inl e ↦ rw (finish_credentials, e) h
      | inr (id, e) ↦
          rw (finish_credentials, e)
            (record {
              limit = h.limit;
              required = h.required;
              proven = λ i same. (user, password, e ∙ same);
              no_sender = λ no. absurd (cc);
              receiving = h.receiving;
              aligned = h.aligned;
              accepted = h.accepted;
              anonymous = λ no. absurd (cc);
            })
    ]

    finish_smtp_plain-IsSound :
        (s : SmtpSession) (ir : Bytes) → IsSound max s → IsSound max (finish_smtp_plain auth s ir).1
    unfolding finish_smtp_plain
    finish_smtp_plain-IsSound s ir h = elim (Option-cases (decode_plain ir)) [
      | inl e ↦ rw (finish_smtp_plain, e) h
      | inr (cred, e) ↦
          rw (finish_smtp_plain, e) (finish_credentials-IsSound s cred.authcid cred.password h)
    ]

    auth_with-IsSound :
        (s : SmtpSession) (mech : Option SaslMechanism) (initial : Option Bytes)
        → IsSound max s
        → IsSound max (auth_with auth s mech initial).1
    unfolding auth_with
    auth_with-IsSound s (some plain) (some ir) h = finish_smtp_plain-IsSound s ir h
    auth_with-IsSound s (some plain) none h = others-IsSound s s.tls (some plain_auth) h
    auth_with-IsSound s (some login) initial h = others-IsSound s s.tls (some login_user) h
    auth_with-IsSound s none initial h = h

    mechanism_words-IsSound :
        (s : SmtpSession) (words : List Bytes)
        → IsSound max s
        → IsSound max (mechanism_words auth s words).1
    unfolding mechanism_words
    mechanism_words-IsSound s [] h = auth_with-IsSound s (parse_mechanism []) none h
    mechanism_words-IsSound s (mech ∷ rest) h =
        auth_with-IsSound s (parse_mechanism mech) (first_word rest) h

    pub choose-IsSound :
        (b : Bool) (x y : Bytes × SmtpSession)
        → IsSound max x.1
        → IsSound max y.1
        → IsSound max (if b then x else y).1
    choose-IsSound true x y hx hy = hx
    choose-IsSound false x y hx hy = hy

    pub cmd_auth-IsSound :
        (s : SmtpSession) (rest : Bytes) → IsSound max s → IsSound max (cmd_auth auth s rest).1
    unfolding cmd_auth
    cmd_auth-IsSound s rest h = elim (Bool-cases (is_some s.authed)) [
      | inl e ↦ rw (cmd_auth, e) h
      | inr e ↦
          rw (cmd_auth, e)
            (choose-IsSound s.tls _ _ (mechanism_words-IsSound s (split_whitespace rest) h) h)
    ]

    pub continue_auth-IsSound :
        (s : SmtpSession) (p : SmtpPendingAuth) (text : Bytes)
        → IsSound max s
        → IsSound max (continue_auth auth s p text).1
    unfolding continue_auth
    continue_auth-IsSound s plain_auth text h = finish_smtp_plain-IsSound s (trim text) h
    continue_auth-IsSound s login_user text h =
        others-IsSound s s.tls (some (login_pass (text_or (decode_login_field (trim text))))) h
    continue_auth-IsSound s (login_pass user) text h =
        finish_credentials-IsSound s user (text_or (decode_login_field (trim text))) h
