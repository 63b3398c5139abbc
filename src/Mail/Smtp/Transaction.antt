-- ===== src/Mail/Smtp/Transaction.antt =====
-- The commands of a mail transaction of crates/kotva-mail/src/smtp.rs keep a session sound.
use dmtap.Prelude.{
  ℕ, ◌≡◌, ◌≢◌, inl, inr, refl, true, ◌&&◌, not, Bytes, [], ◌∷◌, Option, none, some, length,
  length-append, All-append, arith, ascii, ◌==◌, eq_bytes, Bool-cases,
}
use dmtap.Result.{Yields, returns, Yields-map_ok}
use dmtap.Mail.Auth.{Authenticator}
use dmtap.Mail.Smtp.{
  data_phase, SmtpSession, reset_txn, parse_path_param, param_value, is_too_large, mail_checked,
  is_some, cmd_mail, add_rcpt, cmd_rcpt, cmd_data, submission_of, end_data, strip_dot, add_content,
  feed_data_line,
}
use dmtap.Mail.Smtp.Sound.{IsAccepted, IsSound, choose-IsSound}

module _ (auth : Authenticator) where
  module _ (max : ℕ) where
    mail_checked-IsSound :
        (s : SmtpSession) (rest : Bytes) (o : Option Bytes)
        → s.phase ≢ data_phase
        → is_some s.authed ≡ true
        → IsSound auth max s
        → IsSound auth max (mail_checked s rest o).1
    unfolding mail_checked is_some
    mail_checked-IsSound s rest none command known h = h
    mail_checked-IsSound s rest (some addr) command known h =
        elim (Bool-cases (is_too_large s.max_size (param_value rest (ascii "SIZE")))) [
          | inl e ↦ rw (mail_checked, e) h
          | inr e ↦
              rw (mail_checked, e)
                (record {
                  limit = h.limit;
                  required = h.required;
                  proven = h.proven;
                  no_sender = λ no. absurd (cc (no, known));
                  receiving = λ d. absurd (command d);
                  aligned = refl;
                  accepted = h.accepted;
                  anonymous = h.anonymous;
                })
        ]

    add_rcpt-IsSound :
        (s : SmtpSession) (rest : Bytes) (o : Option Bytes)
        → s.phase ≢ data_phase
        → IsSound auth max s
        → IsSound auth max (add_rcpt s rest o).1
    unfolding add_rcpt
    add_rcpt-IsSound s rest none command h = h
    add_rcpt-IsSound s rest (some addr) command h = record {
      limit = h.limit;
      required = h.required;
      proven = h.proven;
      no_sender = h.no_sender;
      receiving = λ d. absurd (command d);
      aligned = omega (
        arith,
        h.aligned,
        length-append s.dsn_notify (param_value rest (ascii "NOTIFY") ∷ []),
        length-append s.rcpt_to (addr ∷ []),
      );
      accepted = h.accepted;
      anonymous = h.anonymous;
    }

    pub cmd_data-IsSound : (s : SmtpSession) → IsSound auth max s → IsSound auth max (cmd_data s).1
    unfolding cmd_data
    cmd_data-IsSound s h = elim (Bool-cases (is_some s.mail_from && not (length s.rcpt_to == 0))) [
      | inr e ↦ rw (cmd_data, e) h
      | inl e ↦
          rw (cmd_data, e)
            (record {
              limit = h.limit;
              required = h.required;
              proven = h.proven;
              no_sender = h.no_sender;
              receiving = λ d. (ground arith, ground arith, λ small. omega arith);
              aligned = h.aligned;
              accepted = h.accepted;
              anonymous = h.anonymous;
            })
    ]

    end_data-IsSound :
        (s : SmtpSession)
        → s.phase ≡ data_phase
        → IsSound auth max s
        → IsSound auth max (end_data s).1
    unfolding end_data reset_txn is_some submission_of
    end_data-IsSound s here h = elim (Bool-cases s.data_oversized) [
      | inl e ↦
          rw (end_data, e)
            (record {
              limit = h.limit;
              required = h.required;
              proven = h.proven;
              no_sender = λ no. refl;
              receiving = λ d. absurd (cc);
              aligned = refl;
              accepted = h.accepted;
              anonymous = h.anonymous;
            })
      | inr e ↦
          rw (end_data, e)
            (record {
              limit = h.limit;
              required = h.required;
              proven = h.proven;
              no_sender = λ no. refl;
              receiving = λ d. absurd (cc);
              aligned = refl;
              accepted =
                  All-append (IsAccepted max) s.submissions (submission_of s ∷ []) h.accepted
                    (((h.receiving here).1, h.aligned, (h.receiving here).2 e), tt);
              anonymous = λ no. absurd (cc (h.no_sender no, (h.receiving here).0));
            })
    ]

    add_content-IsSound :
        (s : SmtpSession) (content : Bytes)
        → s.phase ≡ data_phase
        → IsSound auth max s
        → IsSound auth max (add_content s content)
    unfolding add_content
    add_content-IsSound s content here h = record {
      limit = h.limit;
      required = h.required;
      proven = h.proven;
      no_sender = h.no_sender;
      receiving = λ d. (
        (h.receiving here).0,
        (h.receiving here).1,
        λ small. (let same = h.limit in ground arith),
      );
      aligned = h.aligned;
      accepted = h.accepted;
      anonymous = h.anonymous;
    }

    pub feed_data_line-IsSound :
        (s : SmtpSession) (text : Bytes)
        → s.phase ≡ data_phase
        → IsSound auth max s
        → IsSound auth max (feed_data_line s text).1
    unfolding feed_data_line
    feed_data_line-IsSound s text here h =
        choose-IsSound auth max (eq_bytes text (b'.' ∷ [])) _ _ (end_data-IsSound s here h)
          (add_content-IsSound s (strip_dot text) here h)

    pub cmd_mail-IsSound :
        (s : SmtpSession) (rest : Bytes)
        → s.phase ≢ data_phase
        → IsSound auth max s
        → Yields (λ (reply, s'). IsSound auth max s') (cmd_mail s rest)
    unfolding cmd_mail
    cmd_mail-IsSound s rest command h =
        elim (Bool-cases (s.require_auth && not (is_some s.authed))) [
          | inl e ↦ rw (cmd_mail, e) (returns h)
          | inr e ↦
              (let known : is_some s.authed ≡ true = (let must = h.required in ground arith) in
                rw (cmd_mail, e)
                  (Yields-map_ok (mail_checked s rest) (parse_path_param rest (ascii "FROM"))
                    λ o found. mail_checked-IsSound s rest o command known h))
        ]

    pub cmd_rcpt-IsSound :
        (s : SmtpSession) (rest : Bytes)
        → s.phase ≢ data_phase
        → IsSound auth max s
        → Yields (λ (reply, s'). IsSound auth max s') (cmd_rcpt s rest)
    unfolding cmd_rcpt
    cmd_rcpt-IsSound s rest command h = elim (Bool-cases (is_some s.mail_from)) [
      | inl e ↦
          rw (cmd_rcpt, e)
            (Yields-map_ok (add_rcpt s rest) (parse_path_param rest (ascii "TO"))
              λ o found. add_rcpt-IsSound s rest o command h)
      | inr e ↦ rw (cmd_rcpt, e) (returns h)
    ]
