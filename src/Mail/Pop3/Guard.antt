-- ===== src/Mail/Pop3/Guard.antt =====
-- Who gets into the maildrop of crates/kotva-mail/src/pop3.rs: `feed_line_raw` over any sequence of lines.
use dmtap.Prelude.{
  ◌≡◌, inl, inr, refl, Bool, true, Bytes, List, [], ◌∷◌, ◌++◌, Option, none, some, Option-cases,
  Bool-cases, lookup, eq_bytes, ascii,
}
use dmtap.Store.Memory.{MemoryStore}
use dmtap.Mail.Text.{trim, split_whitespace, to_ascii_lowercase, to_ascii_uppercase}
use dmtap.Mail.Base64.{hex}
use dmtap.Mail.Md5.{md5}
use dmtap.Mail.Auth.{Authenticator, ct_eq, decode_plain}
use dmtap.Mail.Pop3.{
  State, authorization, transaction, SaslStep, plain_step, Pop3Session, new_session, banner,
  login_ok, load_inbox, login, pass, apop_with, apop_words, apop, finish_plain, plain_with,
  auth_words, auth_cmd, continue_sasl, dele, index_of, rset, quit, committed, Verb, capa_verb,
  quit_verb, noop_verb, stls_verb, user_verb, pass_verb, apop_verb, auth_verb, stat_verb, list_verb,
  uidl_verb, retr_verb, top_verb, dele_verb, rset_verb, verbs, parts_of, run_verb, run,
  feed_line_raw,
}

module _ (auth : Authenticator) where
  -- The session after the lines.
  unfoldable pub after : Pop3Session → List Bytes → Pop3Session
  after s [] = s
  after s (text ∷ later) = after (feed_line_raw auth s text).1 later

module _ (auth : Authenticator) (store : MemoryStore) where
  -- Before the login no identity is held, no message is shown and the store is as it was; after it
  -- the identity is one that the authenticator returned for a user name and a password.
  pub data IsGuarded : Pop3Session → Type 0 where
    before :
        {s : Pop3Session}
        → s.state ≡ authorization
        → s.identity ≡ none
        → s.slots ≡ []
        → s.store ≡ store
        → IsGuarded s
    inside :
        {s : Pop3Session} (username password identity : Bytes)
        → auth.verify username password ≡ some identity
        → s.state ≡ transaction
        → s.identity ≡ some identity
        → IsGuarded s

  login-IsGuarded :
      (s : Pop3Session) (username password refusal : Bytes)
      → IsGuarded s
      → IsGuarded (login auth s username password refusal).1
  unfolding login login_ok load_inbox
  login-IsGuarded s username password refusal g =
      elim (Option-cases (auth.verify username password)) [
        | inl e ↦ rw (login, e) g
        | inr (identity, e) ↦ rw (login, e) (inside username password identity e refl refl)
      ]

  pass-IsGuarded :
      (s : Pop3Session) (password : Bytes) → IsGuarded s → IsGuarded (pass auth s password).1
  unfolding pass
  pass-IsGuarded s password g = elim (Option-cases s.user) [
    | inl e ↦ rw (pass, e) g
    | inr (user, e) ↦ rw (pass, e) (login-IsGuarded s user password _ g)
  ]

  apop_with-IsGuarded :
      (s : Pop3Session) (name digest : Bytes)
      → IsGuarded s
      → IsGuarded (apop_with auth s name digest).1
  unfolding apop_with
  apop_with-IsGuarded s name digest g = elim (Option-cases (auth.secret_for name)) [
    | inl e ↦ rw (apop_with, e) g
    | inr (secret, e) ↦
        elim (Bool-cases (ct_eq (hex (md5 (banner ++ secret))) (to_ascii_lowercase digest))) [
          | inl m ↦ rw (apop_with, e, m) (login-IsGuarded s name secret _ g)
          | inr m ↦ rw (apop_with, e, m) g
        ]
  ]

  apop_words-IsGuarded :
      (s : Pop3Session) (words : List Bytes) → IsGuarded s → IsGuarded (apop_words auth s words).1
  unfolding apop_words
  apop_words-IsGuarded s [] g = g
  apop_words-IsGuarded s (name ∷ []) g = g
  apop_words-IsGuarded s (name ∷ digest ∷ rest) g = apop_with-IsGuarded s name digest g

  finish_plain-IsGuarded :
      (s : Pop3Session) (ir : Bytes) → IsGuarded s → IsGuarded (finish_plain auth s ir).1
  unfolding finish_plain
  finish_plain-IsGuarded s ir g = elim (Option-cases (decode_plain ir)) [
    | inl e ↦ rw (finish_plain, e) g
    | inr (cred, e) ↦ rw (finish_plain, e) (login-IsGuarded s cred.authcid cred.password _ g)
  ]

  -- What a guarded session keeps when other parts of it change.
  others-IsGuarded :
      (s : Pop3Session) (tls : Bool) (user : Option Bytes) (pending : Option SaslStep)
      → IsGuarded s
      → IsGuarded (record s { tls = tls; user = user; pending_sasl = pending })
  others-IsGuarded s tls user pending (before st i sl e) = before st i sl e
  others-IsGuarded s tls user pending (inside u p identity v st i) = inside u p identity v st i

  plain_with-IsGuarded :
      (s : Pop3Session) (words : List Bytes) → IsGuarded s → IsGuarded (plain_with auth s words).1
  unfolding plain_with
  plain_with-IsGuarded s [] g = others-IsGuarded s s.tls s.user (some plain_step) g
  plain_with-IsGuarded s (ir ∷ rest) g = finish_plain-IsGuarded s ir g

  auth_words-IsGuarded :
      (s : Pop3Session) (words : List Bytes) → IsGuarded s → IsGuarded (auth_words auth s words).1
  unfolding auth_words
  auth_words-IsGuarded s [] g = g
  auth_words-IsGuarded s (mech ∷ rest) g =
      elim (Bool-cases (eq_bytes (to_ascii_uppercase mech) (ascii "PLAIN"))) [
        | inl e ↦ rw (auth_words, e) (plain_with-IsGuarded s rest g)
        | inr e ↦ rw (auth_words, e) g
      ]

  -- Inside, the slots and the store may change.
  dele-IsGuarded :
      (s : Pop3Session) (rest : Bytes)
      → s.state ≡ transaction
      → IsGuarded s
      → IsGuarded (dele s rest).1
  unfolding dele
  dele-IsGuarded s rest t (before st i sl e) = absurd (cc)
  dele-IsGuarded s rest t (inside u p identity v st i) = elim (Option-cases (index_of s rest)) [
    | inl e ↦ rw (dele, e) (inside u p identity v st i)
    | inr (n, e) ↦ rw (dele, e) (inside u p identity v st i)
  ]

  rset-IsGuarded : (s : Pop3Session) → s.state ≡ transaction → IsGuarded s → IsGuarded (rset s).1
  unfolding rset
  rset-IsGuarded s t (before st i sl e) = absurd (cc)
  rset-IsGuarded s t (inside u p identity v st i) = inside u p identity v st i

  committed-IsGuarded :
      (st : State) (s : Pop3Session) → s.state ≡ st → IsGuarded s → IsGuarded (committed st s)
  unfolding committed
  committed-IsGuarded authorization s e g = g
  committed-IsGuarded transaction s e (before st i sl same) = absurd (cc)
  committed-IsGuarded transaction s e (inside u p identity v st i) = inside u p identity v st i

  run_verb-IsGuarded :
      (s : Pop3Session) (st : State) (v : Verb) (rest : Bytes)
      → s.state ≡ st
      → IsGuarded s
      → IsGuarded (run_verb auth s st v rest).1
  unfolding run_verb quit apop auth_cmd
  run_verb-IsGuarded s authorization capa_verb rest e g = g
  run_verb-IsGuarded s authorization quit_verb rest e g = committed-IsGuarded s.state s refl g
  run_verb-IsGuarded s authorization noop_verb rest e g = g
  run_verb-IsGuarded s authorization stls_verb rest e g =
      others-IsGuarded s true s.user s.pending_sasl g
  run_verb-IsGuarded s authorization user_verb rest e g =
      others-IsGuarded s s.tls (some rest) s.pending_sasl g
  run_verb-IsGuarded s authorization pass_verb rest e g = pass-IsGuarded s rest g
  run_verb-IsGuarded s authorization apop_verb rest e g =
      apop_words-IsGuarded s (split_whitespace rest) g
  run_verb-IsGuarded s authorization auth_verb rest e g =
      auth_words-IsGuarded s (split_whitespace rest) g
  run_verb-IsGuarded s authorization stat_verb rest e g = g
  run_verb-IsGuarded s authorization list_verb rest e g = g
  run_verb-IsGuarded s authorization uidl_verb rest e g = g
  run_verb-IsGuarded s authorization retr_verb rest e g = g
  run_verb-IsGuarded s authorization top_verb rest e g = g
  run_verb-IsGuarded s authorization dele_verb rest e g = g
  run_verb-IsGuarded s authorization rset_verb rest e g = g
  run_verb-IsGuarded s transaction capa_verb rest e g = g
  run_verb-IsGuarded s transaction quit_verb rest e g = committed-IsGuarded s.state s refl g
  run_verb-IsGuarded s transaction noop_verb rest e g = g
  run_verb-IsGuarded s transaction stls_verb rest e g = g
  run_verb-IsGuarded s transaction user_verb rest e g = g
  run_verb-IsGuarded s transaction pass_verb rest e g = g
  run_verb-IsGuarded s transaction apop_verb rest e g = g
  run_verb-IsGuarded s transaction auth_verb rest e g = g
  run_verb-IsGuarded s transaction stat_verb rest e g = g
  run_verb-IsGuarded s transaction list_verb rest e g = g
  run_verb-IsGuarded s transaction uidl_verb rest e g = g
  run_verb-IsGuarded s transaction retr_verb rest e g = g
  run_verb-IsGuarded s transaction top_verb rest e g = g
  run_verb-IsGuarded s transaction dele_verb rest e g = dele-IsGuarded s rest e g
  run_verb-IsGuarded s transaction rset_verb rest e g = rset-IsGuarded s e g

  feed-IsGuarded :
      (s : Pop3Session) (text : Bytes) → IsGuarded s → IsGuarded (feed_line_raw auth s text).1
  unfolding feed_line_raw run continue_sasl
  feed-IsGuarded s text g = elim (Option-cases s.pending_sasl) [
    | inr (plain_step, e) ↦
        rw (feed_line_raw, e)
          (finish_plain-IsGuarded (record s { pending_sasl = none }) (trim text)
            (others-IsGuarded s s.tls s.user none g))
    | inl e ↦
        (let (verb, rest) = parts_of text in
          elim (Option-cases (lookup verb verbs)) [
            | inl f ↦ rw (feed_line_raw, e, run, f) g
            | inr (v, f) ↦
                rw (feed_line_raw, e, run, f) (run_verb-IsGuarded s s.state v rest refl g)
          ])
  ]

  after-IsGuarded :
      (s : Pop3Session) (texts : List Bytes) → IsGuarded s → IsGuarded (after auth s texts)
  unfolding after
  after-IsGuarded s [] g = g
  after-IsGuarded s (text ∷ later) g =
      after-IsGuarded (feed_line_raw auth s text).1 later (feed-IsGuarded s text g)

  -- After any lines a client sends, a session either has not left the authorization state, and then it holds no
  -- identity, shows no message and has not touched the store; or it holds an identity that the authenticator
  -- returned for a user name and a password.
  pub after-new_session :
      (tls : Bool) (texts : List Bytes) → IsGuarded (after auth (new_session store tls) texts)
  unfolding new_session
  after-new_session tls texts =
      after-IsGuarded (new_session store tls) texts (before refl refl refl refl)
