-- ===== src/Mail/Smtp/Tests.antt =====
-- Runs of crates/kotva-mail/src/smtp.rs: a message of two lines, and a line with crossed brackets.
use mathlib.Core.Option.{some-injective}
use dmtap.Prelude.{
  ℕ, ◌≡◌, ◌≤◌, refl, sym, arith, true, false, Bytes, List, [], ◌∷◌, ◌++◌, Option, none, some, ascii,
  eq_bytes, lookup,
}
use dmtap.Result.{ok, err, Yields}
use dmtap.Mail.Text.{
  trim, trim_start_from, trim_end_from, white_length, split_once, split_once_from,
  to_ascii_uppercase, find_text, find_byte, starts_with,
}
use dmtap.Mail.Text.Lossy.{from_utf8_lossy, lossy_from, lossy_step, lossy_end, begun, continued}
use dmtap.Cbor.Utf8.{lead, utf8_step}
use dmtap.Mail.Auth.{Authenticator}
use dmtap.Mail.Pop3.{parts_of}
use dmtap.Mail.Smtp.{
  slice_out_of_order, SmtpSession, new_smtp, set_max_size, greet, submission_of, feed_data_line,
  feed_line_bytes, feed_in, feed_command, run_command, run_smtp_verb, cmd_mail, is_some,
  parse_path_param, path_after, address, slice, data_phase,
}
use dmtap.Mail.Smtp.Sound.{IsSound}
use dmtap.Mail.Smtp.Accept.{after, after-new_smtp}
use dmtap.Mail.Smtp.Receive.{joined, received, received-end_data}
use dmtap.Mail.Smtp.Panics.{feed_line_bytes-eq-ok}

abbrev known : Authenticator
known = record { verify = λ username password. some username; secret_for = λ username. none }

abbrev lines : List Bytes
lines =
    ascii "EHLO me"
    ∷ ascii "AUTH PLAIN AGEAYg=="
    ∷ ascii "MAIL FROM:<a@b>"
    ∷ ascii "RCPT TO:<c@d>"
    ∷ ascii "DATA"
    ∷ ascii "x"
    ∷ ascii "."
    ∷ []

after-new_smtp_example :
    Yields (IsSound known 1000) (after known (greet (set_max_size (new_smtp true) 1000)).1 lines)
after-new_smtp_example = after-new_smtp known true 1000 lines

-- In the data phase, with a limit of 20 bytes.
abbrev receiving : SmtpSession
receiving = record {
  tls = true;
  require_auth = true;
  max_size = 20;
  phase = data_phase;
  authed = some (1 ∷ []);
  mail_from = some (ascii "a@b");
  rcpt_to = ascii "c@d" ∷ [];
  dsn_notify = none ∷ [];
  envid = none;
  ret = none;
  data_buf = [];
  data_oversized = false;
  pending_auth = none;
  submissions = [];
}

received-end_data_example :
    (feed_data_line (received receiving (ascii ".dot" ∷ ascii "x" ∷ [])) (b'.' ∷ [])).1.submissions
    ≡ []
      ++ record (submission_of receiving) { data_bytes = joined (ascii ".dot" ∷ ascii "x" ∷ []) }
        ∷ []
unfolding joined
received-end_data_example =
    received-end_data receiving (ascii ".dot" ∷ ascii "x" ∷ []) refl refl (omega arith)

abbrev sender : SmtpSession
sender = record (new_smtp true) { authed = some (1 ∷ []) }

panics_on_crossed_brackets :
    feed_line_bytes known sender (ascii "MAIL FROM:><") ≡ err slice_out_of_order
unfolding feed_line_bytes feed_in feed_command run_command run_smtp_verb cmd_mail is_some
    parse_path_param path_after address slice parts_of from_utf8_lossy lossy_from lossy_step
    lossy_end begun continued lead utf8_step trim trim_start_from trim_end_from white_length
    split_once split_once_from to_ascii_uppercase find_text find_byte starts_with lookup eq_bytes
panics_on_crossed_brackets = refl

feed_line_bytes-eq-ok_example :
    (reply : Bytes) × (s' : SmtpSession) × (feed_line_bytes known sender (ascii "MAIL FROM:<a@b>")
      ≡ ok (reply, s'))
unfolding parts_of from_utf8_lossy lossy_from lossy_step lossy_end begun continued lead utf8_step
    trim trim_start_from trim_end_from white_length split_once split_once_from to_ascii_uppercase
    find_text find_byte starts_with
feed_line_bytes-eq-ok_example =
    feed_line_bytes-eq-ok known sender (ascii "MAIL FROM:<a@b>")
      (λ (idx, found, (lt, gt, at_lt, at_gt, le)).
        (let zero : ◌≡◌ {A = ℕ} idx 0 = sym (some-injective 0 idx found) in
          let open_at : ◌≡◌ {A = Option ℕ} (some 0) (some lt) = rw zero at at_lt in
          let close_at : ◌≡◌ {A = Option ℕ} (some 4) (some gt) = rw zero at at_gt in
          let crossed : ◌≤◌ 4 0 =
            rw (some-injective 0 lt open_at, some-injective 4 gt close_at) le in
          omega arith))
      (λ (idx, found, (lt, gt, at_lt, at_gt, le)). cc)
