-- ===== src/Mail/Tests.antt =====
-- Runs of crates/kotva-mail/src: MD5, base64, credentials, and a POP3 session of two messages.
use dmtap.Prelude.{
  List, ℕ, ◌+◌, ◌≡◌, ◌≢◌, ◌↔◌, refl, arith, true, false, Bytes, [], ◌∷◌, ◌++◌, none, some, ascii,
  length, get_elem?, lookup, eq_bytes,
}
use dmtap.Store.{
  append, remove, remove_at, by_uid, index_of_uid, search, new_message, Mailbox, inbox,
}
use dmtap.Store.Memory.{mailbox, inbox_name, inbox_only}
use dmtap.Cbor.Utf8.{is_utf8}
use dmtap.Mail.Text.{
  trim, trim_start_from, trim_end_from, white_length, split_once, split_once_from,
  to_ascii_uppercase, parse_usize, unsigned, fitting, digits_value, decimal,
}
use dmtap.Mail.Base64.{base64_encode, base64_decode, hex, hex_digit}
use dmtap.Mail.Base64.RoundTrip.{base64_decode-base64_encode}
use dmtap.Mail.Md5.{
  md5, padded, md5_loop, md5_chunk, md5_rounds, md5_round, mix, invert, rotate_left, to_le_bytes,
  le_words, at, word_or, digest_bytes, md5_start,
}
use dmtap.Mail.Auth.{StaticAuthenticator, static, find_password, ct_eq, difference, decode_plain}
use dmtap.Mail.Auth.Laws.{decode_plain-base64_encode}
use dmtap.Mail.Pop3.{
  expunge, Pop3Session, Slot, transaction, new_session, feed_line_raw, run, run_verb, parts_of,
  pass, login, login_ok, load_inbox, slots_of, slot_of_message, dele, index_of, kept, mark_at, quit,
  to_delete, slot_of, retr, line,
}
use dmtap.Mail.Pop3.Lines.{read_lines, fresh, with_line_end, read_lines-retr}
use dmtap.Mail.Pop3.Numbers.{index_of-decimal_iff}
use dmtap.Mail.Pop3.Guard.{IsGuarded, after, after-new_session}
use dmtap.Mail.Shelf.{
  Request, deliver, fetch, discard, filed, shown, done, serve, shelf_of, answer, answers,
  answers-shelf_of,
}
use dmtap.Mail.Pop3.Quit.{IsWithout, is_marked, quit-IsWithout}

md5_of_abc : hex (md5 (ascii "abc")) ≡ ascii "900150983cd24fb0d6963f7d28e17f72"
unfolding hex hex_digit md5 padded md5_loop md5_chunk md5_rounds md5_round mix invert rotate_left
    to_le_bytes le_words at word_or digest_bytes md5_start
md5_of_abc = refl

decodes_foob : base64_decode (base64_encode (ascii "foob")) ≡ some (ascii "foob")
decodes_foob = base64_decode-base64_encode (ascii "foob") (omega arith)

abbrev table : StaticAuthenticator
table = record {
  passwords =
      record {
        username = ascii "alice";
        secret = ascii "pw";
        identity_pub = 1 ∷ [];
        label = ascii "test";
      }
      ∷ [];
}

decode_plain-base64_encode_example :
    decode_plain (base64_encode ([] ++ 0 ∷ (ascii "alice" ++ 0 ∷ ascii "s3cret")))
    ≡ some (record { authzid = none; authcid = ascii "alice"; password = ascii "s3cret" })
unfolding is_utf8
decode_plain-base64_encode_example =
    decode_plain-base64_encode [] (ascii "alice") (ascii "s3cret") (omega arith) (omega arith)
      (omega arith) refl refl refl

after-new_session_example : IsGuarded (static table) inbox_only (
    after
      (static table)
      (new_session inbox_only true)
      (ascii "USER alice" ∷ ascii "PASS no" ∷ ascii "QUIT" ∷ []))
after-new_session_example =
    after-new_session (static table) inbox_only true
      (ascii "USER alice" ∷ ascii "PASS no" ∷ ascii "QUIT" ∷ [])

abbrev first_text : Bytes
first_text = ascii "S: 1" ++ 13 ∷ 10 ∷ b'.' ∷ 13 ∷ 10 ∷ []

abbrev two_messages : Mailbox
two_messages = record {
  name = inbox_name;
  special_use = some inbox;
  uid_validity = 1;
  uid_next = 3;
  highest_modseq = 3;
  subscribed = true;
  messages =
      record {
        uid = 1;
        flags = [];
        internal_date = 0;
        modseq = 2;
        created_modseq = 2;
        raw = first_text;
      }
      ∷ record {
        uid = 2;
        flags = [];
        internal_date = 0;
        modseq = 3;
        created_modseq = 3;
        raw = ascii "S: 2";
      }
      ∷ [];
  expunged = [];
}

-- After the login, and DELE 2.
abbrev marked : Pop3Session
marked = record {
  store = record { mailboxes = (inbox_name, two_messages) ∷ []; order = inbox_name ∷ [] };
  tls = true;
  state = transaction;
  user = some (ascii "alice");
  identity = some (1 ∷ []);
  slots =
      record { uid = 1; raw = first_text; deleted = false }
      ∷ record { uid = 2; raw = ascii "S: 2"; deleted = true }
      ∷ [];
  pending_sasl = none;
}

reaches_marked :
    after
      (static table)
      (new_session
        (record { mailboxes = (inbox_name, two_messages) ∷ []; order = inbox_name ∷ [] })
        true)
      (ascii "USER alice" ∷ ascii "PASS pw" ∷ ascii "DELE 2" ∷ [])
    ≡ marked
unfolding after new_session feed_line_raw run run_verb parts_of pass login login_ok load_inbox
    slots_of slot_of_message dele index_of kept mark_at split_once split_once_from
    to_ascii_uppercase trim trim_start_from trim_end_from white_length parse_usize unsigned fitting
    digits_value static find_password ct_eq difference eq_bytes lookup mailbox
reaches_marked = refl

read_lines-retr_example :
    (body : Bytes) × (retr marked (ascii "1")
      ≡ (ascii "+OK " ++ decimal (length first_text) ++ line " octets") ++ body)
    × (read_lines fresh (body ++ []) ≡ some (with_line_end first_text, []))
unfolding slot_of index_of kept trim trim_start_from trim_end_from white_length parse_usize unsigned
    fitting digits_value
read_lines-retr_example =
    read_lines-retr marked (ascii "1") 0 (record { uid = 1; raw = first_text; deleted = false }) []
      refl

index_of-decimal_iff_example : (index_of marked (decimal 1) ≡ some 0) ↔ (
    (◌≡◌ {A = ℕ} 1 (0 + 1))
    × (slot : Slot) × (get_elem? marked.slots 0 ≡ some slot)
    × (slot.deleted ≡ false))
index_of-decimal_iff_example = index_of-decimal_iff marked 1 0 (omega arith)

quit-IsWithout_example :
    (mb' : Mailbox) × (mailbox (quit marked).1.store inbox_name ≡ some mb')
    × IsWithout (is_marked marked.slots) two_messages mb'
    × ((name : Bytes)
        → inbox_name ≢ name
        → mailbox (quit marked).1.store name ≡ mailbox marked.store name)
unfolding mailbox lookup eq_bytes to_delete
quit-IsWithout_example = quit-IsWithout marked two_messages refl refl (omega arith) (omega arith)

abbrev requests : List Request
requests = deliver first_text [] 0 ∷ discard 1 ∷ fetch 1 ∷ fetch 3 ∷ []

answers_in_order :
    answers serve two_messages requests
    ≡ filed 3 ∷ done ∷ shown none ∷ shown (some (new_message 3 [] 0 4 first_text)) ∷ []
unfolding answers serve append expunge remove_at remove by_uid index_of_uid search
answers_in_order = refl

answers-shelf_of_example :
    answers serve two_messages requests ≡ answers answer (shelf_of two_messages) requests
answers-shelf_of_example = answers-shelf_of two_messages requests (omega arith) (omega arith)
