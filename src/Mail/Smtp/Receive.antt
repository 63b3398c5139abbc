-- ===== src/Mail/Smtp/Receive.antt =====
-- The data that a session of crates/kotva-mail/src/smtp.rs receives: `feed_data_line` over the lines of a message.
use dmtap.Prelude.{
  ◌+◌, ◌≤◌, ◌≡◌, inl, inr, refl, sym, ap, ◌∙◌, Bool, true, false, Bytes, List, [], ◌∷◌, ◌++◌,
  append_assoc, append-nil, length, length-append, arith, ltb, leb, ◌==◌, if◌then◌else◌, eq_bytes,
  Bool-cases,
}
use dmtap.Mail.Smtp.{
  SmtpSession, submission_of, end_data, strip_dot, buffered, add_content, feed_data_line,
}

-- What a client sends for a line of a message: a dot goes in front of a leading dot (RFC 5321, section 4.5.2).
unfoldable pub stuffed : Bytes → Bytes
stuffed [] = []
stuffed (b ∷ bs) = if b == b'.' then b'.' ∷ b ∷ bs else b ∷ bs

-- The message of the lines.
unfoldable pub joined : List Bytes → Bytes
joined [] = []
joined (text ∷ texts) = (text ++ 13 ∷ 10 ∷ []) ++ joined texts

-- The session after the lines of a message.
unfoldable pub received : SmtpSession → List Bytes → SmtpSession
received s [] = s
received s (text ∷ texts) = received (feed_data_line s (stuffed text)).1 texts

strip_dot-stuffed : (text : Bytes) → strip_dot (stuffed text) ≡ text
unfolding strip_dot stuffed
strip_dot-stuffed [] = refl
strip_dot-stuffed (b ∷ bs) = ground arith

-- No stuffed line is the line of a single dot.
stuffed_more : (text : Bytes) → eq_bytes (stuffed text) (b'.' ∷ []) ≡ false
unfolding stuffed eq_bytes
stuffed_more [] = refl
stuffed_more (b ∷ bs) = elim (Bool-cases (b == b'.')) [
  | inl e ↦ rw e (ground arith)
  | inr e ↦ rw e (ground arith)
]

received-step :
    (s : SmtpSession) (text : Bytes)
    → length s.data_buf + length text + 2 ≤ s.max_size
    → (feed_data_line s (stuffed text)).1
      ≡ record s { data_buf = s.data_buf ++ (text ++ 13 ∷ 10 ∷ []) }
unfolding feed_data_line add_content buffered
received-step s text room =
    let clean = strip_dot-stuffed text in
    let line_end : Bytes = 13 ∷ 10 ∷ [] in
    let fits : leb (length s.data_buf) s.max_size ≡ true = ground arith in
    let size : length ((s.data_buf ++ text) ++ line_end) ≡ length s.data_buf + length text + 2 =
      omega (arith, length-append (s.data_buf ++ text) line_end, length-append s.data_buf text) in
    let small : ltb s.max_size (length ((s.data_buf ++ text) ++ line_end)) ≡ false = ground arith in
    rw (feed_data_line, stuffed_more text, clean, fits, small)
      (ap (λ buf. record s { data_buf = buf }) (append_assoc s.data_buf text line_end))

received_lem :
    (s : SmtpSession) (texts : List Bytes)
    → length s.data_buf + length (joined texts) ≤ s.max_size
    → received s texts ≡ record s { data_buf = s.data_buf ++ joined texts }
unfolding received joined
received_lem s [] room = ap (λ buf. record s { data_buf = buf }) (sym (append-nil s.data_buf))
received_lem s (text ∷ texts) room =
    let line_end : Bytes = 13 ∷ 10 ∷ [] in
    let size = length-append (text ++ line_end) (joined texts) in
    let size' = length-append text line_end in
    let size'' = length-append s.data_buf (text ++ line_end) in
    let first = received-step s text (omega arith) in
    ap (λ t. received t texts) first
    ∙ received_lem (record s { data_buf = s.data_buf ++ (text ++ line_end) }) texts (omega arith)
    ∙ ap (λ buf. record s { data_buf = buf })
        (append_assoc s.data_buf (text ++ line_end) (joined texts))

if_false :
    (b : Bool) (x y : Bytes × SmtpSession)
    → b ≡ false
    → (if b then x else y).1.submissions ≡ y.1.submissions
if_false true x y e = cc
if_false false x y e = refl

end_data-accepts :
    (s : SmtpSession)
    → s.data_oversized ≡ false
    → (feed_data_line s (b'.' ∷ [])).1.submissions ≡ s.submissions ++ submission_of s ∷ []
unfolding feed_data_line end_data eq_bytes
end_data-accepts s small = if_false s.data_oversized _ _ small

-- A message that a client sends in a data phase, each line with a dot in front of a leading dot, and the line of a
-- single dot behind them, is accepted as it is, line ends included, if it is within the limit: one submission
-- with that text, the sender and the recipients is added.
pub received-end_data :
    (s : SmtpSession) (texts : List Bytes)
    → s.data_buf ≡ []
    → s.data_oversized ≡ false
    → length (joined texts) ≤ s.max_size
    → (feed_data_line (received s texts) (b'.' ∷ [])).1.submissions
      ≡ s.submissions ++ record (submission_of s) { data_bytes = joined texts } ∷ []
unfolding submission_of
received-end_data s texts empty small room =
    let whole =
      received_lem s texts
        (let none_yet : length s.data_buf ≡ 0 = ap (λ bs. length bs) empty in omega arith) in
    let s' = record s { data_buf = s.data_buf ++ joined texts } in
    ap (λ t. (feed_data_line t (b'.' ∷ [])).1.submissions) whole
    ∙ end_data-accepts s' small
    ∙ ap
        (λ buf. s.submissions ++ record (submission_of s) { data_bytes = buf ++ joined texts } ∷ [])
        empty
