-- ===== src/Mail/Pop3/Lines.antt =====
-- The multi-line replies of crates/kotva-mail/src/pop3.rs as a client reads them (RFC 1939, section 3).
use mathlib.Core.Option.{map as map_option}
use dmtap.Prelude.{
  ℕ, ◌≡◌, inl, inr, refl, sym, ap, ◌∙◌, Bool, true, false, ◌&&◌, Bytes, [], ◌∷◌, ◌++◌, append_assoc,
  Option, none, some, ascii, arith, length, ◌==◌, if◌then◌else◌, Bool-cases,
}
use dmtap.Mail.Text.{decimal}
use dmtap.Mail.Pop3.{Slot, Pop3Session, stuff_lines, ends_line, dot_stuff, retr, slot_of, line}

-- Where a client stands: inside a line, at the begin of one, behind a leading dot, or behind that and a
-- carriage return.
pub data Place : Type 0 where
  inside fresh dotted dotted_cr : Place

unfoldable pub behind : Bool → Place
behind true = fresh
behind false = inside

abbrev pub prepend : ℕ → Option (Bytes × Bytes) → Option (Bytes × Bytes)
prepend b o = map_option (λ (text, rest). (b ∷ text, rest)) o

-- What a client reads of a reply, up to the line of a single dot, and what follows it. A leading dot is dropped.
unfoldable pub read_lines : Place → Bytes → Option (Bytes × Bytes)
read_lines place [] = none
read_lines inside (b ∷ bs) = prepend b (read_lines (behind (b == 10)) bs)
read_lines fresh (b ∷ bs) =
    let stuffed = read_lines dotted bs in
    let plain = prepend b (read_lines (behind (b == 10)) bs) in if b == b'.' then stuffed else plain
read_lines dotted (b ∷ bs) =
    let ending = read_lines dotted_cr bs in
    let plain = prepend b (read_lines (behind (b == 10)) bs) in if b == 13 then ending else plain
read_lines dotted_cr (b ∷ bs) =
    let plain = prepend 13 (prepend b (read_lines (behind (b == 10)) bs)) in
    if b == 10 then some ([], bs) else plain

unfoldable prepend_all : Bytes → Option (Bytes × Bytes) → Option (Bytes × Bytes)
prepend_all [] o = o
prepend_all (b ∷ bs) o = prepend b (prepend_all bs o)

read_lines-stuff_lines :
    (begins : Bool) (raw tail : Bytes)
    → read_lines (behind begins) (stuff_lines begins raw ++ tail)
      ≡ prepend_all raw (read_lines (behind (ends_line begins raw)) tail)
unfolding read_lines stuff_lines prepend_all ends_line behind
read_lines-stuff_lines begins [] tail = refl
read_lines-stuff_lines false (b ∷ bs) tail =
    ap (λ o. prepend b o) (read_lines-stuff_lines (b == 10) bs tail)
read_lines-stuff_lines true (b ∷ bs) tail =
    let rest = ap (λ o. prepend b o) (read_lines-stuff_lines (b == 10) bs tail) in
    elim (Bool-cases (b == b'.')) [
      | inl e ↦ (let no_cr : (b == 13) ≡ false = ground arith in rw (e, no_cr) rest)
      | inr e ↦ rw (e, e) rest
    ]

ends_line-stuff_lines :
    (last begins : Bool) (raw : Bytes)
    → ends_line last (stuff_lines begins raw) ≡ ends_line last raw
unfolding ends_line stuff_lines
ends_line-stuff_lines last begins [] = refl
ends_line-stuff_lines last begins (b ∷ bs) =
    let rest = ends_line-stuff_lines (b == 10) (b == 10) bs in
    elim (Bool-cases (begins && b == b'.')) [ inl e ↦ rw e rest | inr e ↦ rw e rest ]

-- The message as the client has it: with a line end behind it, if it had none.
unfoldable pub with_line_end : Bytes → Bytes
with_line_end raw = if ends_line false raw then raw else raw ++ 13 ∷ 10 ∷ []

ends_line-begun : (raw : Bytes) → ends_line false raw ≡ true → ends_line true raw ≡ true
unfolding ends_line
ends_line-begun [] h = cc
ends_line-begun (b ∷ bs) h = h

prepend_all-append :
    (xs ys : Bytes) (o : Option (Bytes × Bytes))
    → prepend_all (xs ++ ys) o ≡ prepend_all xs (prepend_all ys o)
unfolding prepend_all
prepend_all-append [] ys o = refl
prepend_all-append (x ∷ xs) ys o = ap (λ p. prepend x p) (prepend_all-append xs ys o)

prepend_all-some : (xs rest : Bytes) → prepend_all xs (some ([], rest)) ≡ some (xs, rest)
unfolding prepend_all
prepend_all-some [] rest = refl
prepend_all-some (x ∷ xs) rest = ap (λ p. prepend x p) (prepend_all-some xs rest)

read_lines-crlf :
    (begins : Bool) (tail : Bytes)
    → read_lines (behind begins) (13 ∷ 10 ∷ tail) ≡ prepend 13 (prepend 10 (read_lines fresh tail))
unfolding read_lines behind
read_lines-crlf true tail = refl
read_lines-crlf false tail = refl

read_lines-dot : (rest : Bytes) → read_lines fresh (b'.' ∷ 13 ∷ 10 ∷ rest) ≡ some ([], rest)
unfolding read_lines
read_lines-dot rest = refl

read_lines-dot_stuff :
    (raw rest : Bytes)
    → read_lines fresh (dot_stuff raw ++ line "." ++ rest) ≡ some (with_line_end raw, rest)
unfolding dot_stuff with_line_end behind prepend_all
read_lines-dot_stuff raw rest =
    let final : Bytes = b'.' ∷ 13 ∷ 10 ∷ rest in
    let same = ends_line-stuff_lines false true raw in
    elim (Bool-cases (ends_line false raw)) [
      | inl e ↦
          (let body : read_lines fresh (stuff_lines true raw ++ final)
                ≡ prepend_all raw (read_lines fresh final) =
              rw (ends_line-begun raw e) at (read_lines-stuff_lines true raw final) in
            rw (dot_stuff, with_line_end, same, e)
              (ap (λ t. read_lines fresh t) (append_assoc (stuff_lines true raw) (line ".") rest)
                ∙ body
                ∙ rw (read_lines-dot rest) (prepend_all-some raw rest)))
      | inr e ↦
          (let body = read_lines-stuff_lines true raw (13 ∷ 10 ∷ final) in
            let crlf : Bytes = 13 ∷ 10 ∷ [] in
            let end =
              read_lines-crlf (ends_line true raw) final
              ∙ ap (λ o. prepend 13 (prepend 10 o)) (read_lines-dot rest) in
            rw (dot_stuff, with_line_end, same, e)
              (ap (λ t. read_lines fresh t)
                  (append_assoc (stuff_lines true raw ++ crlf) (line ".") rest
                    ∙ append_assoc (stuff_lines true raw) crlf (line "." ++ rest))
                ∙ body
                ∙ ap (λ o. prepend_all raw o) end
                ∙ sym (prepend_all-append raw crlf (some ([], rest)))
                ∙ prepend_all-some (raw ++ crlf) rest))
    ]

-- The reply to RETR, for a message that is there: behind the status line, a client that reads up to the line of
-- a single dot, and drops the dots that lines begin with, gets the message as it is stored, with a line
-- end added if it had none, and stops exactly where the reply ends.
pub read_lines-retr :
    (s : Pop3Session) (num : Bytes) (i : ℕ) (slot : Slot) (rest : Bytes)
    → slot_of s num ≡ some (i, slot)
    → (body : Bytes) × (retr s num
        ≡ (ascii "+OK " ++ decimal (length slot.raw) ++ line " octets") ++ body)
      × (read_lines fresh (body ++ rest) ≡ some (with_line_end slot.raw, rest))
unfolding retr
read_lines-retr s num i slot rest found = (
  dot_stuff slot.raw ++ line ".",
  rw (retr, found)
      (append_assoc (ascii "+OK " ++ decimal (length slot.raw) ++ line " octets")
        (dot_stuff slot.raw) (line ".")),
  read_lines-dot_stuff slot.raw rest,
)
