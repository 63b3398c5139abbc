-- ===== src/Mail/Imap/Sequence/Read.antt =====
-- Sequence sets as a client writes them, for `parse` of crates/kotva-mail/src/imap/sequence.rs.
use dmtap.Prelude.{
  ℕ, ◌^◌, ◌<◌, ◌≡◌, ◌≢◌, subst, refl, sym, ap, ◌∙◌, true, false, ◌&&◌, Bytes, List, [], ◌∷◌, ◌++◌,
  All, append_assoc, append-nil, none, some, ltb, leb, ◌==◌, eq_bytes, arith,
}
use dmtap.Mail.Text.{decimal, parse_usize}
use dmtap.Mail.Text.Laws.{
  IsDigit, decimal-IsDigit, decimal_filled, trim-decimal, parse_usize-decimal,
}
use dmtap.Mail.Imap.Sequence.{
  SequenceSet, num, parse_u32, number_point, parse_point, split_from, split, split_colon_from,
  pair_range, parse_range, parse_ranges, concrete, parse, single, from_uids, resolve_seqs,
}
use dmtap.Mail.Imap.Sequence.Laws.{
  occurs, IsAscendingFrom, resolve_seqs-IsAscendingFrom, occurs-resolve_seqs, contains-from_uids,
}

-- The numbers in decimal, with commas between them.
unfoldable pub shown : List ℕ → Bytes
shown [] = []
shown (n ∷ []) = decimal n
shown (n ∷ m ∷ ms) = decimal n ++ 44 ∷ shown (m ∷ ms)

unfoldable pub IsNumber : ℕ → Type 0
IsNumber n = (0 < n) × (n < 2 ^ 32)

split_from-IsDigit :
    (item ds rest : Bytes)
    → All IsDigit ds
    → split_from 44 item (ds ++ rest) ≡ split_from 44 (item ++ ds) rest
unfolding split_from
split_from-IsDigit item [] rest h = rw (append-nil item) refl
split_from-IsDigit item (d ∷ ds) rest (first, later) =
    let other : (d == 44) ≡ false = ground arith in
    rw other (
      split_from-IsDigit (item ++ d ∷ []) ds rest later
      ∙ ap (λ w. split_from 44 w rest) (append_assoc item (d ∷ []) ds))

split_colon_from-IsDigit : (before ds : Bytes) → All IsDigit ds → split_colon_from before ds ≡ none
unfolding split_colon_from
split_colon_from-IsDigit before [] h = refl
split_colon_from-IsDigit before (d ∷ ds) (first, later) =
    let other : (d == 58) ≡ false = ground arith in
    rw other (split_colon_from-IsDigit (before ++ d ∷ []) ds later)

parse_digits :
    (s rest : Bytes)
    → All IsDigit s
    → s ≢ []
    → parse (s ++ rest) ≡ concrete (parse_ranges (split 44 (s ++ rest)))
unfolding parse eq_bytes concrete
parse_digits [] rest h filled = absurd (filled refl)
parse_digits (b ∷ bs) rest (first, later) filled =
    let other : (b == 36) ≡ false = ground arith in rw other refl

eq_bytes-digits : (s : Bytes) → All IsDigit s → eq_bytes s (42 ∷ []) ≡ false
unfolding eq_bytes
eq_bytes-digits [] h = refl
eq_bytes-digits (b ∷ bs) (first, later) =
    let other : (b == 42) ≡ false = ground arith in rw other refl

parse_u32-decimal : (n : ℕ) → IsNumber n → parse_u32 (decimal n) ≡ some n
unfolding parse_u32 IsNumber
parse_u32-decimal n (positive, fits) =
    let read = ap parse_usize (sym (trim-decimal n)) ∙ parse_usize-decimal n (omega arith) in
    let small : ltb n (2 ^ 32) ≡ true = ground arith in rw (parse_u32, read, small) refl

parse_point-decimal : (n : ℕ) → IsNumber n → parse_point (decimal n) ≡ some (num n)
unfolding parse_point number_point IsNumber
parse_point-decimal n h =
    let counted : ltb 0 n ≡ true = ground (arith, h.0) in
    rw
      (
        trim-decimal n,
        eq_bytes-digits (decimal n) (decimal-IsDigit n),
        parse_u32-decimal n h,
        counted,
      )
      refl

parse_range-decimal : (n : ℕ) → IsNumber n → parse_range (decimal n) ≡ some (single n)
unfolding parse_range pair_range single
parse_range-decimal n h =
    rw
      (
        parse_range,
        split_colon_from-IsDigit [] (decimal n) (decimal-IsDigit n),
        parse_point-decimal n h,
      )
      refl

split-decimal : (n : ℕ) → split 44 (decimal n) ≡ decimal n ∷ []
unfolding split split_from
split-decimal n =
    subst (λ s. split_from 44 [] s ≡ decimal n ∷ []) (append-nil (decimal n))
      (split_from-IsDigit [] (decimal n) [] (decimal-IsDigit n))

split-decimal_comma :
    (n : ℕ) (rest : Bytes) → split 44 (decimal n ++ 44 ∷ rest) ≡ decimal n ∷ split 44 rest
unfolding split split_from
split-decimal_comma n rest = split_from-IsDigit [] (decimal n) (44 ∷ rest) (decimal-IsDigit n)

parse_ranges-shown :
    (n : ℕ) (ns : List ℕ)
    → IsNumber n
    → All IsNumber ns
    → parse_ranges (split 44 (shown (n ∷ ns))) ≡ some (from_uids (n ∷ ns)).ranges
unfolding shown parse_ranges from_uids
parse_ranges-shown n [] h hs = rw (split-decimal n, parse_ranges, parse_range-decimal n h) refl
parse_ranges-shown n (m ∷ ms) h (first, later) =
    rw
      (
        split-decimal_comma n (shown (m ∷ ms)),
        parse_ranges,
        parse_range-decimal n h,
        parse_ranges-shown m ms first later,
      )
      refl

parse-shown :
    (n : ℕ) (ns : List ℕ)
    → IsNumber n
    → All IsNumber ns
    → parse (shown (n ∷ ns)) ≡ some (from_uids (n ∷ ns))
unfolding shown from_uids concrete
parse-shown n [] h hs =
    subst (λ s. parse s ≡ concrete (parse_ranges (split 44 s))) (append-nil (decimal n))
      (parse_digits (decimal n) [] (decimal-IsDigit n) (decimal_filled n))
    ∙ ap concrete (parse_ranges-shown n [] h hs)
parse-shown n (m ∷ ms) h hs =
    parse_digits (decimal n) (44 ∷ shown (m ∷ ms)) (decimal-IsDigit n) (decimal_filled n)
    ∙ ap concrete (parse_ranges-shown n (m ∷ ms) h hs)

-- From the decimal digits of numbers that are not zero and fit 32 bits, with commas between them, `parse` makes a set
-- whose messages out of `count` are the numbers given that lie between 1 and `count`, in ascending order and each once.
pub resolve_seqs-shown :
    (n : ℕ) (ns : List ℕ) (count val : ℕ)
    → IsNumber n
    → All IsNumber ns
    → (set : SequenceSet) × (parse (shown (n ∷ ns)) ≡ some set)
      × IsAscendingFrom 1 (resolve_seqs set count)
      × (occurs val (resolve_seqs set count)
          ≡ ((leb 1 val && leb val count) && occurs val (n ∷ ns)))
resolve_seqs-shown n ns count val h hs =
    let set = from_uids (n ∷ ns) in
    (
      set,
      parse-shown n ns h hs,
      resolve_seqs-IsAscendingFrom set count,
      occurs-resolve_seqs set val count
          ∙ ap (λ b. (leb 1 val && leb val count) && b) (contains-from_uids (n ∷ ns) val count),
    )
