-- ===== src/Mail/Imap/Sequence/Tests.antt =====
-- Runs of crates/kotva-mail/src/imap/sequence.rs.
use dmtap.Prelude.{
  ℕ, ◌≡◌, refl, false, ◌&&◌, ascii, List, [], ◌∷◌, Option, none, some, eq_bytes, leb, arith,
}
use dmtap.Mail.Text.{
  trim, trim_start_from, trim_end_from, white_length, parse_usize, unsigned, fitting, digits_value,
}
use dmtap.Mail.Imap.Sequence.{
  SequenceSet, num, star, resolve, parse_u32, number_point, parse_point, split_from, split,
  split_colon_from, pair_range, parse_range, parse_ranges, concrete, parse, range_resolved, within,
  any_range, contains, filter_from, resolve_seqs,
}
use dmtap.Mail.Imap.Sequence.Laws.{occurs, IsAscendingFrom}
use dmtap.Mail.Imap.Sequence.Read.{shown, IsNumber, resolve_seqs-shown}

unfoldable named : Option SequenceSet → ℕ → List ℕ
named none count = []
named (some set) count = resolve_seqs set count

test_set : named (parse (ascii "1:3,5,*")) 6 ≡ 1 ∷ 2 ∷ 3 ∷ 5 ∷ 6 ∷ []
unfolding named parse concrete parse_ranges parse_range split_colon_from pair_range parse_point
    number_point parse_u32 split split_from trim trim_start_from trim_end_from white_length
    parse_usize unsigned fitting digits_value eq_bytes resolve_seqs filter_from contains any_range
    within range_resolved resolve
test_set = refl

test_backwards : named (parse (ascii "5:3")) 10 ≡ 3 ∷ 4 ∷ 5 ∷ []
unfolding named parse concrete parse_ranges parse_range split_colon_from pair_range parse_point
    number_point parse_u32 split split_from trim trim_start_from trim_end_from white_length
    parse_usize unsigned fitting digits_value eq_bytes resolve_seqs filter_from contains any_range
    within range_resolved resolve
test_backwards = refl

test_malformed : parse (ascii "1,,2") ≡ none
unfolding parse concrete parse_ranges parse_range split_colon_from pair_range parse_point
    number_point parse_u32 split split_from trim trim_start_from trim_end_from white_length
    parse_usize unsigned fitting digits_value eq_bytes
test_malformed = refl

abbrev to_the_end : SequenceSet
to_the_end = record { ranges = record { lo = num 2; hi = star } ∷ []; saved = false }

resolve_seqs-shown_example :
    (set : SequenceSet) × (parse (shown (7 ∷ 2 ∷ [])) ≡ some set)
    × IsAscendingFrom 1 (resolve_seqs set 5)
    × (occurs 2 (resolve_seqs set 5) ≡ ((leb 1 2 && leb 2 5) && occurs 2 (7 ∷ 2 ∷ [])))
unfolding IsNumber
resolve_seqs-shown_example =
    resolve_seqs-shown 7 (2 ∷ []) 5 2 (omega arith, omega arith) ((omega arith, omega arith), tt)
