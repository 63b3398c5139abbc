-- ===== src/Mail/Imap/Sequence.antt =====
-- crates/kotva-mail/src/imap/sequence.rs: sequence sets. A `u32` is a number below 2 ^ 32 where it is read from text.
mod Laws
mod Read
mod Tests
use dmtap.Prelude.{
  ℕ, zero, suc, ◌+◌, ◌^◌, Bool, true, false, ◌&&◌, ◌||◌, Bytes, List, [], ◌∷◌, ◌++◌, Option, none,
  some, ltb, leb, ◌==◌, eq_bytes, if◌then◌else◌, map,
}
use dmtap.Mail.Text.{trim, parse_usize}

pub data Point : Type 0 where
  num : ℕ → Point
  star : Point

pub record Range : Type 0 where
  pub lo : Point
  pub hi : Point

pub record SequenceSet : Type 0 where
  pub ranges : List Range
  pub saved : Bool

unfoldable pub resolve : Point → ℕ → ℕ
resolve (num n) max = n
resolve star max = max

unfoldable pub parse_u32 : Bytes → Option ℕ
parse_u32 s = elim (parse_usize s) [
  | none ↦ none
  | some n ↦ if ltb n (2 ^ 32) then some n else none
]

unfoldable pub number_point : Option ℕ → Option Point
number_point none = none
number_point (some n) = if ltb 0 n then some (num n) else none

-- `*` is byte 42.
unfoldable pub parse_point : Bytes → Option Point
parse_point s =
    let t = trim s in if eq_bytes t (42 ∷ []) then some star else number_point (parse_u32 t)

-- `str::split` at a byte; a string without it is one item, also the empty one.
unfoldable pub split_from : ℕ → Bytes → Bytes → List Bytes
split_from c item [] = item ∷ []
split_from c item (b ∷ bs) =
    if b == c then item ∷ split_from c [] bs else split_from c (item ++ b ∷ []) bs

unfoldable pub split : ℕ → Bytes → List Bytes
split c s = split_from c [] s

-- `split_once(':')`
unfoldable pub split_colon_from : Bytes → Bytes → Option (Bytes × Bytes)
split_colon_from before [] = none
split_colon_from before (b ∷ bs) =
    if b == 58 then some (before, bs) else split_colon_from (before ++ b ∷ []) bs

unfoldable pub pair_range : Option Point → Option Point → Option Range
pair_range none hi = none
pair_range (some lo) none = none
pair_range (some lo) (some hi) = some (record { lo = lo; hi = hi })

unfoldable pub parse_range : Bytes → Option Range
parse_range item = elim (split_colon_from [] item) [
  | some (a, b) ↦ pair_range (parse_point a) (parse_point b)
  | none ↦ pair_range (parse_point item) (parse_point item)
]

unfoldable pub parse_ranges : List Bytes → Option (List Range)
parse_ranges [] = some []
parse_ranges (item ∷ items) = elim (parse_range item) [
  | none ↦ none
  | some r ↦ elim (parse_ranges items) [ none ↦ none | some rs ↦ some (r ∷ rs) ]
]

unfoldable pub concrete : Option (List Range) → Option SequenceSet
concrete none = none
concrete (some rs) = some (record { ranges = rs; saved = false })

-- `$` is byte 36 and the comma byte 44.
unfoldable pub parse : Bytes → Option SequenceSet
parse [] = none
parse (b ∷ bs) =
    if eq_bytes (b ∷ bs) (36 ∷ [])
    then some (record { ranges = []; saved = true })
    else concrete (parse_ranges (split 44 (b ∷ bs)))

unfoldable pub is_saved : SequenceSet → Bool
is_saved set = set.saved

unfoldable pub single : ℕ → Range
single n = record { lo = num n; hi = num n }

unfoldable pub from_uids : List ℕ → SequenceSet
from_uids nums = record { ranges = map single nums; saved = false }

-- The end points in order.
unfoldable pub range_resolved : ℕ → Range → ℕ × ℕ
range_resolved max r =
    let a = resolve r.lo max in let b = resolve r.hi max in if leb a b then (a, b) else (b, a)

unfoldable pub within : ℕ → ℕ × ℕ → Bool
within val (lo, hi) = leb lo val && leb val hi

unfoldable pub any_range : ℕ → ℕ → List Range → Bool
any_range val max [] = false
any_range val max (r ∷ rs) = within val (range_resolved max r) || any_range val max rs

unfoldable pub contains : SequenceSet → ℕ → ℕ → Bool
contains set val max = any_range val max set.ranges

-- The numbers from `start` on, `count` of them, that pass the test.
unfoldable pub filter_from : (ℕ → Bool) → ℕ → ℕ → List ℕ
filter_from test zero start = []
filter_from test (suc count) start =
    let rest = filter_from test count (start + 1) in if test start then start ∷ rest else rest

unfoldable pub resolve_seqs : SequenceSet → ℕ → List ℕ
resolve_seqs set zero = []
resolve_seqs set (suc n) = filter_from (λ k. contains set k (suc n)) (suc n) 1

unfoldable pub ranges_resolved : SequenceSet → ℕ → List (ℕ × ℕ)
ranges_resolved set max = map (range_resolved max) set.ranges
