-- ===== src/Mail/Imap/Sequence/Laws.antt =====
-- The members of sequence sets, crates/kotva-mail/src/imap/sequence.rs.
use dmtap.Prelude.{
  ℕ, zero, suc, ◌+◌, ◌≤◌, ◌≡◌, refl, ap, subst, ◌∙◌, inl, inr, Bool, true, false, ◌&&◌, ◌||◌, List,
  [], ◌∷◌, ltb, leb, ◌==◌, map, arith, Bool-cases,
}
use dmtap.Mail.Imap.Sequence.{
  Range, SequenceSet, resolve, single, from_uids, range_resolved, within, any_range, contains,
  filter_from, resolve_seqs, ranges_resolved,
}

unfoldable pub occurs : ℕ → List ℕ → Bool
occurs n [] = false
occurs n (m ∷ ms) = n == m || occurs n ms

-- Ascending, with no number twice and none below the bound.
unfoldable pub IsAscendingFrom : ℕ → List ℕ → Type 0
IsAscendingFrom bound [] = Unit
IsAscendingFrom bound (m ∷ ms) = (bound ≤ m) × IsAscendingFrom (suc m) ms

weaken_bound : (a b : ℕ) (ms : List ℕ) → a ≤ b → IsAscendingFrom b ms → IsAscendingFrom a ms
unfolding IsAscendingFrom
weaken_bound a b [] le h = tt
weaken_bound a b (m ∷ ms) le (first, later) = (omega arith, later)

filter_from-IsAscendingFrom :
    (test : ℕ → Bool) (count start : ℕ) → IsAscendingFrom start (filter_from test count start)
unfolding filter_from IsAscendingFrom
filter_from-IsAscendingFrom test zero start = tt
filter_from-IsAscendingFrom test (suc count) start =
    let later = filter_from-IsAscendingFrom test count (start + 1) in
    elim (Bool-cases (test start)) [
      | inl passes ↦ rw passes (
        omega arith,
        subst (λ b. IsAscendingFrom b (filter_from test count (start + 1))) (omega arith) later,
      )
      | inr fails ↦
          rw fails (
            weaken_bound start (start + 1) (filter_from test count (start + 1)) (omega arith) later)
    ]

empty_range : (start n : ℕ) → (leb start n && ltb n (start + 0)) ≡ false
empty_range start n = elim (Bool-cases (leb start n)) [
  | inl from ↦ elim (Bool-cases (ltb n (start + 0))) [
    | inl below ↦ absurd (ground arith)
    | inr beyond ↦ rw (from, beyond) refl
  ]
  | inr before ↦ rw before refl
]

-- A range without its first number.
later_range :
    (start n count : ℕ)
    → n == start ≡ false
    → (leb (start + 1) n && ltb n (start + 1 + count)) ≡ (leb start n && ltb n (start + suc count))
later_range start n count other =
    let past : leb (start + 1) n ≡ leb start n = ground arith in
    let ends : ltb n (start + 1 + count) ≡ ltb n (start + suc count) = ground arith in
    rw (past, ends) refl

first_in_range : (start count : ℕ) → (leb start start && ltb start (start + suc count)) ≡ true
first_in_range start count =
    let from : leb start start ≡ true = ground arith in
    let below : ltb start (start + suc count) ≡ true = ground arith in rw (from, below) refl

and-false : (b : Bool) → (b && false) ≡ false
and-false true = refl
and-false false = refl

occurs-filter_from :
    (test : ℕ → Bool) (n count start : ℕ)
    → occurs n (filter_from test count start) ≡ ((leb start n && ltb n (start + count)) && test n)
unfolding filter_from occurs
occurs-filter_from test n zero start = rw (empty_range start n) refl
occurs-filter_from test n (suc count) start =
    let later = occurs-filter_from test n count (start + 1) in
    elim (Bool-cases (test start)) [
      | inl passes ↦ rw passes (elim (Bool-cases (n == start)) [
        | inl same ↦
            rw same (
              let at : n ≡ start = ground arith in rw (at, first_in_range start count, passes) refl)
        | inr other ↦ rw (other, later, later_range start n count other) refl
      ])
      | inr fails ↦
          rw (fails, later)
            (elim (Bool-cases (n == start)) [
              | inl same ↦
                  (let at : n ≡ start = ground arith in
                    rw
                      (
                        at,
                        fails,
                        and-false (leb (start + 1) start && ltb start (start + 1 + count)),
                        and-false (leb start start && ltb start (start + suc count)),
                      )
                      refl)
              | inr other ↦ rw (later_range start n count other) refl
            ])
    ]

pub resolve_seqs-IsAscendingFrom :
    (set : SequenceSet) (count : ℕ) → IsAscendingFrom 1 (resolve_seqs set count)
unfolding resolve_seqs IsAscendingFrom
resolve_seqs-IsAscendingFrom set zero = tt
resolve_seqs-IsAscendingFrom set (suc count) =
    filter_from-IsAscendingFrom (λ k. contains set k (suc count)) (suc count) 1

pub occurs-resolve_seqs :
    (set : SequenceSet) (n count : ℕ)
    → occurs n (resolve_seqs set count) ≡ ((leb 1 n && leb n count) && contains set n count)
unfolding resolve_seqs occurs
occurs-resolve_seqs set n zero =
    (let out : (leb 1 n && leb n 0) ≡ false = elim (Bool-cases (leb 1 n)) [
      | inl from ↦ elim (Bool-cases (leb n 0)) [
        | inl upto ↦ absurd (ground arith)
        | inr beyond ↦ rw (from, beyond) refl
      ]
      | inr before ↦ rw before refl
    ] in
      rw out refl)
occurs-resolve_seqs set n (suc count) =
    occurs-filter_from (λ k. contains set k (suc count)) n (suc count) 1
    ∙ (let same : ltb n (1 + suc count) ≡ leb n (suc count) = ground arith in rw same refl)

within-single : (val max n : ℕ) → within val (range_resolved max (single n)) ≡ (val == n)
unfolding range_resolved single resolve within
within-single val max n = elim (Bool-cases (leb n n)) [
  | inl le ↦ rw le (ground arith)
  | inr gt_self ↦ absurd (ground arith)
]

any_range-single :
    (val max : ℕ) (nums : List ℕ) → any_range val max (map single nums) ≡ occurs val nums
unfolding any_range occurs
any_range-single val max [] = refl
any_range-single val max (n ∷ nums) =
    rw (within-single val max n, any_range-single val max nums) refl

pub contains-from_uids :
    (nums : List ℕ) (val max : ℕ) → contains (from_uids nums) val max ≡ occurs val nums
unfolding contains from_uids
contains-from_uids nums val max = any_range-single val max nums

unfoldable pub any_within : ℕ → List (ℕ × ℕ) → Bool
any_within val [] = false
any_within val (r ∷ rs) = within val r || any_within val rs

any_range-ranges_resolved :
    (val max : ℕ) (rs : List Range)
    → any_range val max rs ≡ any_within val (map (range_resolved max) rs)
unfolding any_range any_within
any_range-ranges_resolved val max [] = refl
any_range-ranges_resolved val max (r ∷ rs) =
    ap (λ b. within val (range_resolved max r) || b) (any_range-ranges_resolved val max rs)

-- The messages that `resolve_seqs` names out of `count` are in ascending order, each once, and are exactly the numbers
-- between 1 and `count` that lie in one of the ranges of `ranges_resolved`.
resolve_seqs-ranges_resolved :
    (set : SequenceSet) (count val : ℕ)
    → IsAscendingFrom 1 (resolve_seqs set count)
      × (occurs val (resolve_seqs set count)
          ≡ ((leb 1 val && leb val count) && any_within val (ranges_resolved set count)))
unfolding contains ranges_resolved
resolve_seqs-ranges_resolved set count val = (
  resolve_seqs-IsAscendingFrom set count,
  occurs-resolve_seqs set val count
      ∙ ap (λ b. (leb 1 val && leb val count) && b)
          (any_range-ranges_resolved val count set.ranges),
)
