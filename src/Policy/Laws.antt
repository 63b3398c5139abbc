-- ===== src/Policy/Laws.antt =====
-- What the checks of crates/kotva-core/src/policy.rs decide.
use mathlib.Core.Option.{some-injective}
use dmtap.Prelude.{
  ℕ, ◌+◌, ◌≤◌, ◌≡◌, ◌↔◌, ◌⊎◌, inl, inr, refl, Bool, false, ◌||◌, Bytes, List, [], ◌∷◌, Option, none,
  some, arith, eq_bytes, eq_bytes_iff, Bool-cases, if◌then◌else◌,
}
use dmtap.Result.{ok, err}
use dmtap.Id.{ContentId}
use dmtap.Policy.{
  duplicate_id, contains, abs_diff, within_skew, is_expired, repin_allowed, is_duplicate,
  CallerPolicy, check_duplicate, check_and_record, check_skew, check_expiry, check_repin,
}

-- The policy after a history of presentations.
unfoldable pub after : CallerPolicy → List ContentId → CallerPolicy
after p [] = p
after p (id ∷ ids) = after (check_and_record p id).1 ids

unfoldable pub presented : List ContentId → ContentId → Bool
presented [] id = false
presented (j ∷ ids) id = eq_bytes j.bytes id.bytes || presented ids id

contains-check_and_record :
    (p : CallerPolicy) (j : ContentId) (b : Bytes)
    → contains (check_and_record p j).1.seen b ≡ (eq_bytes j.bytes b || contains p.seen b)
unfolding check_and_record contains
contains-check_and_record p j b = elim (Bool-cases (contains p.seen j.bytes)) [
  | inl e ↦ rw e (ground (arith, eq_bytes_iff j.bytes b))
  | inr e ↦ rw e
]

contains-after :
    (p : CallerPolicy) (ids : List ContentId) (id : ContentId)
    → contains (after p ids).seen id.bytes ≡ (presented ids id || contains p.seen id.bytes)
unfolding after presented
contains-after p [] id = refl
contains-after p (j ∷ ids) id =
    ground (
      arith,
      contains-after (check_and_record p j).1 ids id,
      contains-check_and_record p j id.bytes,
    )

-- After any history of presentations, an id is accepted exactly if it is neither in that history nor was
-- it seen before; otherwise it is refused as a duplicate and the policy is left as it is.
-- `check_duplicate` foretells the verdict.
pub check_and_record-after :
    (p : CallerPolicy) (ids : List ContentId) (id : ContentId)
    → ((check_and_record (after p ids) id).0
        ≡ (if presented ids id || is_duplicate p.seen id then err duplicate_id else ok tt))
      × (((check_and_record (after p ids) id).0 ≡ err duplicate_id)
          → (check_and_record (after p ids) id).1 ≡ after p ids)
      × (check_duplicate (after p ids) id ≡ (check_and_record (after p ids) id).0)
unfolding check_and_record check_duplicate is_duplicate
check_and_record-after p ids id =
    let known = contains-after p ids id in
    elim (Bool-cases (contains (after p ids).seen id.bytes)) [
      | inl e ↦ (ground arith, ground arith, rw e)
      | inr e ↦ (ground arith, ground arith, rw e)
    ]

check_skew_iff :
    (p : CallerPolicy) (s n : ℕ)
    → (check_skew p s n ≡ ok tt) ↔ ((s ≤ n + p.tolerance_ms) × (n ≤ s + p.tolerance_ms))
unfolding check_skew within_skew abs_diff
check_skew_iff p s n = ground arith

check_expiry_iff :
    (p : CallerPolicy) (o : Option ℕ) (n : ℕ)
    → (check_expiry p o n ≡ ok tt) ↔ ((o ≡ none) ⊎ ((e : ℕ) × (o ≡ some e) × (n ≤ e)))
unfolding check_expiry is_expired
check_expiry_iff p none n = (λ h. inl refl, λ h. refl)
check_expiry_iff p (some e) n = (
  λ h. inr (e, refl, ground arith),
  λ h. elim h [
    | inl bad ↦ cc (bad)
    | inr (d, same, le) ↦ (let eq = some-injective e d same in ground arith)
  ],
)

check_repin_iff :
    (p : CallerPolicy) (o : Option Bytes) (b : Bytes)
    → (check_repin p o b ≡ ok tt) ↔ ((o ≡ none) ⊎ (o ≡ some b))
unfolding check_repin repin_allowed
check_repin_iff p none b = (λ h. inl refl, λ h. refl)
check_repin_iff p (some k) b = ground (arith, eq_bytes_iff k b)

-- The three checks without state: a timestamp passes exactly if it is at most the tolerance away from
-- the clock, to either side; an expiry exactly if there is none or the clock has not gone beyond it; a
-- key exactly if none is pinned or it is the pinned one.
checks-eq-ok_iff :
    (p : CallerPolicy) (sender_ts now : ℕ) (expires : Option ℕ) (pinned : Option Bytes)
    (observed : Bytes)
    → ((check_skew p sender_ts now ≡ ok tt)
        ↔ ((sender_ts ≤ now + p.tolerance_ms) × (now ≤ sender_ts + p.tolerance_ms)))
      × ((check_expiry p expires now ≡ ok tt)
          ↔ ((expires ≡ none) ⊎ ((e : ℕ) × (expires ≡ some e) × (now ≤ e))))
      × ((check_repin p pinned observed ≡ ok tt) ↔ ((pinned ≡ none) ⊎ (pinned ≡ some observed)))
checks-eq-ok_iff p sender_ts now expires pinned observed = (
  check_skew_iff p sender_ts now,
  check_expiry_iff p expires now,
  check_repin_iff p pinned observed,
)
