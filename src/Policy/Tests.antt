-- ===== src/Policy/Tests.antt =====
-- Runs of the checks of crates/kotva-core/src/policy.rs.
use dmtap.Prelude.{◌≡◌, refl, ℕ, Bytes, [], ◌∷◌, ◌||◌, Option, some, if◌then◌else◌, eq_bytes}
use dmtap.Result.{ok, err}
use dmtap.Id.{ContentId}
use dmtap.Policy.{
  timestamp_out_of_skew, duplicate_id, contains, abs_diff, within_skew, is_duplicate, new_policy,
  check_duplicate, check_and_record, check_skew,
}
use dmtap.Policy.Laws.{after, presented, check_and_record-after}

abbrev m1 : ContentId
m1 = record { bytes = 0x1e ∷ 1 ∷ [] }

abbrev m2 : ContentId
m2 = record { bytes = 0x1e ∷ 2 ∷ [] }

refuses_the_second : (check_and_record (after new_policy (m1 ∷ m2 ∷ [])) m1).0 ≡ err duplicate_id
unfolding after check_and_record contains eq_bytes
refuses_the_second = refl

at_the_bound : check_skew new_policy 1_700_000_120_000 1_700_000_000_000 ≡ ok tt
unfolding check_skew within_skew abs_diff
at_the_bound = refl

beyond_the_bound :
    check_skew new_policy 1_700_000_000_000 1_700_000_120_001 ≡ err timestamp_out_of_skew
unfolding check_skew within_skew abs_diff
beyond_the_bound = refl

check_and_record-after_example :
    ((check_and_record (after new_policy (m1 ∷ [])) m2).0 ≡ (
      if presented (m1 ∷ []) m2 || is_duplicate new_policy.seen m2
      then err duplicate_id
      else ok tt))
    × (((check_and_record (after new_policy (m1 ∷ [])) m2).0 ≡ err duplicate_id)
        → (check_and_record (after new_policy (m1 ∷ [])) m2).1 ≡ after new_policy (m1 ∷ []))
    × (check_duplicate (after new_policy (m1 ∷ [])) m2
        ≡ (check_and_record (after new_policy (m1 ∷ [])) m2).0)
check_and_record-after_example = check_and_record-after new_policy (m1 ∷ []) m2

abbrev key : Bytes
key = 7 ∷ 8 ∷ []

abbrev hint : Option ℕ
hint = some 5
