-- ===== src/Policy.antt =====
-- crates/kotva-core/src/policy.rs: the checks of a recipient that depend on its own state and clock.
mod Laws
mod Tests
use dmtap.Prelude.{
  ℕ, ◌-◌, Bool, true, false, ◌||◌, Bytes, List, [], ◌∷◌, Option, none, some, ltb, leb,
  if◌then◌else◌, eq_bytes,
}
use dmtap.Result.{Result, ok, err}
use dmtap.Id.{ContentId}

abbrev pub skew_tolerance_ms : ℕ
skew_tolerance_ms = 120_000

pub data PolicyError : Type 0 where
  duplicate_id timestamp_out_of_skew expired_mote from_pin_mismatch : PolicyError

unfoldable pub code : PolicyError → ℕ
code duplicate_id = 0x020e
code timestamp_out_of_skew = 0x020c
code expired_mote = 0x020b
code from_pin_mismatch = 0x0209

-- `BTreeSet::contains`, on a list.
unfoldable pub contains : List Bytes → Bytes → Bool
contains [] b = false
contains (x ∷ xs) b = eq_bytes x b || contains xs b

unfoldable pub is_duplicate : List Bytes → ContentId → Bool
is_duplicate seen id = contains seen id.bytes

-- `u64::abs_diff`
unfoldable pub abs_diff : ℕ → ℕ → ℕ
abs_diff a b = if ltb a b then b - a else a - b

unfoldable pub within_skew : ℕ → ℕ → ℕ → Bool
within_skew sender_ts receiver_now tolerance_ms = leb (abs_diff sender_ts receiver_now) tolerance_ms

unfoldable pub is_expired : Option ℕ → ℕ → Bool
is_expired none now = false
is_expired (some e) now = ltb e now

unfoldable pub repin_allowed : Option Bytes → Bytes → Bool
repin_allowed none observed = true
repin_allowed (some k) observed = eq_bytes k observed

pub record CallerPolicy : Type 0 where
  pub seen : List Bytes
  pub tolerance_ms : ℕ

abbrev pub new_policy : CallerPolicy
new_policy = record { seen = []; tolerance_ms = skew_tolerance_ms }

unfoldable pub with_tolerance_ms : CallerPolicy → ℕ → CallerPolicy
with_tolerance_ms p tolerance_ms = record p { tolerance_ms = tolerance_ms }

unfoldable pub check_duplicate : CallerPolicy → ContentId → Result PolicyError (Unit {0})
check_duplicate p id = if is_duplicate p.seen id then err duplicate_id else ok tt

-- `BTreeSet::insert` returns whether the element was new.
unfoldable pub check_and_record :
    CallerPolicy → ContentId → Result PolicyError (Unit {0}) × CallerPolicy
check_and_record p id =
    if contains p.seen id.bytes
    then (err duplicate_id, p)
    else (ok tt, record p { seen = id.bytes ∷ p.seen })

unfoldable pub check_skew : CallerPolicy → ℕ → ℕ → Result PolicyError (Unit {0})
check_skew p sender_ts now =
    if within_skew sender_ts now p.tolerance_ms then ok tt else err timestamp_out_of_skew

unfoldable pub check_expiry : CallerPolicy → Option ℕ → ℕ → Result PolicyError (Unit {0})
check_expiry p expires now = if is_expired expires now then err expired_mote else ok tt

unfoldable pub check_repin : CallerPolicy → Option Bytes → Bytes → Result PolicyError (Unit {0})
check_repin p pinned observed =
    if repin_allowed pinned observed then ok tt else err from_pin_mismatch
