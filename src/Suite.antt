-- ===== src/Suite.antt =====
-- crates/kotva-core/src/suite.rs: cipher suites, their negotiation, and the high-water-mark ratchet.
pub mod Ratchet
mod Tests
mod Negotiate
use dmtap.Result.{Result, ok, err, ok_or}
use dmtap.Prelude.{
  Bytes, List, [], ◌∷◌, ◌||◌, ltb, lookup, insert, ℕ, Bool, true, false, Option, none, some, ◌==◌,
  if◌then◌else◌, ◌≡◌, refl, arith, ◌<◌, ap,
}

pub data Suite : Type 0 where
  classical pq_hybrid reserved_aead_gcm reserved_anchor_slh_dsa reserved_hash_sha3 : Suite

unfoldable pub from_u8 : ℕ → Option Suite
from_u8 b =
    if b == 1
    then some classical
    else if b == 2
    then some pq_hybrid
    else if b == 3
    then some reserved_aead_gcm
    else if b == 4
    then some reserved_anchor_slh_dsa
    else if b == 5
    then some reserved_hash_sha3
    else none

unfoldable pub as_u8 : Suite → ℕ
as_u8 classical = 1
as_u8 pq_hybrid = 2
as_u8 reserved_aead_gcm = 3
as_u8 reserved_anchor_slh_dsa = 4
as_u8 reserved_hash_sha3 = 5

unfoldable pub is_supported : Suite → Bool
is_supported classical = true
is_supported _ = false

unfoldable pub mote_supported : Suite → Bool
mote_supported classical = true
mote_supported pq_hybrid = true
mote_supported _ = false

pub from_u8-as_u8 : (s : Suite) → from_u8 (as_u8 s) ≡ some s
unfolding from_u8 as_u8
from_u8-as_u8 classical = refl
from_u8-as_u8 _ = refl

-- A byte that decodes is the byte of the suite that it decodes to.
pub as_u8-from_u8 : (b : ℕ) (s : Suite) → from_u8 b ≡ some s → as_u8 s ≡ b
unfolding from_u8 as_u8
as_u8-from_u8 b classical h = ground arith
as_u8-from_u8 b _ h = ground arith

pub as_u8-injective : (s t : Suite) → as_u8 s ≡ as_u8 t → s ≡ t
as_u8-injective s t h = cc (from_u8-as_u8 s, from_u8-as_u8 t, ap from_u8 h)

pub as_u8-lt : (s : Suite) → as_u8 s < 256
unfolding as_u8
as_u8-lt classical = omega arith
as_u8-lt _ = omega arith

-- `sender.iter().filter(|s| recipient.contains(s))`
unfoldable pub contains : List Suite → Suite → Bool
contains [] s = false
contains (t ∷ ts) s = as_u8 t == as_u8 s || contains ts s

unfoldable pub common : List Suite → List Suite → List Suite
unfolding contains
common [] recipient = []
common (s ∷ sender) recipient =
    let rest = common sender recipient in if contains recipient s then s ∷ rest else rest

-- `Iterator::max`: the last of the greatest.
unfoldable pub max_suite : List Suite → Option Suite
max_suite [] = none
max_suite (s ∷ ss) =
    let rest = max_suite ss in
    elim rest [ none ↦ some s | some t ↦ if ltb (as_u8 t) (as_u8 s) then some s else some t ]

pub data SuiteNegotiationError : Type 0 where
  intersection_empty : SuiteNegotiationError

unfoldable pub negotiate_suite : List Suite → List Suite → Result SuiteNegotiationError Suite
unfolding common max_suite
negotiate_suite sender recipient = ok_or (max_suite (common sender recipient)) intersection_empty

pub data SuiteRatchetError : Type 0 where
  suite_downgrade : SuiteRatchetError

-- The highest suite byte accepted, for each contact's identity key.
pub record SuiteRatchet : Type 0 where
  pub floors : List (Bytes × ℕ)

abbrev pub new : SuiteRatchet
new = record { floors = [] }

abbrev suite_of : Option ℕ → Option Suite
suite_of none = none
suite_of (some b) = from_u8 b

unfoldable pub high_water_mark : SuiteRatchet → Bytes → Option Suite
high_water_mark r contact = suite_of (lookup contact r.floors)

unfoldable pub check : SuiteRatchet → Bytes → Suite → Result SuiteRatchetError (Unit {0})
check r contact suite = elim (lookup contact r.floors) [
  | none ↦ ok tt
  | some floor ↦ if ltb (as_u8 suite) floor then err suite_downgrade else ok tt
]

-- `entry(contact).or_insert(0)`, which inserts the 0 too.
abbrev pub floor_of : Option ℕ → ℕ
floor_of none = 0
floor_of (some floor) = floor

unfoldable pub observe : SuiteRatchet → Bytes → Suite → SuiteRatchet
observe r contact suite =
    let e = floor_of (lookup contact r.floors) in
    record { floors = insert contact (if ltb e (as_u8 suite) then as_u8 suite else e) r.floors }

unfoldable pub accept :
    SuiteRatchet → Bytes → Suite → Result SuiteRatchetError (Unit {0}) × SuiteRatchet
accept r contact suite = elim (check r contact suite) [
  | ok u ↦ (ok tt, observe r contact suite)
  | err e ↦ (err e, r)
]
