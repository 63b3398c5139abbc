-- ===== src/Capability/Narrowing.antt =====
-- What it takes for the caps of a token to be covered by its parent's in crates/kotva-core/src/capability.rs, in terms of
-- the caps themselves.
use dmtap.Prelude.{
  ◌≡◌, ◌⊎◌, ◌↔◌, refl, sym, ap, ◌∙◌, true, Bytes, List, [], ◌∷◌, Option, none, some, arith,
  eq_bytes_iff,
}
use dmtap.Cbor.Value.{Cv, Pairs, text_keys, text_map, no_pairs, pair}
use dmtap.Cbor.Equality.{eq_cv, eq_cv-eq, eq_cv_refl}
use dmtap.Capability.Wire.{Capability}
use dmtap.Capability.{
  scope_covers, has_caveat, all_caveats, is_empty, child_tightened, caveats_tightened,
  capability_covers, covered, all_covered,
}
use dmtap.Capability.Covers.{IsUnder, scope_covers-IsUnder, IsUnder-scope_covers}

-- A caveat is among the caveats, with the same value.
abbrev pub IsAmong : Bytes → Cv → Pairs text_keys → Type 0
IsAmong k v no_pairs = ⊥
IsAmong k v (pair j w rest) = ((j ≡ k) × (w ≡ v)) ⊎ IsAmong k v rest

abbrev pub AreAmong : Pairs text_keys → Pairs text_keys → Type 0
AreAmong no_pairs child = Unit {0}
AreAmong (pair k v rest) child = IsAmong k v child × AreAmong rest child

-- The child has each caveat of the parent. Only a text-keyed map is a set of caveats.
abbrev pub KeepsCaveats : Option Cv → Option Cv → Type 0
KeepsCaveats none child = Unit {0}
KeepsCaveats (some (text_map parent)) none = AreAmong parent no_pairs
KeepsCaveats (some (text_map parent)) (some (text_map child)) = AreAmong parent child
KeepsCaveats (some (text_map parent)) (some _) = ⊥
KeepsCaveats (some _) child = ⊥

-- The child's resource and ability are the parent's, or lie below them, and it keeps the parent's caveats.
abbrev pub IsNarrower : Capability → Capability → Type 0
IsNarrower parent child =
    IsUnder parent.resource child.resource
    × IsUnder parent.ability child.ability
    × KeepsCaveats parent.caveats child.caveats

abbrev pub IsHeld : List Capability → Capability → Type 0
IsHeld [] c = ⊥
IsHeld (p ∷ ps) c = IsNarrower p c ⊎ IsHeld ps c

-- Each of the caps is narrower than one of the parent's.
abbrev pub AreHeld : List Capability → List Capability → Type 0
AreHeld parents [] = Unit {0}
AreHeld parents (c ∷ cs) = IsHeld parents c × AreHeld parents cs

eq_cv_iff : (v w : Cv) → (eq_cv v w ≡ true) ↔ (v ≡ w)
eq_cv_iff v w = (eq_cv-eq v w, λ e. ap (λ u. eq_cv v u) (sym e) ∙ eq_cv_refl v)

has_caveat_iff :
    (ps : Pairs text_keys) (k : Bytes) (v : Cv) → (has_caveat ps k v ≡ true) ↔ IsAmong k v ps
unfolding has_caveat
has_caveat_iff no_pairs k v = (λ h. cc, λ h. absurd h)
has_caveat_iff (pair j w rest) k v =
    ground (arith, eq_bytes_iff j k, eq_cv_iff w v, has_caveat_iff rest k v)

all_caveats_iff : (ps qs : Pairs text_keys) → (all_caveats ps qs ≡ true) ↔ AreAmong ps qs
unfolding all_caveats
all_caveats_iff no_pairs qs = (λ h. tt, λ h. refl)
all_caveats_iff (pair k v rest) qs = ground (arith, has_caveat_iff qs k v, all_caveats_iff rest qs)

is_empty_iff : (ps : Pairs text_keys) → (is_empty ps ≡ true) ↔ AreAmong ps no_pairs
unfolding is_empty
is_empty_iff no_pairs = (λ h. tt, λ h. refl)
is_empty_iff (pair k v rest) = (λ h. cc, λ (h, t). absurd h)

caveats_tightened_iff : (p c : Option Cv) → (caveats_tightened p c ≡ true) ↔ KeepsCaveats p c
unfolding caveats_tightened child_tightened
caveats_tightened_iff none c = (λ h. tt, λ h. refl)
caveats_tightened_iff (some (text_map ps)) none = is_empty_iff ps
caveats_tightened_iff (some (text_map ps)) (some (text_map qs)) = all_caveats_iff ps qs
caveats_tightened_iff (some (text_map ps)) (some _) = (λ h. cc, λ h. absurd h)
caveats_tightened_iff (some _) c = (λ h. cc, λ h. absurd h)

scope_covers_iff : (p c : Bytes) → (scope_covers p c ≡ true) ↔ IsUnder p c
scope_covers_iff p c = (scope_covers-IsUnder p c, IsUnder-scope_covers p c)

capability_covers_iff : (p c : Capability) → (capability_covers p c ≡ true) ↔ IsNarrower p c
unfolding capability_covers
capability_covers_iff p c = ground (
  arith,
  scope_covers_iff p.resource c.resource,
  scope_covers_iff p.ability c.ability,
  caveats_tightened_iff p.caveats c.caveats,
)

covered_iff : (ps : List Capability) (c : Capability) → (covered ps c ≡ true) ↔ IsHeld ps c
unfolding covered
covered_iff [] c = (λ h. cc, λ h. absurd h)
covered_iff (p ∷ ps) c = ground (arith, capability_covers_iff p c, covered_iff ps c)

-- The test of the source says whether each cap is narrower than one of the parent's.
pub all_covered_iff : (ps cs : List Capability) → (all_covered ps cs ≡ true) ↔ AreHeld ps cs
unfolding all_covered
all_covered_iff ps [] = (λ h. tt, λ h. refl)
all_covered_iff ps (c ∷ cs) = ground (arith, covered_iff ps c, all_covered_iff ps cs)
