-- ===== src/Capability/Covers.antt =====
-- The order that `capability_covers` of crates/kotva-core/src/capability.rs is: every grant covers itself,
-- and a grant covers what is covered by one that it covers.
use mathlib.Core.Option.{some-injective}
use dmtap.Prelude.{
  ◌≡◌, ◌⊎◌, inl, inr, refl, sym, ap, ◌∙◌, true, ◌&&◌, Bytes, List, [], ◌∷◌, ◌++◌, append_assoc,
  Option, none, some, arith, eq_bytes, eq_bytes_iff, Bool-cases, All,
}
use dmtap.Cbor.Value.{Cv, Pairs, text_keys, text_map, no_pairs, pair}
use dmtap.Cbor.Equality.{eq_cv, eq_cv-eq, eq_cv_refl}
use dmtap.Capability.Wire.{Capability}
use dmtap.Capability.{
  strip_prefix, is_subscope, scope_covers, has_caveat, all_caveats, is_empty, child_tightened,
  caveats_tightened, capability_covers, covered, all_covered,
}

-- A scope is another's, or lies behind it and a slash.
unfoldable pub IsUnder : Bytes → Bytes → Type 0
IsUnder parent child = (parent ≡ child) ⊎ ((rest : Bytes) × (child ≡ parent ++ b'/' ∷ rest))

strip_prefix-append : (p rest : Bytes) → strip_prefix p (p ++ rest) ≡ some rest
unfolding strip_prefix
strip_prefix-append [] rest = refl
strip_prefix-append (p ∷ ps) rest = ground (arith, strip_prefix-append ps rest)

strip_prefix-eq-some : (p c rest : Bytes) → strip_prefix p c ≡ some rest → c ≡ p ++ rest
unfolding strip_prefix
strip_prefix-eq-some [] c rest h = some-injective c rest h
strip_prefix-eq-some (p ∷ ps) [] rest h = cc
strip_prefix-eq-some (p ∷ ps) (c ∷ cs) rest h = ground (arith, strip_prefix-eq-some ps cs rest)

subscope-IsUnder :
    (p c : Bytes) (o : Option Bytes) → strip_prefix p c ≡ o → is_subscope o ≡ true → IsUnder p c
unfolding is_subscope IsUnder
subscope-IsUnder p c none e h = cc
subscope-IsUnder p c (some []) e h = cc
subscope-IsUnder p c (some (s ∷ rest)) e h =
    let slash : s ≡ b'/' = ground arith in
    inr (rest, strip_prefix-eq-some p c (s ∷ rest) e ∙ ap (λ t. p ++ t ∷ rest) slash)

pub scope_covers-IsUnder : (p c : Bytes) → scope_covers p c ≡ true → IsUnder p c
unfolding scope_covers IsUnder
scope_covers-IsUnder p c h = elim (Bool-cases (eq_bytes p c)) [
  | inl e ↦ inl ((eq_bytes_iff p c).0 e)
  | inr e ↦ subscope-IsUnder p c (strip_prefix p c) refl (ground arith)
]

pub IsUnder-scope_covers : (p c : Bytes) → IsUnder p c → scope_covers p c ≡ true
unfolding scope_covers is_subscope IsUnder
IsUnder-scope_covers p c (inl e) = ground (arith, eq_bytes_iff p c)
IsUnder-scope_covers p c (inr (rest, e)) =
    let found : strip_prefix p c ≡ some (b'/' ∷ rest) =
      ap (λ t. strip_prefix p t) e ∙ strip_prefix-append p (b'/' ∷ rest) in
    ground arith

pub scope_covers_refl : (p : Bytes) → scope_covers p p ≡ true
unfolding IsUnder
scope_covers_refl p = IsUnder-scope_covers p p (inl refl)

IsUnder-trans : (p c g : Bytes) → IsUnder p c → IsUnder c g → IsUnder p g
unfolding IsUnder
IsUnder-trans p c g (inl e) under = rw e under
IsUnder-trans p c g (inr (rest, e)) (inl e') = inr (rest, sym e' ∙ e)
IsUnder-trans p c g (inr (rest, e)) (inr (rest', e')) = inr (
  rest ++ b'/' ∷ rest',
  e' ∙ ap (λ t. t ++ b'/' ∷ rest') e ∙ append_assoc p (b'/' ∷ rest) (b'/' ∷ rest'),
)

pub scope_covers_trans :
    (p c g : Bytes) → scope_covers p c ≡ true → scope_covers c g ≡ true → scope_covers p g ≡ true
scope_covers_trans p c g h h' =
    IsUnder-scope_covers p g
      (IsUnder-trans p c g (scope_covers-IsUnder p c h) (scope_covers-IsUnder c g h'))

has_caveat-all :
    (m n : Pairs text_keys) (k : Bytes) (v : Cv)
    → all_caveats m n ≡ true
    → has_caveat m k v ≡ true
    → has_caveat n k v ≡ true
unfolding has_caveat all_caveats
has_caveat-all no_pairs n k v all h = cc
has_caveat-all (pair j w rest) n k v all h = elim (Bool-cases (eq_bytes j k && eq_cv w v)) [
  | inl here ↦
      let same_key : j ≡ k = ground (arith, eq_bytes_iff j k) in
      let same_value : w ≡ v = eq_cv-eq w v (ground arith) in
      let found : has_caveat n j w ≡ true = ground arith in rw (sym same_key, sym same_value) found
  | inr other ↦ has_caveat-all rest n k v (ground arith) (ground arith)
]

all_caveats_trans :
    (m n o : Pairs text_keys)
    → all_caveats m n ≡ true
    → all_caveats n o ≡ true
    → all_caveats m o ≡ true
unfolding all_caveats
all_caveats_trans no_pairs n o h h' = refl
all_caveats_trans (pair k v rest) n o h h' =
    let first = has_caveat-all n o k v h' (ground arith) in
    let others = all_caveats_trans rest n o (ground arith) h' in ground arith

all_caveats_more :
    (m n : Pairs text_keys) (k : Bytes) (v : Cv)
    → all_caveats m n ≡ true
    → all_caveats m (pair k v n) ≡ true
unfolding all_caveats has_caveat
all_caveats_more no_pairs n k v h = refl
all_caveats_more (pair j w rest) n k v h = ground (arith, all_caveats_more rest n k v)

all_caveats_refl : (m : Pairs text_keys) → all_caveats m m ≡ true
unfolding all_caveats has_caveat
all_caveats_refl no_pairs = refl
all_caveats_refl (pair k v rest) =
    ground
      (arith, eq_bytes_iff k k, eq_cv_refl v, all_caveats_more rest rest k v, all_caveats_refl rest)

all_caveats_empty : (m n : Pairs text_keys) → is_empty m ≡ true → all_caveats m n ≡ true
unfolding is_empty all_caveats
all_caveats_empty no_pairs n h = refl
all_caveats_empty (pair k v rest) n h = cc

-- Caveats as the decoder lets them through: absent, or a text-keyed map.
abbrev pub IsCaveats : Option Cv → Type 0
IsCaveats none = Unit {0}
IsCaveats (some (text_map m)) = Unit {0}
IsCaveats (some _) = ⊥

pub caveats_tightened_refl : (o : Option Cv) → IsCaveats o → caveats_tightened o o ≡ true
unfolding caveats_tightened child_tightened
caveats_tightened_refl none h = refl
caveats_tightened_refl (some (text_map m)) h = all_caveats_refl m
caveats_tightened_refl (some _) h = absurd h

is_empty-all :
    (m n : Pairs text_keys) → all_caveats m n ≡ true → is_empty n ≡ true → is_empty m ≡ true
unfolding is_empty all_caveats has_caveat
is_empty-all no_pairs n h e = refl
is_empty-all (pair k v rest) no_pairs h e = cc
is_empty-all (pair k v rest) (pair j w others) h e = cc

child_tightened_trans :
    (m : Pairs text_keys) (c g : Option Cv)
    → IsCaveats g
    → child_tightened m c ≡ true
    → caveats_tightened c g ≡ true
    → child_tightened m g ≡ true
unfolding caveats_tightened child_tightened
child_tightened_trans m none none wf h h' = h
child_tightened_trans m none (some (text_map o)) wf h h' = all_caveats_empty m o h
child_tightened_trans m none (some _) wf h h' = absurd wf
child_tightened_trans m (some (text_map n)) none wf h h' = is_empty-all m n h h'
child_tightened_trans m (some (text_map n)) (some (text_map o)) wf h h' =
    all_caveats_trans m n o h h'
child_tightened_trans m (some (text_map n)) (some _) wf h h' = absurd wf
child_tightened_trans m (some _) g wf h h' = cc

pub caveats_tightened_trans :
    (p c g : Option Cv)
    → IsCaveats g
    → caveats_tightened p c ≡ true
    → caveats_tightened c g ≡ true
    → caveats_tightened p g ≡ true
unfolding caveats_tightened
caveats_tightened_trans none c g wf h h' = refl
caveats_tightened_trans (some (text_map m)) c g wf h h' = child_tightened_trans m c g wf h h'
caveats_tightened_trans (some _) c g wf h h' = cc

pub capability_covers_refl : (c : Capability) → IsCaveats c.caveats → capability_covers c c ≡ true
unfolding capability_covers
capability_covers_refl c wf =
    rw (
      scope_covers_refl c.resource,
      scope_covers_refl c.ability,
      caveats_tightened_refl c.caveats wf,
    )

pub capability_covers_trans :
    (p c g : Capability)
    → IsCaveats g.caveats
    → capability_covers p c ≡ true
    → capability_covers c g ≡ true
    → capability_covers p g ≡ true
unfolding capability_covers
capability_covers_trans p c g wf h h' = ground (
  arith,
  scope_covers_trans p.resource c.resource g.resource,
  scope_covers_trans p.ability c.ability g.ability,
  caveats_tightened_trans p.caveats c.caveats g.caveats wf,
)

abbrev pub IsGranted : List Capability → Type 0
IsGranted = All (λ c. IsCaveats c.caveats)

covered-up :
    (ps : List Capability) (c g : Capability)
    → IsCaveats g.caveats
    → covered ps c ≡ true
    → capability_covers c g ≡ true
    → covered ps g ≡ true
unfolding covered
covered-up [] c g wf h h' = cc
covered-up (p ∷ ps) c g wf h h' =
    ground (arith, capability_covers_trans p c g wf, covered-up ps c g wf)

covered_trans :
    (ps cs : List Capability) (g : Capability)
    → IsCaveats g.caveats
    → all_covered ps cs ≡ true
    → covered cs g ≡ true
    → covered ps g ≡ true
unfolding covered all_covered
covered_trans ps [] g wf all h = cc
covered_trans ps (c ∷ cs) g wf all h = elim (Bool-cases (capability_covers c g)) [
  | inl here ↦ covered-up ps c g wf (ground arith) here
  | inr other ↦ covered_trans ps cs g wf (ground arith) (ground arith)
]

pub all_covered_trans :
    (ps cs gs : List Capability)
    → IsGranted gs
    → all_covered ps cs ≡ true
    → all_covered cs gs ≡ true
    → all_covered ps gs ≡ true
unfolding all_covered
all_covered_trans ps cs [] wf h h' = refl
all_covered_trans ps cs (g ∷ gs) wf h h' =
    let first = covered_trans ps cs g wf.0 h (ground arith) in
    let others = all_covered_trans ps cs gs wf.1 h (ground arith) in ground arith

all_covered_more :
    (cs gs : List Capability) (c : Capability)
    → all_covered cs gs ≡ true
    → all_covered (c ∷ cs) gs ≡ true
unfolding all_covered covered
all_covered_more cs [] c h = refl
all_covered_more cs (g ∷ gs) c h = ground (arith, all_covered_more cs gs c)

pub all_covered_refl : (cs : List Capability) → IsGranted cs → all_covered cs cs ≡ true
unfolding all_covered covered
all_covered_refl [] wf = refl
all_covered_refl (c ∷ cs) wf =
    ground
      (arith, capability_covers_refl c wf.0, all_covered_more cs cs c, all_covered_refl cs wf.1)
