-- ===== src/Suite/Tests.antt =====
-- Runs of the negotiation and of the ratchet of crates/kotva-core/src/suite.rs.
use dmtap.Prelude.{◌≡◌, ◌≤◌, ◌↔◌, refl, arith, Bytes, List, [], ◌∷◌, lookup}
use dmtap.Result.{ok, err}
use dmtap.Suite.{
  Suite, classical, pq_hybrid, reserved_hash_sha3, as_u8, contains, common, max_suite,
  negotiate_suite, intersection_empty, new, suite_downgrade, check, accept,
}
use dmtap.Suite.Negotiate.{Shared, negotiate_suite-eq-ok_iff, negotiate_suite-eq-err_iff}
use dmtap.Suite.Ratchet.{after, accept_no_downgrade}

abbrev both : List Suite
both = classical ∷ pq_hybrid ∷ []

picks_the_strongest : negotiate_suite both both ≡ ok pq_hybrid
unfolding negotiate_suite common contains max_suite as_u8
picks_the_strongest = refl

negotiate_suite-eq-ok_iff_example :
    (negotiate_suite both both ≡ ok pq_hybrid)
    ↔ (Shared both both pq_hybrid × ((t : Suite) → Shared both both t → as_u8 t ≤ as_u8 pq_hybrid))
negotiate_suite-eq-ok_iff_example = negotiate_suite-eq-ok_iff both both pq_hybrid

negotiate_suite-eq-err_iff_example :
    (negotiate_suite both (reserved_hash_sha3 ∷ []) ≡ err intersection_empty)
    ↔ ((t : Suite) → ¬ Shared both (reserved_hash_sha3 ∷ []) t)
negotiate_suite-eq-err_iff_example = negotiate_suite-eq-err_iff both (reserved_hash_sha3 ∷ [])

abbrev alice : Bytes
alice = 1 ∷ 2 ∷ []

abbrev bob : Bytes
bob = 3 ∷ []

accepts_first_contact : (accept new alice pq_hybrid).0 ≡ ok tt
unfolding accept check lookup
accepts_first_contact = refl

accept_no_downgrade_example :
    accept (after (accept new alice pq_hybrid).1 ((bob, classical) ∷ [])) alice classical
    ≡ (err suite_downgrade, after (accept new alice pq_hybrid).1 ((bob, classical) ∷ []))
unfolding as_u8
accept_no_downgrade_example =
    accept_no_downgrade new alice pq_hybrid classical ((bob, classical) ∷ []) accepts_first_contact
      (omega arith)
