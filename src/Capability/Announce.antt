-- ===== src/Capability/Announce.antt =====
-- `CapsVersionTracker::accept` of crates/kotva-core/src/capability.rs: a version is not rolled back.
use dmtap.Prelude.{
  ℕ, ◌<◌, ◌≤◌, ◌≡◌, ◌↔◌, inl, inr, refl, ap, true, false, Bytes, List, [], ◌∷◌, Option, none, some,
  arith, lookup, lookup-insert, eq_bytes_iff,
}
use dmtap.Result.{ok, err, Result-cases}
use dmtap.Keys.{Ed25519}
use dmtap.Capability.Wire.{CapabilityAnnouncement}
use dmtap.Capability.{
  CapabilityError, CapsVersionTracker, announce_rollback, bad_signature, is_rollback,
  verify_announcement, accept,
}

abbrev pub IsNewer : Option ℕ → ℕ → Type 0
IsNewer none version = Unit {0}
IsNewer (some last) version = last < version

is_rollback_iff : (o : Option ℕ) (version : ℕ) → (is_rollback o version ≡ false) ↔ IsNewer o version
unfolding is_rollback
is_rollback_iff none version = (λ h. tt, λ h. refl)
is_rollback_iff (some last) version = ground arith

module _ (ed : Ed25519) where
  -- An announcement is accepted exactly if its signature verifies and its version is above the last one
  -- accepted for the key.
  pub accept-eq-ok_iff :
      (t : CapsVersionTracker) (a : CapabilityAnnouncement)
      → ((accept ed t a).0 ≡ ok tt)
        ↔ ((verify_announcement ed a ≡ ok tt) × IsNewer (lookup a.iss t.seen) a.caps_version)
  unfolding accept
  accept-eq-ok_iff t a =
      let newer = is_rollback_iff (lookup a.iss t.seen) a.caps_version in
      elim (Result-cases (verify_announcement ed a)) [
        | inl (u, v) ↦ rw (accept, v) (ground arith)
        | inr (e, v) ↦ rw (accept, v) (ground arith)
      ]

  unfoldable pub after : CapsVersionTracker → List CapabilityAnnouncement → CapsVersionTracker
  after t [] = t
  after t (a ∷ later) = after (accept ed t a).1 later

  stays_old :
      (t : CapsVersionTracker) (a : CapabilityAnnouncement) (iss : Bytes) (version : ℕ)
      → is_rollback (lookup iss t.seen) version ≡ true
      → is_rollback (lookup iss (accept ed t a).1.seen) version ≡ true
  unfolding accept is_rollback
  stays_old t a iss version h =
      let found = lookup-insert a.iss iss a.caps_version t.seen in
      let same = eq_bytes_iff a.iss iss in
      let key : a.iss ≡ iss → lookup a.iss t.seen ≡ lookup iss t.seen =
        λ e. ap (λ k. lookup k t.seen) e in
      ground arith

  after-is_rollback :
      (t : CapsVersionTracker) (later : List CapabilityAnnouncement) (iss : Bytes) (version : ℕ)
      → is_rollback (lookup iss t.seen) version ≡ true
      → is_rollback (lookup iss (after t later).seen) version ≡ true
  unfolding after
  after-is_rollback t [] iss version h = h
  after-is_rollback t (a ∷ later) iss version h =
      after-is_rollback (accept ed t a).1 later iss version (stays_old t a iss version h)

  accept-is_rollback :
      (t : CapsVersionTracker) (a : CapabilityAnnouncement) (version : ℕ)
      → (accept ed t a).0 ≡ ok tt
      → version ≤ a.caps_version
      → is_rollback (lookup a.iss (accept ed t a).1.seen) version ≡ true
  unfolding accept is_rollback
  accept-is_rollback t a version h le =
      let found = lookup-insert a.iss a.iss a.caps_version t.seen in
      let same = eq_bytes_iff a.iss a.iss in ground arith

  old-refused :
      (t : CapsVersionTracker) (a : CapabilityAnnouncement)
      → is_rollback (lookup a.iss t.seen) a.caps_version ≡ true
      → (e : CapabilityError) × (accept ed t a ≡ (err e, t))
  unfolding accept
  old-refused t a h = elim (Result-cases (verify_announcement ed a)) [
    | inl (u, v) ↦ (announce_rollback, rw (accept, v, h))
    | inr (e, v) ↦ (bad_signature, rw (accept, v))
  ]

  -- No rollback: once an announcement was accepted, and after any further ones, an announcement of that key
  -- with a version that is not greater is refused, and the tracker is left as it is.
  pub accept_no_rollback :
      (t : CapsVersionTracker) (a : CapabilityAnnouncement) (later : List CapabilityAnnouncement)
      (b : CapabilityAnnouncement)
      → (accept ed t a).0 ≡ ok tt
      → b.iss ≡ a.iss
      → b.caps_version ≤ a.caps_version
      → (e : CapabilityError) × (accept ed (after (accept ed t a).1 later) b
          ≡ (err e, after (accept ed t a).1 later))
  accept_no_rollback t a later b accepted same le =
      let t' = (accept ed t a).1 in
      let old =
        after-is_rollback t' later a.iss b.caps_version
          (accept-is_rollback t a b.caps_version accepted le) in
      let old' : is_rollback (lookup b.iss (after t' later).seen) b.caps_version ≡ true =
        rw same old in
      old-refused (after t' later) b old'
