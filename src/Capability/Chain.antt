-- ===== src/Capability/Chain.antt =====
-- What a chain of crates/kotva-core/src/capability.rs proves that verifies: `verify_chain`,
-- `verify_chain_rooted` and `verify_at`.
use dmtap.Prelude.{
  ℕ, ◌<◌, ◌≤◌, ◌≡◌, ◌↔◌, inl, inr, refl, sym, ap, ◌∙◌, true, false, not, ◌||◌, Bytes, List, [], ◌∷◌,
  Option, none, some, arith, eq_bytes, eq_bytes_iff, ltb, leb,
}
use dmtap.Result.{ok, ensure, ensure_iff, then_iff, Result-cases}
use dmtap.Id.{ContentId, eq_id}
use dmtap.Keys.{Ed25519}
use dmtap.Capability.Wire.{CapabilityToken}
use dmtap.Capability.{
  all_covered, root_iss, verify_token, check_token, content_id, names_parent, check_link,
  check_root, check_links, verify_chain, verify_chain_rooted, is_revoked, verify_at, broken_chain,
  window_not_nested, untrusted_root, revoked, expired, not_yet_valid, attenuation_violation,
}
use dmtap.Capability.Narrowing.{AreHeld, all_covered_iff}
use dmtap.Capability.Covers.{IsGranted, all_covered_trans, all_covered_refl}

eq_id_iff : (a b : ContentId) → (eq_id a b ≡ true) ↔ (a ≡ b)
unfolding eq_id
eq_id_iff a b = (
  λ h. ap (λ bs. record { bytes = bs }) ((eq_bytes_iff a.bytes b.bytes).0 h),
  λ h. (eq_bytes_iff a.bytes b.bytes).1 (ap (λ i. i.bytes) h),
)

-- The token after the last link.
unfoldable pub last_token : CapabilityToken → List CapabilityToken → CapabilityToken
last_token t [] = t
last_token t (p ∷ chain) = last_token p chain

root_iss-last_token :
    (t : CapabilityToken) (chain : List CapabilityToken)
    → root_iss t chain ≡ (last_token t chain).iss
unfolding root_iss last_token
root_iss-last_token t [] = refl
root_iss-last_token t (p ∷ chain) = root_iss-last_token p chain

check_root_iff : (o : Option ContentId) → (check_root o ≡ ok tt) ↔ (o ≡ none)
unfolding check_root
check_root_iff none = (λ h. refl, λ h. refl)
check_root_iff (some p) = (λ h. cc, λ h. cc)

module _ (blake3 : Bytes → Bytes) where
  names_parent_iff :
      (o : Option ContentId) (p : CapabilityToken)
      → (names_parent blake3 o p ≡ true) ↔ (o ≡ some (content_id blake3 p))
  unfolding names_parent
  names_parent_iff none p = (λ h. cc, λ h. cc)
  names_parent_iff (some i) p =
      let same = eq_id_iff i (content_id blake3 p) in (λ h. ap some (same.0 h), λ h. same.1 (cc))

module _ (ed : Ed25519) (blake3 : Bytes → Bytes) where
  abbrev pub IsLink : CapabilityToken → CapabilityToken → Type 0
  IsLink child parent =
      (verify_token ed parent ≡ ok tt)
      × (child.prnt ≡ some (content_id blake3 parent))
      × (child.iss ≡ parent.aud)
      × (parent.nbf ≤ child.nbf)
      × (child.exp ≤ parent.exp)
      × AreHeld parent.caps child.caps

  -- The tokens of the chain delegate to each other, down from a root without a parent.
  pub data Delegates : CapabilityToken → List CapabilityToken → Type 0 where
    rooted : {t : CapabilityToken} → t.prnt ≡ none → Delegates t []
    via :
        {t p : CapabilityToken} {chain : List CapabilityToken}
        → IsLink t p
        → Delegates p chain
        → Delegates t (p ∷ chain)

  check_token_iff : (t : CapabilityToken) → (check_token ed t ≡ ok tt) ↔ (verify_token ed t ≡ ok tt)
  unfolding check_token
  check_token_iff t = elim (Result-cases (verify_token ed t)) [
    | inl (u, v) ↦ rw v (λ h. refl, λ h. refl)
    | inr (e, v) ↦ rw v (λ h. cc, λ h. cc)
  ]

  check_link_iff : (t p : CapabilityToken) → (check_link ed blake3 t p ≡ ok tt) ↔ IsLink t p
  unfolding check_link
  check_link_iff t p =
      let sound = check_token_iff p in
      let named = names_parent_iff blake3 t.prnt p in
      let for = eq_bytes_iff t.iss p.aud in
      let narrower = all_covered_iff p.caps t.caps in
      let covers = ensure (all_covered p.caps t.caps) attenuation_violation in
      let nested = ensure (not (ltb t.nbf p.nbf || ltb p.exp t.exp)) window_not_nested in
      let held = ensure (eq_bytes t.iss p.aud) broken_chain in
      let known = ensure (names_parent blake3 t.prnt p) broken_chain in
      ground
        (arith, then_iff (check_token ed p), then_iff known, then_iff held, then_iff nested covers)

  check_links_iff :
      (t : CapabilityToken) (chain : List CapabilityToken)
      → (check_links ed blake3 t chain ≡ ok tt) ↔ Delegates t chain
  unfolding check_links
  check_links_iff t [] = (
    λ h. rooted ((check_root_iff t.prnt).0 h),
    λ h. elim h [ rooted e ↦ (check_root_iff t.prnt).1 e ],
  )
  check_links_iff t (p ∷ chain) =
      let link = check_link_iff t p in
      let later = check_links_iff p chain in
      let both = then_iff (check_link ed blake3 t p) (check_links ed blake3 p chain) in
      (
        λ h. via (link.0 (both.0 h).0) (later.0 (both.0 h).1),
        λ h. elim h [ via l d ↦ both.1 (link.1 l, later.1 d) ],
      )

  -- `verify_chain` accepts exactly the chains in which the token's signature verifies, each token
  -- names the next one's content address and audience, lies in its validity window and holds only
  -- caps the next one covers, each of these signatures verifies, and the last token has no parent.
  -- A cap is covered by one with the same resource and ability, or
  -- ones above them by a slash, each of whose caveats it has with the same value.
  pub verify_chain-eq-ok_iff :
      (t : CapabilityToken) (chain : List CapabilityToken)
      → (verify_chain ed blake3 t chain ≡ ok tt) ↔ ((verify_token ed t ≡ ok tt) × Delegates t chain)
  unfolding verify_chain
  verify_chain-eq-ok_iff t chain =
      let own = check_token_iff t in
      let links = check_links_iff t chain in
      ground (arith, then_iff (check_token ed t) (check_links ed blake3 t chain))

  -- What the root of a chain vouches for.
  abbrev pub IsWithin : CapabilityToken → CapabilityToken → Type 0
  IsWithin r t =
      (verify_token ed r ≡ ok tt)
      × (r.nbf ≤ t.nbf)
      × (t.exp ≤ r.exp)
      × (all_covered r.caps t.caps ≡ true)

  -- The caps and the window of `t` are those of a token below it.
  Delegates-last_token :
      (t b : CapabilityToken) (chain : List CapabilityToken)
      → IsGranted b.caps
      → IsWithin t b
      → Delegates t chain
      → IsWithin (last_token t chain) b
  unfolding last_token
  Delegates-last_token t b [] wf within d = within
  Delegates-last_token t b (p ∷ chain) wf (own, from, until, caps)
        (via (sound, named, for, from', until', caps') d) =
      let up =
        all_covered_trans p.caps t.caps b.caps wf ((all_covered_iff p.caps t.caps).1 caps') caps in
      Delegates-last_token p b chain wf (sound, ground arith, ground arith, up) d

  -- A chain that verifies under a trusted root: the token at its end is issued and signed by that root, and
  -- its caps cover each cap of the first token and its window encloses the first token's, whatever lies
  -- between them. The first token's caveats are maps.
  pub verify_chain_rooted-IsWithin :
      (t : CapabilityToken) (chain : List CapabilityToken) (trusted_root : Bytes)
      → IsGranted t.caps
      → verify_chain_rooted ed blake3 t chain trusted_root ≡ ok tt
      → ((last_token t chain).iss ≡ trusted_root) × IsWithin (last_token t chain) t
  unfolding verify_chain_rooted
  verify_chain_rooted-IsWithin t chain trusted_root wf h =
      let (run, issued) =
        (then_iff (verify_chain ed blake3 t chain)
            (ensure (eq_bytes (root_iss t chain) trusted_root) untrusted_root)).0
          h in
      let same = (eq_bytes_iff (root_iss t chain) trusted_root).0 ((ensure_iff _ _).0 issued) in
      let (own, links) = (verify_chain-eq-ok_iff t chain).0 run in
      (
        sym (root_iss-last_token t chain) ∙ same,
        Delegates-last_token t t chain wf
            (own, ground arith, ground arith, all_covered_refl t.caps wf) links,
      )

  -- A token may be used at a time exactly if its signature verifies, the time is at or after `nbf` and before
  -- `exp`, and the content address of the token itself is not among the revoked ones.
  pub verify_at-eq-ok_iff :
      (t : CapabilityToken) (now : ℕ) (revocations : List ContentId)
      → (verify_at ed blake3 t now revocations ≡ ok tt) ↔ (
          (verify_token ed t ≡ ok tt)
          × (t.nbf ≤ now)
          × (now < t.exp)
          × (is_revoked revocations (content_id blake3 t) ≡ false))
  unfolding verify_at
  verify_at-eq-ok_iff t now revocations =
      let own = check_token_iff t in
      let listed = ensure (not (is_revoked revocations (content_id blake3 t))) revoked in
      let lives = ensure (not (leb t.exp now)) expired in
      let begun = ensure (not (ltb now t.nbf)) not_yet_valid in
      ground (arith, then_iff (check_token ed t), then_iff begun, then_iff lives listed)
