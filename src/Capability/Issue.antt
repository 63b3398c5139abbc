-- ===== src/Capability/Issue.antt =====
-- The tokens that `issue` of crates/kotva-core/src/capability.rs makes: they verify, and one that narrows its
-- parent's grant prolongs the parent's chain.
use dmtap.Prelude.{ℕ, ◌≤◌, ◌≡◌, refl, sym, Bytes, List, ◌∷◌, Option, some}
use dmtap.Result.{ok}
use dmtap.Keys.{Ed25519, IdentityKey, IsKeyPair, verify_domain-sign_domain}
use dmtap.Id.{ContentId}
use dmtap.Suite.{is_supported}
use dmtap.Capability.Wire.{Capability, CapabilityToken, token_signing_body, token_pairs, signed}
use dmtap.Capability.{
  cap_token_ds, check_suite, issue_token, verify_token, content_id, verify_chain,
}
use dmtap.Capability.Narrowing.{AreHeld}
use dmtap.Capability.Chain.{via, verify_chain-eq-ok_iff}

module _ (ed : Ed25519) where
  verify_token-issue_token :
      (k : IdentityKey) (aud : Bytes) (caps : List Capability) (nbf exp : ℕ) (nonce : Bytes)
      (prnt : Option ContentId)
      → IsKeyPair ed k
      → verify_token ed (issue_token k aud caps nbf exp nonce prnt) ≡ ok tt
  unfolding verify_token issue_token check_suite is_supported token_signing_body token_pairs signed
  verify_token-issue_token k aud caps nbf exp nonce prnt pair =
      verify_domain-sign_domain ed k cap_token_ds _ pair

  -- Whoever holds a token with a chain that verifies may pass on a part of it: the token that the holder's key
  -- issues, with caps that the held ones cover and a window inside the held one's, verifies with the
  -- prolonged chain. A cap is covered by one with the same resource and ability, or
  -- ones above them by a slash, each of whose caveats it has with the same value.
  pub verify_chain-issue_token :
      (blake3 : Bytes → Bytes) (k : IdentityKey) (held : CapabilityToken)
      (chain : List CapabilityToken) (aud : Bytes) (caps : List Capability) (nbf exp : ℕ)
      (nonce : Bytes)
      → IsKeyPair ed k
      → verify_chain ed blake3 held chain ≡ ok tt
      → held.aud ≡ k.public
      → AreHeld held.caps caps
      → held.nbf ≤ nbf
      → exp ≤ held.exp
      → verify_chain ed blake3
          (issue_token k aud caps nbf exp nonce (some (content_id blake3 held)))
          (held ∷ chain)
        ≡ ok tt
  unfolding issue_token
  verify_chain-issue_token blake3 k held chain aud caps nbf exp nonce pair verifies to covers from
        until =
      let t = issue_token k aud caps nbf exp nonce (some (content_id blake3 held)) in
      let (own, links) = (verify_chain-eq-ok_iff ed blake3 held chain).0 verifies in
      let sound =
        verify_token-issue_token k aud caps nbf exp nonce (some (content_id blake3 held)) pair in
      (verify_chain-eq-ok_iff ed blake3 t (held ∷ chain)).1
        (sound, via (own, refl, sym to, from, until, covers) links)
