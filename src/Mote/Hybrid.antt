-- ===== src/Mote/Hybrid.antt =====
-- crates/kotva-core/src/pq.rs and mote.rs: signatures and messages of the hybrid suite.
use dmtap.Prelude.{
  Bool, not, ◌||◌, ==_iff, ◌+◌, ◌≡◌, ◌↔◌, refl, arith, true, false, ◌&&◌, Bytes, ◌++◌, length, take,
  drop, length-append, take-append, drop-append, ◌==◌, if◌then◌else◌,
}
use dmtap.Result.{Result, ok, err}
use dmtap.Keys.{
  Ed25519, IdentityError, IsKeyPair, verify_domain, sign_domain, verify_domain-sign_domain,
}
use dmtap.Pq.{
  MlDsa65, HybridError, hybrid_suite_incomplete, HybridSigningKey, public as hybrid_public,
  sign_domain as sign_hybrid, verify_hybrid_domain, verify_mldsa65, is_ok,
}
use dmtap.Suite.{pq_hybrid, mote_supported}
use dmtap.Mote.Challenge.{key, tag_det_cbor}
use dmtap.Mote.File.{check_tiers}
use dmtap.Mote.Envelope.{Envelope, payload_det_cbor}
use dmtap.Mote.ReadBack.{PayloadFits}
use dmtap.Mote.Validate.{
  payload_sig_ds, envelope_sender_ds, PayloadSeal, MoteDraft, aad_bytes, RecipientCtx,
  hybrid_signer, is_deferred, signed_payload, build_mote_hybrid, verify_sig_for_suite, validate,
}
use dmtap.Mote.Delivered.{Opens, NamesSender, due, IsSigner, validate-build_with}

module _ (ed : Ed25519) (dsa : MlDsa65) where
  -- What the libraries promise of a hybrid key: both halves have their lengths, and their signatures verify.
  pub record IsHybridPair (k : HybridSigningKey) : Type 0 where
    pub classical_half : IsKeyPair ed k.ed
    pub public_length : length k.mldsa.public ≡ 1952
    pub sign_length : (m : Bytes) → length (k.mldsa.sign m) ≡ 3309
    pub is_key : dsa.is_key k.mldsa.public ≡ true
    pub is_signature : (m : Bytes) → dsa.is_signature (k.mldsa.sign m) ≡ true
    pub sign_verifies : (m : Bytes) → dsa.verify k.mldsa.public m (k.mldsa.sign m) ≡ true

  pub verify_hybrid_domain-sign_domain :
      (k : HybridSigningKey) (domain m : Bytes)
      → IsHybridPair k
      → verify_hybrid_domain ed dsa (hybrid_public k) domain m (sign_hybrid k domain m) ≡ ok tt
  unfolding verify_hybrid_domain hybrid_public sign_hybrid sign_domain verify_mldsa65
  verify_hybrid_domain-sign_domain k domain m pair =
      let half = pair.classical_half in
      let s = k.ed.sign (domain ++ m) in
      let t = k.mldsa.sign (domain ++ m) in
      let long_key : length (k.ed.public ++ k.mldsa.public) ≡ 1984 =
        omega (
          arith,
          length-append k.ed.public k.mldsa.public,
          half.public_length,
          pair.public_length,
        ) in
      let long_sig : length (s ++ t) ≡ 3373 = omega (
        arith,
        length-append s t,
        half.sign_length (domain ++ m),
        pair.sign_length (domain ++ m),
      ) in
      let front_key : take 32 (k.ed.public ++ k.mldsa.public) ≡ k.ed.public =
        rw half.public_length at (take-append k.ed.public k.mldsa.public) in
      let back_key : drop 32 (k.ed.public ++ k.mldsa.public) ≡ k.mldsa.public =
        rw half.public_length at (drop-append k.ed.public k.mldsa.public) in
      let front_sig : take 64 (s ++ t) ≡ s =
        rw (half.sign_length (domain ++ m)) at (take-append s t) in
      let back_sig : drop 64 (s ++ t) ≡ t =
        rw (half.sign_length (domain ++ m)) at (drop-append s t) in
      let verifies : verify_domain ed k.ed.public domain m s ≡ ok tt =
        verify_domain-sign_domain ed k.ed domain m half in
      rw
        (
          long_key,
          long_sig,
          front_key,
          back_key,
          front_sig,
          back_sig,
          verifies,
          pair.is_key,
          pair.is_signature (domain ++ m),
          pair.sign_verifies (domain ++ m),
        )
        refl

  gate_iff :
      (a b x y z : Bool) (r : Result IdentityError (Unit {0}))
      → (◌≡◌ {A = Result HybridError (Unit {0})}
          (if not a || not b
            then err hybrid_suite_incomplete
            else if is_ok r && (x && (y && z))
            then ok tt
            else err hybrid_suite_incomplete)
          (ok tt))
        ↔ ((a ≡ true) × (b ≡ true) × (r ≡ ok tt) × (x ≡ true) × (y ≡ true) × (z ≡ true))
  gate_iff true true x y z (ok u) = ground arith
  gate_iff true true x y z (err e) = ground arith
  gate_iff true false x y z r = ground arith
  gate_iff false b x y z r = ground arith

  pub verify_hybrid_domain-eq-ok_iff :
      (pk domain m sig : Bytes)
      → (verify_hybrid_domain ed dsa pk domain m sig ≡ ok tt) ↔ (
          (length pk ≡ 32 + 1952)
          × (length sig ≡ 64 + 3309)
          × (verify_domain ed (take 32 pk) domain m (take 64 sig) ≡ ok tt)
          × (dsa.is_key (drop 32 pk) ≡ true)
          × (dsa.is_signature (drop 64 sig) ≡ true)
          × (dsa.verify (drop 32 pk) (domain ++ m) (drop 64 sig) ≡ true))
  unfolding verify_hybrid_domain verify_mldsa65
  verify_hybrid_domain-eq-ok_iff pk domain m sig =
      let gate =
        gate_iff (length pk == 1984) (length sig == 3373) (dsa.is_key (drop 32 pk))
          (dsa.is_signature (drop 64 sig)) (dsa.verify (drop 32 pk) (domain ++ m) (drop 64 sig))
          (verify_domain ed (take 32 pk) domain m (take 64 sig)) in
      (
        λ h.
            (let (a, b, r, x, y, z) = gate.0 h in
              ((==_iff (length pk) 1984).0 a, (==_iff (length sig) 3373).0 b, r, x, y, z)),
        λ (a, b, r, x, y, z).
            gate.1 ((==_iff (length pk) 1984).1 a, (==_iff (length sig) 3373).1 b, r, x, y, z),
      )

module _ (blake3 : Bytes → Bytes) (ed : Ed25519) (dsa : MlDsa65) where
  IsSigner-hybrid_signer :
      (sender ephemeral : HybridSigningKey)
      → IsHybridPair ed dsa sender
      → IsHybridPair ed dsa ephemeral
      → IsSigner blake3 ed dsa (hybrid_signer sender ephemeral)
  unfolding hybrid_signer verify_sig_for_suite mote_supported
  IsSigner-hybrid_signer sender ephemeral from eph = record {
    supported = refl;
    from_verifies =
        λ m. rw (verify_hybrid_domain-sign_domain ed dsa sender payload_sig_ds m from) refl;
    eph_verifies =
        λ m. rw (verify_hybrid_domain-sign_domain ed dsa ephemeral envelope_sender_ds m eph) refl;
  }

  -- A message that `build_mote_hybrid` makes for a recipient is accepted there with the payload of the draft, signed by both
  -- halves of the sender's key, or it is deferred if the sender is not known and the draft has no challenge. The attachments
  -- have to fit their tiers, the payload the wire, a vouch to name the sender, and what is sealed for the recipient's key to
  -- open with its secret.
  validate-build_mote_hybrid :
      (sealer : PayloadSeal) (sender ephemeral : HybridSigningKey) (draft : MoteDraft)
      (pub_key ct : Bytes) (ctx : RecipientCtx)
      → IsHybridPair ed dsa sender
      → IsHybridPair ed dsa ephemeral
      → length (blake3 ct) ≡ 32
      → Opens sealer pub_key ctx.seal_secret
      → PayloadFits (
          signed_payload blake3
            (hybrid_signer sender ephemeral)
            (tag_det_cbor (key ctx.our_ik))
            draft)
      → NamesSender draft.challenge (hybrid_public sender)
      → check_tiers draft.attach ≡ ok tt
      → sealer.seal pub_key
          (aad_bytes pq_hybrid draft.kind draft.ts (tag_det_cbor (key ctx.our_ik)))
          (payload_det_cbor (
            signed_payload blake3
              (hybrid_signer sender ephemeral)
              (tag_det_cbor (key ctx.our_ik))
              draft))
        ≡ ok ct
      → (e : Envelope) × (build_mote_hybrid blake3 sealer sender ephemeral ctx.our_ik pub_key draft
          ≡ ok e)
        × (validate blake3 ed dsa sealer e ctx
            ≡ ok (
                due (is_deferred draft.challenge ctx.sender_is_known) (
                  signed_payload blake3
                    (hybrid_signer sender ephemeral)
                    (tag_det_cbor (key ctx.our_ik))
                    draft)))
  unfolding build_mote_hybrid hybrid_signer
  validate-build_mote_hybrid sealer sender ephemeral draft pub_key ct ctx from eph long opens fits
        names tiers sealed =
      validate-build_with blake3 ed dsa sealer (hybrid_signer sender ephemeral) draft pub_key ct ctx
        (IsSigner-hybrid_signer sender ephemeral from eph) long opens fits names tiers sealed
