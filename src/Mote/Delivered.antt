-- ===== src/Mote/Delivered.antt =====
-- crates/kotva-core/src/mote.rs: what `build_mote` makes is accepted by `validate`.
use dmtap.Prelude.{
  ◌≡◌, subst, inl, inr, Bool-cases, refl, sym, arith, Bool, true, false, Bytes, Option, none, some,
  length, eq_bytes, eq_bytes_iff,
}
use dmtap.Result.{ok}
use dmtap.Id.{of, verify as verify_id, algorithm, first_of, digest, tail_of}
use dmtap.Keys.{Ed25519, IdentityKey, IsKeyPair, verify_domain-sign_domain}
use dmtap.Pq.{MlDsa65}
use dmtap.Suite.{classical, mote_supported}
use dmtap.Mote.Challenge.{ChallengeResponse, arc, vouch, key, tag_det_cbor, resolves_to_key}
use dmtap.Mote.File.{check_tiers}
use dmtap.Mote.Envelope.{
  Envelope, Payload, payload_det_cbor, payload_signing_body, payload_pairs, content_pairs,
}
use dmtap.Mote.ReadBack.{PayloadFits, payload_from_det_cbor-payload_det_cbor}
use dmtap.Mote.Validate.{
  payload_sig_ds, envelope_sender_ds, PayloadSeal, MoteDraft, aad_bytes, Signer, RecipientCtx,
  Outcome, accepted, deferred, classical_signer, is_deferred, check_vouch, payload_hash,
  unsigned_payload, signed_payload, signed_envelope, sender_authed_bytes, build_with, build_mote,
  verify_sig_for_suite, check_sender, check_anonymous, check_payload_sig, open_payload, validate,
}

-- What is sealed for `pub_key` is opened with `secret`, under the same authenticated data.
abbrev pub Opens : PayloadSeal → Bytes → Bytes → Type 0
Opens sealer pub_key secret =
    (aad pt ct : Bytes)
    → sealer.seal pub_key aad pt ≡ ok ct
    → sealer.open_sealed secret aad ct ≡ ok pt

-- A vouch names this sender.
abbrev pub NamesSender : Option ChallengeResponse → Bytes → Type 0
NamesSender (some (vouch v)) from = from ≡ v.subject
NamesSender _ from = Unit {0}

pub check_vouch-NamesSender :
    (c : Option ChallengeResponse) (from : Bytes) → NamesSender c from → check_vouch c from ≡ ok tt
unfolding check_vouch
check_vouch-NamesSender (some (vouch v)) from h = ground (arith, eq_bytes_iff from v.subject)
check_vouch-NamesSender (some (arc a)) from h = refl
check_vouch-NamesSender (some _) from h = refl
check_vouch-NamesSender none from h = refl

eq_bytes_self : (bs : Bytes) → eq_bytes bs bs ≡ true
eq_bytes_self bs = (eq_bytes_iff bs bs).1 refl

pub verify-of :
    (blake3 : Bytes → Bytes) (c : Bytes)
    → length (blake3 c) ≡ 32
    → verify_id blake3 (of blake3 c) c ≡ true
unfolding verify_id of algorithm first_of digest tail_of
verify-of blake3 c long = rw (long, eq_bytes_self (blake3 c)) refl

-- The outcome for a payload: a cold sender's waits.
unfoldable pub due : Bool → Payload → Outcome
due true p = deferred
due false p = accepted p

module _ (blake3 : Bytes → Bytes) (ed : Ed25519) (dsa : MlDsa65) where
  -- A signer whose signatures of this object verify under its suite.
  pub record IsSigner (k : Signer) : Type 0 where
    pub supported : mote_supported k.suite ≡ true
    pub from_verifies :
        (m : Bytes)
        → verify_sig_for_suite ed dsa k.suite k.from payload_sig_ds m (k.sign_from payload_sig_ds m)
          ≡ ok tt
    pub eph_verifies :
        (m : Bytes)
        → verify_sig_for_suite ed dsa k.suite k.eph envelope_sender_ds m
            (k.sign_eph envelope_sender_ds m)
          ≡ ok tt

  check_anonymous-signed_envelope :
      (k : Signer) (draft : MoteDraft) (our_ik ct : Bytes) (ctx : RecipientCtx)
      → IsSigner k
      → length (blake3 ct) ≡ 32
      → ctx.our_ik ≡ our_ik
      → check_anonymous blake3 ed dsa (signed_envelope blake3 k (key our_ik) draft ct) ctx ≡ ok tt
  unfolding check_anonymous signed_envelope check_sender sender_authed_bytes resolves_to_key
  check_anonymous-signed_envelope k draft our_ik ct ctx signer long ours =
      let m = sender_authed_bytes (signed_envelope blake3 k (key our_ik) draft ct) in
      rw
        (
          signer.supported,
          verify-of blake3 ct long,
          signer.eph_verifies m,
          ours,
          eq_bytes_self our_ik,
        )
        refl

  payload_hash-signed_payload :
      (k : Signer) (draft : MoteDraft) (to_cbor : Bytes)
      → payload_hash blake3 (signed_payload blake3 k to_cbor draft) draft.kind draft.ts to_cbor
        ≡ payload_hash blake3 (unsigned_payload k draft) draft.kind draft.ts to_cbor
  unfolding payload_hash signed_payload payload_signing_body payload_pairs content_pairs
  payload_hash-signed_payload k draft to_cbor = refl

  signed_payload_verifies :
      (k : Signer) (draft : MoteDraft) (to_cbor : Bytes)
      → IsSigner k
      → verify_sig_for_suite ed dsa k.suite
          (signed_payload blake3 k to_cbor draft).from
          payload_sig_ds
          (payload_hash blake3 (signed_payload blake3 k to_cbor draft) draft.kind draft.ts to_cbor)
          (signed_payload blake3 k to_cbor draft).sig
        ≡ ok tt
  unfolding signed_payload
  signed_payload_verifies k draft to_cbor signer =
      let m = payload_hash blake3 (unsigned_payload k draft) draft.kind draft.ts to_cbor in
      subst
        (λ h.
          verify_sig_for_suite ed dsa k.suite k.from payload_sig_ds h (k.sign_from payload_sig_ds m)
          ≡ ok tt)
        (sym (payload_hash-signed_payload k draft to_cbor)) (signer.from_verifies m)

  from-signed_payload :
      (k : Signer) (draft : MoteDraft) (to_cbor : Bytes)
      → (signed_payload blake3 k to_cbor draft).from ≡ k.from
  unfolding signed_payload
  from-signed_payload k draft to_cbor = refl

  open_payload-signed_envelope :
      (sealer : PayloadSeal) (k : Signer) (draft : MoteDraft) (our_ik pub_key ct : Bytes)
      (ctx : RecipientCtx)
      → IsSigner k
      → Opens sealer pub_key ctx.seal_secret
      → PayloadFits (signed_payload blake3 k (tag_det_cbor (key our_ik)) draft)
      → NamesSender draft.challenge k.from
      → sealer.seal pub_key
          (aad_bytes k.suite draft.kind draft.ts (tag_det_cbor (key our_ik)))
          (payload_det_cbor (signed_payload blake3 k (tag_det_cbor (key our_ik)) draft))
        ≡ ok ct
      → open_payload blake3 ed dsa sealer (signed_envelope blake3 k (key our_ik) draft ct) ctx
        ≡ ok (signed_payload blake3 k (tag_det_cbor (key our_ik)) draft)
  unfolding open_payload signed_envelope check_payload_sig
  open_payload-signed_envelope sealer k draft our_ik pub_key ct ctx signer opens fits names sealed =
      let to_cbor = tag_det_cbor (key our_ik) in
      let p = signed_payload blake3 k to_cbor draft in
      let aad = aad_bytes k.suite draft.kind draft.ts to_cbor in
      let vouched = check_vouch-NamesSender draft.challenge k.from names in
      rw
        (
          opens aad (payload_det_cbor p) ct sealed,
          payload_from_det_cbor-payload_det_cbor p fits,
          check_payload_sig,
          signed_payload_verifies k draft to_cbor signer,
          from-signed_payload k draft to_cbor,
          vouched,
        )
        refl

  pub validate-build_with :
      (sealer : PayloadSeal) (k : Signer) (draft : MoteDraft) (pub_key ct : Bytes)
      (ctx : RecipientCtx)
      → IsSigner k
      → length (blake3 ct) ≡ 32
      → Opens sealer pub_key ctx.seal_secret
      → PayloadFits (signed_payload blake3 k (tag_det_cbor (key ctx.our_ik)) draft)
      → NamesSender draft.challenge k.from
      → check_tiers draft.attach ≡ ok tt
      → sealer.seal pub_key
          (aad_bytes k.suite draft.kind draft.ts (tag_det_cbor (key ctx.our_ik)))
          (payload_det_cbor (signed_payload blake3 k (tag_det_cbor (key ctx.our_ik)) draft))
        ≡ ok ct
      → (e : Envelope) × (build_with blake3 sealer k ctx.our_ik pub_key draft ≡ ok e)
        × (validate blake3 ed dsa sealer e ctx
            ≡ ok (
                due
                  (is_deferred draft.challenge ctx.sender_is_known)
                  (signed_payload blake3 k (tag_det_cbor (key ctx.our_ik)) draft)))
  unfolding build_with validate due signed_envelope
  validate-build_with sealer k draft pub_key ct ctx signer long opens fits names tiers sealed =
      let e = signed_envelope blake3 k (key ctx.our_ik) draft ct in
      let anonymous = check_anonymous-signed_envelope k draft ctx.our_ik ct ctx signer long refl in
      let opened =
        open_payload-signed_envelope sealer k draft ctx.our_ik pub_key ct ctx signer opens fits
          names sealed in
      (
        e,
        rw (tiers, sealed) refl,
        rw anonymous (elim (Bool-cases (is_deferred draft.challenge ctx.sender_is_known)) [
          | inl waits ↦ rw waits refl
          | inr goes ↦ rw (goes, opened) refl
        ]),
      )

  IsSigner-classical_signer :
      (sender ephemeral : IdentityKey)
      → IsKeyPair ed sender
      → IsKeyPair ed ephemeral
      → IsSigner (classical_signer sender ephemeral)
  unfolding classical_signer verify_sig_for_suite mote_supported
  IsSigner-classical_signer sender ephemeral from eph = record {
    supported = refl;
    from_verifies = λ m. rw (verify_domain-sign_domain ed sender payload_sig_ds m from) refl;
    eph_verifies = λ m. rw (verify_domain-sign_domain ed ephemeral envelope_sender_ds m eph) refl;
  }

  pub validate-build_mote :
      (sealer : PayloadSeal) (sender ephemeral : IdentityKey) (draft : MoteDraft)
      (pub_key ct : Bytes) (ctx : RecipientCtx)
      → IsKeyPair ed sender
      → IsKeyPair ed ephemeral
      → length (blake3 ct) ≡ 32
      → Opens sealer pub_key ctx.seal_secret
      → PayloadFits (
          signed_payload blake3
            (classical_signer sender ephemeral)
            (tag_det_cbor (key ctx.our_ik))
            draft)
      → NamesSender draft.challenge sender.public
      → check_tiers draft.attach ≡ ok tt
      → sealer.seal pub_key
          (aad_bytes classical draft.kind draft.ts (tag_det_cbor (key ctx.our_ik)))
          (payload_det_cbor (
            signed_payload blake3
              (classical_signer sender ephemeral)
              (tag_det_cbor (key ctx.our_ik))
              draft))
        ≡ ok ct
      → (e : Envelope) × (build_mote blake3 sealer sender ephemeral ctx.our_ik pub_key draft ≡ ok e)
        × (validate blake3 ed dsa sealer e ctx
            ≡ ok (
                due (is_deferred draft.challenge ctx.sender_is_known) (
                  signed_payload blake3
                    (classical_signer sender ephemeral)
                    (tag_det_cbor (key ctx.our_ik))
                    draft)))
  unfolding build_mote classical_signer
  validate-build_mote sealer sender ephemeral draft pub_key ct ctx from eph long opens fits names
        tiers sealed =
      validate-build_with sealer (classical_signer sender ephemeral) draft pub_key ct ctx
        (IsSigner-classical_signer sender ephemeral from eph) long opens fits names tiers sealed
