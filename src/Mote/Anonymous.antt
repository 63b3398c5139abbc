-- ===== src/Mote/Anonymous.antt =====
-- crates/kotva-core/src/mote.rs: what of an envelope anyone can check, `check_anonymous`.
use dmtap.Prelude.{
  subst, ◌≡◌, ◌↔◌, ◌⊎◌, inl, inr, refl, sym, ap, ◌∙◌, arith, Bool-cases, true, Bytes, [], ◌∷◌,
  Option, none, some, length, eq_bytes_iff, ◌==◌, ==_iff, if◌then◌else◌,
}
use dmtap.Result
use dmtap.Result.{
  Result, ok, err, ok_or, >>=-inverse, Result-cases, Yields-ok, Yields-bind, Yields-intro,
  Yields-map_ok,
}
use dmtap.Id.{of, verify as verify_id, algorithm, first_of, digest, tail_of}
use dmtap.Keys.{Ed25519}
use dmtap.Pq.{MlDsa65}
use dmtap.Suite.{
  Suite, classical, pq_hybrid, reserved_aead_gcm, reserved_anchor_slh_dsa, reserved_hash_sha3,
  as_u8, mote_supported,
}
use dmtap.Mote.Kind.{
  bad_signature, missing_sender_key, unknown_version, unsupported_suite, bad_content_address,
  not_for_us,
}
use dmtap.Mote.Challenge.{DeliveryTag, key, group, blinded, resolves_to_key}
use dmtap.Mote.Envelope.{Envelope}
use dmtap.Mote.Delivered.{verify-of}
use dmtap.Mote.Validate.{
  mote_version, envelope_sender_ds, RecipientCtx, sender_authed_bytes, verify_sig_for_suite,
  check_sender, check_anonymous,
}

ok_or-inverse : {A E : Type 0} {a : A} (o : Option A) (e : E) → ok_or o e ≡ ok a → o ≡ some a
ok_or-inverse none e h = cc
ok_or-inverse (some b) e h = cc

mote_supported_iff : (s : Suite) → (mote_supported s ≡ true) ↔ ((s ≡ classical) ⊎ (s ≡ pq_hybrid))
unfolding mote_supported
mote_supported_iff classical = (λ h. inl refl, λ h. refl)
mote_supported_iff pq_hybrid = (λ h. inr refl, λ h. refl)
mote_supported_iff reserved_aead_gcm = (λ h. cc, λ h. elim h [ inl e ↦ cc | inr e ↦ cc ])
mote_supported_iff reserved_anchor_slh_dsa = (λ h. cc, λ h. elim h [ inl e ↦ cc | inr e ↦ cc ])
mote_supported_iff reserved_hash_sha3 = (λ h. cc, λ h. elim h [ inl e ↦ cc | inr e ↦ cc ])

module _ (blake3 : Bytes → Bytes) (ed : Ed25519) (dsa : MlDsa65) where
  -- What anyone can check of an envelope for this recipient.
  pub record IsAnonymouslyValid (e : Envelope) (our_ik : Bytes) : Type 0 where
    pub version : e.v ≡ 0
    pub supported : (e.suite ≡ classical) ⊎ (e.suite ≡ pq_hybrid)
    pub addressed : e.id.bytes ≡ 0x1e ∷ blake3 e.ciphertext
    pub digest_length : length (blake3 e.ciphertext) ≡ 32
    pub sig : Bytes
    pub has_sig : e.sender_sig ≡ some sig
    pub eph : Bytes
    pub has_eph : e.sender_eph ≡ some eph
    pub verifies :
        verify_sig_for_suite ed dsa e.suite eph envelope_sender_ds (sender_authed_bytes e) sig
        ≡ ok tt
    pub ours : e.to ≡ key our_ik

  verify-eq-true :
      (bs c : Bytes)
      → verify_id blake3 (record { bytes = bs }) c ≡ true
      → (bs ≡ 0x1e ∷ blake3 c) × (length (blake3 c) ≡ 32)
  unfolding verify_id algorithm first_of digest tail_of
  verify-eq-true [] c h = cc
  verify-eq-true (b ∷ bs) c h = ground (arith, eq_bytes_iff (blake3 c) bs)

  resolves_iff : (t : DeliveryTag) (ik : Bytes) → resolves_to_key t ik ≡ true → t ≡ key ik
  unfolding resolves_to_key
  resolves_iff (key k) ik h = ap key ((eq_bytes_iff k ik).0 h)
  resolves_iff (group k) ik h = cc
  resolves_iff (blinded k) ik h = cc

  check_sender-eq-ok :
      (e : Envelope)
      → check_sender ed dsa e ≡ ok tt
      → (sig : Bytes) × (eph : Bytes) × (e.sender_sig ≡ some sig)
        × (e.sender_eph ≡ some eph)
        × (verify_sig_for_suite ed dsa e.suite eph envelope_sender_ds (sender_authed_bytes e) sig
            ≡ ok tt)
  unfolding check_sender
  check_sender-eq-ok e h =
      let (sig, more, has_sig) =
        >>=-inverse (ok_or e.sender_sig bad_signature)
          (λ sig. Result.◌>>=◌ (ok_or e.sender_eph missing_sender_key) λ eph.
            verify_sig_for_suite ed dsa e.suite eph envelope_sender_ds (sender_authed_bytes e) sig)
          h in
      let (eph, verifies, has_eph) =
        >>=-inverse (ok_or e.sender_eph missing_sender_key)
          (λ eph.
            verify_sig_for_suite ed dsa e.suite eph envelope_sender_ds (sender_authed_bytes e) sig)
          more in
      (
        sig,
        eph,
        ok_or-inverse e.sender_sig bad_signature has_sig,
        ok_or-inverse e.sender_eph missing_sender_key has_eph,
        verifies,
      )

  pub check_anonymous-eq-ok :
      (e : Envelope) (ctx : RecipientCtx)
      → check_anonymous blake3 ed dsa e ctx ≡ ok tt
      → IsAnonymouslyValid e ctx.our_ik
  unfolding check_anonymous
  check_anonymous-eq-ok e ctx h = elim (Bool-cases (e.v == mote_version)) [
    | inr v ↦ let bad : err (unknown_version e.v) ≡ ok tt = rw v at h in cc
    | inl v ↦ elim (Bool-cases (mote_supported e.suite)) [
      | inr s ↦ let bad : err (unsupported_suite (as_u8 e.suite)) ≡ ok tt = rw (v, s) at h in cc
      | inl s ↦ elim (Bool-cases (verify_id blake3 e.id e.ciphertext)) [
        | inr i ↦ let bad : err bad_content_address ≡ ok tt = rw (v, s, i) at h in cc
        | inl i ↦
            let rest : (Result.◌>>=◌ (check_sender ed dsa e)
                  λ _. if resolves_to_key e.to ctx.our_ik then ok tt else err not_for_us)
                ≡ ok tt =
              rw (v, s, i) at h in
            let (u, mine, sent) =
              >>=-inverse (check_sender ed dsa e)
                (λ _. if resolves_to_key e.to ctx.our_ik then ok tt else err not_for_us) rest in
            let (sig, eph, has_sig, has_eph, verifies) = check_sender-eq-ok e sent in
            let (addressed, long) = verify-eq-true e.id.bytes e.ciphertext i in
            record {
              version = (==_iff e.v 0).0 v;
              supported = (mote_supported_iff e.suite).0 s;
              addressed = addressed;
              digest_length = long;
              sig = sig;
              has_sig = has_sig;
              eph = eph;
              has_eph = has_eph;
              verifies = verifies;
              ours = resolves_iff e.to ctx.our_ik (ground arith);
            }
      ]
    ]
  ]

  check_sender-IsAnonymouslyValid :
      (e : Envelope) (our_ik : Bytes) → IsAnonymouslyValid e our_ik → check_sender ed dsa e ≡ ok tt
  unfolding check_sender
  check_sender-IsAnonymouslyValid e our_ik h =
      let by_eph = λ (sig eph : Bytes).
        verify_sig_for_suite ed dsa e.suite eph envelope_sender_ds (sender_authed_bytes e) sig in
      ap
        (λ o.
          Result.◌>>=◌ (ok_or o bad_signature)
            λ sig. Result.◌>>=◌ (ok_or e.sender_eph missing_sender_key) (by_eph sig))
        h.has_sig
      ∙ (ap (λ o. Result.◌>>=◌ (ok_or o missing_sender_key) (by_eph h.sig)) h.has_eph ∙ h.verifies)

  pub check_anonymous-IsAnonymouslyValid :
      (e : Envelope) (ctx : RecipientCtx)
      → IsAnonymouslyValid e ctx.our_ik
      → check_anonymous blake3 ed dsa e ctx ≡ ok tt
  unfolding check_anonymous resolves_to_key of
  check_anonymous-IsAnonymouslyValid e ctx h =
      let v : (e.v == mote_version) ≡ true = (==_iff e.v 0).1 h.version in
      let id : verify_id blake3 e.id e.ciphertext ≡ true =
        subst (λ bs. verify_id blake3 (record { bytes = bs }) e.ciphertext ≡ true) (sym h.addressed)
          (verify-of blake3 e.ciphertext h.digest_length) in
      let mine : resolves_to_key e.to ctx.our_ik ≡ true =
        subst (λ t. resolves_to_key t ctx.our_ik ≡ true) (sym h.ours)
          ((eq_bytes_iff ctx.our_ik ctx.our_ik).1 refl) in
      rw
        (
          v,
          (mote_supported_iff e.suite).1 h.supported,
          id,
          check_sender-IsAnonymouslyValid e ctx.our_ik h,
          mine,
        )
        refl
