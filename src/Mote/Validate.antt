-- ===== src/Mote/Validate.antt =====
-- crates/kotva-core/src/mote.rs: `build_mote`, `build_mote_hybrid`, `validate` and `validate_pinned`. The implementations
-- of the trait `PayloadSeal` call the crates for HPKE and X-Wing: the trait is an interface.
use dmtap.Prelude.{
  ℕ, Bool, false, not, ascii, Bytes, List, [], ◌∷◌, ◌++◌, Option, none, some, to_be_bytes, ◌==◌,
  eq_bytes, if◌then◌else◌,
}
use dmtap.Result
use dmtap.Result.{Result, ok, err, ok_or}
use dmtap.Id.{ContentId, of, verify as verify_id}
use dmtap.Keys.{Ed25519, IdentityKey, sign_domain, verify_domain}
use dmtap.Pq.{
  MlDsa65, HybridSigningKey, public as hybrid_public, sign_domain as sign_hybrid,
  verify_hybrid_domain, is_ok,
}
use dmtap.Suite.{
  Suite, classical, pq_hybrid, as_u8 as suite_byte, mote_supported, SuiteRatchet, accept,
}
use dmtap.Mote.Kind.{
  Kind, as_u8 as kind_byte, MoteError, ValidateError, unknown_version, unsupported_suite,
  bad_content_address, not_for_us, missing_sender_key, bad_signature, envelope_context_mismatch,
  vouch_subject_mismatch, bad_encoding,
}
use dmtap.Mote.Challenge.{
  ChallengeResponse, vouch, challenge_det_cbor, DeliveryTag, key, tag_det_cbor, resolves_to_key,
}
use dmtap.Mote.File.{Attachment, check_tiers}
use dmtap.Mote.Envelope.{
  KeyPackageRef, Envelope, Headers, default_headers, Payload, payload_det_cbor,
  payload_signing_body, payload_from_det_cbor,
}

abbrev pub mote_version : ℕ
mote_version = 0

-- b"DMTAP-v0/payload\x00"
abbrev pub payload_sig_ds : Bytes
payload_sig_ds = ascii "DMTAP-v0/payload" ++ 0 ∷ []

-- b"DMTAP-v0/envelope-sender\x00"
abbrev pub envelope_sender_ds : Bytes
envelope_sender_ds = ascii "DMTAP-v0/envelope-sender" ++ 0 ∷ []

-- The arguments are a key, the authenticated data, and the plaintext or the sealed text. What `seal` draws at random is
-- part of the value.
pub record PayloadSeal : Type 0 where
  pub seal : Bytes → Bytes → Bytes → Result MoteError Bytes
  pub open_sealed : Bytes → Bytes → Bytes → Result MoteError Bytes

pub record MoteDraft : Type 0 where
  pub kind : Kind
  pub ts : ℕ
  pub headers : Headers
  pub body : Bytes
  pub refs : List ContentId
  pub attach : List Attachment
  pub expires : Option ℕ
  pub epoch : Option Bytes
  pub keypkg : Option KeyPackageRef
  pub challenge : Option ChallengeResponse

unfoldable pub new_draft : Kind → ℕ → Bytes → MoteDraft
new_draft kind ts body = record {
  kind = kind;
  ts = ts;
  headers = default_headers;
  body = body;
  refs = [];
  attach = [];
  expires = none;
  epoch = none;
  keypkg = none;
  challenge = none;
}

unfoldable pub aad_bytes : Suite → Kind → ℕ → Bytes → Bytes
aad_bytes suite kind ts to_cbor = suite_byte suite ∷ kind_byte kind ∷ (to_be_bytes 8 ts ++ to_cbor)

unfoldable pub challenge_enc : Option ChallengeResponse → Bytes
challenge_enc none = 0xf6 ∷ []
challenge_enc (some c) = challenge_det_cbor c

unfoldable pub sender_authed_bytes : Envelope → Bytes
unfolding challenge_enc
sender_authed_bytes e =
    e.id.bytes
    ++ (tag_det_cbor e.to ++ (to_be_bytes 8 e.ts ++ kind_byte e.kind ∷ challenge_enc e.challenge))

-- How a draft becomes an envelope, for a way to sign: `from` and `eph` are the public keys of the sender and of the message,
-- and `sign_from` and `sign_eph` their signatures under a domain.
pub record Signer : Type 0 where
  pub suite : Suite
  pub from : Bytes
  pub sign_from : Bytes → Bytes → Bytes
  pub eph : Bytes
  pub sign_eph : Bytes → Bytes → Bytes

pub record RecipientCtx : Type 0 where
  pub our_ik : Bytes
  pub seal_secret : Bytes
  pub sender_is_known : Bool

pub data Outcome : Type 0 where
  accepted : Payload → Outcome
  deferred : Outcome

unfoldable pub classical_signer : IdentityKey → IdentityKey → Signer
classical_signer sender_ik ephemeral = record {
  suite = classical;
  from = sender_ik.public;
  sign_from = sign_domain sender_ik;
  eph = ephemeral.public;
  sign_eph = sign_domain ephemeral;
}

unfoldable pub hybrid_signer : HybridSigningKey → HybridSigningKey → Signer
hybrid_signer sender_hybrid ephemeral_hybrid = record {
  suite = pq_hybrid;
  from = hybrid_public sender_hybrid;
  sign_from = sign_hybrid sender_hybrid;
  eph = hybrid_public ephemeral_hybrid;
  sign_eph = sign_hybrid ephemeral_hybrid;
}

-- Steps 5 and 6: a cold sender without a challenge.
unfoldable pub is_deferred : Option ChallengeResponse → Bool → Bool
is_deferred none known = not known
is_deferred (some c) known = false

-- Step 8(b2): the sender is the subject of a vouch.
unfoldable pub check_vouch : Option ChallengeResponse → Bytes → Result MoteError (Unit {0})
check_vouch (some (vouch v)) from =
    if not (eq_bytes from v.subject) then err vouch_subject_mismatch else ok tt
check_vouch _ from = ok tt

-- What `validate` returned, and the ratchet of the caller after it.
unfoldable pub pin_suite :
    Suite
    → Result MoteError Outcome
    → Option SuiteRatchet
    → Result ValidateError Outcome × Option SuiteRatchet
pin_suite suite (err e) ratchet = (err (ValidateError.mote e), ratchet)
pin_suite suite (ok (accepted p)) (some ratchet) =
    let (verdict, ratchet') = accept ratchet p.from suite in
    (Result.map_err ValidateError.suite (Result.map_ok (λ _. accepted p) verdict), some ratchet')
pin_suite suite (ok outcome) ratchet = (ok outcome, ratchet)

module _ (ed : Ed25519) (dsa : MlDsa65) where
  unfoldable pub verify_sig_for_suite :
      Suite → Bytes → Bytes → Bytes → Bytes → Result MoteError (Unit {0})
  verify_sig_for_suite classical pk domain msg sig =
      Result.map_err (λ _. bad_signature) (verify_domain ed pk domain msg sig)
  verify_sig_for_suite pq_hybrid pk domain msg sig =
      Result.map_err (λ _. bad_signature) (verify_hybrid_domain ed dsa pk domain msg sig)
  verify_sig_for_suite suite pk domain msg sig = err (unsupported_suite (suite_byte suite))

  -- Step 3: the signature and the key of the message are mandatory.
  unfoldable pub check_sender : Envelope → Result MoteError (Unit {0})
  check_sender e = Result.◌>>=◌ (ok_or e.sender_sig bad_signature) λ sig.
      Result.◌>>=◌ (ok_or e.sender_eph missing_sender_key)
        λ eph. verify_sig_for_suite e.suite eph envelope_sender_ds (sender_authed_bytes e) sig

-- The payload of a draft, its signature still empty.
unfoldable pub unsigned_payload : Signer → MoteDraft → Payload
unsigned_payload k draft = record {
  from = k.from;
  sig = [];
  headers = draft.headers;
  body = draft.body;
  refs = draft.refs;
  attach = draft.attach;
  expires = draft.expires;
}

module _ (blake3 : Bytes → Bytes) where
  unfoldable pub payload_hash : Payload → Kind → ℕ → Bytes → Bytes
  payload_hash p kind ts to_cbor =
      blake3 (payload_signing_body p ++ kind_byte kind ∷ (to_be_bytes 8 ts ++ to_cbor))

  unfoldable pub payload_hash_unbound : Payload → Bytes
  payload_hash_unbound p = blake3 (payload_signing_body p)

  unfoldable pub signed_payload : Signer → Bytes → MoteDraft → Payload
  unfolding unsigned_payload
  signed_payload k to_cbor draft =
      let p = unsigned_payload k draft in
      record p { sig = k.sign_from payload_sig_ds (payload_hash p draft.kind draft.ts to_cbor) }

  -- The envelope over a ciphertext.
  unfoldable pub signed_envelope : Signer → DeliveryTag → MoteDraft → Bytes → Envelope
  signed_envelope k to draft ciphertext =
      let e : Envelope = record {
        v = mote_version;
        suite = k.suite;
        id = of blake3 ciphertext;
        to = to;
        epoch = draft.epoch;
        ts = draft.ts;
        kind = draft.kind;
        keypkg = draft.keypkg;
        challenge = draft.challenge;
        ciphertext = ciphertext;
        sender_sig = none;
        sender_eph = some k.eph;
      } in
      record e { sender_sig = some (k.sign_eph envelope_sender_ds (sender_authed_bytes e)) }

  unfoldable pub build_with :
      PayloadSeal → Signer → Bytes → Bytes → MoteDraft → Result MoteError Envelope
  build_with sealer k recipient_ik recipient_seal_pub draft =
      let to = key recipient_ik in
      let to_cbor = tag_det_cbor to in
      Result.◌>>=◌ (check_tiers draft.attach) λ _. Result.map_ok (signed_envelope k to draft) (
        sealer.seal recipient_seal_pub (aad_bytes k.suite draft.kind draft.ts to_cbor)
          (payload_det_cbor (signed_payload k to_cbor draft)))

  unfoldable pub build_mote :
      PayloadSeal
      → IdentityKey
      → IdentityKey
      → Bytes
      → Bytes
      → MoteDraft
      → Result MoteError Envelope
  build_mote sealer sender_ik ephemeral = build_with sealer (classical_signer sender_ik ephemeral)

  unfoldable pub build_mote_hybrid :
      PayloadSeal
      → HybridSigningKey
      → HybridSigningKey
      → Bytes
      → Bytes
      → MoteDraft
      → Result MoteError Envelope
  build_mote_hybrid sealer sender_hybrid ephemeral_hybrid =
      build_with sealer (hybrid_signer sender_hybrid ephemeral_hybrid)

  module _ (ed : Ed25519) (dsa : MlDsa65) where
    -- Steps 1 to 4, which need no decryption.
    unfoldable pub check_anonymous : Envelope → RecipientCtx → Result MoteError (Unit {0})
    unfolding check_sender
    check_anonymous e ctx =
        if not (e.v == mote_version)
        then err (unknown_version e.v)
        else if not (mote_supported e.suite)
        then err (unsupported_suite (suite_byte e.suite))
        else if not (verify_id blake3 e.id e.ciphertext)
        then err bad_content_address
        else Result.◌>>=◌ (check_sender ed dsa e)
            λ _. if resolves_to_key e.to ctx.our_ik then ok tt else err not_for_us

    -- Step 8: the signature of the payload over the context of this envelope.
    unfoldable pub check_payload_sig : Envelope → Bytes → Payload → Result MoteError (Unit {0})
    check_payload_sig e to_cbor p =
        if is_ok (
          verify_sig_for_suite ed dsa e.suite p.from payload_sig_ds
            (payload_hash p e.kind e.ts to_cbor) p.sig)
        then ok tt
        else if is_ok (
            verify_sig_for_suite ed dsa e.suite p.from payload_sig_ds (payload_hash_unbound p)
              p.sig)
        then err envelope_context_mismatch
        else err bad_signature

    -- Steps 7 and 8.
    unfoldable pub open_payload : PayloadSeal → Envelope → RecipientCtx → Result MoteError Payload
    unfolding check_payload_sig check_vouch
    open_payload sealer e ctx =
        let to_cbor = tag_det_cbor e.to in
        Result.◌>>=◌
          (sealer.open_sealed ctx.seal_secret (aad_bytes e.suite e.kind e.ts to_cbor) e.ciphertext)
          λ pt. Result.◌>>=◌ (Result.map_err bad_encoding (payload_from_det_cbor pt)) λ p.
            Result.◌>>=◌ (check_payload_sig e to_cbor p)
              λ _. Result.map_ok (λ _. p) (check_vouch e.challenge p.from)

    unfoldable pub validate : PayloadSeal → Envelope → RecipientCtx → Result MoteError Outcome
    unfolding check_anonymous is_deferred open_payload
    validate sealer e ctx = Result.◌>>=◌ (check_anonymous e ctx) λ _.
        if is_deferred e.challenge ctx.sender_is_known
        then ok deferred
        else Result.map_ok accepted (open_payload sealer e ctx)

    unfoldable pub validate_pinned :
        PayloadSeal
        → Envelope
        → RecipientCtx
        → Option SuiteRatchet
        → Result ValidateError Outcome × Option SuiteRatchet
    unfolding pin_suite
    validate_pinned sealer e ctx = pin_suite e.suite (validate sealer e ctx)
