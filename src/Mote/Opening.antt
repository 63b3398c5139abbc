-- ===== src/Mote/Opening.antt =====
-- crates/kotva-core/src/mote.rs: what opening an envelope checks, `open_payload`.
use dmtap.Prelude.{◌≡◌, refl, arith, true, Bytes, Option, none, some, eq_bytes_iff}
use dmtap.Result
use dmtap.Result.{
  Result, ok, err, ok_or, >>=-inverse, Result-cases, Yields-ok, Yields-bind, Yields-intro,
  Yields-map_ok,
}
use dmtap.Keys.{Ed25519}
use dmtap.Pq.{MlDsa65, is_ok}
use dmtap.Mote.Kind.{bad_encoding}
use dmtap.Mote.Challenge.{ChallengeResponse, arc, vouch, tag_det_cbor}
use dmtap.Mote.Envelope.{Envelope, Payload, payload_from_det_cbor}
use dmtap.Mote.Delivered.{NamesSender, check_vouch-NamesSender}
use dmtap.Mote.Validate.{
  payload_sig_ds, PayloadSeal, aad_bytes, RecipientCtx, check_vouch, payload_hash,
  verify_sig_for_suite, check_payload_sig, open_payload,
}

map_err-inverse :
    {A E F : Type 0} {a : A} (f : E → F) (r : Result E A) → Result.map_err f r ≡ ok a → r ≡ ok a
map_err-inverse f (ok b) h = cc
map_err-inverse f (err e) h = cc

module _ (blake3 : Bytes → Bytes) (ed : Ed25519) (dsa : MlDsa65) where
  -- What opening the ciphertext shows.
  pub record IsOpened (sealer : PayloadSeal) (e : Envelope) (secret : Bytes) (p : Payload)
      : Type 0 where
    pub pt : Bytes
    pub opens :
        sealer.open_sealed secret (aad_bytes e.suite e.kind e.ts (tag_det_cbor e.to)) e.ciphertext
        ≡ ok pt
    pub decodes : payload_from_det_cbor pt ≡ ok p
    pub signed :
        verify_sig_for_suite ed dsa e.suite p.from payload_sig_ds
          (payload_hash blake3 p e.kind e.ts (tag_det_cbor e.to))
          p.sig
        ≡ ok tt
    pub names : NamesSender e.challenge p.from

  is_ok-eq-ok : {E : Type 0} (r : Result E (Unit {0})) → is_ok r ≡ true → r ≡ ok tt
  is_ok-eq-ok (ok u) h = refl
  is_ok-eq-ok (err e) h = cc

  check_payload_sig-eq-ok :
      (e : Envelope) (to_cbor : Bytes) (p : Payload)
      → check_payload_sig blake3 ed dsa e to_cbor p ≡ ok tt
      → verify_sig_for_suite ed dsa e.suite p.from payload_sig_ds
          (payload_hash blake3 p e.kind e.ts to_cbor)
          p.sig
        ≡ ok tt
  unfolding check_payload_sig
  check_payload_sig-eq-ok e to_cbor p h =
      is_ok-eq-ok
        (verify_sig_for_suite ed dsa e.suite p.from payload_sig_ds
          (payload_hash blake3 p e.kind e.ts to_cbor) p.sig)
        (ground arith)

  check_vouch-eq-ok :
      (c : Option ChallengeResponse) (from : Bytes)
      → check_vouch c from ≡ ok tt
      → NamesSender c from
  unfolding check_vouch
  check_vouch-eq-ok (some (vouch v)) from h = ground (arith, eq_bytes_iff from v.subject)
  check_vouch-eq-ok (some (arc a)) from h = tt
  check_vouch-eq-ok (some _) from h = tt
  check_vouch-eq-ok none from h = tt

  pub open_payload-eq-ok :
      (sealer : PayloadSeal) (e : Envelope) (ctx : RecipientCtx) (p : Payload)
      → open_payload blake3 ed dsa sealer e ctx ≡ ok p
      → IsOpened sealer e ctx.seal_secret p
  unfolding open_payload
  open_payload-eq-ok sealer e ctx p h =
      let to_cbor = tag_det_cbor e.to in
      Yields-ok {P = IsOpened sealer e ctx.seal_secret} h (
        Yields-bind
          (Yields-intro
            (sealer.open_sealed ctx.seal_secret (aad_bytes e.suite e.kind e.ts to_cbor)
              e.ciphertext)
            λ pt opens. opens)
          λ pt opens.
            Yields-bind
              (Yields-intro (Result.map_err bad_encoding (payload_from_det_cbor pt))
                λ q decoded. decoded)
              λ q decoded.
                Yields-bind
                  (Yields-intro (check_payload_sig blake3 ed dsa e to_cbor q) λ u checked. checked)
                  λ u checked.
                    Yields-map_ok (λ _. q) (check_vouch e.challenge q.from)
                      λ u vouched. record {
                        pt = pt;
                        opens = opens;
                        decodes = map_err-inverse bad_encoding (payload_from_det_cbor pt) decoded;
                        signed = check_payload_sig-eq-ok e to_cbor q checked;
                        names = check_vouch-eq-ok e.challenge q.from vouched;
                      })

  pub open_payload-IsOpened :
      (sealer : PayloadSeal) (e : Envelope) (ctx : RecipientCtx) (p : Payload)
      → IsOpened sealer e ctx.seal_secret p
      → open_payload blake3 ed dsa sealer e ctx ≡ ok p
  unfolding open_payload
  open_payload-IsOpened sealer e ctx p h =
      rw
        (
          h.opens,
          h.decodes,
          check_payload_sig,
          h.signed,
          check_vouch-NamesSender e.challenge p.from h.names,
        )
        refl
