-- ===== src/Mote/Checks.antt =====
-- crates/kotva-core/src/mote.rs: what `validate` accepts, and that it opens nothing before its anonymous checks.
use dmtap.Prelude.{
  ◌≢◌, ◌≡◌, ◌↔◌, ◌⊎◌, inl, inr, refl, Bool-cases, Bool, true, false, Bytes, Option, none, some,
  if◌then◌else◌,
}
use dmtap.Result
use dmtap.Result.{
  Result, ok, err, ok_or, >>=-inverse, Result-cases, Yields-ok, Yields-bind, Yields-intro,
  Yields-map_ok,
}
use dmtap.Keys.{Ed25519}
use dmtap.Pq.{MlDsa65}
use dmtap.Mote.Kind.{MoteError}
use dmtap.Mote.Challenge.{ChallengeResponse}
use dmtap.Mote.Envelope.{Envelope, Payload}
use dmtap.Mote.Validate.{
  PayloadSeal, RecipientCtx, accepted, deferred, is_deferred, check_anonymous, open_payload,
  validate,
}
use dmtap.Mote.Anonymous.{
  IsAnonymouslyValid, check_anonymous-eq-ok, check_anonymous-IsAnonymouslyValid,
}
use dmtap.Mote.Opening.{IsOpened, open_payload-eq-ok, open_payload-IsOpened}

accepted-inverse :
    {p : Payload} (r : Result MoteError Payload)
    → Result.map_ok accepted r ≡ ok (accepted p)
    → r ≡ ok p
accepted-inverse (ok q) h = cc
accepted-inverse (err e) h = cc

is_deferred-eq-false_iff :
    (c : Option ChallengeResponse) (known : Bool)
    → (is_deferred c known ≡ false) ↔ ((known ≡ true) ⊎ (c ≢ none))
unfolding is_deferred
is_deferred-eq-false_iff none true = (λ h. inl refl, λ h. refl)
is_deferred-eq-false_iff none false =
    (λ h. absurd (cc), λ h. elim h [ inl e ↦ absurd (cc) | inr some_one ↦ absurd (some_one refl) ])
is_deferred-eq-false_iff (some c) known = (λ h. inr (λ e. cc), λ h. refl)

module _ (blake3 : Bytes → Bytes) (ed : Ed25519) (dsa : MlDsa65) where
  pub validate-eq-accepted_iff :
      (sealer : PayloadSeal) (e : Envelope) (ctx : RecipientCtx) (p : Payload)
      → (validate blake3 ed dsa sealer e ctx ≡ ok (accepted p)) ↔ (
          IsAnonymouslyValid blake3 ed dsa e ctx.our_ik
          × ((ctx.sender_is_known ≡ true) ⊎ (e.challenge ≢ none))
          × IsOpened blake3 ed dsa sealer e ctx.seal_secret p)
  unfolding validate
  validate-eq-accepted_iff sealer e ctx p = (
    λ h.
        (let (u, rest, anonymous) =
            >>=-inverse (check_anonymous blake3 ed dsa e ctx)
              (λ _.
                if is_deferred e.challenge ctx.sender_is_known
                then ok deferred
                else Result.map_ok accepted (open_payload blake3 ed dsa sealer e ctx))
              h in
          elim (Bool-cases (is_deferred e.challenge ctx.sender_is_known)) [
            | inl waits ↦ let bad : ok deferred ≡ ok (accepted p) = rw waits at rest in cc
            | inr goes ↦
                let opened : Result.map_ok accepted (open_payload blake3 ed dsa sealer e ctx)
                    ≡ ok (accepted p) =
                  rw goes at rest in
                (
                  check_anonymous-eq-ok blake3 ed dsa e ctx anonymous,
                  (is_deferred-eq-false_iff e.challenge ctx.sender_is_known).0 goes,
                  open_payload-eq-ok blake3 ed dsa sealer e ctx p
                      (accepted-inverse (open_payload blake3 ed dsa sealer e ctx) opened),
                )
          ]),
    λ (anonymous, goes, opened).
        rw
          (
            check_anonymous-IsAnonymouslyValid blake3 ed dsa e ctx anonymous,
            (is_deferred-eq-false_iff e.challenge ctx.sender_is_known).1 goes,
            open_payload-IsOpened blake3 ed dsa sealer e ctx p opened,
          )
          refl,
  )

  -- Nothing is opened before the anonymous checks and the gate for cold senders are passed: the outcome is the same for every
  -- way to open ciphertexts, unless the envelope is valid as far as anyone can check and its sender known or challenged.
  pub validate-before_opening :
      (s t : PayloadSeal) (e : Envelope) (ctx : RecipientCtx)
      → (validate blake3 ed dsa s e ctx ≡ validate blake3 ed dsa t e ctx)
        ⊎ (IsAnonymouslyValid blake3 ed dsa e ctx.our_ik
            × ((ctx.sender_is_known ≡ true) ⊎ (e.challenge ≢ none)))
  unfolding validate
  validate-before_opening s t e ctx = elim (Result-cases (check_anonymous blake3 ed dsa e ctx)) [
    | inr (e', fails) ↦ inl (rw fails refl)
    | inl (u, passes) ↦ elim (Bool-cases (is_deferred e.challenge ctx.sender_is_known)) [
      | inl waits ↦ inl (rw (passes, waits) refl)
      | inr goes ↦ inr (
        check_anonymous-eq-ok blake3 ed dsa e ctx passes,
        (is_deferred-eq-false_iff e.challenge ctx.sender_is_known).0 goes,
      )
    ]
  ]
