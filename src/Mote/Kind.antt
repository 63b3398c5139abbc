-- ===== src/Mote/Kind.antt =====
-- crates/kotva-core/src/mote.rs: message kinds, errors and privacy tiers.
use dmtap.Prelude.{ℕ, ◌<◌, ◌≡◌, refl, arith, Option, none, some, ltb, ◌==◌, if◌then◌else◌}
use dmtap.Result.{Result, ok, err}
use dmtap.Cbor.Value.{CborError}
use dmtap.Suite.{SuiteRatchetError}

pub data MoteError : Type 0 where
  unknown_version unsupported_suite : ℕ → MoteError
  bad_content_address not_for_us missing_sender_key bad_signature : MoteError
  envelope_context_mismatch vouch_subject_mismatch decrypt_failed seal_failed bad_key : MoteError
  file_manifest_invalid file_retention_expired file_unavailable spool_overflow : MoteError
  size_tier_violation : MoteError
  bad_encoding : CborError → MoteError

unfoldable pub code : MoteError → Option ℕ
code envelope_context_mismatch = some 0x0211
code vouch_subject_mismatch = some 0x0126
code file_unavailable = some 0x0809
code file_manifest_invalid = some 0x080a
code file_retention_expired = some 0x080b
code spool_overflow = some 0x080c
code size_tier_violation = some 0x080a
code _ = none

pub data ValidateError : Type 0 where
  mote : MoteError → ValidateError
  suite : SuiteRatchetError → ValidateError

-- A ratchet refuses with 0x020f, `SuiteRatchetError::code`.
unfoldable pub validate_code : ValidateError → Option ℕ
unfolding code
validate_code (suite e) = some 0x020f
validate_code (mote e) = code e

pub data Kind : Type 0 where
  mail chat reaction edit redact file_offer group_event receipt presence identity system : Kind
  deniable pub_announce feed_hint feed_subscribe feed_unsubscribe rtc_signal : Kind

unfoldable pub from_u8 : ℕ → Option Kind
from_u8 b =
    if b == 0x00
    then some mail
    else if b == 0x01
    then some chat
    else if b == 0x02
    then some reaction
    else if b == 0x03
    then some edit
    else if b == 0x04
    then some redact
    else if b == 0x05
    then some file_offer
    else if b == 0x06
    then some group_event
    else if b == 0x07
    then some receipt
    else if b == 0x08
    then some presence
    else if b == 0x09
    then some identity
    else if b == 0x0a
    then some system
    else if b == 0x0b
    then some deniable
    else if b == 0x40
    then some pub_announce
    else if b == 0x41
    then some feed_hint
    else if b == 0x42
    then some feed_subscribe
    else if b == 0x43
    then some feed_unsubscribe
    else if b == 0x44
    then some rtc_signal
    else none

unfoldable pub as_u8 : Kind → ℕ
as_u8 mail = 0x00
as_u8 chat = 0x01
as_u8 reaction = 0x02
as_u8 edit = 0x03
as_u8 redact = 0x04
as_u8 file_offer = 0x05
as_u8 group_event = 0x06
as_u8 receipt = 0x07
as_u8 presence = 0x08
as_u8 identity = 0x09
as_u8 system = 0x0a
as_u8 deniable = 0x0b
as_u8 pub_announce = 0x40
as_u8 feed_hint = 0x41
as_u8 feed_subscribe = 0x42
as_u8 feed_unsubscribe = 0x43
as_u8 rtc_signal = 0x44

pub from_u8-as_u8 : (k : Kind) → from_u8 (as_u8 k) ≡ some k
unfolding from_u8 as_u8
from_u8-as_u8 mail = refl
from_u8-as_u8 _ = refl

pub as_u8-lt : (k : Kind) → as_u8 k < 256
unfolding as_u8
as_u8-lt mail = omega arith
as_u8-lt _ = omega arith

pub data Tier : Type 0 where
  private fast : Tier

unfoldable pub privacy_rank : Tier → ℕ
privacy_rank private = 1
privacy_rank fast = 0

pub data TierEnforcementError : Type 0 where
  downgrade_refused : TierEnforcementError

unfoldable pub tier_code : TierEnforcementError → ℕ
tier_code downgrade_refused = 0x0310

unfoldable pub tier_enforce : Tier → Tier → Result TierEnforcementError Tier
tier_enforce required offered =
    if ltb (privacy_rank offered) (privacy_rank required) then err downgrade_refused else ok offered
