-- ===== src/Mote/OnWire.antt =====
-- crates/kotva-core/src/mote.rs: `Envelope::from_det_cbor` reads back what `Envelope::det_cbor` writes.
use dmtap.Prelude.{ℕ, ◌^◌, ◌<◌, ◌≤◌, ◌+◌, ◌≡◌, refl, Bytes, Option, none, some, arith}
use dmtap.Result.{ok}
use dmtap.Suite.{Suite, classical, as_u8 as suite_byte, from_u8 as suite_of}
use dmtap.Cbor.Value.{Cv, Pairs, int_keys, u64, bytes, text, map, no_pairs, pair, count_pairs}
use dmtap.Cbor.Canonical.{PairsCanonical, height, height_pairs, height_items}
use dmtap.Cbor.Decode.{max_nesting_depth}
use dmtap.Cbor.Reader.{
  from_cv, required, req, take, take_pair, take_result, optional_pair, done, deny_unknown, as_u8,
  as_u64, as_bytes, as_text, as_array, narrow,
}
use dmtap.Cbor.Consume.{IsIncreasing}
use dmtap.Cbor.ReadBack.{
  OnSome, optional-optional_pair, From, From-optional_pair, count_pairs-optional_pair,
  decode_object-encode,
}
use dmtap.Kt.Wire.{id_from_cv, suite_from_cv}
use dmtap.Mote.Kind.{Kind, as_u8 as kind_byte, as_u8-lt as kind_byte-lt, from_u8-as_u8 as kind_back}
use dmtap.Mote.Challenge.{
  object_from_cv, ChallengeResponse, arc, pow, postage, vouch, params_items, params_of,
  params_from_cv, challenge_pairs, challenge_cv, challenge_of, challenge_steps, arc_steps,
  pow_steps, postage_steps, vouch_steps, challenge_from_cv, DeliveryTag, key, group, blinded,
  discriminant, value_bytes, tag_pairs, tag_cv, tag_steps, tag_of, tag_from_cv,
}
use dmtap.Mote.Envelope.{
  KeyPackageRef, key_package_pairs, key_package_cv, key_package_steps, key_package_from_cv,
  Envelope, envelope_pairs, kind_from_cv, envelope_steps, envelope_det_cbor, envelope_from_det_cbor,
}
use dmtap.Mote.ReadBack.{as_u32-u64, as_text-text, as_bytes-bytes, OnSome-all, OnSome-map}

as_u8-u64 : (n : ℕ) → n < 256 → as_u8 (u64 n) ≡ ok n
unfolding as_u8 as_u64 narrow
as_u8-u64 n h = ground arith

suite_from_cv-u64 : (s : Suite) → suite_from_cv (u64 (suite_byte s)) ≡ ok s
unfolding suite_from_cv as_u8 as_u64 narrow suite_byte suite_of
suite_from_cv-u64 classical = refl
suite_from_cv-u64 _ = refl

kind_from_cv-u64 : (k : Kind) → kind_from_cv (u64 (kind_byte k)) ≡ ok k
unfolding kind_from_cv
kind_from_cv-u64 k = rw (as_u8-u64 (kind_byte k) (kind_byte-lt k), kind_back k) refl

tag_from_cv-tag_cv : (t : DeliveryTag) → tag_from_cv (tag_cv t) ≡ ok t
unfolding tag_from_cv tag_cv tag_pairs tag_steps tag_of object_from_cv from_cv required req take
    take_pair take_result done deny_unknown as_u64 as_bytes discriminant value_bytes
tag_from_cv-tag_cv (key b) = refl
tag_from_cv-tag_cv (group b) = refl
tag_from_cv-tag_cv (blinded b) = refl

key_package_from_cv-key_package_cv :
    (k : KeyPackageRef) → key_package_from_cv (key_package_cv k) ≡ ok k
unfolding key_package_from_cv key_package_cv key_package_pairs key_package_steps object_from_cv
    from_cv required req take take_pair take_result done deny_unknown id_from_cv as_bytes
key_package_from_cv-key_package_cv k =
    rw
      (
        suite_from_cv-u64 k.suite,
        optional-optional_pair text 3 as_text k.loc no_pairs (tt, tt)
            (OnSome-all _ k.loc as_text-text),
      )
      refl

-- The numbers of a proof of work fit the types of the source.
abbrev pub ChallengeFits : ChallengeResponse → Type 0
ChallengeFits (pow p) =
    (p.params.0 < 2 ^ 32) × (p.params.1 < 2 ^ 32) × (p.params.2 < 2 ^ 32) × (p.difficulty < 256)
ChallengeFits _ = Unit {0}

challenge_from_cv-challenge_cv :
    (c : ChallengeResponse) → ChallengeFits c → challenge_from_cv (challenge_cv c) ≡ ok c
unfolding challenge_from_cv challenge_cv challenge_pairs challenge_steps challenge_of object_from_cv
    from_cv required req take take_pair take_result done deny_unknown as_u64 as_bytes as_text
    arc_steps pow_steps postage_steps vouch_steps params_from_cv params_of params_items as_array
challenge_from_cv-challenge_cv (arc a) h =
    rw
      (optional-optional_pair bytes 4 as_bytes a.nonce no_pairs (tt, tt)
        (OnSome-all _ a.nonce as_bytes-bytes))
      refl
challenge_from_cv-challenge_cv (pow p) (x, y, z, d) =
    rw
      (
        as_u32-u64 p.params.0 x,
        as_u32-u64 p.params.1 y,
        as_u32-u64 p.params.2 z,
        as_u8-u64 p.difficulty d,
      )
      refl
challenge_from_cv-challenge_cv (postage s) h =
    rw
      (optional-optional_pair bytes 6 as_bytes s.audience (pair 7 (bytes s.sig) no_pairs)
        (omega arith, (tt, tt)) (OnSome-all _ s.audience as_bytes-bytes))
      refl
challenge_from_cv-challenge_cv (vouch v) h = refl

-- The envelope fits the wire: its numbers have the widths of the source, and its values are canonical.
pub record EnvelopeFits (e : Envelope) : Type 0 where
  pub version : e.v < 256
  pub challenge : OnSome ChallengeFits e.challenge
  pub canonical : PairsCanonical (envelope_pairs e)

-- The pairs of an envelope, from the challenge on, the key package on, and the epoch on.
abbrev signatures : Envelope → Pairs int_keys
signatures e = optional_pair 11 bytes e.sender_sig (optional_pair 12 bytes e.sender_eph no_pairs)

abbrev challenged : Envelope → Pairs int_keys
challenged e =
    optional_pair 9 challenge_cv e.challenge (pair 10 (bytes e.ciphertext) (signatures e))

abbrev packaged : Envelope → Pairs int_keys
packaged e = optional_pair 8 key_package_cv e.keypkg (challenged e)

abbrev timed : Envelope → Pairs int_keys
timed e = pair 6 (u64 e.ts) (pair 7 (u64 (kind_byte e.kind)) (packaged e))

eph-From : (e : Envelope) → From 11 (optional_pair 12 bytes e.sender_eph no_pairs)
eph-From e = From-optional_pair bytes 12 11 e.sender_eph no_pairs (omega arith) (tt, tt)

body-From : (e : Envelope) → From 9 (pair 10 (bytes e.ciphertext) (signatures e))
body-From e = (
  omega arith,
  From-optional_pair bytes 11 10 e.sender_sig (optional_pair 12 bytes e.sender_eph no_pairs)
      (omega arith) (eph-From e),
)

challenged-From : (e : Envelope) → From 8 (challenged e)
challenged-From e =
    From-optional_pair challenge_cv 9 8 e.challenge (pair 10 (bytes e.ciphertext) (signatures e))
      (omega arith) (body-From e)

timed-From : (e : Envelope) → From 5 (timed e)
timed-From e = (
  omega arith,
  (
    omega arith,
    From-optional_pair key_package_cv 8 7 e.keypkg (challenged e) (omega arith) (challenged-From e),
  ),
)

envelope_steps-envelope_pairs :
    (e : Envelope)
    → EnvelopeFits e
    → envelope_steps (record { map = envelope_pairs e }) ≡ ok (e, record { map = no_pairs })
unfolding envelope_steps envelope_pairs required req take take_pair take_result done deny_unknown
    as_u64 as_bytes id_from_cv
envelope_steps-envelope_pairs e fits =
    rw
      (
        as_u8-u64 e.v fits.version,
        suite_from_cv-u64 e.suite,
        tag_from_cv-tag_cv e.to,
        optional-optional_pair bytes 5 as_bytes e.epoch (timed e) (timed-From e)
            (OnSome-all _ e.epoch as_bytes-bytes),
        kind_from_cv-u64 e.kind,
        optional-optional_pair key_package_cv 8 key_package_from_cv e.keypkg (challenged e)
            (challenged-From e) (OnSome-all _ e.keypkg key_package_from_cv-key_package_cv),
        optional-optional_pair challenge_cv 9 challenge_from_cv e.challenge
            (pair 10 (bytes e.ciphertext) (signatures e)) (body-From e)
            (OnSome-map ChallengeFits _ e.challenge challenge_from_cv-challenge_cv fits.challenge),
        optional-optional_pair bytes 11 as_bytes e.sender_sig
            (optional_pair 12 bytes e.sender_eph no_pairs) (eph-From e)
            (OnSome-all _ e.sender_sig as_bytes-bytes),
        optional-optional_pair bytes 12 as_bytes e.sender_eph no_pairs (tt, tt)
            (OnSome-all _ e.sender_eph as_bytes-bytes),
      )
      refl

IsIncreasing-envelope_pairs : (e : Envelope) → IsIncreasing (envelope_pairs e)
unfolding envelope_pairs
IsIncreasing-envelope_pairs e =
    let from = From-optional_pair bytes 5 4 e.epoch (timed e) (omega arith) (timed-From e) in
    (omega arith, (omega arith, (omega arith, from)))

count_pairs-envelope_pairs : (e : Envelope) → count_pairs (envelope_pairs e) < 2 ^ 64
unfolding envelope_pairs count_pairs
count_pairs-envelope_pairs e =
    let eph = count_pairs-optional_pair bytes 12 e.sender_eph no_pairs in
    let sig =
      count_pairs-optional_pair bytes 11 e.sender_sig
        (optional_pair 12 bytes e.sender_eph no_pairs) in
    let asked =
      count_pairs-optional_pair challenge_cv 9 e.challenge
        (pair 10 (bytes e.ciphertext) (signatures e)) in
    let keys = count_pairs-optional_pair key_package_cv 8 e.keypkg (challenged e) in
    let epoch = count_pairs-optional_pair bytes 5 e.epoch (timed e) in omega arith

height-optional_pair :
    {A : Type 0} (n k : ℕ) (enc : A → Cv) (o : Option A) (tail : Pairs int_keys)
    → ((a : A) → height (enc a) ≤ n)
    → height_pairs tail ≤ n
    → height_pairs (optional_pair k enc o tail) ≤ n
unfolding optional_pair height_pairs
height-optional_pair n k enc none tail each h = h
height-optional_pair n k enc (some a) tail each h = ground (arith, each a)

height-challenge_cv : (c : ChallengeResponse) → height (challenge_cv c) ≤ 3
unfolding challenge_cv challenge_pairs height height_pairs height_items params_items
height-challenge_cv (arc a) =
    let low = height-optional_pair 1 4 bytes a.nonce no_pairs (λ b. omega arith) (omega arith) in
    omega arith
height-challenge_cv (pow p) = omega arith
height-challenge_cv (postage s) =
    let low =
      height-optional_pair 1 6 bytes s.audience (pair 7 (bytes s.sig) no_pairs) (λ b. omega arith)
        (omega arith) in
    omega arith
height-challenge_cv (vouch v) = omega arith

height-key_package_cv : (k : KeyPackageRef) → height (key_package_cv k) ≤ 3
unfolding key_package_cv key_package_pairs height height_pairs
height-key_package_cv k =
    let low = height-optional_pair 1 3 text k.loc no_pairs (λ b. omega arith) (omega arith) in
    omega arith

height-bytes : (b : Bytes) → height (bytes b) ≤ 3
unfolding height
height-bytes b = omega arith

height-envelope_pairs : (e : Envelope) → height (map (envelope_pairs e)) ≤ max_nesting_depth + 1
unfolding envelope_pairs height height_pairs tag_cv tag_pairs
height-envelope_pairs e =
    let eph = height-optional_pair 3 12 bytes e.sender_eph no_pairs height-bytes (omega arith) in
    let sig =
      height-optional_pair 3 11 bytes e.sender_sig (optional_pair 12 bytes e.sender_eph no_pairs)
        height-bytes eph in
    let asked =
      height-optional_pair 3 9 challenge_cv e.challenge
        (pair 10 (bytes e.ciphertext) (signatures e)) height-challenge_cv (omega arith) in
    let keys =
      height-optional_pair 3 8 key_package_cv e.keypkg (challenged e) height-key_package_cv asked in
    let epoch = height-optional_pair 3 5 bytes e.epoch (timed e) height-bytes (omega arith) in
    omega arith

-- An envelope whose numbers have the widths of the source and whose values are canonical is read back from
-- its encoding, whatever parts it leaves out and whichever challenge it has.
pub envelope_from_det_cbor-envelope_det_cbor :
    (e : Envelope) → EnvelopeFits e → envelope_from_det_cbor (envelope_det_cbor e) ≡ ok e
unfolding envelope_from_det_cbor envelope_det_cbor
envelope_from_det_cbor-envelope_det_cbor e fits =
    decode_object-encode envelope_steps (envelope_pairs e) e (record { map = no_pairs })
      (envelope_steps-envelope_pairs e fits) (IsIncreasing-envelope_pairs e) fits.canonical
      (count_pairs-envelope_pairs e) (height-envelope_pairs e)
