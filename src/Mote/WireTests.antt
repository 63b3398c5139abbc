-- ===== src/Mote/WireTests.antt =====
-- An envelope of crates/kotva-core/src/mote.rs with a proof of work on the wire.
use dmtap.Prelude.{◌≡◌, refl, arith, ascii, [], ◌∷◌, none, some}
use dmtap.Result.{ok}
use dmtap.Suite.{classical, as_u8}
use dmtap.Cbor.Value.{count_pairs, count_items}
use dmtap.Cbor.Canonical.{IsCanonical, PairsCanonical}
use dmtap.Cbor.Consume.{IsIncreasing-IsAscending}
use dmtap.Cbor.Utf8.{is_utf8}
use dmtap.Mote.Kind.{mail, as_u8 as kind_byte}
use dmtap.Mote.Challenge.{
  ChallengeResponse, pow, challenge_cv, challenge_pairs, params_items, key, tag_cv, tag_pairs,
  value_bytes, discriminant,
}
use dmtap.Mote.Envelope.{Envelope, envelope_pairs, envelope_det_cbor, envelope_from_det_cbor}
use dmtap.Mote.OnWire.{EnvelopeFits, envelope_from_det_cbor-envelope_det_cbor}

abbrev work : ChallengeResponse
work = pow (record {
  algo = ascii "argon2id";
  params = (65_536, 3, 1);
  epoch_nonce = 5 ∷ [];
  solution = 6 ∷ [];
  difficulty = 20;
})

work-PairsCanonical : PairsCanonical (challenge_pairs work)
unfolding challenge_pairs params_items count_items is_utf8
work-PairsCanonical =
    (omega arith, omega arith, (omega arith, (omega arith, omega arith, refl), omega arith))

work-IsCanonical : IsCanonical (challenge_cv work)
unfolding challenge_cv challenge_pairs count_pairs
work-IsCanonical = (
  omega arith,
  IsIncreasing-IsAscending (challenge_pairs work) (omega arith) work-PairsCanonical,
  work-PairsCanonical,
)

tag-IsCanonical : IsCanonical (tag_cv (key (1 ∷ 2 ∷ [])))
unfolding tag_cv tag_pairs value_bytes discriminant count_pairs
tag-IsCanonical = (
  omega arith,
  IsIncreasing-IsAscending (tag_pairs (key (1 ∷ 2 ∷ []))) (omega arith) (omega arith),
  omega arith,
)

abbrev worked : Envelope
worked = record {
  v = 0;
  suite = classical;
  id = record { bytes = 30 ∷ 7 ∷ [] };
  to = key (1 ∷ 2 ∷ []);
  epoch = none;
  ts = 1_000;
  kind = mail;
  keypkg = none;
  challenge = some work;
  ciphertext = 8 ∷ 9 ∷ [];
  sender_sig = some (4 ∷ []);
  sender_eph = some (3 ∷ []);
}

worked-EnvelopeFits : EnvelopeFits worked
unfolding envelope_pairs as_u8 kind_byte
worked-EnvelopeFits = record {
  version = omega arith;
  challenge = omega arith;
  canonical = (
    omega arith,
    omega arith,
    (
      omega arith,
      omega arith,
      (
        omega arith,
        omega arith,
        (
          omega arith,
          tag-IsCanonical,
          (
            omega arith,
            omega arith,
            (omega arith, omega arith, (omega arith, work-IsCanonical, omega arith)),
          ),
        ),
      ),
    ),
  );
}

envelope_from_det_cbor-envelope_det_cbor_example :
    envelope_from_det_cbor (envelope_det_cbor worked) ≡ ok worked
envelope_from_det_cbor-envelope_det_cbor_example =
    envelope_from_det_cbor-envelope_det_cbor worked worked-EnvelopeFits
