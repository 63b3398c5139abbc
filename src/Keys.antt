-- ===== src/Keys.antt =====
-- crates/kotva-core/src/identity.rs, the signatures under a domain-separation tag. The crate
-- `ed25519_dalek` is the interface `Ed25519`: which 32 bytes `VerifyingKey::from_bytes` takes, and which
-- signatures `verify_strict` accepts.
use dmtap.Prelude.{arith, ℕ, ◌≡◌, Bool, true, ◌&&◌, Bytes, ◌++◌, length, ◌==◌, if◌then◌else◌}
use dmtap.Result
use dmtap.Result.{Result, ok, err}
use dmtap.Cbor.Value.{CborError}

pub data IdentityError : Type 0 where
  bad_signature broken_chain : IdentityError
  unsupported_suite : ℕ → IdentityError
  malformed bad_key_length : IdentityError
  bad_encoding : CborError → IdentityError
  recovery_threshold_invalid : IdentityError

pub record Ed25519 : Type 0 where
  pub valid_key : Bytes → Bool
  pub verify_strict : Bytes → Bytes → Bytes → Bool

-- A signing key of `ed25519_dalek`: the bytes of its public half, and the signatures it makes.
pub record IdentityKey : Type 0 where
  pub public : Bytes
  pub sign : Bytes → Bytes

unfoldable pub sign_domain : IdentityKey → Bytes → Bytes → Bytes
sign_domain k domain msg = k.sign (domain ++ msg)

module _ (ed : Ed25519) where
  -- A `VerifyingKey` is its bytes.
  unfoldable pub verifying_key : Bytes → Result IdentityError Bytes
  verifying_key bytes =
      if length bytes == 32 && ed.valid_key bytes then ok bytes else err bad_key_length

  unfoldable pub signature : Bytes → Result IdentityError Bytes
  signature bytes = if length bytes == 64 then ok bytes else err bad_key_length

  unfoldable pub verify_domain : Bytes → Bytes → Bytes → Bytes → Result IdentityError (Unit {0})
  verify_domain pk domain msg sig = Result.◌>>=◌ (verifying_key pk) λ vk.
      Result.◌>>=◌ (signature sig)
        λ s. if ed.verify_strict vk (domain ++ msg) s then ok tt else err bad_signature

  -- What the library promises of a key that it made: its parts have their lengths, and its signatures verify.
  pub record IsKeyPair (k : IdentityKey) : Type 0 where
    pub public_length : length k.public ≡ 32
    pub public_valid : ed.valid_key k.public ≡ true
    pub sign_length : (m : Bytes) → length (k.sign m) ≡ 64
    pub sign_verifies : (m : Bytes) → ed.verify_strict k.public m (k.sign m) ≡ true

  -- A signature under a domain verifies under the domain.
  pub verify_domain-sign_domain :
      (k : IdentityKey) (domain msg : Bytes)
      → IsKeyPair k
      → verify_domain k.public domain msg (sign_domain k domain msg) ≡ ok tt
  unfolding verify_domain verifying_key signature sign_domain
  verify_domain-sign_domain k domain msg pair =
      let verifies = pair.sign_verifies (domain ++ msg) in
      let long = pair.sign_length (domain ++ msg) in
      ground (arith, pair.public_length, pair.public_valid)
