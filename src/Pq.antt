-- ===== src/Pq.antt =====
-- crates/kotva-core/src/pq.rs, the signatures of the hybrid suite. The crate `ml_dsa` is the interface `MlDsa65`: which
-- bytes its `try_from` takes as a key and as a signature, and which signatures `verify` accepts.
use dmtap.Prelude.{
  ℕ, ◌+◌, Bool, false, ◌&&◌, ◌||◌, not, Bytes, ◌++◌, length, take, drop, ◌==◌, if◌then◌else◌,
}
use dmtap.Result.{Result, ok, err}
use dmtap.Keys.{Ed25519, IdentityKey, sign_domain as sign_ed25519, verify_domain}

abbrev pub ed25519_pk_len : ℕ
ed25519_pk_len = 32

abbrev pub ed25519_sig_len : ℕ
ed25519_sig_len = 64

abbrev pub hybrid_pk_len : ℕ
hybrid_pk_len = ed25519_pk_len + 1952

abbrev pub hybrid_sig_len : ℕ
hybrid_sig_len = ed25519_sig_len + 3309

pub data HybridError : Type 0 where
  hybrid_suite_incomplete : HybridError

unfoldable pub code : HybridError → ℕ
code hybrid_suite_incomplete = 0x0210

pub record MlDsa65 : Type 0 where
  pub is_key : Bytes → Bool
  pub is_signature : Bytes → Bool
  pub verify : Bytes → Bytes → Bytes → Bool

-- The classical half, and what the library makes of the other: its encoded key and its encoded signatures.
pub record HybridSigningKey : Type 0 where
  pub ed : IdentityKey
  pub mldsa : IdentityKey

unfoldable pub public : HybridSigningKey → Bytes
public k = k.ed.public ++ k.mldsa.public

unfoldable pub sign_domain : HybridSigningKey → Bytes → Bytes → Bytes
sign_domain k domain msg = sign_ed25519 k.ed domain msg ++ k.mldsa.sign (domain ++ msg)

abbrev pub is_ok {ℓ κ} : {E : Type κ} {A : Type ℓ} → Result E A → Bool
is_ok (ok a) = Bool.true
is_ok (err e) = false

module _ (ed : Ed25519) (dsa : MlDsa65) where
  unfoldable pub verify_mldsa65 : Bytes → Bytes → Bytes → Bytes → Bool
  verify_mldsa65 pk domain msg sig =
      dsa.is_key pk && (dsa.is_signature sig && dsa.verify pk (domain ++ msg) sig)

  unfoldable pub verify_hybrid_domain :
      Bytes → Bytes → Bytes → Bytes → Result HybridError (Unit {0})
  verify_hybrid_domain pk domain msg sig =
      if not (length pk == hybrid_pk_len) || not (length sig == hybrid_sig_len)
      then err hybrid_suite_incomplete
      else if is_ok
            (verify_domain ed (take ed25519_pk_len pk) domain msg (take ed25519_sig_len sig))
          && verify_mldsa65 (drop ed25519_pk_len pk) domain msg (drop ed25519_sig_len sig)
      then ok tt
      else err hybrid_suite_incomplete
