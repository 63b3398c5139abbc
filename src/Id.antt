-- ===== src/Id.antt =====
-- crates/kotva-core/src/id.rs: content addresses. The hash of the crate `blake3` is a parameter; a digest
-- is its bytes.
use dmtap.Prelude.{
  ℕ, Bool, false, ◌&&◌, Bytes, [], ◌∷◌, Option, none, some, length, ◌==◌, eq_bytes, if◌then◌else◌,
}

abbrev pub mh_blake3_256 : ℕ
mh_blake3_256 = 0x1e

pub record ContentId : Type 0 where
  pub bytes : Bytes

unfoldable pub first_of : Bytes → Option ℕ
first_of [] = none
first_of (b ∷ bs) = some b

-- `self.0.first()`
unfoldable pub algorithm : ContentId → Option ℕ
algorithm i = first_of i.bytes

-- `self.0.get(1..).unwrap_or(&[])`
unfoldable pub tail_of : Bytes → Bytes
tail_of [] = []
tail_of (b ∷ bs) = bs

unfoldable pub digest : ContentId → Bytes
digest i = tail_of i.bytes

unfoldable pub eq_id : ContentId → ContentId → Bool
eq_id i j = eq_bytes i.bytes j.bytes

module _ (blake3 : Bytes → Bytes) where
  unfoldable pub of : Bytes → ContentId
  of bytes = record { bytes = mh_blake3_256 ∷ blake3 bytes }

  unfoldable pub verify : ContentId → Bytes → Bool
  verify i bytes = elim (algorithm i) [
    | none ↦ false
    | some a ↦
        if a == mh_blake3_256 && length (digest i) == 32
        then eq_bytes (blake3 bytes) (digest i)
        else false
  ]
