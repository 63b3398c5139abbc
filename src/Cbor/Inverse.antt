-- ===== src/Cbor/Inverse.antt =====
-- The coercions of crates/kotva-core/src/cbor.rs accept one value for each result, and give it back.
use dmtap.Prelude.{ℕ, ◌≡◌, ◌<◌, ap₂, refl, Bytes, List, [], ◌∷◌, arith}
use dmtap.Result.{Result, ok, Yields, returns, Yields-intro, Yields-bind, Yields-map_ok, Yields-ok}
use dmtap.Cbor.Value.{Cv, Items, CborError, u64, bytes, text, no_items, item}
use dmtap.Cbor.Reader.{as_u8, as_u64, as_bytes, as_text, narrow, collect, items_of}

pub as_u64-inverse : (v : Cv) (n : ℕ) → as_u64 v ≡ ok n → v ≡ u64 n
unfolding as_u64
as_u64-inverse (u64 m) n h = cc
as_u64-inverse _ n h = cc

pub as_u8-inverse : (v : Cv) (n : ℕ) → as_u8 v ≡ ok n → v ≡ u64 n
unfolding as_u8 as_u64 narrow
as_u8-inverse (u64 m) n h = ground arith
as_u8-inverse _ n h = cc

pub as_u8-u64 : (n : ℕ) → n < 256 → as_u8 (u64 n) ≡ ok n
unfolding as_u8 as_u64 narrow
as_u8-u64 n h = ground arith

pub as_bytes-inverse : (v : Cv) (b : Bytes) → as_bytes v ≡ ok b → v ≡ bytes b
unfolding as_bytes
as_bytes-inverse (bytes m) b h = cc
as_bytes-inverse _ b h = cc

pub as_text-inverse : (v : Cv) (b : Bytes) → as_text v ≡ ok b → v ≡ text b
unfolding as_text
as_text-inverse (text m) b h = cc
as_text-inverse _ b h = cc

module _ {A : Type 0} (coerce : Cv → Result CborError A) (enc : A → Cv) where
  collect-Yields :
      (vs : Items)
      → ((v : Cv) (a : A) → coerce v ≡ ok a → v ≡ enc a)
      → Yields (λ as'. vs ≡ items_of enc as') (collect coerce vs)
  unfolding collect items_of
  collect-Yields no_items inverse = returns refl
  collect-Yields (item v vs) inverse =
      Yields-bind (Yields-intro (coerce v) λ a e. inverse v a e) λ a is_v.
        Yields-map_ok (λ as'. a ∷ as') (collect coerce vs)
          λ as' e. ap₂ item is_v (Yields-ok e (collect-Yields vs inverse))

  pub collect-inverse :
      (vs : Items) (l : List A)
      → ((v : Cv) (a : A) → coerce v ≡ ok a → v ≡ enc a)
      → collect coerce vs ≡ ok l
      → vs ≡ items_of enc l
  collect-inverse vs l inverse e = Yields-ok e (collect-Yields vs inverse)

  pub collect-items_of :
      (l : List A) → ((a : A) → coerce (enc a) ≡ ok a) → collect coerce (items_of enc l) ≡ ok l
  unfolding collect items_of
  collect-items_of [] h = refl
  collect-items_of (a ∷ l) h = rw (h a, collect-items_of l h)
