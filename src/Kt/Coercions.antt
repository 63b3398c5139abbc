-- ===== src/Kt/Coercions.antt =====
-- The coercions that the decoders of crates/kotva-core/src/kt.rs use accept one value for each result.
use dmtap.Prelude.{◌≡◌, ◌^◌, sym, ap, ap₂, refl, Bytes, some, List, [], ◌∷◌, arith, lt→ltb}
use dmtap.Result.{
  Result, ok, err, Yields, returns, Yields-intro, Yields-bind, Yields-map_ok, Yields-ok,
}
use dmtap.Suite.{Suite, as_u8 as suite_byte, from_u8, as_u8-from_u8, from_u8-as_u8, as_u8-lt}
use dmtap.Cbor.Value.{Cv, Items, CborError, u64, bytes, array, no_items, item}
use dmtap.Cbor.Reader.{as_u8, as_u64, as_bytes, as_array, narrow}
use dmtap.Id.{ContentId}
use dmtap.Kt.Wire.{suite_from_cv, id_from_cv, collect_ids, ids_from_cv, id_items}

id_or : Bytes → Result CborError ContentId → Bytes
id_or d (ok j) = j.bytes
id_or d (err e) = d

pub id_from_cv-inverse : (v : Cv) (i : ContentId) → id_from_cv v ≡ ok i → v ≡ bytes i.bytes
unfolding id_from_cv as_bytes id_or
id_from_cv-inverse (bytes m) i h = ap (λ (o : Result CborError ContentId). bytes (id_or m o)) h
id_from_cv-inverse _ i h = cc

pub suite_from_cv-inverse : (v : Cv) (s : Suite) → suite_from_cv v ≡ ok s → v ≡ u64 (suite_byte s)
unfolding suite_from_cv as_u8 as_u64 narrow
suite_from_cv-inverse (u64 n) s h =
    let known : from_u8 n ≡ some s = ground arith in ap u64 (sym (as_u8-from_u8 n s known))
suite_from_cv-inverse _ s h = cc

pub suite_from_cv-u64 : (s : Suite) → suite_from_cv (u64 (suite_byte s)) ≡ ok s
unfolding suite_from_cv as_u8 as_u64 narrow
suite_from_cv-u64 s = rw (lt→ltb (suite_byte s) (2 ^ 8) (as_u8-lt s), from_u8-as_u8 s)

collect_ids-Yields : (vs : Items) → Yields (λ is. vs ≡ id_items is) (collect_ids vs)
unfolding collect_ids id_items
collect_ids-Yields no_items = returns refl
collect_ids-Yields (item v vs) =
    Yields-bind (Yields-intro (id_from_cv v) λ i e. id_from_cv-inverse v i e) λ i is_v.
      Yields-map_ok (λ is. i ∷ is) (collect_ids vs)
        λ is e. ap₂ item is_v (Yields-ok e (collect_ids-Yields vs))

collect_ids-id_items : (is : List ContentId) → collect_ids (id_items is) ≡ ok is
unfolding collect_ids id_items as_bytes
collect_ids-id_items [] = refl
collect_ids-id_items (i ∷ is) = rw (collect_ids-id_items is)

pub ids_from_cv-array : (is : List ContentId) → ids_from_cv (array (id_items is)) ≡ ok is
unfolding ids_from_cv as_array
ids_from_cv-array is = collect_ids-id_items is

pub ids_from_cv-inverse :
    (v : Cv) (is : List ContentId) → ids_from_cv v ≡ ok is → v ≡ array (id_items is)
unfolding ids_from_cv as_array
ids_from_cv-inverse (array a) is h = ap array (Yields-ok h (collect_ids-Yields a))
ids_from_cv-inverse _ is h = cc
