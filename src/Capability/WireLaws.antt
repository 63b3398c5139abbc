-- ===== src/Capability/WireLaws.antt =====
-- The wire form of revocations in crates/kotva-core/src/capability.rs: the decoder reads back what
-- `det_cbor` writes, and accepts nothing else.
use dmtap.Prelude.{◌≡◌, ◌↔◌, sym, ap, true, Bytes, IsBytes, arith}
use dmtap.Result.{ok, Yields, Yields-bind, Yields-map}
use dmtap.Cbor.Value.{map, no_pairs, count_pairs}
use dmtap.Cbor.Canonical.{PairsCanonical, height}
use dmtap.Cbor.Reader.{
  Fields, required, req, take, take_pair, take_result, done, deny_unknown, as_u64, as_bytes,
}
use dmtap.Cbor.Consume.{
  required-Yields, done-Yields, put_back, IsIncreasing, decode_object-eq-ok_iff,
}
use dmtap.Cbor.Inverse.{as_u64-inverse, as_bytes-inverse}
use dmtap.Kt.Wire.{suite_from_cv, id_from_cv}
use dmtap.Kt.Coercions.{id_from_cv-inverse, suite_from_cv-inverse, suite_from_cv-u64}
use dmtap.Capability.Wire.{
  CapabilityRevocation, revocation_pairs, revocation_steps, revocation_det_cbor,
  revocation_from_det_cbor, signed,
}

revocation_steps-Yields :
    (f : Fields)
    → IsIncreasing f.map
    → Yields (λ (r, left). map (revocation_pairs r true) ≡ map f.map) (revocation_steps f)
unfolding revocation_steps revocation_pairs signed
revocation_steps-Yields f inc =
    Yields-bind (required-Yields suite_from_cv 1 f inc) λ (suite, f₁) t₁.
      Yields-bind (required-Yields as_bytes 2 f₁ t₁.increasing) λ (iss, f₂) t₂.
        Yields-bind (required-Yields id_from_cv 3 f₂ t₂.increasing) λ (token, f₃) t₃.
          Yields-bind (required-Yields as_u64 4 f₃ t₃.increasing) λ (ts, f₄) t₄.
            Yields-bind (required-Yields as_bytes 5 f₄ t₄.increasing) λ (sig, f₅) t₅.
              Yields-map (done-Yields _ f₅) λ (r, left) (is_r, end).
                let e₅ = put_back t₅ t₄.increasing (λ v. as_bytes-inverse v sig) end tt in
                let e₄ = put_back t₄ t₃.increasing (λ v. as_u64-inverse v ts) e₅ (omega arith) in
                let e₃ =
                  put_back t₃ t₂.increasing (λ v. id_from_cv-inverse v token) e₄ (omega arith) in
                let e₂ = put_back t₂ t₁.increasing (λ v. as_bytes-inverse v iss) e₃ (omega arith) in
                let e₁ = put_back t₁ inc (λ v. suite_from_cv-inverse v suite) e₂ (omega arith) in
                rw is_r (ap map (sym e₁))

revocation_steps-pairs :
    (r : CapabilityRevocation)
    → revocation_steps (record { map = revocation_pairs r true })
      ≡ ok (r, record { map = no_pairs })
unfolding revocation_steps revocation_pairs signed required req take take_pair take_result done
    deny_unknown id_from_cv as_bytes as_u64
revocation_steps-pairs r = rw (suite_from_cv-u64 r.suite)

-- The decoder of revocations accepts a string of bytes with a revocation exactly when it is what
-- `det_cbor` writes for that revocation, and its numbers and lengths fit the wire.
revocation_from_det_cbor-eq-ok_iff :
    (bs : Bytes) (r : CapabilityRevocation)
    → IsBytes bs
    → (revocation_from_det_cbor bs ≡ ok r)
      ↔ ((bs ≡ revocation_det_cbor r) × PairsCanonical (revocation_pairs r true))
unfolding revocation_from_det_cbor revocation_det_cbor
revocation_from_det_cbor-eq-ok_iff =
    decode_object-eq-ok_iff revocation_steps (λ r. revocation_pairs r true) revocation_steps-Yields
      (λ r. (_, revocation_steps-pairs r)) (λ r. unfold revocation_pairs signed in omega arith)
      (λ r. unfold revocation_pairs signed count_pairs in omega arith)
      (λ r. unfold revocation_pairs signed height in omega arith)
