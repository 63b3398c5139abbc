-- ===== src/Cbor/Sound/Head.antt =====
-- What the decoder of crates/kotva-core/src/cbor.rs accepts, item by item: heads, strings, `simple`
-- and arrays.
use dmtap.Prelude.{
  ℕ, zero, suc, ◌+◌, ◌*◌, ◌/◌, ◌%◌, ◌^◌, ◌<◌, ◌≤◌, ◌≡◌, refl, sym, ap, ap₂, ◌∙◌, subst, bit_and,
  true, false, Bytes, IsBytes, ◌∷◌, ◌++◌, append_assoc, length, arith, ◌⊎◌, inl, inr,
  All-append_left, All-append_right,
}
use dmtap.Result.{ok, Yields, returns, Yields-intro, Yields-bind}
use dmtap.Cbor.Value.{Cv, bool, count_items}
use dmtap.Cbor.Encode.{write_head, enc, enc_items}
use dmtap.Cbor.Decode.{Parser, take_bytes, argument, simple, array_items}
use dmtap.Cbor.Canonical.{IsCanonical, AllCanonical, height, height_items}
use dmtap.Cbor.Head.{info, tail_bytes, and_head, write_head_lem, argument-eq-ok, take_bytes-eq-ok}

-- What a call that read `v` and left `rest` consumed.
pub record Reads (levels : ℕ) (bs : Bytes) (v : Cv) (rest : Bytes) : Type 0 where
  pub consumed : bs ≡ enc v ++ rest
  pub canonical : IsCanonical v
  pub shallow : height v ≤ levels

-- Every run of `p` that succeeds consumes the encoding of the canonical value it returns.
abbrev pub IsSound : ℕ → Parser Cv → Type 0
IsSound levels p = (bs : Bytes) → IsBytes bs → Yields (λ (v, rest). Reads levels bs v rest) (p bs)

-- The argument of a head of known major type.
pub argument-Yields :
    (major ib : ℕ) (bs : Bytes)
    → IsBytes (ib ∷ bs)
    → ib / 2 ^ 5 ≡ major
    → Yields
        (λ (n, rest). (ib ∷ bs ≡ write_head major n ++ rest) × (n < 2 ^ 64) × IsBytes rest)
        (argument (bit_and ib 0x1f) bs)
argument-Yields major ib bs bytes of_major = Yields-intro _ λ (n, rest) e.
    let (ai, tail, small) = argument-eq-ok (bit_and ib 0x1f) n bs rest bytes.1 e in
    let low : ib % 32 ≡ info n = sym (and_head ib bytes.0) ∙ ai in
    let whole : ib ≡ major * 2 ^ 5 + info n = omega (arith, bytes.0) in
    (
      ap₂ ◌∷◌ whole tail
          ∙ ap (λ h. h ++ rest) (sym (write_head_lem major n (omega (arith, bytes.0)))),
      small,
      All-append_right _ (tail_bytes n) rest (subst IsBytes tail bytes.1),
    )

pub take_bytes-Yields :
    (n : ℕ) (bs : Bytes)
    → IsBytes bs
    → Yields
        (λ (xs, rest). (bs ≡ xs ++ rest) × (length xs ≡ n) × IsBytes xs × IsBytes rest)
        (take_bytes n bs)
take_bytes-Yields n bs bytes = Yields-intro _ λ (xs, rest) e.
    let (split, len) = take_bytes-eq-ok n bs xs rest e in
    let both = subst IsBytes split bytes in
    (split, len, All-append_left _ xs rest both, All-append_right _ xs rest both)

simple-eq-ok :
    (ai : ℕ) (bs : Bytes) (v : Cv) (rest : Bytes)
    → simple ai bs ≡ ok (v, rest)
    → (((ai ≡ 20) × (v ≡ bool false)) ⊎ ((ai ≡ 21) × (v ≡ bool true))) × (bs ≡ rest)
unfolding simple
simple-eq-ok ai bs v rest h = ground arith

-- `simple` accepts the two Boolean bytes and nothing else.
pub simple-Yields :
    (levels ib : ℕ) (bs : Bytes)
    → ib < 256
    → ib / 2 ^ 5 ≡ 7
    → Yields (λ (v, rest). Reads (suc levels) (ib ∷ bs) v rest) (simple (bit_and ib 0x1f) bs)
unfolding enc height
simple-Yields levels ib bs small seven = Yields-intro _ λ (v, rest) e.
    let (which, same) = simple-eq-ok (bit_and ib 0x1f) bs v rest e in
    let low : bit_and ib 0x1f ≡ ib % 32 = and_head ib small in
    elim which [
      | inl (ai, is_false) ↦
          rw is_false (record {
            consumed = ap₂ ◌∷◌ (omega arith) same;
            canonical = tt;
            shallow = omega arith;
          })
      | inr (ai, is_true) ↦
          rw is_true (record {
            consumed = ap₂ ◌∷◌ (omega arith) same;
            canonical = tt;
            shallow = omega arith;
          })
    ]

-- The loop over the items of an array.
pub array_items-Yields :
    (levels : ℕ) (child : Parser Cv)
    → IsSound levels child
    → (n : ℕ) (bs : Bytes) → IsBytes bs
    → Yields
        (λ (vs, rest).
          (bs ≡ enc_items vs ++ rest)
          × (count_items vs ≡ n)
          × AllCanonical vs
          × (height_items vs ≤ levels)
          × IsBytes rest)
        (array_items child n bs)
unfolding array_items enc_items count_items height_items
array_items-Yields levels child sound zero bs bytes = returns (refl, refl, tt, omega arith, bytes)
array_items-Yields levels child sound (suc n) bs bytes = Yields-bind (sound bs bytes) λ (v, mid) r.
    Yields-bind
      (array_items-Yields levels child sound n mid
        (All-append_right _ (enc v) mid (subst IsBytes r.consumed bytes)))
      λ (vs, rest) (e, count, canonical, low, rest_bytes). returns (
        r.consumed ∙ ap (λ t. enc v ++ t) e ∙ sym (append_assoc (enc v) (enc_items vs) rest),
        ap suc count,
        (r.canonical, canonical),
        omega (arith, r.shallow, low),
        rest_bytes,
      )
