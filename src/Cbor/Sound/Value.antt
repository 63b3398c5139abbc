-- ===== src/Cbor/Sound/Value.antt =====
-- What `value` and `decode` of crates/kotva-core/src/cbor.rs accept.
use dmtap.Prelude.{
  ℕ, zero, suc, ◌+◌, ◌/◌, ◌^◌, ◌<◌, ◌≤◌, ◌≡◌, ◌↔◌, sym, ap, ◌∙◌, bit_and, true, Bytes, IsBytes, [],
  ◌∷◌, ◌++◌, append_assoc, append-nil, length, arith, ◌==◌, ==_iff,
}
use dmtap.Result.{ok, Yields, returns, fails, Yields-choose, Yields-bind, Yields-ok}
use dmtap.Cbor.Value.{
  Cv, Items, Pairs, KeyKind, int_keys, text_keys, bytes, text, array, count_items, count_pairs,
}
use dmtap.Cbor.Utf8.{is_utf8}
use dmtap.Cbor.Encode.{
  write_head, write_entries, enc, enc_items, entries, enc_map, encode, sort_entries,
}
use dmtap.Cbor.Decode.{
  Parser, byte, map_start, map_result, decode_map, dispatch, value, finish, decode,
  max_nesting_depth,
}
use dmtap.Cbor.Canonical.{IsCanonical, AllCanonical, height, height_items}
use dmtap.Cbor.Order.{enc_map-entries}
use dmtap.Cbor.MapLoop.{push_pairs, map_result-ints, map_result-texts}
use dmtap.Cbor.RoundTrip.{decode-encode}
use dmtap.Cbor.Sound.Head.{
  Reads, IsSound, argument-Yields, take_bytes-Yields, simple-Yields, array_items-Yields,
}
use dmtap.Cbor.Sound.Map.{PairsRead, map_start-Yields}

eq_of_test : (a b : ℕ) → (a == b) ≡ true → a ≡ b
eq_of_test a b = (==_iff a b).0

regroup :
    {whole mid : Bytes} (head body rest : Bytes)
    → whole ≡ head ++ mid
    → mid ≡ body ++ rest
    → whole ≡ (head ++ body) ++ rest
regroup head body rest h e = h ∙ ap (λ t. head ++ t) e ∙ sym (append_assoc head body rest)

read_bytes :
    {levels : ℕ} {whole mid b rest : Bytes} {n : ℕ}
    → whole ≡ write_head 2 n ++ mid
    → n < 2 ^ 64
    → mid ≡ b ++ rest
    → length b ≡ n
    → IsBytes b
    → Reads (suc levels) whole (bytes b) rest
unfolding enc height
read_bytes {b = b} {rest = rest} head small split len b_bytes = record {
  consumed = regroup (write_head 2 (length b)) b rest (rw len head) split;
  canonical = (rw len small, b_bytes);
  shallow = omega arith;
}

read_text :
    {levels : ℕ} {whole mid s rest : Bytes} {n : ℕ}
    → whole ≡ write_head 3 n ++ mid
    → n < 2 ^ 64
    → mid ≡ s ++ rest
    → length s ≡ n
    → IsBytes s
    → is_utf8 s ≡ true
    → Reads (suc levels) whole (text s) rest
unfolding enc height
read_text {s = s} {rest = rest} head small split len s_bytes utf8 = record {
  consumed = regroup (write_head 3 (length s)) s rest (rw len head) split;
  canonical = (rw len small, s_bytes, utf8);
  shallow = omega arith;
}

read_array :
    {levels : ℕ} {whole mid rest : Bytes} {vs : Items} {n : ℕ}
    → whole ≡ write_head 4 n ++ mid
    → n < 2 ^ 64
    → (mid ≡ enc_items vs ++ rest)
      × (count_items vs ≡ n)
      × AllCanonical vs
      × (height_items vs ≤ levels)
      × IsBytes rest
    → Reads (suc levels) whole (array vs) rest
unfolding enc height
read_array {rest = rest} {vs = vs} head small (items, count, canonical, low, _) = record {
  consumed = regroup (write_head 4 (count_items vs)) (enc_items vs) rest (rw count head) items;
  canonical = (rw count small, canonical);
  shallow = omega arith;
}

-- A map that the loop has read.
read_map :
    {kind : KeyKind} (levels : ℕ) {bs mid rest : Bytes} {n : ℕ} (fs : Pairs kind)
    → PairsRead levels n mid fs rest
    → bs ≡ write_head 5 n ++ mid
    → n < 2 ^ 64
    → 0 < n
    → Reads
        (suc levels)
        bs
        (map_result (push_pairs map_start fs).kind (push_pairs map_start fs))
        rest
unfolding enc height
read_map {kind = int_keys} levels {rest = rest} {n = n} fs r head small some =
    rw (map_result-ints fs) (record {
      consumed =
          rw (enc_map-entries fs r.ascending, r.count)
            (regroup (write_head 5 n) (write_entries (entries fs)) rest head r.consumed);
      canonical = (rw r.count small, r.ascending, r.canonical);
      shallow = omega (arith, r.shallow);
    })
read_map {kind = text_keys} levels {rest = rest} {n = n} fs r head small some =
    rw (map_result-texts fs (rw r.count some)) (record {
      consumed =
          rw (enc_map-entries fs r.ascending, r.count)
            (regroup (write_head 5 n) (write_entries (entries fs)) rest head r.consumed);
      canonical = (rw r.count some, rw r.count small, r.ascending, r.canonical);
      shallow = omega (arith, r.shallow);
    })

-- `child` stands for `self.value(depth + 1)`.
module _ (levels : ℕ) (child : Parser Cv) (sound : IsSound levels child) (ib : ℕ) (bs : Bytes)
    (all_bytes : IsBytes (ib ∷ bs)) where
  abbrev Accepted : Cv × Bytes → Type 0
  Accepted (v, rest) = Reads (suc levels) (ib ∷ bs) v rest

  decode_map-Yields : ib / 2 ^ 5 ≡ 5 → Yields Accepted (decode_map child (bit_and ib 0x1f) bs)
  unfolding decode_map enc enc_map sort_entries write_entries height count_pairs
  decode_map-Yields h =
      Yields-bind (argument-Yields 5 ib bs all_bytes h) λ (n, mid) (head, small, mid_bytes).
        Yields-choose (n == 0) _ _ mid
          (λ e. returns (record {
            consumed = head ∙ rw (eq_of_test n 0 e, append-nil);
            canonical = (omega arith, tt, tt);
            shallow = omega arith;
          }))
          λ e.
            Yields-bind (map_start-Yields levels child sound n mid mid_bytes (ground arith))
              λ (st, rest) (kind, fs, pushed, read).
                returns (rw pushed (read_map levels fs read head small (ground arith)))

  dispatch-Yields : Yields Accepted (dispatch child (ib / 2 ^ 5) (bit_and ib 0x1f) bs)
  unfolding dispatch enc height
  dispatch-Yields =
      Yields-choose (ib / 2 ^ 5 == 0) _ _ bs
        (λ h.
          Yields-bind (argument-Yields 0 ib bs all_bytes (eq_of_test _ 0 h))
            λ (n, rest) (head, small, _).
              returns (record { consumed = head; canonical = small; shallow = omega arith }))
        λ h₀.
          Yields-choose (ib / 2 ^ 5 == 1) _ _ bs
            (λ h. Yields-bind (argument-Yields 1 ib bs all_bytes (eq_of_test _ 1 h)) λ _ _. fails)
            λ h₁.
              Yields-choose (ib / 2 ^ 5 == 2) _ _ bs
                (λ h.
                  Yields-bind (argument-Yields 2 ib bs all_bytes (eq_of_test _ 2 h))
                    λ (n, mid) (head, small, mid_bytes).
                      Yields-bind (take_bytes-Yields n mid mid_bytes)
                        λ (b, rest) (split, len, b_bytes, _).
                          returns (read_bytes head small split len b_bytes))
                λ h₂.
                  Yields-choose (ib / 2 ^ 5 == 3) _ _ bs
                    (λ h.
                      Yields-bind (argument-Yields 3 ib bs all_bytes (eq_of_test _ 3 h))
                        λ (n, mid) (head, small, mid_bytes).
                          Yields-bind (take_bytes-Yields n mid mid_bytes)
                            λ (s, rest) (split, len, s_bytes, _).
                              Yields-choose (is_utf8 s) _ _ rest
                                (λ utf8. returns (read_text head small split len s_bytes utf8))
                                λ _. fails)
                    λ h₃.
                      Yields-choose (ib / 2 ^ 5 == 4) _ _ bs
                        (λ h.
                          Yields-bind (argument-Yields 4 ib bs all_bytes (eq_of_test _ 4 h))
                            λ (n, mid) (head, small, mid_bytes).
                              Yields-bind (array_items-Yields levels child sound n mid mid_bytes)
                                λ (vs, rest) items. returns (read_array head small items))
                        λ h₄.
                          Yields-choose (ib / 2 ^ 5 == 5) _ _ bs
                            (λ h. decode_map-Yields (eq_of_test _ 5 h))
                            λ h₅.
                              Yields-choose (ib / 2 ^ 5 == 6) _ _ bs
                                (λ h.
                                  Yields-bind (argument-Yields 6 ib bs all_bytes (eq_of_test _ 6 h))
                                    λ _ _. fails)
                                λ h₆. simple-Yields levels ib bs all_bytes.0 (ground arith)

-- Whatever `value` reads at any depth, it consumed the encoding of the canonical value it returns.
pub value-IsSound : (levels : ℕ) → IsSound levels (value levels)
unfolding value byte
value-IsSound zero bs all_bytes = fails
value-IsSound (suc levels) [] all_bytes = fails
value-IsSound (suc levels) (ib ∷ bs) all_bytes =
    dispatch-Yields levels (value levels) (value-IsSound levels) ib bs all_bytes

finish-Yields :
    {bs : Bytes} (v : Cv) (rest : Bytes)
    → Reads (max_nesting_depth + 1) bs v rest
    → Yields (λ w. Reads (max_nesting_depth + 1) bs w []) (finish v rest)
unfolding finish
finish-Yields v [] r = returns r
finish-Yields v (b ∷ rest) r = fails

decode-Yields :
    (bs : Bytes) → IsBytes bs → Yields (λ v. Reads (max_nesting_depth + 1) bs v []) (decode bs)
unfolding decode
decode-Yields bs all_bytes =
    Yields-bind (value-IsSound (max_nesting_depth + 1) bs all_bytes)
      λ (v, rest) r. finish-Yields v rest r

-- `decode` accepts a string of bytes with a value exactly if it is the encoding of that value, and the
-- value is canonical and nested at most `max_nesting_depth` deep (a scalar has height 1).
pub decode-eq-ok_iff :
    (bs : Bytes) (v : Cv)
    → IsBytes bs
    → (decode bs ≡ ok v) ↔ ((bs ≡ encode v) × IsCanonical v × (height v ≤ max_nesting_depth + 1))
unfolding encode
decode-eq-ok_iff bs v all_bytes = (
  λ accepted.
      let r = Yields-ok accepted (decode-Yields bs all_bytes) in
      (r.consumed ∙ append-nil (enc v), r.canonical, r.shallow),
  λ (same, canonical, shallow). rw same (decode-encode v canonical shallow),
)

-- Re-encoding the value decoded from a string of bytes gives that string.
encode-decode : (bs : Bytes) (v : Cv) → IsBytes bs → decode bs ≡ ok v → encode v ≡ bs
encode-decode bs v all_bytes accepted = sym ((decode-eq-ok_iff bs v all_bytes).0 accepted).0
