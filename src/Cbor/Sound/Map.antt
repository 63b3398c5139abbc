-- ===== src/Cbor/Sound/Map.antt =====
-- What the loop of `Decoder::map` of crates/kotva-core/src/cbor.rs accepts.
use dmtap.Prelude.{
  ℕ, zero, suc, ◌-◌, ◌<◌, ◌≤◌, ◌≡◌, refl, sym, ap, ap₂, ◌∙◌, subst, Bytes, IsBytes, Option, none,
  some, ◌++◌, append_assoc, length, take, arith, ◌⊎◌, inl, inr, All-append_right, Ordering,
  length-append, take-append,
}
use dmtap.Result.{Result, Yields, returns, fails, Yields-intro, Yields-bind, Yields-map}
use dmtap.Cbor.Value.{
  Cv, Pairs, KeyKind, Key, CborError, int_keys, text_keys, u64, text, no_pairs, pair, count_pairs,
}
use dmtap.Cbor.Encode.{key_bytes, cmp_bytes, enc, entries, write_entries}
use dmtap.Cbor.Decode.{
  Parser, MapState, map_start, read_key, check_key_order, add_entry, push_entry, map_entry,
  map_loop,
}
use dmtap.Cbor.Canonical.{
  IsCanonical, PairsCanonical, IsKey, key_cv, StartsAfter, IsAscending, height, height_pairs,
}
use dmtap.Cbor.Order.{lt_of_gt}
use dmtap.Cbor.MapLoop.{Accepts, push_pairs}
use dmtap.Cbor.Sound.Head.{Reads, IsSound}

-- One round: it consumed a key and a value, and the state has them.
record EntryRead (levels : ℕ) (kind : KeyKind) (st : MapState) (bs : Bytes) (st' : MapState)
    (rest : Bytes) : Type 0 where
  key : Key kind
  val : Cv
  pushed : st' ≡ push_entry kind st (key_bytes kind key) key val
  consumed : bs ≡ key_bytes kind key ++ (enc val ++ rest)
  key_fits : IsKey kind key
  canonical : IsCanonical val
  shallow : height val ≤ levels
  accepted : Accepts kind st (key_bytes kind key)

-- The key bytes of the source are the encoding of the key.
read_key-Yields :
    (levels : ℕ) (child : Parser Cv)
    → IsSound levels child
    → (bs : Bytes) → IsBytes bs
    → Yields (λ ((key, kb), rest). (kb ≡ enc key) × Reads levels bs key rest) (read_key child bs)
unfolding read_key
read_key-Yields levels child sound bs bytes = Yields-bind (sound bs bytes) λ (key, rest) r.
    let len : length bs - length rest ≡ length (enc key) =
      omega (arith, ap length r.consumed, length-append (enc key) rest) in
    returns (rw len (ap (take (length (enc key))) r.consumed ∙ take-append (enc key) rest), r)

check_key_order-Yields :
    (st : MapState) (key : Cv) (kb bs : Bytes)
    → Yields
        (λ (u, rest). (bs ≡ rest) × ((st.i ≡ 0) ⊎ (cmp_bytes st.prev_key kb ≡ Ordering.lt)))
        (check_key_order st key kb bs)
unfolding check_key_order
check_key_order-Yields st key kb bs =
    Yields-intro _ λ (u, rest) e. ground (arith, lt_of_gt kb st.prev_key)

add_entry-Yields :
    (st : MapState) (kb : Bytes) (key : Cv) (seen : Option KeyKind) (v : Cv) (bs : Bytes)
    → Yields
        (λ (st', rest).
          (kind : KeyKind) × (k : Key kind) × (key ≡ key_cv kind k)
          × (st' ≡ push_entry kind st kb k v)
          × ((seen ≡ none) ⊎ (seen ≡ some kind))
          × (bs ≡ rest))
        (add_entry st kb key seen v bs)
unfolding add_entry
add_entry-Yields st kb (u64 k) none v bs = returns (int_keys, k, refl, refl, inl refl, refl)
add_entry-Yields st kb (u64 k) (some int_keys) v bs =
    returns (int_keys, k, refl, refl, inr refl, refl)
add_entry-Yields st kb (text s) none v bs = returns (text_keys, s, refl, refl, inl refl, refl)
add_entry-Yields st kb (text s) (some text_keys) v bs =
    returns (text_keys, s, refl, refl, inr refl, refl)
add_entry-Yields st kb _ _ v bs = fails

-- A key's bytes are those of the value that it decodes to.
enc-key_cv : (kind : KeyKind) (k : Key kind) → enc (key_cv kind k) ≡ key_bytes kind k
unfolding enc key_bytes
enc-key_cv int_keys k = refl
enc-key_cv text_keys s = refl

key_cv-IsKey : (kind : KeyKind) (k : Key kind) → IsCanonical (key_cv kind k) → IsKey kind k
key_cv-IsKey int_keys k c = c
key_cv-IsKey text_keys s c = c

map_entry-Yields :
    (levels : ℕ) (child : Parser Cv)
    → IsSound levels child
    → (st : MapState) (bs : Bytes) → IsBytes bs
    → Yields
        (λ (st', rest). (kind : KeyKind) × EntryRead levels kind st bs st' rest)
        (map_entry child st bs)
unfolding map_entry
map_entry-Yields levels child sound st bs bytes =
    Yields-bind (read_key-Yields levels child sound bs bytes) λ ((key, kb), mid) (same, rk).
      Yields-bind (check_key_order-Yields st key kb mid) λ (u, mid') (stays, after).
        Yields-bind
          (sound mid' (
            subst IsBytes stays
              (All-append_right _ (enc key) mid (subst IsBytes rk.consumed bytes))))
          λ (val, end) rv.
            Yields-map (add_entry-Yields st kb key st.kind val end)
              λ (st', rest) (kind, k, is_key, pushed, seen, same_end).
                let same_key : kb ≡ key_bytes kind k = same ∙ ap enc is_key ∙ enc-key_cv kind k in
                (
                  kind,
                  record {
                    key = k;
                    val = val;
                    pushed = pushed ∙ ap (λ b. push_entry kind st b k val) same_key;
                    consumed =
                        rk.consumed
                        ∙ ap₂ ◌++◌ (sym same ∙ same_key)
                            (stays ∙ rv.consumed ∙ ap (λ t. enc val ++ t) same_end);
                    key_fits = key_cv-IsKey kind k (subst IsCanonical is_key rk.canonical);
                    canonical = rv.canonical;
                    shallow = rv.shallow;
                    accepted = (seen, rw (← same_key) after);
                  },
                )

-- The rounds that are left: they consumed ascending fields, and the state has them.
pub record PairsRead {kind : KeyKind} (levels n : ℕ) (bs : Bytes) (fs : Pairs kind) (rest : Bytes)
    : Type 0 where
  pub consumed : bs ≡ write_entries (entries fs) ++ rest
  pub count : count_pairs fs ≡ n
  pub ascending : IsAscending fs
  pub canonical : PairsCanonical fs
  pub shallow : height_pairs fs ≤ levels

-- The first round's fields, put before those of the later rounds.
module _ {kind : KeyKind} (levels n : ℕ) {st st' : MapState} {bs mid rest : Bytes} where
  PairsRead-cons :
      (e : EntryRead levels kind st bs st' mid) (fs : Pairs kind)
      → StartsAfter (key_bytes kind e.key) fs
      → PairsRead levels n mid fs rest
      → PairsRead levels (suc n) bs (pair e.key e.val fs) rest
  unfolding enc write_entries count_pairs height
  PairsRead-cons e fs after r = record {
    consumed =
        e.consumed
        ∙ ap (λ t. key_bytes kind e.key ++ (enc e.val ++ t)) r.consumed
        ∙ simp append_assoc;
    count = ap suc r.count;
    ascending = (after, r.ascending);
    canonical = (e.key_fits, e.canonical, r.canonical);
    shallow = omega (arith, e.shallow, r.shallow);
  }

-- The state that a first entry leaves fixes the kind and has a previous key.
pushed-kind :
    (kind : KeyKind) (st : MapState) (kb : Bytes) (k : Key kind) (v : Cv)
    → ((push_entry kind st kb k v).kind ≡ some kind)
      × (0 < (push_entry kind st kb k v).i)
      × ((push_entry kind st kb k v).prev_key ≡ kb)
unfolding push_entry
pushed-kind int_keys st kb k v = (refl, omega arith, refl)
pushed-kind text_keys st kb k v = (refl, omega arith, refl)

same_kind :
    {kind kind' : KeyKind} (seen : Option KeyKind)
    → seen ≡ some kind
    → ((seen ≡ none) ⊎ (seen ≡ some kind'))
    → kind' ≡ kind
same_kind seen h (inl e) = cc
same_kind seen h (inr e) = cc

after_prev :
    (st : MapState) (kb : Bytes)
    → 0 < st.i
    → ((st.i ≡ 0) ⊎ (cmp_bytes st.prev_key kb ≡ Ordering.lt))
    → cmp_bytes st.prev_key kb ≡ Ordering.lt
after_prev st kb pos (inl e) = absurd (omega arith)
after_prev st kb pos (inr e) = e

-- What the loop returns, when it has read fields of the one kind that the state allows.
abbrev LoopReads : (kind : KeyKind) → ℕ → ℕ → MapState → Bytes → MapState × Bytes → Type 0
LoopReads kind levels n st bs (st', rest) =
    (fs : Pairs kind) × (st' ≡ push_pairs st fs)
    × PairsRead levels n bs fs rest
    × (0 < st.i → StartsAfter st.prev_key fs)

-- A round, and the rounds behind it.
module _ {kind : KeyKind} {levels : ℕ} {st st₁ : MapState} {bs mid : Bytes}
    (e : EntryRead levels kind st bs st₁ mid) where
  entry-IsBytes : IsBytes bs → IsBytes mid
  entry-IsBytes bytes =
      All-append_right _ (enc e.val) _
        (All-append_right _ (key_bytes kind e.key) _ (subst IsBytes e.consumed bytes))

  loop_after_entry :
      (n : ℕ) (later : MapState × Bytes)
      → LoopReads kind levels n st₁ mid later
      → LoopReads kind levels (suc n) st bs later
  unfolding push_pairs
  loop_after_entry n later (fs, pushed, read, after) =
      let (_, counted, prev) = pushed-kind kind st (key_bytes kind e.key) e.key e.val in
      (
        pair e.key e.val fs,
        pushed ∙ ap (λ t. push_pairs t fs) e.pushed,
        PairsRead-cons levels n e fs
            (subst (λ (b : Bytes). StartsAfter b fs)
              (ap (λ (t : MapState). t.prev_key) e.pushed ∙ prev) (after (rw e.pushed counted)))
            read,
        λ pos. after_prev st (key_bytes kind e.key) pos e.accepted.1,
      )

  later_rounds :
      (n : ℕ) (run : Result CborError (MapState × Bytes))
      → (st₁.kind ≡ some kind → Yields (LoopReads kind levels n st₁ mid) run)
      → Yields (LoopReads kind levels (suc n) st bs) run
  later_rounds n run ih =
      let (known, _, _) = pushed-kind kind st (key_bytes kind e.key) e.key e.val in
      Yields-map (ih (rw e.pushed known)) (loop_after_entry n)

map_loop-Yields :
    (levels : ℕ) (child : Parser Cv)
    → IsSound levels child
    → (n : ℕ) (kind : KeyKind) (st : MapState) (bs : Bytes) → IsBytes bs
    → st.kind ≡ some kind
    → Yields (LoopReads kind levels n st bs) (map_loop child n st bs)
unfolding map_loop push_pairs enc write_entries count_pairs height
map_loop-Yields levels child sound zero kind st bs bytes h = returns (
  no_pairs,
  refl,
  record { consumed = refl; count = refl; ascending = tt; canonical = tt; shallow = omega arith },
  λ pos. tt,
)
map_loop-Yields levels child sound (suc n) kind st bs bytes h =
    Yields-bind (map_entry-Yields levels child sound st bs bytes) λ (st₁, mid) (kind', first).
      let e : EntryRead levels kind st bs st₁ mid =
        subst (λ κ. EntryRead levels κ st bs st₁ mid) (same_kind st.kind h first.accepted.0)
          first in
      later_rounds e n (map_loop child n st₁ mid)
        λ known. map_loop-Yields levels child sound n kind st₁ mid (entry-IsBytes e bytes) known

-- The loop of a map that is not empty reads ascending fields of the kind of its first key.
pub map_start-Yields :
    (levels : ℕ) (child : Parser Cv)
    → IsSound levels child
    → (n : ℕ) (bs : Bytes) → IsBytes bs
    → 0 < n
    → Yields
        (λ (st', rest).
          (kind : KeyKind) × (fs : Pairs kind) × (st' ≡ push_pairs map_start fs)
          × PairsRead levels n bs fs rest)
        (map_loop child n map_start bs)
unfolding map_loop
map_start-Yields levels child sound zero bs bytes h = absurd (omega arith)
map_start-Yields levels child sound (suc n) bs bytes h =
    Yields-bind (map_entry-Yields levels child sound map_start bs bytes) λ (st₁, mid) (kind, e).
      Yields-map
        (later_rounds e n (map_loop child n st₁ mid)
          λ known. map_loop-Yields levels child sound n kind st₁ mid (entry-IsBytes e bytes) known)
        λ later (fs, pushed, read, _). (kind, fs, pushed, read)
