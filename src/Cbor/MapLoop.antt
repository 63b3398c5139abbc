-- ===== src/Cbor/MapLoop.antt =====
-- One round of the loop in `Decoder::map` of crates/kotva-core/src/cbor.rs, and all of them.
use dmtap.Prelude.{
  ℕ, suc, ◌<◌, ◌≡◌, ◌⊎◌, inl, inr, refl, ap, ◌∙◌, Bytes, Option, none, some, ◌++◌, Ordering, arith,
}
use dmtap.Result.{ok}
use dmtap.Cbor.Value.{
  Cv, Pairs, KeyKind, Key, int_keys, text_keys, map, text_map, no_pairs, pair, push_pair,
  count_pairs,
}
use dmtap.Cbor.Encode.{key_bytes, cmp_bytes}
use dmtap.Cbor.Decode.{
  value, MapState, map_start, check_key_order, push_entry, add_entry, map_entry, map_result,
}
use dmtap.Cbor.Canonical.{key_cv, IsKey}
use dmtap.Cbor.Order.{gt_of_lt}
use dmtap.Cbor.ReadKey.{read_key-key_bytes}

-- The state after the entries `fs`.
unfoldable pub push_pairs : {kind : KeyKind} → MapState → Pairs kind → MapState
push_pairs st no_pairs = st
push_pairs st (pair {kind} k v fs) = push_pairs (push_entry kind st (key_bytes kind k) k v) fs

-- `Vec::extend`
append_pairs : {kind : KeyKind} → Pairs kind → Pairs kind → Pairs kind
append_pairs out no_pairs = out
append_pairs out (pair k v fs) = append_pairs (push_pair out k v) fs

-- The loop may go on with an entry of this kind, whose key bytes stand behind the last ones.
abbrev pub Accepts : KeyKind → MapState → Bytes → Type 0
Accepts kind st key =
    ((st.kind ≡ none) ⊎ (st.kind ≡ some kind))
    × ((st.i ≡ 0) ⊎ (cmp_bytes st.prev_key key ≡ Ordering.lt))

pub check_key_order_lem :
    (st : MapState) (key : Cv) (kb rest : Bytes)
    → ((st.i ≡ 0) ⊎ (cmp_bytes st.prev_key kb ≡ Ordering.lt))
    → check_key_order st key kb rest ≡ ok (tt, rest)
unfolding check_key_order
check_key_order_lem st key kb rest (inl first) = rw first
check_key_order_lem st key kb rest (inr after) = ground (arith, gt_of_lt st.prev_key kb after)

pub add_entry_lem :
    (kind : KeyKind) (st : MapState) (kb : Bytes) (k : Key kind) (v : Cv) (rest : Bytes)
    (seen : Option KeyKind)
    → ((seen ≡ none) ⊎ (seen ≡ some kind))
    → add_entry st kb (key_cv kind k) seen v rest ≡ ok (push_entry kind st kb k v, rest)
unfolding add_entry
add_entry_lem int_keys st kb k v rest seen (inl e) = rw e
add_entry_lem int_keys st kb k v rest seen (inr e) = rw e
add_entry_lem text_keys st kb k v rest seen (inl e) = rw e
add_entry_lem text_keys st kb k v rest seen (inr e) = rw e

pub map_entry_lem :
    (kind : KeyKind) (levels : ℕ) (st : MapState) (k : Key kind) (v : Cv) (written rest : Bytes)
    → IsKey kind k
    → Accepts kind st (key_bytes kind k)
    → value (suc levels) (written ++ rest) ≡ ok (v, rest)
    → map_entry (value (suc levels)) st (key_bytes kind k ++ (written ++ rest))
      ≡ ok (push_entry kind st (key_bytes kind k) k v, rest)
unfolding map_entry
map_entry_lem kind levels st k v written rest fits (same_kind, after) reads = rw (
  read_key-key_bytes kind levels k (written ++ rest) fits,
  check_key_order_lem st (key_cv kind k) (key_bytes kind k) (written ++ rest) after,
  reads,
  add_entry_lem kind st (key_bytes kind k) k v rest st.kind same_kind,
)

-- After an entry the loop accepts the next one, if that stands behind it.
pub Accepts-push_entry :
    (kind : KeyKind) (st : MapState) (kb : Bytes) (k : Key kind) (v : Cv) (next : Bytes)
    → cmp_bytes kb next ≡ Ordering.lt
    → Accepts kind (push_entry kind st kb k v) next
unfolding push_entry
Accepts-push_entry int_keys st kb k v next h = (inr refl, inr h)
Accepts-push_entry text_keys st kb k v next h = (inr refl, inr h)

-- The fields that the loop has collected are those it was given.
map_result-push_ints :
    (fs : Pairs int_keys) (st : MapState)
    → st.kind ≡ some int_keys
    → map_result (push_pairs st fs).kind (push_pairs st fs) ≡ map (append_pairs st.int_out fs)
unfolding push_pairs push_entry append_pairs map_result
map_result-push_ints no_pairs st e = rw e
map_result-push_ints (pair k v fs) st e = map_result-push_ints fs _ refl

map_result-push_texts :
    (fs : Pairs text_keys) (st : MapState)
    → st.kind ≡ some text_keys
    → map_result (push_pairs st fs).kind (push_pairs st fs) ≡ text_map (append_pairs st.text_out fs)
unfolding push_pairs push_entry append_pairs map_result
map_result-push_texts no_pairs st e = rw e
map_result-push_texts (pair k v fs) st e = map_result-push_texts fs _ refl

push_pair-append :
    {kind : KeyKind} (out : Pairs kind) (k : Key kind) (v : Cv) (fs : Pairs kind)
    → append_pairs (pair k v out) fs ≡ pair k v (append_pairs out fs)
unfolding append_pairs push_pair
push_pair-append out k v no_pairs = refl
push_pair-append out k v (pair j w fs) = push_pair-append (push_pair out j w) k v fs

append_pairs-start : {kind : KeyKind} (fs : Pairs kind) → append_pairs no_pairs fs ≡ fs
unfolding append_pairs push_pair
append_pairs-start no_pairs = refl
append_pairs-start (pair k v fs) =
    push_pair-append no_pairs k v fs ∙ ap (pair k v) (append_pairs-start fs)

pub map_result-ints :
    (fs : Pairs int_keys)
    → map_result (push_pairs map_start fs).kind (push_pairs map_start fs) ≡ map fs
unfolding push_pairs push_entry map_result push_pair
map_result-ints no_pairs = refl
map_result-ints (pair k v fs) =
    map_result-push_ints fs _ refl
    ∙ ap map (push_pair-append no_pairs k v fs ∙ ap (pair k v) (append_pairs-start fs))

pub map_result-texts :
    (fs : Pairs text_keys)
    → 0 < count_pairs fs
    → map_result (push_pairs map_start fs).kind (push_pairs map_start fs) ≡ text_map fs
unfolding push_pairs push_entry map_result push_pair count_pairs
map_result-texts no_pairs h = absurd (omega arith)
map_result-texts (pair k v fs) h =
    map_result-push_texts fs _ refl
    ∙ ap text_map (push_pair-append no_pairs k v fs ∙ ap (pair k v) (append_pairs-start fs))
