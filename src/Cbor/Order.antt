-- ===== src/Cbor/Order.antt =====
-- The order of encoded keys in crates/kotva-core/src/cbor.rs: `encode` leaves ascending maps as they
-- stand, and for integer keys the order of the bytes is the order of the numbers.
use dmtap.Prelude.{suc, ◌≡◌, refl, ap, Bytes, [], ◌∷◌, ◌++◌, Ordering, length, arith}
use dmtap.Cbor.Value.{Pairs, KeyKind, no_pairs, pair, count_pairs}
use dmtap.Cbor.Encode.{
  key_bytes, cmp_bytes, insert_entry, sort_entries, write_entries, enc_map, entries, enc,
  write_head,
}
use dmtap.Cbor.Canonical.{StartsAfter, IsAscending}

abbrev reverse_order : Ordering → Ordering
reverse_order Ordering.lt = Ordering.gt
reverse_order Ordering.eq = Ordering.eq
reverse_order Ordering.gt = Ordering.lt

-- Comparing the other way round gives the opposite answer.
pub cmp_bytes-swap : (xs ys : Bytes) → cmp_bytes ys xs ≡ reverse_order (cmp_bytes xs ys)
unfolding cmp_bytes
cmp_bytes-swap [] [] = refl
cmp_bytes-swap [] (y ∷ ys) = refl
cmp_bytes-swap (x ∷ xs) [] = refl
cmp_bytes-swap (x ∷ xs) (y ∷ ys) = ground (arith, cmp_bytes-swap xs ys)

pub gt_of_lt : (xs ys : Bytes) → cmp_bytes xs ys ≡ Ordering.lt → cmp_bytes ys xs ≡ Ordering.gt
gt_of_lt xs ys h = ground (arith, cmp_bytes-swap xs ys)

pub lt_of_gt : (xs ys : Bytes) → cmp_bytes xs ys ≡ Ordering.gt → cmp_bytes ys xs ≡ Ordering.lt
lt_of_gt xs ys h = ground (arith, cmp_bytes-swap xs ys)

-- Two strings compare equal exactly when they are equal.
pub eq_of_cmp : (xs ys : Bytes) → cmp_bytes xs ys ≡ Ordering.eq → xs ≡ ys
unfolding cmp_bytes
eq_of_cmp [] [] h = refl
eq_of_cmp [] (y ∷ ys) h = cc
eq_of_cmp (x ∷ xs) [] h = cc
eq_of_cmp (x ∷ xs) (y ∷ ys) h = ground (arith, eq_of_cmp xs ys)

-- Sorting leaves the entries of an ascending map where they are.
pub sort_entries-entries :
    {kind : KeyKind} (fs : Pairs kind) → IsAscending fs → sort_entries (entries fs) ≡ entries fs
unfolding sort_entries insert_entry enc
sort_entries-entries no_pairs h = refl
sort_entries-entries (pair {kind} k v fs) h = rw (sort_entries-entries fs h.1) (in_front fs h.0)
  where
    in_front :
        {κ : KeyKind} (fs : Pairs κ)
        → StartsAfter (key_bytes kind k) fs
        → insert_entry (key_bytes kind k, enc v) (entries fs)
          ≡ (key_bytes kind k, enc v) ∷ entries fs
    in_front no_pairs h = refl
    in_front (pair j w gs) h = ground arith

pub length-entries : {kind : KeyKind} (fs : Pairs kind) → length (entries fs) ≡ count_pairs fs
unfolding enc count_pairs
length-entries no_pairs = refl
length-entries (pair k v fs) = ap suc (length-entries fs)

-- An ascending map is written in the order it has.
pub enc_map-entries :
    {kind : KeyKind} (fs : Pairs kind)
    → IsAscending fs
    → enc_map (entries fs) ≡ write_head 5 (count_pairs fs) ++ write_entries (entries fs)
unfolding enc_map
enc_map-entries fs h = rw (length-entries fs, sort_entries-entries fs h)
