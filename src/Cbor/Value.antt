-- ===== src/Cbor/Value.antt =====
-- crates/kotva-core/src/cbor.rs: the values of the wire subset and the errors of the codec.
use dmtap.Prelude.{ℕ, Bool, Bytes, suc}

-- Which of the two key types a map has.
pub data KeyKind : Type 0 where
  int_keys text_keys : KeyKind

-- `u64` for an integer-keyed map; the UTF-8 bytes of a `String` for a text-keyed one.
abbrev pub Key : KeyKind → Type 0
Key int_keys = ℕ
Key text_keys = Bytes

-- `Items` is `Vec<Cv>`, and `Pairs kind` is `Vec<(K, Cv)>`.
mutual
  pub data Cv : Type 0 where
    u64 : ℕ → Cv
    bytes : Bytes → Cv
    text : Bytes → Cv
    bool : Bool → Cv
    array : Items → Cv
    map : Pairs int_keys → Cv
    text_map : Pairs text_keys → Cv

  pub data Items : Type 0 where
    no_items : Items
    item : Cv → Items → Items

  pub data Pairs : KeyKind → Type 0 where
    no_pairs : {kind : KeyKind} → Pairs kind
    pair : {kind : KeyKind} → Key kind → Cv → Pairs kind → Pairs kind

-- `a.len()` and `m.len()`
unfoldable pub count_items : Items → ℕ
count_items no_items = 0
count_items (item v vs) = suc (count_items vs)

unfoldable pub count_pairs : {kind : KeyKind} → Pairs kind → ℕ
count_pairs no_pairs = 0
count_pairs (pair k v fs) = suc (count_pairs fs)

-- `Vec::push`
unfoldable pub push_pair : {kind : KeyKind} → Pairs kind → Key kind → Cv → Pairs kind
push_pair no_pairs k v = pair k v no_pairs
push_pair (pair j w fs) k v = pair j w (push_pair fs k v)

pub data CborError : Type 0 where
  malformed non_shortest_form indefinite_length map_key_order trailing_data float_present :
      CborError
  null_present tag_or_undefined : CborError
  duplicate_key : ℕ → CborError
  duplicate_text_key mixed_map_keys int_range type_mismatch : CborError
  unknown_key : ℕ → CborError
  missing_key : ℕ → CborError
  manifest_key_present manifest_empty_chunks : CborError
  unknown_suite : ℕ → CborError
  unknown_discriminant : ℕ → CborError
