-- ===== src/Cbor/Decode.antt =====
-- crates/kotva-core/src/cbor.rs, the decoder. `Decoder { b, pos }` is the list of the bytes from
-- `pos` on: `pos` advances by dropping them. An error leaves no cursor, as `?` drops the decoder.
use dmtap.Prelude.{
  ℕ, zero, suc, ◌+◌, ◌-◌, ◌/◌, ◌&&◌, ◌^◌, bit_and, true, false, Bytes, Option, none, some, [], ◌∷◌,
  length, take, drop, ltb, leb, ◌==◌, if◌then◌else◌, Ordering, from_be_bytes,
}
use dmtap.Result
use dmtap.Result.{Result, ok, err}
use dmtap.Cbor.Value.{
  Cv, Items, Pairs, KeyKind, Key, int_keys, text_keys, u64, bytes, text, bool, array, map, text_map,
  no_items, item, no_pairs, push_pair, CborError, malformed, non_shortest_form, indefinite_length,
  map_key_order, trailing_data, float_present, null_present, tag_or_undefined, duplicate_key,
  duplicate_text_key, mixed_map_keys, int_range,
}
use dmtap.Cbor.Encode.{cmp_bytes}
use dmtap.Cbor.Utf8.{is_utf8}

abbrev pub Parser {ℓ} : Type ℓ → Type ℓ
Parser A = Bytes → Result CborError (A × Bytes)

abbrev pub pure {ℓ} : {A : Type ℓ} → A → Parser A
pure a bs = ok (a, bs)

abbrev pub raise {ℓ} : {A : Type ℓ} → CborError → Parser A
raise e bs = err e

module _ {ℓ κ} {A : Type ℓ} {B : Type κ} where
  infixl 1 ◌>>=◌ ◌>>◌
  abbrev pub ◌>>=◌ : Parser A → (A → Parser B) → Parser B
  ◌>>=◌ p f bs = Result.◌>>=◌ (p bs) λ (a, rest). f a rest

  abbrev pub ◌>>◌ : Parser A → Parser B → Parser B
  p >> q = p >>= λ _. q

-- `const MAX_NESTING_DEPTH: u32 = 64`
abbrev pub max_nesting_depth : ℕ
max_nesting_depth = 64

unfoldable pub byte : Parser ℕ
byte [] = err malformed
byte (b ∷ bs) = ok (b, bs)

-- A `pos + n` that overflows is past the end too, and fails alike.
unfoldable pub take_bytes : ℕ → Parser Bytes
take_bytes n bs = if leb n (length bs) then ok (take n bs, drop n bs) else err malformed

-- The argument that follows in `width` bytes: it must be above the greatest that a shorter head holds.
unfoldable pub wide_argument : ℕ → ℕ → Parser ℕ
wide_argument width shorter_max = do
  b ← take_bytes width
  let v = from_be_bytes b
  if leb v shorter_max then raise non_shortest_form else pure v

unfoldable pub argument : ℕ → Parser ℕ
argument ai =
    if ltb ai 24
    then pure ai
    else if ai == 24
    then (do v ← byte; if ltb v 24 then raise non_shortest_form else pure v)
    else if ai == 25
    then wide_argument 2 0xff
    else if ai == 26
    then wide_argument 4 0xffff
    else if ai == 27
    then wide_argument 8 0xffff_ffff
    else if ltb ai 31
    then raise malformed
    else raise indefinite_length

unfoldable pub simple : ℕ → Parser Cv
simple ai =
    if ai == 20
    then pure (bool false)
    else if ai == 21
    then pure (bool true)
    else if ai == 22
    then raise null_present
    else if ai == 23
    then raise tag_or_undefined
    else if ai == 24
    then (do byte; raise tag_or_undefined)
    else if ai == 25
    then (do take_bytes 2; raise float_present)
    else if ai == 26
    then (do take_bytes 4; raise float_present)
    else if ai == 27
    then (do take_bytes 8; raise float_present)
    else if leb 28 ai && leb ai 30
    then raise malformed
    else raise indefinite_length

-- `for _ in 0..n { out.push(self.value(depth + 1)?) }`, with `child` for `self.value(depth + 1)`.
unfoldable pub array_items : Parser Cv → ℕ → Parser Items
array_items child zero = pure no_items
array_items child (suc n) = do v ← child; vs ← array_items child n; pure (item v vs)

-- The variables of the loop in `map`.
pub record MapState : Type 0 where
  pub i : ℕ
  pub prev_key : Bytes
  pub kind : Option KeyKind
  pub int_out : Pairs int_keys
  pub text_out : Pairs text_keys

abbrev pub map_start : MapState
map_start = record { i = 0; prev_key = []; kind = none; int_out = no_pairs; text_out = no_pairs }

-- The key, and `self.b[key_start..self.pos]`.
unfoldable pub read_key : Parser Cv → Parser (Cv × Bytes)
read_key child bs =
    Result.◌>>=◌ (child bs) λ (key, rest). ok ((key, take (length bs - length rest) bs), rest)

unfoldable pub duplicate : Cv → CborError
duplicate (u64 k) = duplicate_key k
duplicate _ = duplicate_text_key

unfoldable pub check_key_order : MapState → Cv → Bytes → Parser (Unit {0})
unfolding duplicate
check_key_order st key key_bytes =
    if ltb 0 st.i
    then (elim (cmp_bytes key_bytes st.prev_key) [
      | Ordering.lt ↦ raise map_key_order
      | Ordering.eq ↦ raise (duplicate key)
      | Ordering.gt ↦ pure tt
    ])
    else pure tt

-- `int_out.push((k, val))` or `text_out.push((s, val))`, and the loop's other updates.
unfoldable pub push_entry : (kind : KeyKind) → MapState → Bytes → Key kind → Cv → MapState
push_entry int_keys st key_bytes k val = record st {
  i = st.i + 1;
  prev_key = key_bytes;
  kind = some int_keys;
  int_out = push_pair st.int_out k val;
}
push_entry text_keys st key_bytes s val = record st {
  i = st.i + 1;
  prev_key = key_bytes;
  kind = some text_keys;
  text_out = push_pair st.text_out s val;
}

-- `match (&kind, key)`
unfoldable pub add_entry : MapState → Bytes → Cv → Option KeyKind → Cv → Parser MapState
add_entry st key_bytes (u64 k) none val = pure (push_entry int_keys st key_bytes k val)
add_entry st key_bytes (text s) none val = pure (push_entry text_keys st key_bytes s val)
add_entry st key_bytes (u64 k) (some int_keys) val = pure (push_entry int_keys st key_bytes k val)
add_entry st key_bytes (text s) (some text_keys) val =
    pure (push_entry text_keys st key_bytes s val)
add_entry st key_bytes _ _ val = raise mixed_map_keys

unfoldable pub map_entry : Parser Cv → MapState → Parser MapState
map_entry child st = do
  (key, key_bytes) ← read_key child
  check_key_order st key key_bytes
  val ← child
  add_entry st key_bytes key st.kind val

unfoldable pub map_loop : Parser Cv → ℕ → MapState → Parser MapState
map_loop child zero st = pure st
map_loop child (suc n) st = do st' ← map_entry child st; map_loop child n st'

-- `match kind { Some(KeyKind::Text) => …, _ => … }`
unfoldable pub map_result : Option KeyKind → MapState → Cv
map_result (some text_keys) st = text_map st.text_out
map_result (some int_keys) st = map st.int_out
map_result none st = map st.int_out

unfoldable pub decode_map : Parser Cv → ℕ → Parser Cv
decode_map child ai = do
  n ← argument ai
  if n == 0
      then pure (map no_pairs)
      else do st ← map_loop child n map_start; pure (map_result st.kind st)

-- `match major`
unfoldable pub dispatch : Parser Cv → ℕ → ℕ → Parser Cv
dispatch child major ai =
    if major == 0
    then (do n ← argument ai; pure (u64 n))
    else if major == 1
    then (do argument ai; raise int_range)
    else if major == 2
    then (do n ← argument ai; b ← take_bytes n; pure (bytes b))
    else if major == 3
    then (do
      n ← argument ai
      s ← take_bytes n
      if is_utf8 s then pure (text s) else raise malformed)
    else if major == 4
    then (do n ← argument ai; out ← array_items child n; pure (array out))
    else if major == 5
    then decode_map child ai
    else if major == 6
    then (do argument ai; raise tag_or_undefined)
    else simple ai

-- `value(depth)` for `depth = MAX_NESTING_DEPTH + 1 - levels`: at `levels = 0` the depth is past the
-- bound.
unfoldable pub value : ℕ → Parser Cv
value zero bs = err malformed
value (suc levels) bs =
    Result.◌>>=◌ (byte bs) λ (ib, rest). dispatch (value levels) (ib / 2 ^ 5) (bit_and ib 0x1f) rest

unfoldable pub finish : Cv → Bytes → Result CborError Cv
finish cv [] = ok cv
finish cv (b ∷ bs) = err trailing_data

unfoldable pub decode : Bytes → Result CborError Cv
unfolding finish
decode bs = Result.◌>>=◌ (value (max_nesting_depth + 1) bs) λ (cv, rest). finish cv rest
