-- ===== src/Cbor/Utf8.antt =====
-- `std::str::from_utf8`, which crates/kotva-core/src/cbor.rs calls on the payload of a text string:
-- the well-formed byte sequences of the Unicode standard, table 3-7, as a deterministic automaton.
use dmtap.Prelude.{ℕ, Bool, true, false, Bytes, [], ◌∷◌, ◌&&◌, ltb, leb, if◌then◌else◌}

-- What the next byte must be.
pub data Utf8State : Type 0 where
  start : Utf8State
  tail_1 tail_2 tail_3 : Utf8State
  after_e0 after_ed after_f0 after_f4 : Utf8State
  invalid : Utf8State

abbrev pub within : ℕ → ℕ → ℕ → Bool
within lo hi b = leb lo b && leb b hi

unfoldable pub lead : ℕ → Utf8State
lead b =
    if ltb b 0x80
    then start
    else if ltb b 0xc2
    then invalid
    else if ltb b 0xe0
    then tail_1
    else if within 0xe0 0xe0 b
    then after_e0
    else if within 0xed 0xed b
    then after_ed
    else if ltb b 0xf0
    then tail_2
    else if within 0xf0 0xf0 b
    then after_f0
    else if within 0xf1 0xf3 b
    then tail_3
    else if within 0xf4 0xf4 b
    then after_f4
    else invalid

unfoldable pub utf8_step : Utf8State → ℕ → Utf8State
unfolding lead
utf8_step start b = lead b
utf8_step tail_1 b = if within 0x80 0xbf b then start else invalid
utf8_step tail_2 b = if within 0x80 0xbf b then tail_1 else invalid
utf8_step tail_3 b = if within 0x80 0xbf b then tail_2 else invalid
utf8_step after_e0 b = if within 0xa0 0xbf b then tail_1 else invalid
utf8_step after_ed b = if within 0x80 0x9f b then tail_1 else invalid
utf8_step after_f0 b = if within 0x90 0xbf b then tail_2 else invalid
utf8_step after_f4 b = if within 0x80 0x8f b then tail_2 else invalid
utf8_step invalid b = invalid

utf8_ends : Utf8State → Bool
utf8_ends start = true
utf8_ends _ = false

utf8_from : Utf8State → Bytes → Bool
unfolding utf8_step utf8_ends
utf8_from s [] = utf8_ends s
utf8_from s (b ∷ bs) = utf8_from (utf8_step s b) bs

unfoldable pub is_utf8 : Bytes → Bool
unfolding utf8_from
is_utf8 bs = utf8_from start bs
