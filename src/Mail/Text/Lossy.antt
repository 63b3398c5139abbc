-- ===== src/Mail/Text/Lossy.antt =====
-- `String::from_utf8_lossy`, which crates/kotva-mail/src/smtp.rs calls on a command line: each longest beginning of
-- a character that does not go on as one gives U+FFFD.
use dmtap.Prelude.{ℕ, Bytes, [], ◌∷◌, ◌++◌}
use dmtap.Cbor.Utf8.{Utf8State, start, invalid, lead, utf8_step}

abbrev replacement : Bytes
replacement = 0xef ∷ 0xbf ∷ 0xbd ∷ []

-- What is written, and where that leaves the reader: the bytes of a character that is not complete.
pub record LossyState : Type 0 where
  pub place : Utf8State
  pub pending : Bytes

abbrev between_characters : LossyState
between_characters = record { place = start; pending = [] }

-- A byte at the begin of a character, of which `place` is what `lead` says.
unfoldable pub begun : ℕ → Utf8State → Bytes × LossyState
begun b start = (b ∷ [], between_characters)
begun b invalid = (replacement, between_characters)
begun b place = ([], record { place = place; pending = b ∷ [] })

unfoldable pub continued : Bytes → ℕ → Utf8State → Bytes × LossyState
continued pending b start = (pending ++ b ∷ [], between_characters)
continued pending b invalid = let (out, st) = begun b (lead b) in (replacement ++ out, st)
continued pending b place = ([], record { place = place; pending = pending ++ b ∷ [] })

unfoldable pub lossy_step : LossyState → ℕ → Bytes × LossyState
lossy_step st b = elim st.pending [
  | [] ↦ begun b (lead b)
  | p ∷ ps ↦ continued st.pending b (utf8_step st.place b)
]

unfoldable pub lossy_end : Bytes → Bytes
lossy_end [] = []
lossy_end (p ∷ ps) = replacement

unfoldable pub lossy_from : LossyState → Bytes → Bytes
lossy_from st [] = lossy_end st.pending
lossy_from st (b ∷ bs) = (lossy_step st b).0 ++ lossy_from (lossy_step st b).1 bs

unfoldable pub from_utf8_lossy : Bytes → Bytes
from_utf8_lossy bs = lossy_from between_characters bs
