-- ===== src/Protocols/Seek.antt =====
-- The search of protocols/dahua2.rs and eaton.rs: the first place of a marker behind which an attempt
-- succeeds, where each failed attempt goes on one character behind the start of the marker.
use uscan.Prelude.{ℕ, zero, suc, ◌+◌, Option, none, some}
use uscan.Prelude.{length, drop, Text}
use uscan.Strings.{split_at}

-- An attempt finds a text, finds none, or stops by a panic.
pub data Attempt : Type 0 where
  found : Text → Attempt
  missed : Attempt
  panicked : Attempt

unfoldable pub seek_loop : ℕ → Text → (Text → Attempt) → Text → Attempt
seek_loop zero marker attempt s = missed
seek_loop (suc fuel) marker attempt s = elim (split_at marker s) [
  | none ↦ missed
  | some (before, after) ↦ elim (attempt after) [
    | found t ↦ found t
    | panicked ↦ panicked
    | missed ↦ seek_loop fuel marker attempt (drop (length before + 1) s)
  ]
]

-- A text has fewer places for the marker than it has characters, and one.
unfoldable pub seek : Text → (Text → Attempt) → Text → Attempt
unfolding seek_loop
seek marker attempt s = seek_loop (suc (length s)) marker attempt s

abbrev pub found_text : Attempt → Option Text
found_text (found t) = some t
found_text missed = none
found_text panicked = none
