-- ===== src/Strings.antt =====
-- The standard library's functions on texts: white space, words, lines and hexadecimal numbers.
pub mod Find
use uscan.Prelude.{
  true, false, ℕ, ◌+◌, ◌-◌, ◌*◌, Bool, false, ◌&&◌, ◌||◌, List, [], ◌∷◌, Option, none, some,
}
use uscan.Prelude.{ltb, leb, ◌==◌, if◌then◌else◌, Text}
use uscan.Prelude.Options.{◌>>=◌}

-- `char::is_whitespace`
unfoldable pub is_whitespace : ℕ → Bool
is_whitespace c =
    (leb 9 c && leb c 13)
    || c == 32
    || c == 0x85
    || c == 0xa0
    || c == 0x1680
    || (leb 0x2000 c && leb c 0x200a)
    || c == 0x2028
    || c == 0x2029
    || c == 0x202f
    || c == 0x205f
    || c == 0x3000

-- A character in front of the first word.
abbrev pub extend : ℕ → List Text → List Text
extend c [] = (c ∷ []) ∷ []
extend c (w ∷ ws) = (c ∷ w) ∷ ws

-- `split_whitespace`, with the empty words still in: a word between every two spaces.
unfoldable pub words : Text → List Text
unfolding is_whitespace
words [] = [] ∷ []
words (c ∷ s) = let rest = words s in if is_whitespace c then [] ∷ rest else extend c rest

abbrev pub drop_empty : List Text → List Text
drop_empty [] = []
drop_empty ([] ∷ ws) = drop_empty ws
drop_empty ((c ∷ w) ∷ ws) = (c ∷ w) ∷ drop_empty ws

unfoldable pub split_whitespace : Text → List Text
unfolding words
split_whitespace s = drop_empty (words s)

unfoldable pub starts_newline : Text → Bool
starts_newline [] = false
starts_newline (c ∷ s) = c == 10

-- `str::lines`: a line ends in a newline, with a carriage return before it or not; the last one
-- needs no end.
unfoldable pub lines : Text → List Text
unfolding starts_newline
lines [] = []
lines (c ∷ s) =
    let rest = lines s in
    if c == 10 then [] ∷ rest else if c == 13 && starts_newline s then rest else extend c rest

-- `rsplit(':').next()`: what follows the last colon, or all of a text without one.
unfoldable pub after_last : ℕ → Text → Text → Text
after_last sep [] part = part
after_last sep (c ∷ s) part = after_last sep s (if c == sep then s else part)

-- The value of a hexadecimal digit.
unfoldable pub hex_value : ℕ → Option ℕ
hex_value c =
    if leb 48 c && leb c 57
    then some (c - 48)
    else if leb 65 c && leb c 70
    then some (c - 55)
    else if leb 97 c && leb c 102
    then some (c - 87)
    else none

-- The digits of a number of at most `bound`, behind the value so far.
unfoldable pub hex_digits : ℕ → ℕ → Text → Option ℕ
unfolding hex_value
hex_digits bound n [] = some n
hex_digits bound n (c ∷ s) = do
  v ← hex_value c
  if ltb bound (n * 16 + v) then none else hex_digits bound (n * 16 + v) s

-- `from_str_radix(s, 16)` of an unsigned type with the greatest value `bound`
unfoldable pub from_str_radix : ℕ → Text → Option ℕ
unfolding hex_digits
from_str_radix bound [] = none
from_str_radix bound (c ∷ []) = if c == 43 then none else hex_digits bound 0 (c ∷ [])
from_str_radix bound (c ∷ (e ∷ s)) =
    if c == 43 then hex_digits bound 0 (e ∷ s) else hex_digits bound 0 (c ∷ (e ∷ s))

-- `split(sep)`: the parts between the separators, an empty text having one empty part.
unfoldable pub split : ℕ → Text → List Text
split sep [] = [] ∷ []
split sep (c ∷ s) = let rest = split sep s in if c == sep then [] ∷ rest else extend c rest

unfoldable pub trim_start : Text → Text
unfolding is_whitespace
trim_start [] = []
trim_start (c ∷ s) = let rest = trim_start s in if is_whitespace c then rest else c ∷ s

-- A text of white space alone is empty; another keeps what stands before its last other character.
unfoldable pub trim_end : Text → Text
unfolding is_whitespace
trim_end [] = []
trim_end (c ∷ s) = elim (trim_end s) [
  | [] ↦ if is_whitespace c then [] else c ∷ []
  | d ∷ rest ↦ c ∷ (d ∷ rest)
]

unfoldable pub trim : Text → Text
unfolding trim_start trim_end
trim s = trim_end (trim_start s)

-- `split_once(sep)`: what stands before the first separator, and behind it.
unfoldable pub split_once : ℕ → Text → Option (Text × Text)
split_once sep [] = none
split_once sep (c ∷ s) = elim (c == sep) [
  | true ↦ some ([], s)
  | false ↦ elim (split_once sep s) [ none ↦ none | some (a, b) ↦ some (c ∷ a, b) ]
]

-- A text that starts with another, without it.
unfoldable pub strip_prefix : Text → Text → Option Text
strip_prefix [] s = some s
strip_prefix (m ∷ ms) [] = none
strip_prefix (m ∷ ms) (c ∷ s) = let rest = strip_prefix ms s in if m == c then rest else none

-- `find(marker)`: what stands before the first place of a text, and behind the text there.
unfoldable pub split_at : Text → Text → Option (Text × Text)
unfolding strip_prefix
split_at marker [] = none
split_at marker (c ∷ s) = elim (strip_prefix marker (c ∷ s)) [
  | some after ↦ some ([], after)
  | none ↦ elim (split_at marker s) [ none ↦ none | some (a, b) ↦ some (c ∷ a, b) ]
]
