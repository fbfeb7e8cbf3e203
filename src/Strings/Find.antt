-- ===== src/Strings/Find.antt =====
-- The standard library's functions on texts: searching, splitting at sets of characters, ASCII case,
-- and the checked conversion from UTF-8.
use uscan.Prelude.{ℕ, ◌+◌, Bool, true, false, ◌&&◌, ◌||◌, List, [], ◌∷◌, map, Option, none, some}
use uscan.Prelude.{leb, ◌=t=◌, if◌then◌else◌, Bytes, Text}
use uscan.Strings.{extend, strip_prefix, split_at}
use uscan.Utf8.{as_bytes, from_utf8_lossy}

-- `starts_with(marker)`
abbrev pub starts_with : Text → Text → Bool
starts_with marker s = elim (strip_prefix marker s) [ none ↦ false | some rest ↦ true ]

-- `contains(marker)`
unfoldable pub contains_text : Text → Text → Bool
contains_text marker s = elim (split_at marker s) [ none ↦ false | some found ↦ true ]

-- What stands before the first character that passes a test, and the text from it on.
unfoldable pub before_first : (ℕ → Bool) → Text → Text
before_first p [] = []
before_first p (c ∷ s) = let rest = before_first p s in if p c then [] else c ∷ rest

unfoldable pub from_first : (ℕ → Bool) → Text → Text
from_first p [] = []
from_first p (c ∷ s) = let rest = from_first p s in if p c then c ∷ s else rest

-- `split(|c| p(c))`
unfoldable pub split_on : (ℕ → Bool) → Text → List Text
split_on p [] = [] ∷ []
split_on p (c ∷ s) = let rest = split_on p s in if p c then [] ∷ rest else extend c rest

-- `to_ascii_lowercase`
abbrev pub lower : ℕ → ℕ
lower c = if leb 65 c && leb c 90 then c + 32 else c

unfoldable pub to_ascii_lowercase : Text → Text
to_ascii_lowercase s = map lower s

unfoldable pub eq_ignore_ascii_case : Text → Text → Bool
unfolding to_ascii_lowercase
eq_ignore_ascii_case s t = to_ascii_lowercase s =t= to_ascii_lowercase t

abbrev pub is_ascii_alphabetic : ℕ → Bool
is_ascii_alphabetic c = (leb 65 c && leb c 90) || (leb 97 c && leb c 122)

abbrev pub is_ascii_alphanumeric : ℕ → Bool
is_ascii_alphanumeric c = is_ascii_alphabetic c || (leb 48 c && leb c 57)

-- The last character of a text.
abbrev pub last_or : ℕ → Text → ℕ
last_or c [] = c
last_or c (d ∷ s) = last_or d s

-- All but the last character.
unfoldable pub without_last : Text → Text
without_last [] = []
without_last (c ∷ []) = []
without_last (c ∷ (d ∷ s)) = c ∷ without_last (d ∷ s)

-- `str::from_utf8`: bytes are valid exactly if they are the encoding of what the lossy decoder reads.
unfoldable pub from_utf8 : Bytes → Option Text
from_utf8 d = let text = from_utf8_lossy d in if as_bytes text =t= d then some text else none
