-- ===== src/Protocols/Vision360/Marks.antt =====
-- protocols/vision360.rs: the values of the pairs, as words and in quotation marks.
use uscan.Prelude.{
  ℕ, ◌<◌, ◌≡◌, refl, ap, Bool, true, false, ◌||◌, [], ◌∷◌, ◌++◌, Option, none, some, arith,
}
use uscan.Prelude.{◌==◌, All, Text}
use uscan.Strings.{split_once}
use uscan.Strings.Find.{before_first, from_first, last_or, without_last}
use uscan.Protocols.Vision360.{is_space, word_at, value_at, strip_paired_quotes}

-- A text that is empty or begins with a character of the kind.
abbrev pub stops : (ℕ → Bool) → Text → Bool
stops f [] = true
stops f (y ∷ ys) = f y

pub from_first-stops :
    (f : ℕ → Bool) (xs rest : Text)
    → All (λ x. f x ≡ false) xs
    → stops f rest ≡ true
    → (from_first f (xs ++ rest) ≡ rest) × (before_first f (xs ++ rest) ≡ xs)
unfolding from_first before_first
from_first-stops f [] [] h e = (refl, refl)
from_first-stops f [] (y ∷ ys) h e = (ground (arith, e), ground (arith, e))
from_first-stops f (x ∷ xs) rest (h, hs) e =
    let (later, before) = from_first-stops f xs rest hs e in
    (ground (arith, h, later), ground (arith, h, before))

-- A value as it is written, bare or between two marks.
abbrev pub written : Option ℕ → Text → Text
written none value = value
written (some mark) value = mark ∷ (value ++ (mark ∷ []))

-- A bare value is a word that does not begin with a quotation mark; between two quotation marks of one
-- kind stand any characters but that mark.
abbrev pub IsValue : Option ℕ → Text → Type 0
IsValue none [] = 0 < 0
IsValue none (c ∷ s) =
    ((c == 39 || c == 34) ≡ false) × (is_space c ≡ false) × All (λ x. is_space x ≡ false) s
IsValue (some mark) value =
    ((mark == 39 || mark == 34) ≡ true) × All (λ x. (x == mark) ≡ false) value

pub strip_paired_quotes-unquoted :
    (q : ℕ) (s : Text) → (q == 39 || q == 34) ≡ false → strip_paired_quotes (q ∷ s) ≡ q ∷ s
unfolding strip_paired_quotes
strip_paired_quotes-unquoted q [] h = refl
strip_paired_quotes-unquoted q (b ∷ s) h = ground (arith, h)

pub value_at-unquoted :
    (q : ℕ) (s rest : Text)
    → (q == 39 || q == 34) ≡ false
    → is_space q ≡ false
    → All (λ x. is_space x ≡ false) s
    → stops is_space rest ≡ true
    → value_at q (s ++ rest) ≡ (q ∷ s, rest)
unfolding value_at word_at
value_at-unquoted q s rest unquoted space spaces e =
    let (later, before) = from_first-stops is_space (q ∷ s) rest (space, spaces) e in
    rw (unquoted, later, before) refl

split_once-mark :
    (mark : ℕ) (value rest : Text)
    → All (λ x. (x == mark) ≡ false) value
    → split_once mark ((value ++ (mark ∷ [])) ++ rest) ≡ some (value, rest)
unfolding split_once
split_once-mark mark [] rest h = ground arith
split_once-mark mark (c ∷ value) rest (h, hs) =
    ground (arith, h, split_once-mark mark value rest hs)

pub value_at-quoted :
    (mark : ℕ) (value rest : Text)
    → (mark == 39 || mark == 34) ≡ true
    → All (λ x. (x == mark) ≡ false) value
    → value_at mark ((value ++ (mark ∷ [])) ++ rest) ≡ (mark ∷ (value ++ (mark ∷ [])), rest)
unfolding value_at
value_at-quoted mark value rest quotes h =
    rw (quotes, value_at, split_once-mark mark value rest h) refl

last_or-append : (c mark : ℕ) (value : Text) → last_or c (value ++ (mark ∷ [])) ≡ mark
last_or-append c mark [] = refl
last_or-append c mark (d ∷ value) = last_or-append d mark value

without_last-append : (mark : ℕ) (value : Text) → without_last (value ++ (mark ∷ [])) ≡ value
unfolding without_last
without_last-append mark [] = refl
without_last-append mark (c ∷ []) = refl
without_last-append mark (c ∷ (d ∷ value)) = ap (λ s. c ∷ s) (without_last-append mark (d ∷ value))

pub strip_paired_quotes-quoted :
    (mark : ℕ) (value : Text)
    → (mark == 39 || mark == 34) ≡ true
    → strip_paired_quotes (mark ∷ (value ++ (mark ∷ []))) ≡ value
unfolding strip_paired_quotes without_last
strip_paired_quotes-quoted mark [] quotes = ground (arith, quotes)
strip_paired_quotes-quoted mark (c ∷ value) quotes =
    ground (arith, quotes, last_or-append c mark value, without_last-append mark (c ∷ value))
