-- ===== src/Protocols/Xml/Search.antt =====
-- The cursor of `extract_xml_string` against a search at every place.
use uscan.Prelude.{
  ℕ, zero, suc, ◌+◌, ◌≤◌, ◌<◌, ◌≡◌, refl, sym, ap, ◌∙◌, false, [], ◌∷◌, ◌++◌, Option, none, some,
  arith,
}
use uscan.Prelude.{
  ◌==◌, if◌then◌else◌, length, length-append, Text, All, Bool-cases, Option-cases, inl, inr,
}
use mathlib.Core.Option
use uscan.Strings.{strip_prefix, split_at}
use uscan.Strings.Find.{starts_with, before_first, from_first}
use uscan.Protocols.Xml.{is_less, open_tag, close_tag, search_tag, extract_xml_string}

-- The content at the front of a text that follows an opening tag, if its closing tag is there.
abbrev closed : Text → Text → Option Text
closed tag after =
    if starts_with (close_tag tag) (from_first is_less after)
    then some (before_first is_less after)
    else none

-- A match of `<tag>([^<]*)</tag>` at the front of a text.
unfoldable pub match_here : Text → Text → Option Text
match_here tag xml = elim (strip_prefix (open_tag tag) xml) [
  | none ↦ none
  | some after ↦ closed tag after
]

abbrev first_some : Option Text → Option Text → Option Text
first_some none other = other
first_some (some content) other = some content

-- The first match at any place.
unfoldable pub first_match : Text → Text → Option Text
first_match tag [] = none
first_match tag (c ∷ s) = first_some (match_here tag (c ∷ s)) (first_match tag s)

strip_prefix-eq_some : (m s rest : Text) → strip_prefix m s ≡ some rest → s ≡ m ++ rest
unfolding strip_prefix
strip_prefix-eq_some [] s rest e = ground arith
strip_prefix-eq_some (a ∷ m) [] rest e = cc
strip_prefix-eq_some (a ∷ m) (c ∷ s) rest e = ground (arith, strip_prefix-eq_some m s rest)

-- No match starts at another character than `<`.
match_here_other :
    (tag : Text) (c : ℕ) (s : Text) → (c == 60) ≡ false → match_here tag (c ∷ s) ≡ none
unfolding match_here strip_prefix
match_here_other tag c s h = ground arith

-- A text without `<` in front changes nothing.
first_match-append :
    (tag w s : Text) → All (λ c. (c == 60) ≡ false) w → first_match tag (w ++ s) ≡ first_match tag s
unfolding first_match
first_match-append tag [] s h = refl
first_match-append tag (c ∷ w) s (h, k) =
    rw (match_here_other tag c (w ++ s) h, first_match) (first_match-append tag w s k)

first_match-none : (tag s : Text) → from_first is_less s ≡ [] → first_match tag s ≡ none
unfolding first_match from_first
first_match-none tag [] e = refl
first_match-none tag (c ∷ s) e = ground (arith, match_here_other tag c s, first_match-none tag s)

match_here_at :
    (tag s after : Text)
    → strip_prefix (open_tag tag) s ≡ some after
    → match_here tag s ≡ closed tag after
unfolding match_here strip_prefix
match_here_at tag s after e = rw e refl

match_here-none : (tag s : Text) → strip_prefix (open_tag tag) s ≡ none → match_here tag s ≡ none
unfolding match_here strip_prefix
match_here-none tag s e = rw e refl

split_at_here :
    (m : Text) (c : ℕ) (s rest : Text)
    → strip_prefix m (c ∷ s) ≡ some rest
    → split_at m (c ∷ s) ≡ some ([], rest)
unfolding split_at
split_at_here m c s rest e = rw (e, split_at) refl

split_at_later :
    (m : Text) (c : ℕ) (s : Text)
    → strip_prefix m (c ∷ s) ≡ none
    → split_at m (c ∷ s) ≡ Option.map (λ r. (c ∷ r.0, r.1)) (split_at m s)
unfolding split_at
split_at_later m c s e = ground (arith, e)

-- Where the opening tag stands nowhere, there is no match.
first_match_absent : (tag s : Text) → split_at (open_tag tag) s ≡ none → first_match tag s ≡ none
unfolding first_match
first_match_absent tag [] e = refl
first_match_absent tag (c ∷ s) e = elim (Option-cases (strip_prefix (open_tag tag) (c ∷ s))) [
  | inl away ↦
      rw (match_here-none tag (c ∷ s) away, first_match)
        (first_match_absent tag s (ground (arith, split_at_later (open_tag tag) c s away)))
  | inr (rest, here) ↦ cc (split_at_here (open_tag tag) c s rest here)
]

-- The first opening tag is the first place where a match can start.
first_match_at :
    (tag s before after : Text)
    → split_at (open_tag tag) s ≡ some (before, after)
    → first_match tag s
      ≡ first_some (closed tag after) (first_match tag ((tag ++ 62 ∷ []) ++ after))
unfolding first_match
first_match_at tag [] before after e = unfold split_at in cc e
first_match_at tag (c ∷ s) before after e =
    elim (Option-cases (strip_prefix (open_tag tag) (c ∷ s))) [
      | inl away ↦ elim (Option-cases (split_at (open_tag tag) s)) [
        | inl absent ↦ cc (absent, split_at_later (open_tag tag) c s away, e)
        | inr (found, there) ↦
            let same : found.1 ≡ after = ground (arith, split_at_later (open_tag tag) c s away) in
            rw (match_here-none tag (c ∷ s) away, first_match)
              (first_match_at tag s found.0 after (there ∙ ap (λ t. some (found.0, t)) same))
      ]
      | inr (rest, here) ↦
          let same : rest ≡ after = ground (arith, split_at_here (open_tag tag) c s rest here) in
          let front : first_match tag s ≡ first_match tag ((tag ++ 62 ∷ []) ++ rest) =
            ap (first_match tag)
              (ground (arith, strip_prefix-eq_some (open_tag tag) (c ∷ s) rest here)) in
          rw (match_here_at tag (c ∷ s) rest here, first_match, front, same) refl
    ]

length-split_at :
    (m s before after : Text)
    → split_at m s ≡ some (before, after)
    → length after + length m ≤ length s
length-split_at m [] before after e = unfold split_at in cc e
length-split_at m (c ∷ s) before after e = elim (Option-cases (strip_prefix m (c ∷ s))) [
  | inl away ↦ elim (Option-cases (split_at m s)) [
    | inl absent ↦ cc (absent, split_at_later m c s away, e)
    | inr (found, there) ↦
        let same : found.1 ≡ after = ground (arith, split_at_later m c s away) in
        rw (sym same) (omega (arith, length-split_at m s found.0 found.1 there))
  ]
  | inr (rest, here) ↦
      let same : rest ≡ after = ground (arith, split_at_here m c s rest here) in
      omega (
        arith,
        ap length (strip_prefix-eq_some m (c ∷ s) rest here),
        length-append m rest,
        ap length same,
      )
]

-- A tag without `<`, with its end.
abbrev pub IsTag : Text → Type 0
IsTag tag = All (λ c. (c == 60) ≡ false) (tag ++ 62 ∷ [])

-- A round that finds an opening tag, by what follows it.
search_tag_round :
    (fuel : ℕ) (tag xml before after rest : Text)
    → split_at (open_tag tag) xml ≡ some (before, after)
    → from_first is_less after ≡ rest
    → search_tag fuel tag after ≡ first_match tag after
    → search_tag (suc fuel) tag xml ≡ first_some (closed tag after) (first_match tag after)
unfolding search_tag strip_prefix
search_tag_round fuel tag xml before after [] there e ih =
    rw (there, search_tag, e, search_tag, first_match-none tag after e) refl
search_tag_round fuel tag xml before after (c ∷ s) there e ih =
    elim (Bool-cases (starts_with (close_tag tag) (c ∷ s))) [
      | inl ends ↦ rw (there, search_tag, e, search_tag, ends, search_tag) refl
      | inr other ↦ rw (there, search_tag, e, search_tag, other, search_tag) ih
    ]

search_tag-first_match :
    (fuel : ℕ) (tag xml : Text)
    → IsTag tag
    → length xml < fuel
    → search_tag fuel tag xml ≡ first_match tag xml
search_tag-first_match zero tag xml h lt = absurd (omega arith)
search_tag-first_match (suc fuel) tag xml h lt = elim (Option-cases (split_at (open_tag tag) xml)) [
  | inl absent ↦
      unfold search_tag in rw (absent, search_tag, first_match_absent tag xml absent) refl
  | inr ((before, after), there) ↦
      let shorter = length-split_at (open_tag tag) xml before after there in
      search_tag_round fuel tag xml before after (from_first is_less after) there refl
        (search_tag-first_match fuel tag after h (omega (arith, shorter)))
      ∙ sym (
          first_match_at tag xml before after there
          ∙ ap (first_some (closed tag after)) (first_match-append tag (tag ++ 62 ∷ []) after h))
]

-- The search with a cursor finds what a search at every place finds first: for a tag without `<`,
-- the content of the first `<tag>` that a text without `<` and then `</tag>` follow.
pub extract_xml_string-first_match :
    (xml tag : Text) → IsTag tag → extract_xml_string xml tag ≡ first_match tag xml
unfolding extract_xml_string
extract_xml_string-first_match xml tag h =
    search_tag-first_match (suc (length xml)) tag xml h (omega arith)
