-- ===== src/Protocols/Xml.antt =====
-- The search for `<tag>content</tag>` that protocols/bosch.rs, eden.rs and hikvision.rs each have.
pub mod Search
use uscan.Prelude.{ℕ, zero, suc, ◌+◌, Bool, true, false, [], ◌∷◌, ◌++◌, Option, none, some}
use uscan.Prelude.{◌==◌, if◌then◌else◌, length, Text}
use uscan.Strings.{split_at}
use uscan.Strings.Find.{starts_with, before_first, from_first}

abbrev pub is_less : ℕ → Bool
is_less c = c == 60

-- `<tag>` and `</tag>`
abbrev pub open_tag : Text → Text
open_tag tag = 60 ∷ (tag ++ 62 ∷ [])

abbrev pub close_tag : Text → Text
close_tag tag = 60 ∷ (47 ∷ (tag ++ 62 ∷ []))

-- The loop over the cursor, on the text behind it; each round takes an opening tag.
unfoldable pub search_tag : ℕ → Text → Text → Option Text
unfolding before_first from_first
search_tag zero tag xml = none
search_tag (suc fuel) tag xml = elim (split_at (open_tag tag) xml) [
  | none ↦ none
  | some (before, after) ↦ elim (from_first is_less after) [
    | [] ↦ none
    | c ∷ s ↦ elim (starts_with (close_tag tag) (c ∷ s)) [
      | true ↦ some (before_first is_less after)
      | false ↦ search_tag fuel tag after
    ]
  ]
]

unfoldable pub extract_xml_string : Text → Text → Option Text
unfolding search_tag
extract_xml_string xml tag = search_tag (suc (length xml)) tag xml
