-- ===== src/Oui.antt =====
-- universal-scanner/src/oui.rs: the parsers of the two vendor files and the lookup of a MAC. The texts
-- are arguments: a file of the system or of the cache, and the embedded one, unpacked.
pub mod Compact
use uscan.Prelude.{
  ℕ, ◌-◌, Bool, true, false, not, ◌&&◌, ◌||◌, List, [], ◌∷◌, ◌++◌, Option, none, some,
}
use uscan.Prelude.{ltb, ◌==◌, if◌then◌else◌, length, all, take, drop, byte, Bytes, Text, codes}
use uscan.Prelude.Maps.{Assoc, lookup, insert}
use uscan.Utf8.{encode_char, as_bytes}
use uscan.Devices.{is_hex_digit, is_empty}
use uscan.Strings.{lines, trim, trim_end, split_once, split_at, from_str_radix}

-- `HashMap<[u8; 3], String>`
abbrev pub OuiMap : Type 0
OuiMap = Assoc Text

-- What a line leads to: the next line, an end with `None`, a stop inside a character, or an entry.
pub data Line : Type 0 where
  skipped : Line
  ended : Line
  panicked : Line
  entry : Bytes → Text → Line

-- What a file leads to.
pub data Parsed : Type 0 where
  no_map : Parsed
  panic : Parsed
  some_map : OuiMap → Parsed

-- The three `u8::from_str_radix(&hex[..], 16).ok()?` of six characters.
unfoldable pub oui_of : Text → Option Bytes
unfolding from_str_radix
oui_of hex = elim (from_str_radix 0xff (take 2 hex)) [
  | none ↦ none
  | some a ↦ elim (from_str_radix 0xff (take 2 (drop 2 hex))) [
    | none ↦ none
    | some b ↦ elim (from_str_radix 0xff (take 2 (drop 4 hex))) [
      | none ↦ none
      | some c ↦ some (a ∷ (b ∷ (c ∷ [])))
    ]
  ]
]

abbrev pub entry_of : Option Bytes → Text → Line
entry_of none vendor = ended
entry_of (some oui) vendor = entry oui vendor

-- A line of the compact format.
unfoldable pub compact_line : Text → Line
unfolding split_once oui_of trim as_bytes is_hex_digit
compact_line line = elim (split_once 9 line) [
  | none ↦ skipped
  | some (hex, vendor) ↦
      if length (as_bytes hex) == 6 && all is_hex_digit (as_bytes hex)
      then entry_of (oui_of hex) (trim vendor)
      else skipped
]

-- `&line[..n]`: the text of the first `n` bytes and what follows, unless that place lies inside a
-- character.
unfoldable pub split_bytes : ℕ → Text → Option (Text × Text)
unfolding encode_char
split_bytes n [] = if n == 0 then some ([], []) else none
split_bytes n (c ∷ s) = elim (n == 0) [
  | true ↦ some ([], c ∷ s)
  | false ↦ elim (ltb n (length (encode_char c))) [
    | true ↦ none
    | false ↦ elim (split_bytes (n - length (encode_char c)) s) [
      | none ↦ none
      | some (a, b) ↦ some (c ∷ a, b)
    ]
  ]
]

-- The part before the marker is a prefix of six digits and white space.
abbrev pub prefix_line : Option (Text × Text) → Text → Line
prefix_line none after = panicked
prefix_line (some (prefix, gap)) after =
    if is_empty (trim gap) && all is_hex_digit (as_bytes prefix)
    then elim (oui_of prefix) [
      | none ↦ ended
      | some oui ↦ if is_empty (trim after) then skipped else entry oui (trim after)
    ]
    else skipped

-- A line of the official format.
unfoldable pub official_line : Text → Line
unfolding split_at split_bytes oui_of trim trim_end as_bytes is_hex_digit
official_line line = elim (split_at (codes "(base 16)") (trim_end line)) [
  | none ↦ skipped
  | some (before, after) ↦
      if ltb (length (as_bytes before)) 6 then skipped else prefix_line (split_bytes 6 before) after
]

-- The loop over the lines, with the map so far.
unfoldable pub read_lines : (Text → Line) → List Text → OuiMap → Parsed
read_lines read [] [] = no_map
read_lines read [] (x ∷ found) = some_map (x ∷ found)
read_lines read (l ∷ ls) found = elim (read l) [
  | skipped ↦ read_lines read ls found
  | ended ↦ no_map
  | panicked ↦ panic
  | entry oui vendor ↦ read_lines read ls (insert oui vendor found)
]

unfoldable pub parse_compact : Text → Parsed
unfolding lines read_lines compact_line
parse_compact text = read_lines compact_line (lines text) []

unfoldable pub parse_oui_file : Text → Parsed
unfolding lines read_lines official_line
parse_oui_file text = read_lines official_line (lines text) []

-- `load`: the first text of the system or the cache, or else the embedded one; a text without an
-- entry gives no map, and the embedded one is then not asked.
unfoldable pub load : Option Text → Option Text → Parsed
unfolding parse_oui_file parse_compact
load (some text) embedded = parse_oui_file text
load none none = no_map
load none (some text) = parse_compact text

-- The lookup of the first three bytes of a MAC.
unfoldable pub lookup_vendor : Parsed → Bytes → Option Text
lookup_vendor (some_map m) mac = lookup (take 3 mac) m
lookup_vendor no_map mac = none
lookup_vendor panic mac = none
