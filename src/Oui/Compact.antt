-- ===== src/Oui/Compact.antt =====
-- oui.rs: a written compact file reads back.
use uscan.Prelude.{
  ℕ, ◌+◌, ◌*◌, ◌/◌, ◌%◌, ◌≤◌, ◌<◌, ◌≡◌, ◌≢◌, refl, ap, ◌∙◌, true, false, List, [], ◌∷◌, ◌++◌,
  Option, none, some, arith,
}
use uscan.Prelude.{
  ◌==◌, ◌=t=◌, if◌then◌else◌, length, all, take, All, All-append, Bytes, Text, IsByte,
}
use uscan.Prelude.Maps.{insert, lookup, lookup-insert}
use uscan.Addr.Display.{upper_digit, hex_byte_upper}
use uscan.Utf8.{as_bytes}
use uscan.Utf8.RoundTrip.{as_bytes_ascii}
use uscan.Devices.{is_hex_digit}
use uscan.Strings.{lines, extend, trim, split_once, hex_digits, from_str_radix}
use uscan.Provision.Macs.{IsDigit, upper_digit-IsDigit}
use uscan.Oui.{
  OuiMap, entry, Parsed, some_map, no_map, oui_of, compact_line, read_lines, parse_compact,
  lookup_vendor,
}

-- One vendor with its three bytes.
pub record Vendor : Type 0 where
  pub a : ℕ
  pub b : ℕ
  pub c : ℕ
  pub name : Text

-- Bytes, and a name on one line without white space around it.
pub record IsVendor (v : Vendor) : Type 0 where
  pub bytes : All IsByte (v.a ∷ v.b ∷ v.c ∷ [])
  pub one_line : All (λ k. (k ≢ 10) × (k ≢ 13)) v.name
  pub trimmed : trim v.name ≡ v.name

abbrev pub line_of : Vendor → Text
line_of v = (hex_byte_upper v.a ++ (hex_byte_upper v.b ++ hex_byte_upper v.c)) ++ (9 ∷ v.name)

abbrev pub file_of : List Vendor → Text
file_of [] = []
file_of (v ∷ vs) = line_of v ++ (10 ∷ file_of vs)

-- The map of a list: a later vendor takes the place of an earlier one.
abbrev pub map_of : List Vendor → OuiMap → OuiMap
map_of [] m = m
map_of (v ∷ vs) m = map_of vs (insert (v.a ∷ v.b ∷ v.c ∷ []) v.name m)

radix :
    (x y a b : ℕ)
    → IsDigit x a
    → IsDigit y b
    → from_str_radix 0xff (x ∷ (y ∷ [])) ≡ some (a * 16 + b)
unfolding from_str_radix hex_digits
radix x y a b p q = ground (arith, p.value, q.value, p.small, q.small, p.no_plus)

radix-hex_byte_upper : (b : ℕ) → IsByte b → from_str_radix 0xff (hex_byte_upper b) ≡ some b
unfolding hex_byte_upper
radix-hex_byte_upper b h =
    let e : b / 16 * 16 + b % 16 ≡ b = omega arith in
    radix (upper_digit (b / 16)) (upper_digit (b % 16)) (b / 16) (b % 16)
      (upper_digit-IsDigit (b / 16) (omega arith)) (upper_digit-IsDigit (b % 16) (omega arith))
    ∙ ap some e

abbrev hex : Vendor → Text
hex v = hex_byte_upper v.a ++ (hex_byte_upper v.b ++ hex_byte_upper v.c)

split_once-append : (p s : Text) → All (λ k. k ≢ 9) p → split_once 9 (p ++ (9 ∷ s)) ≡ some (p, s)
unfolding split_once
split_once-append [] s h = refl
split_once-append (c ∷ p) s (h, hs) = ground (arith, h, split_once-append p s hs)

lines_line :
    (l rest : Text) → All (λ k. (k ≢ 10) × (k ≢ 13)) l → lines (l ++ (10 ∷ rest)) ≡ l ∷ lines rest
unfolding lines
lines_line [] rest h = refl
lines_line (c ∷ l) rest (h, hs) =
    let newline : (c == 10) ≡ false = ground arith in
    let return : (c == 13) ≡ false = ground arith in
    rw (newline, return) (ap (extend c) (lines_line l rest hs))

digit_high : (k : ℕ) → is_hex_digit k ≡ true → 48 ≤ k
unfolding is_hex_digit
digit_high k h = ground (arith, h)

-- The six characters of the prefix.
module _ (v : Vendor) (h : IsVendor v) where
  d0 : IsDigit (upper_digit (v.a / 16)) (v.a / 16)
  d0 = let b = h.bytes.0 in upper_digit-IsDigit (v.a / 16) (omega arith)

  d1 : IsDigit (upper_digit (v.a % 16)) (v.a % 16)
  d1 = upper_digit-IsDigit (v.a % 16) (omega arith)

  d2 : IsDigit (upper_digit (v.b / 16)) (v.b / 16)
  d2 = let b = h.bytes.1.0 in upper_digit-IsDigit (v.b / 16) (omega arith)

  d3 : IsDigit (upper_digit (v.b % 16)) (v.b % 16)
  d3 = upper_digit-IsDigit (v.b % 16) (omega arith)

  d4 : IsDigit (upper_digit (v.c / 16)) (v.c / 16)
  d4 = let b = h.bytes.1.1.0 in upper_digit-IsDigit (v.c / 16) (omega arith)

  d5 : IsDigit (upper_digit (v.c % 16)) (v.c % 16)
  d5 = upper_digit-IsDigit (v.c % 16) (omega arith)

  -- Six facts on the characters, one for each.
  six : (P : ℕ → Type 0) → ((k n : ℕ) → IsDigit k n → P k) → All P (hex v)
  unfolding hex_byte_upper
  six P f = (f _ _ d0, (f _ _ d1, (f _ _ d2, (f _ _ d3, (f _ _ d4, (f _ _ d5, tt))))))

  oui_of-hex : oui_of (hex v) ≡ some (v.a ∷ v.b ∷ v.c ∷ [])
  unfolding oui_of hex_byte_upper
  oui_of-hex =
      let ba = h.bytes.0 in
      let bb = h.bytes.1.0 in
      let bc = h.bytes.1.1.0 in
      ground (
        arith,
        radix-hex_byte_upper v.a ba,
        radix-hex_byte_upper v.b bb,
        radix-hex_byte_upper v.c bc,
      )

  ascii_hex : as_bytes (hex v) ≡ hex v
  ascii_hex = as_bytes_ascii (hex v) (six (λ k. k < 0x80) (λ k n d. d.ascii))

  all_digits : all is_hex_digit (hex v) ≡ true
  all_digits = all-digits (hex v) (six (λ k. is_hex_digit k ≡ true) (λ k n d. d.digit))
    where
      all-digits : (t : Text) → All (λ k. is_hex_digit k ≡ true) t → all is_hex_digit t ≡ true
      all-digits [] u = refl
      all-digits (k ∷ t) (u, us) = ground (arith, u, all-digits t us)

  length-hex : length (hex v) ≡ 6
  unfolding hex_byte_upper
  length-hex = refl

  compact_line-line_of : compact_line (line_of v) ≡ entry (v.a ∷ v.b ∷ v.c ∷ []) v.name
  unfolding compact_line
  compact_line-line_of =
      let split = split_once-append (hex v) v.name (six (λ k. k ≢ 9) no_tab) in
      ground (arith, split, ascii_hex, all_digits, length-hex, oui_of-hex, h.trimmed)
    where
      no_tab : (k n : ℕ) → IsDigit k n → k ≢ 9
      no_tab k n d = λ e. let high = digit_high k d.digit in omega (arith, e, high)

  no_end : All (λ k. (k ≢ 10) × (k ≢ 13)) (line_of v)
  no_end =
      All-append (λ k. (k ≢ 10) × (k ≢ 13)) (hex v) (9 ∷ v.name)
        (six (λ k. (k ≢ 10) × (k ≢ 13)) visible)
        (((λ e. omega (arith, e)), (λ e. omega (arith, e))), h.one_line)
    where
      visible : (k n : ℕ) → IsDigit k n → (k ≢ 10) × (k ≢ 13)
      visible k n d =
          let high = digit_high k d.digit in
          ((λ e. omega (arith, e, high)), (λ e. omega (arith, e, high)))

-- What is returned at the end of the lines.
abbrev finish : OuiMap → Parsed
finish [] = no_map
finish (x ∷ m) = some_map (x ∷ m)

read_lines-nil : (m : OuiMap) → read_lines compact_line [] m ≡ finish m
unfolding read_lines
read_lines-nil [] = refl
read_lines-nil (x ∷ m) = refl

read_lines-entry :
    (l : Text) (ls : List Text) (m : OuiMap) (oui : Bytes) (vendor : Text)
    → compact_line l ≡ entry oui vendor
    → read_lines compact_line (l ∷ ls) m ≡ read_lines compact_line ls (insert oui vendor m)
unfolding read_lines
read_lines-entry l ls [] oui vendor h = ground (arith, h)
read_lines-entry l ls (x ∷ m) oui vendor h = ground (arith, h)

read_lines-file_of :
    (vs : List Vendor) (m : OuiMap)
    → All IsVendor vs
    → read_lines compact_line (lines (file_of vs)) m ≡ finish (map_of vs m)
unfolding lines
read_lines-file_of [] m h = read_lines-nil m
read_lines-file_of (v ∷ vs) m (h, hs) =
    ap (λ ls. read_lines compact_line ls m) (lines_line (line_of v) (file_of vs) (no_end v h))
    ∙ read_lines-entry (line_of v) (lines (file_of vs)) m (v.a ∷ v.b ∷ v.c ∷ []) v.name
        (compact_line-line_of v h)
    ∙ read_lines-file_of vs (insert (v.a ∷ v.b ∷ v.c ∷ []) v.name m) hs

-- The last vendor of a list with the three bytes, or what was known before.
abbrev pub vendor_of : Bytes → List Vendor → Option Text → Option Text
vendor_of k [] known = known
vendor_of k (v ∷ vs) known =
    vendor_of k vs (if (v.a ∷ v.b ∷ v.c ∷ []) =t= k then some v.name else known)

lookup-map_of :
    (k : Bytes) (vs : List Vendor) (m : OuiMap)
    → lookup k (map_of vs m) ≡ vendor_of k vs (lookup k m)
lookup-map_of k [] m = refl
lookup-map_of k (v ∷ vs) m =
    lookup-map_of k vs (insert (v.a ∷ v.b ∷ v.c ∷ []) v.name m)
    ∙ ap (vendor_of k vs) (lookup-insert (v.a ∷ v.b ∷ v.c ∷ []) k v.name m)

lookup_vendor-finish :
    (m : OuiMap) (mac : Bytes) → lookup_vendor (finish m) mac ≡ lookup (take 3 mac) m
unfolding lookup_vendor lookup
lookup_vendor-finish [] mac = refl
lookup_vendor-finish (x ∷ m) mac = refl

-- A compact file that is written from vendors, whose names are one line without white space around
-- it, is read as they are: a MAC has the vendor of the last line with its first three bytes, and
-- without such a line it has none.
pub lookup_vendor-parse_compact :
    (vs : List Vendor) (mac : Bytes)
    → All IsVendor vs
    → lookup_vendor (parse_compact (file_of vs)) mac ≡ vendor_of (take 3 mac) vs none
unfolding parse_compact lookup
lookup_vendor-parse_compact vs mac h =
    ap (λ p. lookup_vendor p mac) (read_lines-file_of vs [] h)
    ∙ lookup_vendor-finish (map_of vs []) mac
    ∙ lookup-map_of (take 3 mac) vs []
