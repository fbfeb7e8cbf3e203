-- ===== src/Provision/Macs.antt =====
-- tvt_provision.rs: the MAC that a user writes.
use uscan.Prelude.{
  ℕ, ◌+◌, ◌*◌, ◌/◌, ◌%◌, ◌<◌, ◌≡◌, ◌≢◌, refl, ap, ◌∙◌, true, false, List, [], ◌∷◌, ◌++◌, some, map,
  arith,
}
use uscan.Prelude.{◌==◌, length, length-map, All, Bytes, Text, IsByte}
use uscan.Prelude.Results.{ok}
use uscan.Addr.Display.{
  join, lower_digit, upper_digit, hex_byte, hex_byte_upper, mac_upper, mac_lower,
}
use uscan.Utf8.{as_bytes}
use uscan.Utf8.RoundTrip.{as_bytes_ascii}
use uscan.Devices.{is_hex_digit}
use uscan.Strings.{split, extend, hex_value, hex_digits, from_str_radix}
use uscan.Provision.{mac_part, all_parts, parse_mac}

-- A part has no colon.
abbrev pub NoColon : Text → Type 0
NoColon part = All (λ c. c ≢ 58) part

split-part : (p rest : Text) → NoColon p → split 58 (p ++ (58 ∷ rest)) ≡ p ∷ split 58 rest
unfolding split
split-part [] rest h = refl
split-part (c ∷ p) rest (h, hs) =
    let e : (c == 58) ≡ false = ground arith in rw e (ap (extend c) (split-part p rest hs))

split-last : (p : Text) → NoColon p → split 58 p ≡ p ∷ []
unfolding split
split-last [] h = refl
split-last (c ∷ p) (h, hs) =
    let e : (c == 58) ≡ false = ground arith in rw e (ap (extend c) (split-last p hs))

split-join :
    (p : Text) (ps : List Text) → All NoColon (p ∷ ps) → split 58 (join (58 ∷ []) (p ∷ ps)) ≡ p ∷ ps
unfolding join
split-join p [] (h, hs) = split-last p h
split-join p (q ∷ ps) (h, hs) =
    split-part p (join (58 ∷ []) (q ∷ ps)) h ∙ ap (λ l. p ∷ l) (split-join q ps hs)

-- A character that is a hexadecimal digit of a value.
pub record IsDigit (c v : ℕ) : Type 0 where
  pub digit : is_hex_digit c ≡ true
  pub value : hex_value c ≡ some v
  pub ascii : c < 0x80
  pub small : v < 16
  pub no_colon : c ≢ 58
  pub no_plus : c ≢ 43

pub lower_digit-IsDigit : (d : ℕ) → d < 16 → IsDigit (lower_digit d) d
unfolding is_hex_digit hex_value lower_digit
lower_digit-IsDigit d h = record {
  digit = ground arith;
  value = ground arith;
  ascii = ground arith;
  small = h;
  no_colon = ground arith;
  no_plus = ground arith;
}

pub upper_digit-IsDigit : (d : ℕ) → d < 16 → IsDigit (upper_digit d) d
unfolding is_hex_digit hex_value upper_digit
upper_digit-IsDigit d h = record {
  digit = ground arith;
  value = ground arith;
  ascii = ground arith;
  small = h;
  no_colon = ground arith;
  no_plus = ground arith;
}

mac_part-digits :
    (x y a b : ℕ) → IsDigit x a → IsDigit y b → mac_part (x ∷ (y ∷ [])) ≡ some (a * 16 + b)
unfolding mac_part from_str_radix hex_digits
mac_part-digits x y a b p q =
    let bytes : as_bytes (x ∷ (y ∷ [])) ≡ x ∷ (y ∷ []) =
      as_bytes_ascii (x ∷ (y ∷ [])) (p.ascii, (q.ascii, tt)) in
    ground (arith, bytes, p.digit, q.digit, p.value, q.value, p.small, q.small, p.no_plus)

mac_part-hex_byte : (b : ℕ) → IsByte b → (mac_part (hex_byte b) ≡ some b) × NoColon (hex_byte b)
unfolding hex_byte
mac_part-hex_byte b h =
    let p = lower_digit-IsDigit (b / 16) (omega arith) in
    let q = lower_digit-IsDigit (b % 16) (omega arith) in
    let e : b / 16 * 16 + b % 16 ≡ b = omega arith in
    (
      mac_part-digits (lower_digit (b / 16)) (lower_digit (b % 16)) (b / 16) (b % 16) p q
          ∙ ap some e,
      (p.no_colon, (q.no_colon, tt)),
    )

mac_part-hex_byte_upper :
    (b : ℕ) → IsByte b → (mac_part (hex_byte_upper b) ≡ some b) × NoColon (hex_byte_upper b)
unfolding hex_byte_upper
mac_part-hex_byte_upper b h =
    let p = upper_digit-IsDigit (b / 16) (omega arith) in
    let q = upper_digit-IsDigit (b % 16) (omega arith) in
    let e : b / 16 * 16 + b % 16 ≡ b = omega arith in
    (
      mac_part-digits (upper_digit (b / 16)) (upper_digit (b % 16)) (b / 16) (b % 16) p q
          ∙ ap some e,
      (p.no_colon, (q.no_colon, tt)),
    )

-- Either way of writing a byte.
abbrev ReadsBack : (ℕ → Text) → Type 0
ReadsBack digits = (b : ℕ) → IsByte b → (mac_part (digits b) ≡ some b) × NoColon (digits b)

all_parts-map :
    (digits : ℕ → Text)
    → ReadsBack digits
    → (m : Bytes) → All IsByte m
    → all_parts (map digits m) ≡ some m
all_parts-map digits r [] h = refl
all_parts-map digits r (b ∷ m) (h, hs) = ground (arith, (r b h).0, all_parts-map digits r m hs)

NoColon-map :
    (digits : ℕ → Text) → ReadsBack digits → (m : Bytes) → All IsByte m → All NoColon (map digits m)
NoColon-map digits r [] h = tt
NoColon-map digits r (b ∷ m) (h, hs) = ((r b h).1, NoColon-map digits r m hs)

parse_mac-join :
    (digits : ℕ → Text)
    → ReadsBack digits
    → (m : Bytes) → All IsByte m
    → length m ≡ 6
    → parse_mac (join (58 ∷ []) (map digits m)) ≡ ok m
unfolding parse_mac
parse_mac-join digits r [] h six = ground (arith, six)
parse_mac-join digits r (b ∷ m) h six =
    let parts = split-join (digits b) (map digits m) (NoColon-map digits r (b ∷ m) h) in
    let n : length (digits b ∷ map digits m) ≡ 6 = length-map digits (b ∷ m) ∙ six in
    rw (parts, n, all_parts-map digits r (b ∷ m) h) refl

-- A MAC of six bytes reads back from the text that the scanner prints for it, and from the one in
-- small letters.
pub parse_mac-mac_upper :
    (m : Bytes)
    → All IsByte m
    → length m ≡ 6
    → (parse_mac (mac_upper m) ≡ ok m) × (parse_mac (mac_lower m) ≡ ok m)
unfolding mac_upper mac_lower
parse_mac-mac_upper m h six = (
  parse_mac-join hex_byte_upper mac_part-hex_byte_upper m h six,
  parse_mac-join hex_byte mac_part-hex_byte m h six,
)
