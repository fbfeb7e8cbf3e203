-- ===== src/Devices/Mac.antt =====
-- The MAC format of the output column.
use uscan.Prelude.{ℕ, ◌+◌, ◌-◌, ◌/◌, ◌%◌, ◌<◌, ◌≡◌, refl, ap, ◌∙◌, true, Bool-cases, inl, inr}
use uscan.Prelude.{[], ◌∷◌, ◌++◌, arith, ◌==◌, length, Text, Bytes, All}
use uscan.Addr.Display.{
  join, mac_lower, mac_upper, hex_byte, hex_byte_upper, lower_digit, upper_digit,
}
use uscan.Devices.{is_hex_digit, to_upper, hex_of, pairs, normalize_mac}

-- A digit that `hex_of` keeps as it is.
abbrev IsUpperHex : ℕ → Type 0
IsUpperHex c = (is_hex_digit c ≡ true) × (to_upper c ≡ c)

to_upper-IsUpperHex : (c : ℕ) → is_hex_digit c ≡ true → IsUpperHex (to_upper c)
unfolding is_hex_digit to_upper
to_upper-IsUpperHex c h = (ground arith, ground arith)

hex_of-IsUpperHex : (s : Text) → All IsUpperHex (hex_of s)
unfolding hex_of
hex_of-IsUpperHex [] = tt
hex_of-IsUpperHex (c ∷ s) = elim (Bool-cases (is_hex_digit c)) [
  | inl hex ↦ rw hex (to_upper-IsUpperHex c hex, hex_of-IsUpperHex s)
  | inr other ↦ rw other (hex_of-IsUpperHex s)
]

hex_of_keep : (c : ℕ) (s : Text) → IsUpperHex c → hex_of (c ∷ s) ≡ c ∷ hex_of s
unfolding hex_of
hex_of_keep c s h = rw (h.0, h.1) refl

hex_of-colon : (s : Text) → hex_of (58 ∷ s) ≡ hex_of s
unfolding hex_of is_hex_digit
hex_of-colon s = refl

-- Taking the digits undoes the colons, for an even number of digits.
hex_of-pairs :
    (n : ℕ) (s : Text) → length s ≡ n + n → All IsUpperHex s → hex_of (join (58 ∷ []) (pairs s)) ≡ s
unfolding pairs join
hex_of-pairs n [] e h = unfold hex_of in refl
hex_of-pairs n (a ∷ []) e h = absurd (omega arith)
hex_of-pairs n (a ∷ (b ∷ [])) e h =
    hex_of_keep a (b ∷ []) h.0 ∙ ap (λ t. a ∷ t) (hex_of_keep b [] h.1.0 ∙ unfold hex_of in refl)
hex_of-pairs n (a ∷ (b ∷ (c ∷ []))) e h = absurd (omega arith)
hex_of-pairs n (a ∷ (b ∷ (c ∷ (d ∷ s)))) e h =
    let rest = join (58 ∷ []) (pairs (c ∷ (d ∷ s))) in
    let ih = hex_of-pairs (n - 1) (c ∷ (d ∷ s)) (omega arith) h.1.1 in
    hex_of_keep a (b ∷ (58 ∷ rest)) h.0
    ∙ ap (λ t. a ∷ t) (hex_of_keep b (58 ∷ rest) h.1.0 ∙ ap (λ t. b ∷ t) (hex_of-colon rest ∙ ih))

-- Normalising twice is normalising once, whatever the text.
pub normalize_mac_idem : (s : Text) → normalize_mac (normalize_mac s) ≡ normalize_mac s
unfolding normalize_mac
normalize_mac_idem s = elim (Bool-cases (length (hex_of s) == 12)) [
  | inl twelve ↦
      let back = hex_of-pairs 6 (hex_of s) (ground arith) (hex_of-IsUpperHex s) in
      rw twelve (rw back (rw twelve refl))
  | inr other ↦ rw other (rw other refl)
]

lower_digit_upper :
    (d : ℕ)
    → d < 16
    → (is_hex_digit (lower_digit d) ≡ true) × (to_upper (lower_digit d) ≡ upper_digit d)
unfolding is_hex_digit to_upper lower_digit upper_digit
lower_digit_upper d h = (ground arith, ground arith)

hex_of-hex_byte :
    (b : ℕ) (s : Text) → b < 256 → hex_of (hex_byte b ++ s) ≡ hex_byte_upper b ++ hex_of s
unfolding hex_byte hex_byte_upper hex_of
hex_of-hex_byte b s h =
    let hi = lower_digit_upper (b / 16) (omega arith) in
    let lo = lower_digit_upper (b % 16) (omega arith) in rw (hi.0, lo.0) (rw (hi.1, lo.1) refl)

-- The twelve digits of six bytes.
digits_of : Bytes → Text
digits_of [] = []
digits_of (b ∷ m) = hex_byte_upper b ++ digits_of m

hex_of-mac_lower : (m : Bytes) → All (λ x. x < 256) m → hex_of (mac_lower m) ≡ digits_of m
unfolding mac_lower digits_of hex_of
hex_of-mac_lower [] h = refl
hex_of-mac_lower (b ∷ []) h = hex_of-hex_byte b [] h.0
hex_of-mac_lower (b ∷ (c ∷ m)) h =
    let rest = mac_lower (c ∷ m) in
    hex_of-hex_byte b (58 ∷ rest) h.0
    ∙ ap (λ t. hex_byte_upper b ++ t) (hex_of-colon rest ∙ hex_of-mac_lower (c ∷ m) h.1)

-- The lower case form of six bytes, as a protocol writes a MAC, becomes the upper case form of the
-- same bytes.
pub normalize_mac-mac_lower :
    (a b c d e f : ℕ)
    → All (λ x. x < 256) (a ∷ b ∷ c ∷ d ∷ e ∷ f ∷ [])
    → normalize_mac (mac_lower (a ∷ b ∷ c ∷ d ∷ e ∷ f ∷ []))
      ≡ mac_upper (a ∷ b ∷ c ∷ d ∷ e ∷ f ∷ [])
unfolding normalize_mac
normalize_mac-mac_lower a b c d e f h =
    let m : Bytes = a ∷ b ∷ c ∷ d ∷ e ∷ f ∷ [] in
    rw (hex_of-mac_lower m h) (unfold digits_of mac_upper in refl)
