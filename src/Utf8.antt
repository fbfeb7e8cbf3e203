-- ===== src/Utf8.antt =====
-- The standard library's UTF-8: `str::as_bytes` and `String::from_utf8_lossy`.
pub mod RoundTrip
use uscan.Prelude.{
  ℕ, ◌+◌, ◌-◌, ◌*◌, ◌/◌, ◌%◌, ◌^◌, ◌≤◌, ◌<◌, ◌⊎◌, Bool, true, false, ◌&&◌, List, [], ◌∷◌, ◌++◌,
}
use uscan.Prelude.{ltb, leb, ◌==◌, if◌then◌else◌, Bytes, Text}

-- The bytes of one character.
unfoldable pub encode_char : ℕ → Bytes
encode_char c =
    if ltb c 0x80
    then c ∷ []
    else if ltb c 0x800
    then (0xc0 + c / 64) ∷ (0x80 + c % 64) ∷ []
    else if ltb c 0x10000
    then (0xe0 + c / 4096) ∷ (0x80 + c / 64 % 64) ∷ (0x80 + c % 64) ∷ []
    else (0xf0 + c / 262144)
      ∷ (0x80 + c / 4096 % 64)
      ∷ ((0x80 + c / 64 % 64) ∷ ((0x80 + c % 64) ∷ []))

unfoldable pub as_bytes : Text → Bytes
unfolding encode_char
as_bytes [] = []
as_bytes (c ∷ s) = encode_char c ++ as_bytes s

-- What the decoder still waits for: nothing, or so many bytes of a character whose value so far is
-- given, the next of them in a range.
pub data Pending : Type 0 where
  start : Pending
  more : ℕ → ℕ → ℕ → ℕ → Pending

abbrev pub replacement : ℕ
replacement = 0xfffd

-- The first byte of a character.
unfoldable pub lead : ℕ → Text × Pending
lead b =
    if ltb b 0x80
    then (b ∷ [], start)
    else if ltb b 0xc2
    then (replacement ∷ [], start)
    else if ltb b 0xe0
    then ([], more 1 (b - 0xc0) 0x80 0xbf)
    else if ltb b 0xf0
    then (
      [],
      more 2 (b - 0xe0) (if b == 0xe0 then 0xa0 else 0x80) (if b == 0xed then 0x9f else 0xbf),
    )
    else if ltb b 0xf5
    then (
      [],
      more 3 (b - 0xf0) (if b == 0xf0 then 0x90 else 0x80) (if b == 0xf4 then 0x8f else 0xbf),
    )
    else (replacement ∷ [], start)

-- One byte; a byte that does not continue a character ends it by a replacement and starts anew.
unfoldable pub accept : Pending → ℕ → Text × Pending
unfolding lead
accept start b = lead b
accept (more left acc lo hi) b =
    if leb lo b && leb b hi
    then (if left == 1
        then ((acc * 64 + (b - 0x80)) ∷ [], start)
        else ([], more (left - 1) (acc * 64 + (b - 0x80)) 0x80 0xbf))
    else (let (out, next) = lead b in (replacement ∷ out, next))

unfoldable pub decode : Pending → Bytes → Text
unfolding accept
decode start [] = []
decode (more left acc lo hi) [] = replacement ∷ []
decode p (b ∷ bs) = let (out, next) = accept p b in out ++ decode next bs

-- `String::from_utf8_lossy`
unfoldable pub from_utf8_lossy : Bytes → Text
unfolding decode
from_utf8_lossy bs = decode start bs

-- A Unicode scalar value, which every Rust `char` is.
abbrev pub IsScalar : ℕ → Type 0
IsScalar c = (c < 0xd800) ⊎ ((0xe000 ≤ c) × (c < 0x110000))
