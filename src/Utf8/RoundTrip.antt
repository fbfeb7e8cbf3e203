-- ===== src/Utf8/RoundTrip.antt =====
-- Decoding the bytes of a text gives the text.
use native.Mathlib.Decide.{dec_lt}
use uscan.Prelude.{ℕ, ◌+◌, ◌-◌, ◌*◌, ◌/◌, ◌%◌, ◌≤◌, ◌<◌, ◌≡◌, refl, ap, ◌∙◌}
use uscan.Prelude.{[], ◌∷◌, ◌++◌, arith, ◌==◌, All, Bytes, Text, if◌then◌else◌, lt→ltb, not_ltb}
use uscan.Utf8.{encode_char, as_bytes, start, more, decode, from_utf8_lossy, IsScalar}

-- The last byte of a character, and one before it.
last_byte :
    (acc lo hi b : ℕ) (bs : Bytes)
    → lo ≤ b
    → b ≤ hi
    → decode (more 1 acc lo hi) (b ∷ bs) ≡ (acc * 64 + (b - 0x80)) ∷ decode start bs
unfolding decode
last_byte acc lo hi b bs h g = ground arith

inner_byte :
    (n acc lo hi b : ℕ) (bs : Bytes)
    → lo ≤ b
    → b ≤ hi
    → decode (more (n + 2) acc lo hi) (b ∷ bs)
      ≡ decode (more (n + 1) (acc * 64 + (b - 0x80)) 0x80 0xbf) bs
unfolding decode
inner_byte n acc lo hi b bs h g = let e : n + 2 - 1 ≡ n + 1 = omega arith in ground (arith, e)

one_byte : (c : ℕ) (rest : Bytes) → c < 0x80 → decode start (c ∷ rest) ≡ c ∷ decode start rest
unfolding decode
one_byte c rest h = ground arith

two_bytes :
    (c : ℕ) (rest : Bytes)
    → 0x80 ≤ c
    → c < 0x800
    → decode start ((0xc0 + c / 64) ∷ (0x80 + c % 64) ∷ rest) ≡ c ∷ decode start rest
two_bytes c rest h g =
    let b = 0xc0 + c / 64 in
    let first : decode start (b ∷ (0x80 + c % 64) ∷ rest)
        ≡ decode (more 1 (b - 0xc0) 0x80 0xbf) ((0x80 + c % 64) ∷ rest) =
      unfold decode in ground arith in
    first
    ∙ last_byte (b - 0xc0) 0x80 0xbf (0x80 + c % 64) rest (omega arith) (omega arith)
    ∙ ap (λ t. t ∷ decode start rest) (omega arith)

three_bytes :
    (c : ℕ) (rest : Bytes)
    → 0x800 ≤ c
    → c < 0x10000
    → IsScalar c
    → decode start ((0xe0 + c / 4096) ∷ (0x80 + c / 64 % 64) ∷ ((0x80 + c % 64) ∷ rest))
      ≡ c ∷ decode start rest
three_bytes c rest h g s =
    let b = 0xe0 + c / 4096 in
    let tail : Bytes = (0x80 + c / 64 % 64) ∷ ((0x80 + c % 64) ∷ rest) in
    let lo : ℕ = if b == 0xe0 then 0xa0 else 0x80 in
    let hi : ℕ = if b == 0xed then 0x9f else 0xbf in
    let first : decode start (b ∷ tail) ≡ decode (more 2 (b - 0xe0) lo hi) tail =
      unfold decode in ground arith in
    first
    ∙ inner_byte 0 (b - 0xe0) lo hi (0x80 + c / 64 % 64) ((0x80 + c % 64) ∷ rest) (ground arith)
        (ground arith)
    ∙ last_byte ((b - 0xe0) * 64 + (0x80 + c / 64 % 64 - 0x80)) 0x80 0xbf (0x80 + c % 64) rest
        (omega arith) (omega arith)
    ∙ ap (λ t. t ∷ decode start rest) (omega arith)

four_bytes :
    (c : ℕ) (rest : Bytes)
    → 0x10000 ≤ c
    → c < 0x110000
    → decode start (
        (0xf0 + c / 262144)
        ∷ (0x80 + c / 4096 % 64)
        ∷ ((0x80 + c / 64 % 64) ∷ ((0x80 + c % 64) ∷ rest)))
      ≡ c ∷ decode start rest
four_bytes c rest h g =
    let b = 0xf0 + c / 262144 in
    let t1 : Bytes = (0x80 + c / 64 % 64) ∷ ((0x80 + c % 64) ∷ rest) in
    let tail : Bytes = (0x80 + c / 4096 % 64) ∷ t1 in
    let lo : ℕ = if b == 0xf0 then 0x90 else 0x80 in
    let hi : ℕ = if b == 0xf4 then 0x8f else 0xbf in
    let a1 = (b - 0xf0) * 64 + (0x80 + c / 4096 % 64 - 0x80) in
    let a2 = a1 * 64 + (0x80 + c / 64 % 64 - 0x80) in
    let first : decode start (b ∷ tail) ≡ decode (more 3 (b - 0xf0) lo hi) tail =
      unfold decode in ground arith in
    first
    ∙ inner_byte 1 (b - 0xf0) lo hi (0x80 + c / 4096 % 64) t1 (ground arith) (ground arith)
    ∙ inner_byte 0 a1 0x80 0xbf (0x80 + c / 64 % 64) ((0x80 + c % 64) ∷ rest) (omega arith)
        (omega arith)
    ∙ last_byte a2 0x80 0xbf (0x80 + c % 64) rest (omega arith) (omega arith)
    ∙ ap (λ t. t ∷ decode start rest) (omega arith)

decode-encode_char :
    (c : ℕ) (rest : Bytes)
    → IsScalar c
    → decode start (encode_char c ++ rest) ≡ c ∷ decode start rest
unfolding encode_char
decode-encode_char c rest s = elim (dec_lt c 0x80) [
  | yes a ↦ rw (lt→ltb c 0x80 a) (one_byte c rest a)
  | no a ↦ elim (dec_lt c 0x800) [
    | yes b ↦ rw (not_ltb c 0x80 a, lt→ltb c 0x800 b) (two_bytes c rest (omega arith) b)
    | no b ↦ elim (dec_lt c 0x10000) [
      | yes d ↦
          rw (not_ltb c 0x80 a, not_ltb c 0x800 b, lt→ltb c 0x10000 d)
            (three_bytes c rest (omega arith) d s)
      | no d ↦
          rw (not_ltb c 0x80 a, not_ltb c 0x800 b, not_ltb c 0x10000 d)
            (four_bytes c rest (omega arith) (omega arith))
    ]
  ]
]

-- `from_utf8_lossy` gives back every text from its bytes.
pub from_utf8_lossy-as_bytes : (s : Text) → All IsScalar s → from_utf8_lossy (as_bytes s) ≡ s
unfolding from_utf8_lossy as_bytes
from_utf8_lossy-as_bytes [] h = refl
from_utf8_lossy-as_bytes (c ∷ s) (h, hs) =
    decode-encode_char c (as_bytes s) h ∙ ap (λ t. c ∷ t) (from_utf8_lossy-as_bytes s hs)

-- ASCII bytes decode to themselves.
pub from_utf8_lossy_ascii : (s : Bytes) → All (λ c. c < 0x80) s → from_utf8_lossy s ≡ s
unfolding from_utf8_lossy
from_utf8_lossy_ascii [] h = refl
from_utf8_lossy_ascii (c ∷ s) (h, hs) =
    one_byte c s h ∙ ap (λ t. c ∷ t) (from_utf8_lossy_ascii s hs)

pub as_bytes_ascii : (s : Bytes) → All (λ c. c < 0x80) s → as_bytes s ≡ s
unfolding as_bytes
as_bytes_ascii [] h = refl
as_bytes_ascii (c ∷ s) (h, hs) = rw (lt→ltb c 0x80 h) (ap (λ t. c ∷ t) (as_bytes_ascii s hs))
