-- ===== src/Prelude/Words.antt =====
-- Byte strings and texts as lists of numbers: a byte is below 256, a character is its code point.
-- Fixed-width integers go through their big- and little-endian byte strings.
use Prim.Native.Nat.{ℕ, zero, suc, ◌+◌, ◌-◌, ◌*◌, ◌/◌, ◌%◌, ◌≤◌, ◌<◌}
use Prim.Native.Char.{code}
use Prim.Native.String.{String}
use mathlib.Core.Path.{◌≡◌, refl, ap, ◌∙◌}
use mathlib.Core.Bool.{◌&&◌}
use uscan.Prelude.Tests.{ltb, leb, if◌then◌else◌}
use mathlib.Core.List.{List, [], ◌∷◌, ◌++◌}
use native.Mathlib.Omega.{arith}
use uscan.Prelude.Lists.{
  length, get_or, take, drop, length-append, length-take, length-drop, get_or-append, get_or-drop,
}

-- A Rust `String` as its characters.
abbrev pub Text : Type 0
Text = List ℕ

-- A `Vec<u8>`, an array or a slice of bytes.
abbrev pub Bytes : Type 0
Bytes = List ℕ

-- The code points of a literal.
abbrev pub codes : String → Text
codes String.[] = []
codes (String.◌∷◌ c s) = code c ∷ codes s

abbrev pub IsByte : ℕ → Type 0
IsByte b = b < 256

-- `d[i]`; every read of the code stands behind a test of the length, so the default is never read.
abbrev pub byte : Bytes → ℕ → ℕ
byte d i = get_or d i 0

-- `d[i..i + n]`
abbrev pub slice : Bytes → ℕ → ℕ → Bytes
slice d i n = take n (drop i d)

-- `d[i..i + s.len()].copy_from_slice(s)`
abbrev pub write : Bytes → ℕ → Bytes → Bytes
write d i s = take i d ++ (s ++ drop (i + length s) d)

-- `u16::from_be_bytes`, `u16::from_le_bytes`, `u32::from_be_bytes`, `u32::from_le_bytes`
abbrev pub u16_from_be : ℕ → ℕ → ℕ
u16_from_be a b = a * 256 + b

abbrev pub u16_from_le : ℕ → ℕ → ℕ
u16_from_le a b = b * 256 + a

abbrev pub u32_from_be : ℕ → ℕ → ℕ → ℕ → ℕ
u32_from_be a b c d = ((a * 256 + b) * 256 + c) * 256 + d

abbrev pub u32_from_le : ℕ → ℕ → ℕ → ℕ → ℕ
u32_from_le a b c d = u32_from_be d c b a

-- `to_be_bytes` and `to_le_bytes`
abbrev pub u16_to_be : ℕ → Bytes
u16_to_be v = v / 256 ∷ v % 256 ∷ []

abbrev pub u32_to_be : ℕ → Bytes
u32_to_be v = v / 16777216 % 256 ∷ v / 65536 % 256 ∷ v / 256 % 256 ∷ v % 256 ∷ []

abbrev pub u32_to_le : ℕ → Bytes
u32_to_le v = v % 256 ∷ v / 256 % 256 ∷ v / 65536 % 256 ∷ v / 16777216 ∷ []

pub length-write : (d s : Bytes) (i : ℕ) → i + length s ≤ length d → length (write d i s) ≡ length d
length-write d s i h = omega (
  arith,
  length-append (take i d) (s ++ drop (i + length s) d),
  length-append s (drop (i + length s) d),
  length-take i d,
  length-drop (i + length s) d,
)

-- Writing in the bounds, read at a position.
pub byte-write :
    (d s : Bytes) (i j : ℕ)
    → i + length s ≤ length d
    → byte (write d i s) j ≡ (if leb i j && ltb j (i + length s) then byte s (j - i) else byte d j)
byte-write d s zero j h =
    get_or-append s (drop (zero + length s) d) j 0
    ∙ ground (arith, get_or-drop (zero + length s) d (j - length s) 0)
byte-write [] s (suc i) j h = ground arith
byte-write (x ∷ d) s (suc i) zero h = ground arith
byte-write (x ∷ d) s (suc i) (suc j) h =
    let e : suc i + length s ≡ suc (i + length s) = omega arith in
    let f : suc j - suc i ≡ j - i = omega arith in
    let shift : write (x ∷ d) (suc i) s ≡ x ∷ write d i s = rw e refl in
    ap (λ t. byte t (suc j)) shift ∙ byte-write d s i j (omega arith) ∙ rw (e, f) (ground arith)
