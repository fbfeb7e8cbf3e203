-- ===== src/Mdns/NameLaws/Pointers.antt =====
-- Compression pointers.
use Prim.Native.Nat.{bit_or}
use uscan.Prelude.{
  ℕ, zero, suc, ◌+◌, ◌*◌, ◌%◌, ◌≤◌, ◌<◌, ◌≡◌, refl, ap, ◌∙◌, true, false, [], arith,
}
use uscan.Prelude.{leb, ◌==◌, length, byte, Bytes, Text}
use uscan.Prelude.Bits.{bit_and_low, bit_or_shifted}
use uscan.Prelude.Results.{Result, ok, err, ◌>>=◌}
use uscan.Mdns.{DnsError, max_redirects}
use uscan.Mdns.Names.{is_pointer, pointer_target, at_pointer, read_labels, read_name}
use uscan.Mdns.NameLaws.RoundTrip.{is_pointer_lem}

-- The fourteen low bits of two bytes.
pub pointer_target_lem : (len low : ℕ) → low < 256 → pointer_target len low ≡ len % 64 * 256 + low
unfolding pointer_target
pointer_target_lem len low h =
    ap (λ (t : ℕ). bit_or (t * 256) low) (bit_and_low 6 len) ∙ bit_or_shifted 8 (len % 64) low h

-- Two bytes at `p` that point to `target`.
pub record PointsTo (d : Bytes) (p target : ℕ) : Type 0 where
  pub is_byte : byte d p < 256
  pub high_bits : 192 ≤ byte d p
  pub low_byte : byte d (p + 1) < 256
  pub inside : p + 1 < length d
  pub in_packet : target < length d
  pub here : byte d p % 64 * 256 + byte d (p + 1) ≡ target

-- The read at a pointer is the read at its target, with the position behind the two bytes.
abbrev pub followed : ℕ → Result DnsError (Text × ℕ) → Result DnsError (Text × ℕ)
followed q r = do (rest, _) ← r; ok (rest, q)

read_labels-pointer :
    (follow : ℕ → Result DnsError (Text × ℕ)) (fuel : ℕ) (d : Bytes) (p target : ℕ)
    → PointsTo d p target
    → read_labels follow (suc fuel) d p [] ≡ followed (p + 1 + 1) (follow target)
unfolding read_labels at_pointer
read_labels-pointer follow fuel d p target h =
    let b = h.is_byte in
    let g = h.high_bits in
    let i = h.inside in
    let j = h.in_packet in
    let over : leb (length d) p ≡ false = ground arith in
    let last : (byte d p == 0) ≡ false = ground arith in
    let pointer : is_pointer (byte d p) ≡ true =
      is_pointer_lem (byte d p) h.is_byte ∙ ground arith in
    let second : leb (length d) (p + 1) ≡ false = ground arith in
    let goal : pointer_target (byte d p) (byte d (p + 1)) ≡ target =
      pointer_target_lem (byte d p) (byte d (p + 1)) h.low_byte ∙ h.here in
    let fits : leb (length d) target ≡ false = ground arith in
    rw (over, last, pointer, second, goal, fits) refl

-- With budget for a redirection, reading at two bytes that point into the packet is reading at
-- their target with one redirection less, and the position is the one behind the two bytes.
pub read_name-pointer :
    (budget : ℕ) (d : Bytes) (p target : ℕ)
    → PointsTo d p target
    → read_name (suc (suc budget)) d p ≡ followed (p + 2) (read_name (suc budget) d target)
unfolding read_name
read_name-pointer budget d p target h =
    let e : p + 2 ≡ p + 1 + 1 = omega arith in
    rw e (read_labels-pointer (λ t. read_name (suc budget) d t) (length d) d p target h)

-- A pointer that leads back to itself is refused, with any budget.
pub read_name_cycle :
    (budget : ℕ) (d : Bytes) (p : ℕ) → PointsTo d p p → read_name budget d p ≡ err max_redirects
unfolding read_name
read_name_cycle zero d p h = read_labels-pointer (λ t. err max_redirects) (length d) d p p h
read_name_cycle (suc zero) d p h = read_labels-pointer (λ t. err max_redirects) (length d) d p p h
read_name_cycle (suc (suc budget)) d p h =
    read_labels-pointer (λ t. read_name (suc budget) d t) (length d) d p p h
    ∙ ap (followed (p + 1 + 1)) (read_name_cycle (suc budget) d p h)
