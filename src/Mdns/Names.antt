-- ===== src/Mdns/Names.antt =====
-- mdns.rs: reading and writing names and 16- and 32-bit numbers.
use Prim.Native.Nat.{bit_and, bit_or}
use uscan.Prelude.{ℕ, zero, suc, ◌+◌, ◌*◌, ◌%◌, List, [], ◌∷◌, ◌++◌, Bool}
use uscan.Prelude.{
  leb, ltb, ◌==◌, if◌then◌else◌, length, byte, slice, Bytes, Text, u16_from_be, u32_from_be,
}
use uscan.Prelude.Results.{Result, ok, err, ◌>>=◌}
use uscan.Utf8.{from_utf8_lossy, as_bytes}
use uscan.Mdns.{
  DnsError, u16_overflow, u32_overflow, name_overflow, ptr_overflow, ptr_out_of_bounds,
  max_redirects, label_overflow, out_of_fuel,
}

-- `rd16` and `rd32`: the value, and the position behind it.
unfoldable pub rd16 : Bytes → ℕ → Result DnsError (ℕ × ℕ)
rd16 d pos =
    if ltb (length d) (pos + 2)
    then err u16_overflow
    else ok (u16_from_be (byte d pos) (byte d (pos + 1)), pos + 2)

unfoldable pub rd32 : Bytes → ℕ → Result DnsError (ℕ × ℕ)
rd32 d pos =
    if ltb (length d) (pos + 4)
    then err u32_overflow
    else ok
        (u32_from_be (byte d pos) (byte d (pos + 1)) (byte d (pos + 2)) (byte d (pos + 3)), pos + 4)

-- `if !name.is_empty() { name.push('.') }`
abbrev pub dotted : Text → Text
dotted [] = []
dotted (c ∷ s) = (c ∷ s) ++ (46 ∷ [])

-- `((len & 0x3F) << 8) | low`
unfoldable pub pointer_target : ℕ → ℕ → ℕ
pointer_target len low = bit_or (bit_and len 0x3f * 256) low

unfoldable pub is_pointer : ℕ → Bool
is_pointer len = bit_and len 0xc0 == 0xc0

-- What follows a pointer is read by `follow`; the name so far is kept in front.
unfoldable pub at_pointer :
    (ℕ → Result DnsError (Text × ℕ)) → Bytes → ℕ → ℕ → Text → Result DnsError (Text × ℕ)
at_pointer follow d len p name =
    if leb (length d) p
    then err ptr_overflow
    else (let target = pointer_target len (byte d p) in
        if leb (length d) target
        then err ptr_out_of_bounds
        else (do (rest, _) ← follow target; ok (name ++ rest, p + 1)))

-- The loop of `read_name` over the labels; each round takes a byte at least.
unfoldable pub read_labels :
    (ℕ → Result DnsError (Text × ℕ)) → ℕ → Bytes → ℕ → Text → Result DnsError (Text × ℕ)
read_labels follow zero d p name = err out_of_fuel
read_labels follow (suc fuel) d p name =
    let len = byte d p in
    let stop = p + 1 + len in
    let rest =
      read_labels follow fuel d stop (dotted name ++ from_utf8_lossy (slice d (p + 1) len)) in
    if leb (length d) p
    then err name_overflow
    else if len == 0
    then ok (name, p + 1)
    else if is_pointer len
    then at_pointer follow d len (p + 1) (dotted name)
    else if leb stop (length d)
    then rest
    else err label_overflow

-- `read_name` with a budget of redirections. A redirection takes one from the budget, and one that
-- leaves nothing is refused; the called loop has the rest.
unfoldable pub read_name : ℕ → Bytes → ℕ → Result DnsError (Text × ℕ)
read_name zero d pos = read_labels (λ target. err max_redirects) (suc (length d)) d pos []
read_name (suc zero) d pos = read_labels (λ target. err max_redirects) (suc (length d)) d pos []
read_name (suc (suc budget)) d pos =
    read_labels (λ target. read_name (suc budget) d target) (suc (length d)) d pos []

-- A character in front of the first part.
unfoldable pub push_char : ℕ → List Text → List Text
push_char c [] = (c ∷ []) ∷ []
push_char c (l ∷ ls) = (c ∷ l) ∷ ls

-- `domain.split('.')`
unfoldable pub split_dots : Text → List Text
unfolding push_char
split_dots [] = [] ∷ []
split_dots (c ∷ s) = let rest = split_dots s in if c == 46 then [] ∷ rest else push_char c rest

-- One label with its length, cut to a byte.
unfoldable pub encode_labels : List Text → Bytes
encode_labels [] = 0 ∷ []
encode_labels (l ∷ ls) = let b = as_bytes l in (length b % 256) ∷ (b ++ encode_labels ls)

unfoldable pub encode_name : Text → Bytes
unfolding split_dots encode_labels as_bytes
encode_name domain = encode_labels (split_dots domain)
