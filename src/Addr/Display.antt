-- ===== src/Addr/Display.antt =====
-- The standard library's texts of numbers and addresses, and the text forms of a MAC address.
use uscan.Prelude.{ℕ, zero, suc, ◌+◌, ◌/◌, ◌%◌, true, false, ◌&&◌, List, [], ◌∷◌, ◌++◌, map}
use uscan.Prelude.{◌==◌, ltb, if◌then◌else◌, Bytes, Text, codes, byte, take, drop, all, u16_from_be}
use uscan.Addr.{Ipv4Addr, IpAddr, ipv4, v4, v6}

-- `parts.join(sep)`
unfoldable pub join : Text → List Text → Text
join sep [] = []
join sep (x ∷ []) = x
join sep (x ∷ (y ∷ rest)) = x ++ (sep ++ join sep (y ∷ rest))

-- The digits of a number in front of a text; a number has fewer digits than it has units.
unfoldable pub decimal_loop : ℕ → ℕ → Text → Text
decimal_loop zero n acc = acc
decimal_loop (suc fuel) n acc = elim (ltb n 10) [
  | true ↦ (48 + n) ∷ acc
  | false ↦ decimal_loop fuel (n / 10) ((48 + n % 10) ∷ acc)
]

-- `n.to_string()`
unfoldable pub decimal : ℕ → Text
unfolding decimal_loop
decimal n = decimal_loop (suc n) n []

-- A digit of `{:x}` and of `{:X}`
unfoldable pub lower_digit : ℕ → ℕ
lower_digit d = if ltb d 10 then 48 + d else 87 + d

unfoldable pub upper_digit : ℕ → ℕ
upper_digit d = if ltb d 10 then 48 + d else 55 + d

-- `{:02x}` and `{:02X}` of a byte
unfoldable pub hex_byte : ℕ → Text
unfolding lower_digit
hex_byte b = lower_digit (b / 16) ∷ lower_digit (b % 16) ∷ []

unfoldable pub hex_byte_upper : ℕ → Text
unfolding upper_digit
hex_byte_upper b = upper_digit (b / 16) ∷ upper_digit (b % 16) ∷ []

-- `{:x}` of a 16-bit segment
unfoldable pub hex_segment : ℕ → Text
unfolding lower_digit
hex_segment s =
    if ltb s 16
    then lower_digit s ∷ []
    else if ltb s 256
    then lower_digit (s / 16) ∷ lower_digit (s % 16) ∷ []
    else if ltb s 4096
    then lower_digit (s / 256) ∷ lower_digit (s / 16 % 16) ∷ lower_digit (s % 16) ∷ []
    else lower_digit (s / 4096)
      ∷ (lower_digit (s / 256 % 16) ∷ (lower_digit (s / 16 % 16) ∷ (lower_digit (s % 16) ∷ [])))

unfoldable pub ipv4_text : Ipv4Addr → Text
unfolding decimal
ipv4_text a = decimal a.o0 ++ (46 ∷ (decimal a.o1 ++ (46 ∷ (decimal a.o2 ++ (46 ∷ decimal a.o3)))))

-- The segments of 16 octets.
unfoldable pub segments : Bytes → List ℕ
segments [] = []
segments (a ∷ []) = []
segments (a ∷ (b ∷ rest)) = u16_from_be a b ∷ segments rest

-- How many zeros a list starts with.
zeros : List ℕ → ℕ
zeros [] = 0
zeros (x ∷ xs) = let n = zeros xs in if x == 0 then suc n else 0

-- The start and length of the longest run of zeros, the first of the longest.
longest_zeros : List ℕ → ℕ → ℕ × ℕ → ℕ × ℕ
longest_zeros [] i best = best
longest_zeros (x ∷ xs) i (at, len) =
    let n = zeros (x ∷ xs) in longest_zeros xs (suc i) (if ltb len n then (i, n) else (at, len))

segments_text : List ℕ → Text
unfolding join hex_segment
segments_text ss = join (58 ∷ []) (map hex_segment ss)

-- `Ipv6Addr`'s text: an IPv4-mapped address ends in dotted decimal, and the longest run of at least
-- two zero segments is written `::`.
unfoldable pub ipv6_text : Bytes → Text
unfolding segments zeros longest_zeros segments_text ipv4_text
ipv6_text b =
    let ss = segments b in
    let (at, len) = longest_zeros ss 0 (0, 0) in
    if all (λ x. x == 0) (take 10 b) && byte b 10 == 255 && byte b 11 == 255
    then codes "::ffff:" ++ ipv4_text (ipv4 (byte b 12) (byte b 13) (byte b 14) (byte b 15))
    else if ltb 1 len
    then segments_text (take at ss) ++ (58 ∷ (58 ∷ segments_text (drop (at + len) ss)))
    else segments_text ss

unfoldable pub ip_text : IpAddr → Text
unfolding ipv4_text ipv6_text
ip_text (v4 a) = ipv4_text a
ip_text (v6 b) = ipv6_text b

-- Six `{:02X}` bytes, or six `{:02x}` bytes, joined by colons.
unfoldable pub mac_upper : Bytes → Text
unfolding join hex_byte_upper
mac_upper m = join (58 ∷ []) (map hex_byte_upper m)

unfoldable pub mac_lower : Bytes → Text
unfolding join hex_byte
mac_lower m = join (58 ∷ []) (map hex_byte m)
