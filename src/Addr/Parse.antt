-- ===== src/Addr/Parse.antt =====
-- `IpAddr::from_str` of the standard library: dotted decimal, or the text forms of IPv6. A reader
-- takes a text and gives what it read and what is left, or nothing.
use uscan.Prelude.{
  ℕ, zero, suc, ◌+◌, ◌-◌, ◌*◌, ◌/◌, ◌%◌, Bool, true, false, not, ◌&&◌, ◌||◌, [], ◌∷◌, ◌++◌, Option,
  none, some,
}
use uscan.Prelude.{ltb, ◌==◌, if◌then◌else◌, length, replicate, Bytes, Text}
use uscan.Prelude.Options.{◌>>=◌}
use uscan.Addr.{IpAddr, Ipv4Addr, ipv4, v4, v6}
use uscan.Strings.{hex_value}

-- `to_digit(radix)`, for a radix of at most 16
abbrev pub to_digit : ℕ → ℕ → Option ℕ
to_digit radix c = elim (hex_value c) [
  | none ↦ none
  | some v ↦ if ltb v radix then some v else none
]

-- The loop of `read_number`: the value and the number of digits so far. More than `max_digits`
-- digits are none; without more the value stays below `radix ^ max_digits`.
unfoldable pub read_digits : ℕ → ℕ → ℕ → ℕ → Text → Option (ℕ × ℕ × Text)
unfolding hex_value
read_digits radix max_digits n count [] = some (n, count, [])
read_digits radix max_digits n count (c ∷ s) = elim (to_digit radix c) [
  | none ↦ some (n, count, c ∷ s)
  | some v ↦ elim (ltb max_digits (count + 1)) [
    | true ↦ none
    | false ↦ read_digits radix max_digits (n * radix + v) (count + 1) s
  ]
]

abbrev pub starts_with_char : ℕ → Text → Bool
starts_with_char c [] = false
starts_with_char c (d ∷ s) = d == c

-- `read_number(radix, Some(max_digits), allow_zero_prefix)` of a type with the greatest value `bound`
unfoldable pub read_number : ℕ → ℕ → Bool → ℕ → Text → Option (ℕ × Text)
unfolding read_digits
read_number radix max_digits zero_prefix bound s = do
  (n, count, rest) ← read_digits radix max_digits 0 0 s
  if count == 0 || (not zero_prefix && starts_with_char 48 s && ltb 1 count) || ltb bound n
      then none
      else some (n, rest)

-- `read_given_char`
unfoldable pub read_given_char : ℕ → Text → Option Text
read_given_char c [] = none
read_given_char c (d ∷ s) = if d == c then some s else none

unfoldable pub read_octet : Text → Option (ℕ × Text)
unfolding read_number
read_octet s = read_number 10 3 false 255 s

unfoldable pub read_ipv4_addr : Text → Option (Ipv4Addr × Text)
unfolding read_octet read_given_char
read_ipv4_addr s = do
  (a, s1) ← read_octet s
  t1 ← read_given_char 46 s1
  (b, s2) ← read_octet t1
  t2 ← read_given_char 46 s2
  (c, s3) ← read_octet t2
  t3 ← read_given_char 46 s3
  (d, s4) ← read_octet t3
  some (ipv4 a b c d, s4)

-- `read_separator(':', index, …)`: the separator stands in front of all but the first.
unfoldable pub after_separator : Bool → Text → Option Text
unfolding read_given_char
after_separator first s = if first then some s else read_given_char 58 s

-- `read_groups` with `left` of its groups still to read: the octets, whether the last two groups
-- were an IPv4 address, and what is left.
unfoldable pub read_groups : ℕ → Bool → Text → Bytes × Bool × Text
unfolding after_separator read_ipv4_addr read_number
read_groups zero first s = ([], false, s)
read_groups (suc left) first s =
    let embedded : Option (Ipv4Addr × Text) =
      if ltb 0 left then after_separator first s >>= read_ipv4_addr else none in
    let group : Option (ℕ × Text) = after_separator first s >>= read_number 16 4 true 0xffff in
    elim embedded [
      | some (a, rest) ↦ (a.o0 ∷ a.o1 ∷ a.o2 ∷ a.o3 ∷ [], true, rest)
      | none ↦ elim group [
        | none ↦ ([], false, s)
        | some (g, rest) ↦
            let (octets, ends_ipv4, end) = read_groups left false rest in
            (g / 256 ∷ g % 256 ∷ octets, ends_ipv4, end)
      ]
    ]

unfoldable pub read_ipv6_addr : Text → Option (Bytes × Text)
unfolding read_groups read_given_char
read_ipv6_addr s =
    let (head, head_ipv4, rest) = read_groups 8 true s in
    if length head == 16 then some (head, rest) else if head_ipv4 then none else do
      t ← read_given_char 58 rest
      u ← read_given_char 58 t
      let (tail, tail_ipv4, end) = read_groups (8 - (length head / 2 + 1)) true u
      some (head ++ (replicate (16 - length head - length tail) 0 ++ tail), end)

-- `read_ip_addr`
unfoldable pub read_ip_addr : Text → Option (IpAddr × Text)
unfolding read_ipv4_addr read_ipv6_addr
read_ip_addr s = elim (read_ipv4_addr s) [
  | some (a, rest) ↦ some (v4 a, rest)
  | none ↦ elim (read_ipv6_addr s) [ none ↦ none | some (b, rest) ↦ some (v6 b, rest) ]
]

-- `s.parse::<IpAddr>()`, with `none` for its one kind of error
unfoldable pub parse_ip : Text → Option IpAddr
unfolding read_ip_addr
parse_ip s = elim (read_ip_addr s) [
  | none ↦ none
  | some (ip, []) ↦ some ip
  | some (ip, c ∷ rest) ↦ none
]

-- `unwrap_or_else(|_| from.ip())`
abbrev pub ip_or : IpAddr → Text → IpAddr
ip_or from s = elim (parse_ip s) [ none ↦ from | some ip ↦ ip ]
