-- ===== src/Ports/Proc.antt =====
-- ports.rs: `parse_proc_net_udp`.
use uscan.Prelude.{ℕ, ◌+◌, ◌*◌, ◌≤◌, ◌≡◌, refl, List, [], ◌∷◌, Option, none, some, arith, inl, inr}
use uscan.Prelude.{◌==◌, if◌then◌else◌, All, drop, get_elem?, Text, Option-cases}
use uscan.Prelude.Options.{◌>>=◌}
use uscan.Strings.{split_whitespace, lines, after_last, hex_value, hex_digits, from_str_radix}

-- The second field of a line, and the number behind its last colon.
unfoldable pub line_port : Text → Option ℕ
unfolding split_whitespace after_last from_str_radix
line_port line = do
  local ← get_elem? (split_whitespace line) 1
  p ← from_str_radix 0xffff (after_last 58 local local)
  if p == 0 then none else some p

-- `filter_map`
unfoldable pub line_ports : List Text → List ℕ
unfolding line_port
line_ports [] = []
line_ports (l ∷ ls) = elim (line_port l) [ none ↦ line_ports ls | some p ↦ p ∷ line_ports ls ]

unfoldable pub parse_proc_net_udp : Text → List ℕ
unfolding lines line_ports
parse_proc_net_udp text = line_ports (drop 1 (lines text))

hex_digits-bound :
    (bound n : ℕ) (s : Text) (p : ℕ) → n ≤ bound → hex_digits bound n s ≡ some p → p ≤ bound
unfolding hex_digits
hex_digits-bound bound n [] p h e = ground (arith, e)
hex_digits-bound bound n (c ∷ s) p h e = elim (Option-cases (hex_value c)) [
  | inl bad ↦ ground (arith, bad, e)
  | inr (v, good) ↦ ground (arith, good, e, hex_digits-bound bound (n * 16 + v) s p)
]

from_str_radix-bound : (bound : ℕ) (s : Text) (p : ℕ) → from_str_radix bound s ≡ some p → p ≤ bound
unfolding from_str_radix
from_str_radix-bound bound [] p e = ground arith
from_str_radix-bound bound (c ∷ []) p e = ground (arith, hex_digits-bound bound 0 (c ∷ []) p)
from_str_radix-bound bound (c ∷ (d ∷ s)) p e =
    ground (arith, hex_digits-bound bound 0 (d ∷ s) p, hex_digits-bound bound 0 (c ∷ (d ∷ s)) p)

line_port-range : (line : Text) (p : ℕ) → line_port line ≡ some p → (1 ≤ p) × (p ≤ 0xffff)
unfolding line_port
line_port-range line p e = elim (Option-cases (get_elem? (split_whitespace line) 1)) [
  | inl bad ↦ ground (arith, bad, e)
  | inr (local, good) ↦ elim (Option-cases (from_str_radix 0xffff (after_last 58 local local))) [
    | inl bad ↦ ground (arith, good, bad, e)
    | inr (q, number) ↦
        ground
          (arith, good, number, e, from_str_radix-bound 0xffff (after_last 58 local local) q number)
  ]
]

line_ports-range : (ls : List Text) → All (λ p. (1 ≤ p) × (p ≤ 0xffff)) (line_ports ls)
unfolding line_ports
line_ports-range [] = tt
line_ports-range (l ∷ ls) = go (line_port l) (line_port-range l) (line_ports-range ls)
  where
    go :
        (o : Option ℕ)
        → ((p : ℕ) → o ≡ some p → (1 ≤ p) × (p ≤ 0xffff))
        → All (λ p. (1 ≤ p) × (p ≤ 0xffff)) (line_ports ls)
        → All
            (λ p. (1 ≤ p) × (p ≤ 0xffff))
            (elim o [ none ↦ line_ports ls | some p ↦ p ∷ line_ports ls ])
    go none h rest = rest
    go (some p) h rest = (h p refl, rest)

-- Every port that is read from the table of the system is a port: from 1 to 65535.
pub parse_proc_net_udp_range :
    (text : Text) → All (λ p. (1 ≤ p) × (p ≤ 0xffff)) (parse_proc_net_udp text)
unfolding parse_proc_net_udp
parse_proc_net_udp_range text = line_ports-range (drop 1 (lines text))
