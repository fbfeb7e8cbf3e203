-- ===== src/Ports.antt =====
-- universal-scanner/src/ports.rs: the generator of candidates, the table of used ports of
-- /proc/net/udp, and the provider of free ports. Whether a port can be bound is asked of the
-- system: an argument answers for the attempt and the port.
pub mod Choice
pub mod Proc
use Prim.Native.Nat.{bit_xor}
use uscan.Prelude.{
  ℕ, zero, suc, ◌+◌, ◌-◌, ◌*◌, ◌/◌, ◌%◌, ◌^◌, Bool, true, false, not, ◌&&◌, ◌||◌, List, [], ◌∷◌,
  ◌++◌, Option, none, some,
}
use uscan.Prelude.{ltb, leb, ◌==◌, if◌then◌else◌, any, drop, get_elem?, Text}

abbrev pub port_min : ℕ
port_min = 1024

abbrev pub port_max : ℕ
port_max = 65533

-- `SplitMix64::next_u64`: the next state and the number.
unfoldable pub next_u64 : ℕ → ℕ × ℕ
next_u64 s =
    let s1 = (s + 0x9e37_79b9_7f4a_7c15) % 2 ^ 64 in
    let z1 = bit_xor s1 (s1 / 2 ^ 30) * 0xbf58_476d_1ce4_e5b9 % 2 ^ 64 in
    let z2 = bit_xor z1 (z1 / 2 ^ 27) * 0x94d0_49bb_1331_11eb % 2 ^ 64 in
    (s1, bit_xor z2 (z2 / 2 ^ 31))

-- `pick`: the remainder is cut to 16 bits, which it fits.
unfoldable pub pick : ℕ → ℕ × ℕ
unfolding next_u64
pick s = let (s1, n) = next_u64 s in (s1, port_min + n % (port_max - port_min + 1) % 2 ^ 16)

-- The set of used ports.
abbrev pub used_port : List ℕ → ℕ → Bool
used_port used p = any (λ q. q == p) used

pub record PortProvider : Type 0 where
  pub used : List ℕ
  pub state : ℕ

unfoldable pub with_used : List ℕ → PortProvider
with_used ports = record { used = ports; state = 0xc0ffee }

-- `BTreeSet::insert`
abbrev pub add_port : ℕ → List ℕ → List ℕ
add_port p used = if used_port used p then used else p ∷ used

unfoldable pub reserve_all : List ℕ → List ℕ → List ℕ
reserve_all [] used = used
reserve_all (p ∷ ports) used = reserve_all ports (add_port p used)

unfoldable pub reserve : List ℕ → PortProvider → PortProvider
unfolding reserve_all
reserve ports t = record { used = reserve_all ports (t.used); state = t.state }

-- The loop of `free_port` with the attempts left; `bind` says of an attempt and a port whether the
-- trial succeeds. The state of the provider changes only with a port that is found.
unfoldable pub try_ports : ℕ → (ℕ → ℕ → Bool) → PortProvider → ℕ → Option ℕ × PortProvider
try_ports zero bind t rng = (none, t)
try_ports (suc left) bind t rng =
    let (next, candidate) = pick rng in
    let rest = try_ports left bind t next in
    if used_port (t.used) candidate
    then rest
    else if bind left candidate
    then (some candidate, record { used = add_port candidate (t.used); state = next })
    else rest

unfoldable pub free_port : (ℕ → ℕ → Bool) → PortProvider → Option ℕ × PortProvider
unfolding try_ports
free_port bind t = try_ports 64 bind t (t.state)
