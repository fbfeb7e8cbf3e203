-- ===== src/Iface.antt =====
-- universal-scanner/src/iface.rs, netscan.rs and the sweep plan of protocols/arp.rs: ranges of
-- addresses, prefix masks, and the hosts of a subnet. The enumeration of the machine's interfaces
-- is outside the model: their addresses and masks are arguments.
pub mod Masks
pub mod Hosts
pub mod Ranges
pub mod Active
use Prim.Native.Nat.{bit_and, bit_or}
use uscan.Prelude.{ℕ, zero, suc, ◌+◌, ◌-◌, ◌*◌, ◌%◌, ◌^◌, min, Bool, not, ◌&&◌, ◌||◌}
use uscan.Prelude.{
  List, [], ◌∷◌, map, filter, ◌==◌, ltb, leb, if◌then◌else◌, Bytes, byte, u16_from_be,
}
use uscan.Addr.{Ipv4Addr, IpAddr, v4, v6, u32_of, ipv4_of, ipv4_eq}

-- `v6.segments()[0]`
abbrev pub segment0 : Bytes → ℕ
segment0 b = u16_from_be (byte b 0) (byte b 1)

unfoldable pub is_private : IpAddr → Bool
is_private (v4 o) =
    o.o0 == 10
    || (o.o0 == 172 && (leb 16 o.o1 && leb o.o1 31))
    || (o.o0 == 192 && o.o1 == 168)
    || (o.o0 == 169 && o.o1 == 254)
is_private (v6 b) = bit_and (segment0 b) 0xff00 == 0xfd00 || bit_and (segment0 b) 0xffc0 == 0xfe80

unfoldable pub is_autoconf : IpAddr → Bool
is_autoconf (v4 o) = o.o0 == 169 && o.o1 == 254
is_autoconf (v6 b) = bit_and (segment0 b) 0xffc0 == 0xfe80

-- `u32::MAX << (32 - prefix)`, for a prefix length of at most 32
unfoldable pub mask_from_prefix : ℕ → Ipv4Addr
mask_from_prefix prefix =
    let bits = if prefix == 0 then 0 else 0xffff_ffff * 2 ^ (32 - prefix) % 2 ^ 32 in ipv4_of bits

-- `first, first + 1, …`, each wrapping as a `u32`
pub addresses_from : ℕ → ℕ → List Ipv4Addr
addresses_from zero first = []
addresses_from (suc n) first = ipv4_of (first % 2 ^ 32) ∷ addresses_from n (first + 1)

-- `a & m`, `a | !m`, and the wrapping steps to the first and the last host
unfoldable pub first_host : Ipv4Addr → Ipv4Addr → ℕ
first_host addr mask = (bit_and (u32_of addr) (u32_of mask) + 1) % 2 ^ 32

unfoldable pub last_host : Ipv4Addr → Ipv4Addr → ℕ
last_host addr mask = (bit_or (u32_of addr) (0xffff_ffff - u32_of mask) + 2 ^ 32 - 1) % 2 ^ 32

unfoldable pub subnet_hosts : Ipv4Addr → Ipv4Addr → ℕ → List Ipv4Addr
subnet_hosts addr mask max_hosts =
    let first = first_host addr mask in
    let last = last_host addr mask in
    if ltb last first then [] else addresses_from (min (last - first + 1) max_hosts) first

-- The cap of netscan.rs, which protocols/arp.rs writes out.
abbrev pub host_cap : ℕ
host_cap = 254

-- netscan.rs
unfoldable pub plan_hosts : Ipv4Addr → Ipv4Addr → List Ipv4Addr
plan_hosts if_ip mask = filter (λ h. not (ipv4_eq h if_ip)) (subnet_hosts if_ip mask host_cap)

-- protocols/arp.rs
unfoldable pub sweep_plan : Ipv4Addr → Ipv4Addr → List Ipv4Addr
sweep_plan ip mask = filter (λ h. not (ipv4_eq h ip)) (subnet_hosts ip mask 254)
