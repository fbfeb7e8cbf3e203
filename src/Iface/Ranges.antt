-- ===== src/Iface/Ranges.antt =====
-- The private and autoconfigured ranges.
use Prim.Native.Nat.{bit_and}
use uscan.Prelude.{ℕ, ◌*◌, ◌/◌, ◌%◌, ◌≤◌, ◌<◌, ◌≡◌, ◌⊎◌, ◌↔◌}
use uscan.Prelude.{true, arith, Bytes, byte}
use uscan.Prelude.Bits.{bit_and_prefix}
use uscan.Addr.{Ipv4Addr, IpAddr, v4, v6}
use uscan.Iface.{segment0, is_private, is_autoconf}

-- The high byte and the ten high bits of a 16-bit number.
high_byte : (s : ℕ) → s < 65536 → bit_and s 0xff00 ≡ s / 256 * 256
high_byte s h = ground (arith, bit_and_prefix 8 8 (s / 256) (s % 256))

high_ten : (s : ℕ) → s < 65536 → bit_and s 0xffc0 ≡ s / 64 * 64
high_ten s h = ground (arith, bit_and_prefix 6 10 (s / 64) (s % 64))

-- The ranges, by the first two octets.
abbrev pub LinkLocal4 : Ipv4Addr → Type 0
LinkLocal4 o = (o.o0 ≡ 169) × (o.o1 ≡ 254)

abbrev pub Private4 : Ipv4Addr → Type 0
Private4 o =
    (o.o0 ≡ 10)
    ⊎ ((o.o0 ≡ 172) × (16 ≤ o.o1) × (o.o1 ≤ 31))
    ⊎ ((o.o0 ≡ 192) × (o.o1 ≡ 168))
    ⊎ LinkLocal4 o

-- fd00::/8 and fe80::/10, by the first two octets
abbrev pub UniqueLocal6 : Bytes → Type 0
UniqueLocal6 b = byte b 0 ≡ 0xfd

abbrev pub LinkLocal6 : Bytes → Type 0
LinkLocal6 b = (byte b 0 ≡ 0xfe) × (0x80 ≤ byte b 1) × (byte b 1 < 0xc0)

-- The documented ranges of an address.
abbrev pub PrivateRange : IpAddr → Type 0
PrivateRange (v4 o) = Private4 o
PrivateRange (v6 b) = UniqueLocal6 b ⊎ LinkLocal6 b

abbrev pub LinkLocalRange : IpAddr → Type 0
LinkLocalRange (v4 o) = LinkLocal4 o
LinkLocalRange (v6 b) = LinkLocal6 b

-- The first two octets of an IPv6 address are bytes; an IPv4 address needs nothing.
abbrev pub Octets : IpAddr → Type 0
Octets (v4 o) = Unit
Octets (v6 b) = (byte b 0 < 256) × (byte b 1 < 256)

-- `is_private` accepts exactly 10/8, 172.16/12, 192.168/16, 169.254/16, fd00::/8 and fe80::/10.
pub is_private_iff : (ip : IpAddr) → Octets ip → (is_private ip ≡ true) ↔ PrivateRange ip
unfolding is_private
is_private_iff (v4 o) h = (λ e. ground arith, λ e. ground arith)
is_private_iff (v6 b) h = (
  λ e. ground (arith, high_byte (segment0 b), high_ten (segment0 b)),
  λ e. ground (arith, high_byte (segment0 b), high_ten (segment0 b)),
)

-- `is_autoconf` accepts exactly 169.254/16 and fe80::/10.
pub is_autoconf_iff : (ip : IpAddr) → Octets ip → (is_autoconf ip ≡ true) ↔ LinkLocalRange ip
unfolding is_autoconf
is_autoconf_iff (v4 o) h = (λ e. ground arith, λ e. ground arith)
is_autoconf_iff (v6 b) h =
    (λ e. ground (arith, high_ten (segment0 b)), λ e. ground (arith, high_ten (segment0 b)))

-- Whatever is autoconfigured is private, so the sweeps do not pass over link-local interfaces.
pub is_autoconf→is_private : (ip : IpAddr) → is_autoconf ip ≡ true → is_private ip ≡ true
unfolding is_autoconf is_private
is_autoconf→is_private (v4 o) h = ground arith
is_autoconf→is_private (v6 b) h = ground arith
