-- ===== src/Addr.antt =====
-- The addresses of `std::net` as the code uses them: octets, their 32-bit value and their text.
pub mod Display
pub mod Parse
mod Tests
use uscan.Prelude.{ℕ, ◌+◌, ◌*◌, ◌/◌, ◌%◌, ◌<◌, ◌≡◌, Bool, true, ◌&&◌}
use uscan.Prelude.{arith, ◌==◌, Bytes}
use uscan.Prelude.{◌↔◌, List, [], ◌∷◌, false, ◌||◌, filter, refl, Bool-cases, inl, inr}

pub record Ipv4Addr : Type 0 where
  pub o0 : ℕ
  pub o1 : ℕ
  pub o2 : ℕ
  pub o3 : ℕ

pub record IsIpv4 (a : Ipv4Addr) : Type 0 where
  pub b0 : a.o0 < 256
  pub b1 : a.o1 < 256
  pub b2 : a.o2 < 256
  pub b3 : a.o3 < 256

-- An IPv6 address is the list of its 16 octets.
pub data IpAddr : Type 0 where
  v4 : Ipv4Addr → IpAddr
  v6 : Bytes → IpAddr

abbrev pub ipv4 : ℕ → ℕ → ℕ → ℕ → Ipv4Addr
ipv4 a b c d = record { o0 = a; o1 = b; o2 = c; o3 = d }

-- `u32::from(addr)` and `Ipv4Addr::from(n)`
unfoldable pub u32_of : Ipv4Addr → ℕ
u32_of a = ((a.o0 * 256 + a.o1) * 256 + a.o2) * 256 + a.o3

unfoldable pub ipv4_of : ℕ → Ipv4Addr
ipv4_of n = record {
  o0 = n / 16777216 % 256;
  o1 = n / 65536 % 256;
  o2 = n / 256 % 256;
  o3 = n % 256;
}

pub u32_of-lt : (a : Ipv4Addr) → IsIpv4 a → u32_of a < 4294967296
unfolding u32_of
u32_of-lt a h = omega arith

pub ipv4_of-IsIpv4 : (n : ℕ) → IsIpv4 (ipv4_of n)
unfolding ipv4_of
ipv4_of-IsIpv4 n = omega arith

pub u32_of-ipv4_of : (n : ℕ) → n < 4294967296 → u32_of (ipv4_of n) ≡ n
unfolding u32_of ipv4_of
u32_of-ipv4_of n h = omega arith

pub ipv4_of-u32_of : (a : Ipv4Addr) → IsIpv4 a → ipv4_of (u32_of a) ≡ a
unfolding u32_of ipv4_of
ipv4_of-u32_of a h = ground arith

-- `==` on `Ipv4Addr`
unfoldable pub ipv4_eq : Ipv4Addr → Ipv4Addr → Bool
ipv4_eq a b = a.o0 == b.o0 && a.o1 == b.o1 && a.o2 == b.o2 && a.o3 == b.o3

pub ipv4_eq_iff : (a b : Ipv4Addr) → (ipv4_eq a b ≡ true) ↔ (a ≡ b)
unfolding ipv4_eq
ipv4_eq_iff a b = (λ h. ground arith, λ h. ground arith)

-- `contains` of a slice of addresses
unfoldable pub contains : List Ipv4Addr → Ipv4Addr → Bool
contains [] a = false
contains (x ∷ xs) a = ipv4_eq x a || contains xs a

-- A filter by a test that the code writes on the address itself.
pub contains-filter :
    (p : Ipv4Addr → Bool) (xs : List Ipv4Addr) (a : Ipv4Addr)
    → contains (filter p xs) a ≡ (contains xs a && p a)
unfolding contains
contains-filter p [] a = refl
contains-filter p (x ∷ xs) a = elim (Bool-cases (ipv4_eq x a)) [
  | inl same ↦
      let e : x ≡ a = (ipv4_eq_iff x a).0 same in
      rw e (ground (arith, contains-filter p xs a, (ipv4_eq_iff a a).1 refl))
  | inr other ↦ ground (arith, other, contains-filter p xs a)
]
