-- ===== src/Mdns/Report.antt =====
-- mdns.rs: which addresses of a found device are reported (`report_addresses`).
pub mod Choice
use uscan.Prelude.{
  ℕ, zero, suc, ◌<◌, ◌≤◌, ◌+◌, ◌≡◌, ◌≢◌, ◌↔◌, refl, Bool, true, false, not, ◌&&◌, ◌||◌, List, [],
  ◌∷◌, ◌++◌, map, arith,
}
use uscan.Prelude.{Text, any, filter, if◌then◌else◌, Bool-cases, length, inl, inr}
use uscan.Addr.{IpAddr, v4, v6, contains}
use uscan.Iface.{is_autoconf}
use uscan.Devices.{Device}

abbrev pub is_v4 : IpAddr → Bool
is_v4 (v4 a) = true
is_v4 (v6 b) = false

-- `has_v4` and `has_v6`: an address of the family that was not configured by itself.
unfoldable pub has_v4 : List IpAddr → Bool
has_v4 addrs = any (λ a. is_v4 a && not (is_autoconf a)) addrs

unfoldable pub has_v6 : List IpAddr → Bool
has_v6 addrs = any (λ a. not (is_v4 a) && not (is_autoconf a)) addrs

-- The two arms of the match in the second loop.
unfoldable pub fallback : List IpAddr → Bool → Bool → IpAddr → Bool
unfolding has_v4 has_v6
fallback addrs zeroconf link_local (v4 a) = is_autoconf (v4 a) && (not (has_v4 addrs) || zeroconf)
fallback addrs zeroconf link_local (v6 b) = is_autoconf (v6 b) && (not (has_v6 addrs) || link_local)

-- The addresses in the order in which they are reported.
unfoldable pub reported : List IpAddr → Bool → Bool → List IpAddr
unfolding fallback
reported addrs zeroconf link_local =
    filter (λ a. not (is_autoconf a)) addrs ++ filter (fallback addrs zeroconf link_local) addrs

unfoldable pub report_addresses :
    Text → ℕ → List IpAddr → Text → Text → Text → Bool → Bool → List Device
unfolding reported
report_addresses protocol version addrs device_type serial mac force_zeroconf force_link_local =
    map
      (λ ip. record {
        protocol = protocol;
        version = version;
        ip = ip;
        mac = mac;
        device_type = device_type;
        serial = serial;
      })
      (reported addrs force_zeroconf force_link_local)
