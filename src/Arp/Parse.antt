-- ===== src/Arp/Parse.antt =====
-- Captured frames and the filter on the machine's own addresses.
use uscan.Prelude.{◌≡◌, refl, true, List, [], ◌∷◌}
use uscan.Prelude.{All, Bool-cases, inl, inr}
use uscan.Addr.{Ipv4Addr, contains}
use uscan.Devices.{Device}
use uscan.Arp.{MacAddr, parse, build_request, is_foreign, arp_parse, filter_local}

-- Filtering keeps no device at an address of the machine.
filter-foreign :
    (local_ips : List Ipv4Addr) (devs : List Device)
    → All (λ d. is_foreign local_ips d.ip ≡ true) (filter_local devs local_ips)
unfolding filter_local
filter-foreign local_ips [] = tt
filter-foreign local_ips (d ∷ devs) = elim (Bool-cases (is_foreign local_ips d.ip)) [
  | inl foreign ↦ rw foreign (foreign, filter-foreign local_ips devs)
  | inr own ↦ rw own (filter-foreign local_ips devs)
]

-- Filtering again changes nothing.
filter_local_keep :
    (local_ips : List Ipv4Addr) (devs : List Device)
    → All (λ d. is_foreign local_ips d.ip ≡ true) devs
    → filter_local devs local_ips ≡ devs
unfolding filter_local
filter_local_keep local_ips [] h = refl
filter_local_keep local_ips (d ∷ devs) (h, hs) =
    rw h (rw (filter_local_keep local_ips devs hs) refl)

-- What passes the filter is at no address of the machine, and a list of which this holds passes
-- unchanged.
pub filter_local_lem :
    (local_ips : List Ipv4Addr) (devs : List Device)
    → All (λ d. is_foreign local_ips d.ip ≡ true) (filter_local devs local_ips)
      × (All (λ d. is_foreign local_ips d.ip ≡ true) devs → filter_local devs local_ips ≡ devs)
filter_local_lem local_ips devs = (filter-foreign local_ips devs, filter_local_keep local_ips devs)

-- The machine's own sweep requests, captured on the way out, are not reported.
pub own_request_dropped :
    (src_mac : MacAddr) (ip target : Ipv4Addr) (local_ips : List Ipv4Addr)
    → contains local_ips ip ≡ true
    → filter_local (arp_parse (build_request src_mac ip target)) local_ips ≡ []
unfolding filter_local arp_parse build_request parse
own_request_dropped m ip t local_ips h = rw h refl
