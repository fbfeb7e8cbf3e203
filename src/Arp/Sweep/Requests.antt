-- ===== src/Arp/Sweep/Requests.antt =====
-- protocols/arp.rs: the frames of a sweep.
use uscan.Prelude.{◌≡◌, refl, Bool, true, false, List, [], ◌∷◌, Option, none, some, inl, inr}
use uscan.Prelude.{◌=t=◌, Bool-cases, Option-cases, All, All-append, Text}
use uscan.Addr.{Ipv4Addr, v4, ipv4}
use uscan.Iface.{is_private, sweep_plan}
use uscan.Iface.Active.{Entry, Iface, ipv4_addrs, active_interfaces, mask_of}
use uscan.Arp.{
  MacAddr, mac_bytes, zero_mac, op_request, ArpFrame, build_request, parse, arp_parse, filter_local,
}
use uscan.Arp.Sweep.{
  ArpNic, Injected, Swept, ◌and_then◌, send_to_nic, send_requests, or_first, sweep_ips,
  sweep_ifaces, sweep,
}

-- A frame that asks, from the MAC of its interface and from a private address, for an address.
pub record IsRequest (mac_of : Text → Option MacAddr) (s : Injected) : Type 0 where
  pub mac : MacAddr
  pub own : Ipv4Addr
  pub target : Ipv4Addr
  pub own_mac : mac_of s.nic ≡ some mac
  pub own_private : is_private (v4 own) ≡ true
  pub asks :
      parse s.frame
      ≡ some (record {
        op = op_request;
        src_mac = mac;
        sender_ip = own;
        target_mac = zero_mac;
        target_ip = target;
      })

parse-build_request :
    (mac : MacAddr) (ip target : Ipv4Addr)
    → parse (build_request mac ip target)
      ≡ some (record {
        op = op_request;
        src_mac = mac;
        sender_ip = ip;
        target_mac = zero_mac;
        target_ip = target;
      })
unfolding build_request parse uscan.Arp.build
parse-build_request mac ip target = refl

module _ (entries : List Entry) (mac_of : Text → Option MacAddr) where
  -- The frames of a part of the sweep are requests.
  abbrev Requests : Swept → Type 0
  Requests s = All (IsRequest mac_of) (s.0)

  and_then-Requests : (s t : Swept) → Requests s → Requests t → Requests (s and_then t)
  and_then-Requests (fs, ms) (gs, ns) h k = All-append (IsRequest mac_of) fs gs h k

  send_to_nic-Requests :
      (nics : List ArpNic) (name : Text) (mac : MacAddr) (ip target : Ipv4Addr)
      → mac_of name ≡ some mac
      → is_private (v4 ip) ≡ true
      → Requests (send_to_nic nics name (build_request mac ip target))
  unfolding send_to_nic
  send_to_nic-Requests [] name mac ip target m p = tt
  send_to_nic-Requests (n ∷ nics) name mac ip target m p =
      let frame : IsRequest mac_of (record { nic = name; frame = build_request mac ip target }) =
        record {
          mac = mac;
          own = ip;
          target = target;
          own_mac = m;
          own_private = p;
          asks = parse-build_request mac ip target;
        } in
      elim (Bool-cases (n.name =t= name)) [
        | inr other ↦ rw other (send_to_nic-Requests nics name mac ip target m p)
        | inl same ↦ elim (Bool-cases n.open_channel) [
          | inl live ↦ rw (same, live) (frame, tt)
          | inr shut ↦ rw (same, shut) tt
        ]
      ]

  send_requests-Requests :
      (nics : List ArpNic) (name : Text) (mac : MacAddr) (ip : Ipv4Addr) (hosts : List Ipv4Addr)
      → mac_of name ≡ some mac
      → is_private (v4 ip) ≡ true
      → Requests (send_requests nics name mac ip hosts)
  unfolding send_requests
  send_requests-Requests nics name mac ip [] m p = tt
  send_requests-Requests nics name mac ip (h ∷ hosts) m p =
      and_then-Requests (send_to_nic nics name (build_request mac ip h))
        (send_requests nics name mac ip hosts) (send_to_nic-Requests nics name mac ip h m p)
        (send_requests-Requests nics name mac ip hosts m p)

  -- The first private address, once there is one.
  abbrev Private : Option Ipv4Addr → Type 0
  Private none = Unit {0}
  Private (some ip) = is_private (v4 ip) ≡ true

  or_first-Private :
      (first : Option Ipv4Addr) (ip : Ipv4Addr)
      → Private first
      → is_private (v4 ip) ≡ true
      → Private (or_first first ip)
  or_first-Private none ip h p = p
  or_first-Private (some first) ip h p = h

  sweep_ips-Requests :
      (nics : List ArpNic) (name : Text) (mac : MacAddr) (ips : List Ipv4Addr)
      (bcast_ip : Option Ipv4Addr)
      → mac_of name ≡ some mac
      → Private bcast_ip
      → Requests (sweep_ips entries nics name mac ips bcast_ip)
  unfolding sweep_ips
  sweep_ips-Requests nics name mac [] none m b = tt
  sweep_ips-Requests nics name mac [] (some ip) m b =
      send_to_nic-Requests nics name mac ip (ipv4 255 255 255 255) m b
  sweep_ips-Requests nics name mac (ip ∷ ips) bcast_ip m b =
      elim (Bool-cases (is_private (v4 ip))) [
        | inr public ↦ rw public (sweep_ips-Requests nics name mac ips bcast_ip m b)
        | inl private ↦
            let hosts = sweep_plan ip (mask_of entries ip) in
            rw private (
              and_then-Requests (send_requests nics name mac ip hosts)
                (sweep_ips entries nics name mac ips (or_first bcast_ip ip))
                (send_requests-Requests nics name mac ip hosts m private)
                (sweep_ips-Requests nics name mac ips (or_first bcast_ip ip) m
                  (or_first-Private bcast_ip ip b private)))
      ]

  sweep_ifaces-Requests :
      (nics : List ArpNic) (ifaces : List Iface)
      → Requests (sweep_ifaces entries mac_of nics ifaces)
  unfolding sweep_ifaces
  sweep_ifaces-Requests nics [] = tt
  sweep_ifaces-Requests nics (i ∷ ifaces) = elim (Option-cases (mac_of i.name)) [
    | inl absent ↦ rw (absent, sweep_ifaces) (sweep_ifaces-Requests nics ifaces)
    | inr (mac, there) ↦
        rw (there, sweep_ifaces)
          (and_then-Requests (sweep_ips entries nics (i.name) mac (ipv4_addrs i) none)
            (sweep_ifaces entries mac_of nics ifaces)
            (sweep_ips-Requests nics (i.name) mac (ipv4_addrs i) none there tt)
            (sweep_ifaces-Requests nics ifaces))
  ]

  -- Every frame that a sweep hands to an interface is an ARP request that the parser of the library
  -- reads: from the MAC of this interface and from a private address.
  pub sweep-IsRequest :
      (arp_enabled : Bool) (nics : List ArpNic)
      → All (IsRequest mac_of) ((sweep arp_enabled entries mac_of nics).0)
  unfolding sweep
  sweep-IsRequest arp_enabled [] = tt
  sweep-IsRequest false (n ∷ nics) = tt
  sweep-IsRequest true (n ∷ nics) = sweep_ifaces-Requests (n ∷ nics) (active_interfaces entries)
