-- ===== src/Arp/Sweep.antt =====
-- universal-scanner/src/protocols/arp.rs: the sweep that `scan` sends through the capture threads of the
-- interfaces, and the devices that the reporting task of `listen` makes of captured frames. What an
-- interface's MAC file gives is an argument.
pub mod Requests
use uscan.Prelude.{
  ℕ, ◌≡◌, refl, Bool, true, false, List, [], ◌∷◌, ◌++◌, Option, none, some, map, arith, inl, inr,
}
use uscan.Prelude.{
  ◌=t=◌, if◌then◌else◌, Bool-cases, Option-cases, All, All-append, Bytes, Text, codes,
}
use uscan.Addr.{Ipv4Addr, v4, ipv4}
use uscan.Devices.{Device}
use uscan.Iface.{is_private, sweep_plan}
use uscan.Iface.Active.{Entry, Iface, ipv4_addrs, active_interfaces, mask_of}
use uscan.Net.{Message, warning}
use uscan.Oui.{Parsed, lookup_vendor}
use uscan.Arp.{
  MacAddr, mac_bytes, zero_mac, op_request, ArpFrame, build_request, parse, arp_parse, filter_local,
}

-- `ArpNic`: an interface with a capture thread, and whether its channel still takes frames.
pub record ArpNic : Type 0 where
  pub name : Text
  pub open_channel : Bool

-- A frame handed to the thread of an interface.
pub record Injected : Type 0 where
  pub nic : Text
  pub frame : Bytes

-- The frames and the warnings of a sweep.
abbrev pub Swept : Type 0
Swept = List Injected × List Message

abbrev pub nothing : Swept
nothing = ([], [])

infixr 5 ◌and_then◌
abbrev pub ◌and_then◌ : Swept → Swept → Swept
(fs, ms) and_then (gs, ns) = (fs ++ gs, ms ++ ns)

-- `send_to_nic`: no thread of the name is no frame and no warning.
unfoldable pub send_to_nic : List ArpNic → Text → Bytes → Swept
send_to_nic [] name frame = nothing
send_to_nic (n ∷ nics) name frame =
    let rest = send_to_nic nics name frame in
    if n.name =t= name
    then if n.open_channel
      then (record { nic = name; frame = frame } ∷ [], [])
      else ([], warning (codes "ARP sweep: inject channel closed on " ++ name) ∷ [])
    else rest

unfoldable pub send_requests : List ArpNic → Text → MacAddr → Ipv4Addr → List Ipv4Addr → Swept
send_requests nics name mac ip [] = nothing
send_requests nics name mac ip (h ∷ hosts) =
    send_to_nic nics name (build_request mac ip h) and_then send_requests nics name mac ip hosts

-- `if bcast_ip.is_none() { bcast_ip = Some(ip) }`
abbrev pub or_first : Option Ipv4Addr → Ipv4Addr → Option Ipv4Addr
or_first none ip = some ip
or_first (some first) ip = some first

-- The loop over the addresses of an interface, and the broadcast from the first private one behind it.
unfoldable pub sweep_ips :
    List Entry → List ArpNic → Text → MacAddr → List Ipv4Addr → Option Ipv4Addr → Swept
sweep_ips entries nics name mac [] none = nothing
sweep_ips entries nics name mac [] (some ip) =
    send_to_nic nics name (build_request mac ip (ipv4 255 255 255 255))
sweep_ips entries nics name mac (ip ∷ ips) bcast_ip =
    let skipped = sweep_ips entries nics name mac ips bcast_ip in
    let rest = sweep_ips entries nics name mac ips (or_first bcast_ip ip) in
    if is_private (v4 ip)
    then send_requests nics name mac ip (sweep_plan ip (mask_of entries ip)) and_then rest
    else skipped

unfoldable pub sweep_ifaces :
    List Entry → (Text → Option MacAddr) → List ArpNic → List Iface → Swept
sweep_ifaces entries mac_of nics [] = nothing
sweep_ifaces entries mac_of nics (i ∷ ifaces) =
    let rest = sweep_ifaces entries mac_of nics ifaces in
    elim (mac_of (i.name)) [
      | none ↦
          ([], warning (codes "ARP sweep skipped " ++ (i.name ++ codes ": no MAC")) ∷ [])
          and_then rest
      | some mac ↦ sweep_ips entries nics (i.name) mac (ipv4_addrs i) none and_then rest
    ]

-- `scan`
unfoldable pub sweep : Bool → List Entry → (Text → Option MacAddr) → List ArpNic → Swept
sweep arp_enabled entries mac_of [] = nothing
sweep arp_enabled entries mac_of (n ∷ nics) =
    if arp_enabled
    then sweep_ifaces entries mac_of (n ∷ nics) (active_interfaces entries)
    else nothing

-- The vendor behind the serial of a device, if it is known.
unfoldable pub annotated : Parsed → Bytes → Device → Device
annotated oui frame_bytes dev = elim (parse frame_bytes) [
  | none ↦ dev
  | some p ↦ elim (lookup_vendor oui (mac_bytes (p.src_mac))) [
    | none ↦ dev
    | some vendor ↦ record {
      protocol = dev.protocol;
      version = dev.version;
      ip = dev.ip;
      mac = dev.mac;
      device_type = dev.device_type;
      serial = dev.serial ++ (codes " (" ++ (vendor ++ codes ")"));
    }
  ]
]

-- The body of the reporting task, for a captured frame.
unfoldable pub reported : Parsed → List Ipv4Addr → Bytes → List Device
unfolding annotated
reported oui local_ips frame_bytes =
    map (λ dev. if dev.protocol =t= codes "ARP" then annotated oui frame_bytes dev else dev)
      (filter_local (arp_parse frame_bytes) local_ips)
