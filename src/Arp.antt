-- ===== src/Arp.antt =====
-- universal-scanner/src/arp/frame.rs and the pure parts of protocols/arp.rs: frames that the sweep
-- sends, and devices from the frames that it captures.
pub mod RoundTrip
pub mod Parse
pub mod Sweep
use uscan.Prelude.{
  ℕ, ◌+◌, ◌*◌, ◌/◌, ◌%◌, Bool, true, not, ◌&&◌, Option, none, some, List, [], ◌∷◌, ◌++◌, filter,
}
use uscan.Prelude.{
  ◌==◌, ltb, if◌then◌else◌, length, drop, replicate, Bytes, byte, slice, write, u16_from_be,
  u16_to_be, codes,
}
use uscan.Addr.{Ipv4Addr, IpAddr, v4, v6, ipv4, ipv4_eq, contains}
use uscan.Addr.Display.{mac_upper, mac_lower}
use uscan.Devices.{Device}

abbrev pub eth_arp : ℕ
eth_arp = 0x0806

abbrev pub op_request : ℕ
op_request = 1

abbrev pub op_reply : ℕ
op_reply = 2

abbrev pub frame_len : ℕ
frame_len = 14 + 28

-- `[u8; 6]`
pub record MacAddr : Type 0 where
  pub m0 : ℕ
  pub m1 : ℕ
  pub m2 : ℕ
  pub m3 : ℕ
  pub m4 : ℕ
  pub m5 : ℕ

abbrev pub mac_bytes : MacAddr → Bytes
mac_bytes m = m.m0 ∷ m.m1 ∷ m.m2 ∷ m.m3 ∷ m.m4 ∷ m.m5 ∷ []

abbrev pub octets : Ipv4Addr → Bytes
octets a = a.o0 ∷ a.o1 ∷ a.o2 ∷ a.o3 ∷ []

abbrev pub zero_mac : MacAddr
zero_mac = record { m0 = 0; m1 = 0; m2 = 0; m3 = 0; m4 = 0; m5 = 0 }

abbrev pub broadcast_mac : MacAddr
broadcast_mac = record { m0 = 255; m1 = 255; m2 = 255; m3 = 255; m4 = 255; m5 = 255 }

pub record ArpFrame : Type 0 where
  pub op : ℕ
  pub src_mac : MacAddr
  pub sender_ip : Ipv4Addr
  pub target_mac : MacAddr
  pub target_ip : Ipv4Addr

-- The writes of `build`, in their order.
unfoldable pub build : ℕ → MacAddr → Ipv4Addr → MacAddr → Ipv4Addr → Bytes
build op src_mac sender_ip target_mac target_ip =
    let f = replicate 42 0 in
    let f = write f 6 (mac_bytes src_mac) in
    let f = write f 12 (0x08 ∷ []) in
    let f = write f 13 (0x06 ∷ []) in
    let f = write f 14 (u16_to_be 1) in
    let f = write f 16 (u16_to_be 0x0800) in
    let f = write f 18 (6 ∷ []) in
    let f = write f 19 (4 ∷ []) in
    let f = write f 20 (u16_to_be op) in
    let f = write f 22 (mac_bytes src_mac) in
    let f = write f 28 (octets sender_ip) in
    let f = write f 32 (mac_bytes target_mac) in write f 38 (octets target_ip)

unfoldable pub build_request : MacAddr → Ipv4Addr → Ipv4Addr → Bytes
unfolding build
build_request src_mac sender_ip target_ip =
    write (build op_request src_mac sender_ip zero_mac target_ip) 0 (mac_bytes broadcast_mac)

unfoldable pub build_reply : MacAddr → Ipv4Addr → MacAddr → Ipv4Addr → Bytes
unfolding build
build_reply src_mac sender_ip target_mac target_ip =
    write (build op_reply src_mac sender_ip target_mac target_ip) 0 (mac_bytes target_mac)

-- Six bytes and four bytes at an offset.
abbrev pub mac_at : Bytes → ℕ → MacAddr
mac_at p i = record {
  m0 = byte p i;
  m1 = byte p (i + 1);
  m2 = byte p (i + 2);
  m3 = byte p (i + 3);
  m4 = byte p (i + 4);
  m5 = byte p (i + 5);
}

abbrev pub ipv4_at : Bytes → ℕ → Ipv4Addr
ipv4_at p i = ipv4 (byte p i) (byte p (i + 1)) (byte p (i + 2)) (byte p (i + 3))

unfoldable pub parse : Bytes → Option ArpFrame
parse frame =
    if ltb (length frame) frame_len
    then none
    else if not (u16_from_be (byte frame 12) (byte frame 13) == eth_arp)
    then none
    else (let p = drop 14 frame in
        some (record {
          op = u16_from_be (byte p 6) (byte p 7);
          src_mac = mac_at p 8;
          sender_ip = ipv4_at p 14;
          target_mac = mac_at p 18;
          target_ip = ipv4_at p 24;
        }))

unfoldable pub is_garp : ArpFrame → Bool
is_garp f = f.op == op_request && ipv4_eq f.sender_ip f.target_ip

device_of : ArpFrame → Device
device_of p = record {
  protocol = codes "ARP";
  version = 0;
  ip = v4 p.sender_ip;
  mac = mac_upper (mac_bytes p.src_mac);
  device_type = if is_garp p then codes "GARP" else codes "ARP";
  serial = mac_lower (mac_bytes p.src_mac);
}

unfoldable pub arp_parse : Bytes → List Device
unfolding device_of
arp_parse frame_bytes = elim (parse frame_bytes) [ none ↦ [] | some p ↦ device_of p ∷ [] ]

pub is_foreign : List Ipv4Addr → IpAddr → Bool
is_foreign local_ips (v4 a) = not (contains local_ips a)
is_foreign local_ips (v6 b) = true

unfoldable pub filter_local : List Device → List Ipv4Addr → List Device
unfolding is_foreign
filter_local devs local_ips = filter (λ d. is_foreign local_ips d.ip) devs
