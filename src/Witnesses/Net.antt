-- ===== src/Witnesses/Net.antt =====
-- The network parts: the theorems at one subnet, one capture, one ARP exchange and one camera.
use uscan.Prelude.{replicate}
use uscan.Strings.{trim, trim_end, trim_start, is_whitespace}
use uscan.Engine.{listen_nothing}
use uscan.Engine.Receive.{ScanEngine}
use uscan.Oui.{parse_compact, lookup_vendor}
use uscan.Oui.Compact.{Vendor, IsVendor, file_of, vendor_of, lookup_vendor-parse_compact}
use uscan.Prelude.{
  ℕ, zero, suc, ◌+◌, ◌<◌, ◌≡◌, ◌≢◌, ◌↔◌, refl, Bool, true, false, none, some, List, [], ◌∷◌, ◌++◌,
  replicate, drop, write, codes, Text, Bytes, arith, u16_to_be,
}
use uscan.Prelude.Results.{ok}
use uscan.Addr.{Ipv4Addr, IsIpv4, ipv4, v4, u32_of, contains}
use uscan.Iface.{mask_from_prefix, plan_hosts}
use uscan.Iface.Hosts.{plan_hosts-exact}
use uscan.Pcap.{new}
use uscan.Pcap.Record.{Packet, frame_of, append_all, read_frames, read_frames-append_all}
use uscan.Arp.{MacAddr}
use uscan.Ports.{PortProvider, with_used}
use uscan.Provision.{head_part, SetIpRequest, SendResult, sent, failed, send_packet}
use uscan.Provision.Sending.{send_packet_lem}
use uscan.Protocols.Ubiquiti.{Found, report}
use uscan.Protocols.Ubiquiti.Tlv.{Tlv, encode_all, take_all, parse-encode_all}
use uscan.Prelude.{All, ◌=t=◌, =t=_refl, =t=→eq, Bool-cases, inl, inr}
use uscan.Scanner.{Engine, first_unknown, select_entries, new_entries}
use uscan.Iface.Active.{Entry, if_v4, group}
use uscan.Iface.Active.Grouping.{addrs_of, given, DistinctNames, group-given}

abbrev host_ip : Ipv4Addr
host_ip = ipv4 192 168 1 77

abbrev neighbour : Ipv4Addr
neighbour = ipv4 192 168 1 9

is_octets : IsIpv4 neighbour
is_octets = record { b0 = omega arith; b1 = omega arith; b2 = omega arith; b3 = omega arith }

plan_hosts-exact_example :
    (contains (plan_hosts host_ip (mask_from_prefix 24)) neighbour ≡ true) ↔ (
      (3232235776 < u32_of neighbour) × (u32_of neighbour + 1 < 3232236032) × (neighbour ≢ host_ip))
unfolding u32_of
plan_hosts-exact_example =
    plan_hosts-exact 24 8 refl host_ip 12625921 77 refl (omega arith) (omega arith) neighbour
      (omega arith) (omega arith) is_octets

abbrev packet : Packet
packet = record {
  secs = 1700000000;
  micros = 5;
  src4 = host_ip;
  src_port = 5353;
  dst4 = neighbour;
  dst_port = 5353;
  payload = codes "hello";
}

read_frames-append_all_example :
    (read_frames 2 (drop 24 (append_all new (packet ∷ packet ∷ [])).file)
      ≡ frame_of packet ∷ frame_of packet ∷ [])
    × ((append_all new (packet ∷ packet ∷ [])).count ≡ 2)
read_frames-append_all_example =
    read_frames-append_all (packet ∷ packet ∷ []) (omega arith, (omega arith, tt))

abbrev mac : MacAddr
mac = record { m0 = 0; m1 = 0x11; m2 = 0x22; m3 = 0x33; m4 = 0x44; m5 = 0x55 }

abbrev always : ℕ → ℕ → Bool
always attempt p = true

abbrev provider : PortProvider
provider = with_used []

abbrev request_with : Text → SetIpRequest
request_with password = record {
  mac = 0 ∷ 0x11 ∷ 0x22 ∷ 0x33 ∷ 0x44 ∷ 0x55 ∷ [];
  password = password;
  new_ip = host_ip;
  subnet_mask = ipv4 255 255 255 0;
  gateway = ipv4 192 168 1 1;
  dhcp = false;
  protocol_version = 0;
}

-- Not base64, but a function on bytes all the same.
abbrev plainly : Bytes → Bytes
plainly b = b

-- The packet of a password of the letters `a` and `b`, of the length two.
abbrev packet_with : Bytes → Text → Bytes
packet_with encoded password =
    write (write (head_part (request_with password)) 0x54 encoded) 0x8a (0 ∷ [])

-- A socket that fails once.
abbrev flaky : ℕ → SendResult
flaky zero = failed 101
flaky (suc attempt) = sent 140

send_packet_lem_example :
    (((send_packet flaky).0 ≡ ok tt) ↔ (true ≡ true)) × ((send_packet flaky).1 ≡ 2)
send_packet_lem_example = send_packet_lem flaky

abbrev tlvs : List Tlv
tlvs =
    record { vtype = 0x0c; value = codes "UAP" }
    ∷ record { vtype = 2; value = 0 ∷ 0x11 ∷ 0x22 ∷ 0x33 ∷ 0x44 ∷ 0x55 ∷ 192 ∷ 168 ∷ 1 ∷ 20 ∷ [] }
    ∷ []

parse-encode_all_example :
    uscan.Protocols.Ubiquiti.parse (v4 neighbour) (2 ∷ (6 ∷ (u16_to_be 19 ++ encode_all tlvs)))
    ≡ report (v4 neighbour) (some (take_all tlvs (record { mac = none; ip = none; model = none })))
parse-encode_all_example =
    parse-encode_all (v4 neighbour) 2 6 tlvs
      (
        record {
          not_null = omega arith;
          word = omega arith;
          not_empty = omega arith;
          short = omega arith;
        },
        (
          record {
            not_null = omega arith;
            word = omega arith;
            not_empty = omega arith;
            short = omega arith;
          },
          tt,
        ),
      )
      (omega arith)

abbrev named : Text → ℕ → ScanEngine
named name port = record {
  name = name;
  used_ports = port ∷ [];
  color = 0;
  counter = 0;
  listen = listen_nothing;
  probes = λ config environment counter. ([], counter);
  parse = λ from d. some [];
}

abbrev engines : List Engine
engines =
    record { id = 1; body = named (codes "SSDP") 1900 }
    ∷ record { id = 3; body = named (codes "Dahua") 5050 }
    ∷ record { id = 4; body = named (codes "Dahua") 37810 }
    ∷ []

abbrev dahua : List Engine
dahua =
    record { id = 3; body = named (codes "Dahua") 5050 }
    ∷ record { id = 4; body = named (codes "Dahua") 37810 }
    ∷ []

differs : (codes "ssdp" =t= codes "dahua") ≡ false
differs = elim (Bool-cases (codes "ssdp" =t= codes "dahua")) [
  | inl same ↦ absurd (let e = =t=→eq (codes "ssdp") (codes "dahua") same in cc)
  | inr other ↦ other
]

differs_back : (codes "dahua" =t= codes "ssdp") ≡ false
differs_back = elim (Bool-cases (codes "dahua" =t= codes "ssdp")) [
  | inl same ↦ absurd (let e = =t=→eq (codes "dahua") (codes "ssdp") same in cc)
  | inr other ↦ other
]

selected : new_entries engines (some (codes "dAhUa" ∷ [])) ≡ ok dahua
unfolding new_entries select_entries first_unknown
selected = ground (arith, differs, differs_back, =t=_refl (codes "dahua"))

-- Two addresses of one interface, and one of another between them.
abbrev entries : List Entry
entries =
    record { name = codes "eth0"; addr = if_v4 host_ip 24; oper_up = true; loopback = false }
    ∷ record { name = codes "lo"; addr = if_v4 (ipv4 127 0 0 1) 8; oper_up = true; loopback = true }
    ∷ record { name = codes "eth0"; addr = if_v4 neighbour 24; oper_up = true; loopback = false }
    ∷ []

group-given_example :
    (addrs_of (codes "eth0") (group entries []) ≡ given (codes "eth0") entries)
    × DistinctNames (group entries [])
group-given_example = group-given entries (codes "eth0")

abbrev vendors : List Vendor
vendors = record { a = 0x84; b = 0x7b; c = 0x57; name = codes "Intel Corporate" } ∷ []

vendors-IsVendor : All IsVendor vendors
unfolding trim trim_end trim_start is_whitespace
vendors-IsVendor = (
  record {
    bytes = (omega arith, (omega arith, (omega arith, tt)));
    one_line = ground arith;
    trimmed = refl;
  },
  tt,
)

lookup_vendor-parse_compact_example :
    lookup_vendor (parse_compact (file_of vendors)) (0x84 ∷ 0x7b ∷ 0x57 ∷ 1 ∷ 2 ∷ 3 ∷ [])
    ≡ vendor_of (0x84 ∷ 0x7b ∷ 0x57 ∷ []) vendors none
lookup_vendor-parse_compact_example =
    lookup_vendor-parse_compact vendors (0x84 ∷ 0x7b ∷ 0x57 ∷ 1 ∷ 2 ∷ 3 ∷ []) vendors-IsVendor

abbrev cipher_key : Bytes
cipher_key = 0xf7 ∷ 1 ∷ 2 ∷ 3 ∷ 4 ∷ 5 ∷ 6 ∷ 0xff ∷ []
