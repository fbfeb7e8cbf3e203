-- ===== src/Pcap.antt =====
-- universal-scanner/src/pcap.rs: the capture file, its header and one record for a datagram.
-- Widths: `u16` sums are modelled as the release build computes them, modulo 2 ^ 16.
pub mod Record
use uscan.Prelude.{
  ℕ, ◌+◌, ◌*◌, ◌/◌, ◌%◌, ◌^◌, Bool, true, false, Option, none, some, List, [], ◌∷◌, ◌++◌,
}
use uscan.Prelude.{length, Bytes, u16_to_be, u32_to_le, if◌then◌else◌}
use uscan.Addr.{Ipv4Addr, IpAddr, v4, v6}

-- `SocketAddr`
pub record SocketAddr : Type 0 where
  pub ip : IpAddr
  pub port : ℕ

-- What the writer keeps: the bytes of the file and the number of packets.
pub record PcapWriter : Type 0 where
  pub file : Bytes
  pub count : ℕ

abbrev pub file_header : Bytes
file_header =
    0xd4
    ∷ 0xc3
    ∷ 0xb2
    ∷ 0xa1
    ∷ (0x02
        ∷ 0x00
        ∷ 0x04
        ∷ 0x00
        ∷ (0 ∷ 0 ∷ 0 ∷ 0 ∷ (0 ∷ 0 ∷ 0 ∷ 0 ∷ (0xdc ∷ 0x05 ∷ 0 ∷ 0 ∷ (1 ∷ 0 ∷ 0 ∷ 0 ∷ [])))))

-- `PcapWriter::new` on a file that could be created and written
abbrev pub new : PcapWriter
new = record { file = file_header; count = 0 }

-- `8u16 + payload.len() as u16`, `20u16 + udp_len`, `(14u16 + ip_len) as u32`
unfoldable pub udp_len : Bytes → ℕ
udp_len payload = (8 + length payload % 2 ^ 16) % 2 ^ 16

unfoldable pub ip_len : Bytes → ℕ
unfolding udp_len
ip_len payload = (20 + udp_len payload) % 2 ^ 16

unfoldable pub frame_len : Bytes → ℕ
unfolding ip_len
frame_len payload = (14 + ip_len payload) % 2 ^ 16

-- The locally administered MAC of an endpoint.
abbrev pub mac_for : Ipv4Addr → Bytes
mac_for a = 0x02 ∷ 0x00 ∷ 0x00 ∷ a.o1 ∷ a.o2 ∷ a.o3 ∷ []

abbrev pub octets : Ipv4Addr → Bytes
octets a = a.o0 ∷ a.o1 ∷ a.o2 ∷ a.o3 ∷ []

-- The record header: time in seconds and microseconds, captured and original length.
unfoldable pub record_header : ℕ → ℕ → Bytes → Bytes
record_header secs micros payload =
    u32_to_le (secs % 2 ^ 32)
    ++ (u32_to_le micros ++ (u32_to_le (frame_len payload) ++ u32_to_le (frame_len payload)))

-- Ethernet, IPv4 and UDP in front of the payload.
unfoldable pub frame : Ipv4Addr → ℕ → Ipv4Addr → ℕ → Bytes → Bytes
frame src4 src_port dst4 dst_port payload =
    mac_for dst4
    ++ (mac_for src4
        ++ (u16_to_be 0x0800
            ++ (0x45
                ∷ (0
                    ∷ (u16_to_be (ip_len payload)
                        ++ (u16_to_be 0
                            ++ (u16_to_be 0
                                ++ (254
                                    ∷ (17
                                        ∷ (u16_to_be 0
                                            ++ (octets src4
                                                ++ (octets dst4
                                                    ++ (u16_to_be src_port
                                                        ++ (u16_to_be dst_port
                                                            ++ (u16_to_be (udp_len payload)
                                                            ++ (u16_to_be 0
                                                            ++ payload))))))))))))))))

-- `append_udp`; the age of the packet comes in seconds and microseconds, and `written` says whether
-- the file took the record.
unfoldable pub append_udp :
    PcapWriter → ℕ → ℕ → SocketAddr → SocketAddr → Bytes → Bool → PcapWriter × Option ℕ
unfolding record_header frame
append_udp w secs micros src dst payload written = elim src.ip [
  | v6 b ↦ (w, none)
  | v4 src4 ↦ elim dst.ip [
    | v6 b ↦ (w, none)
    | v4 dst4 ↦
        let bytes =
          record_header secs micros payload ++ frame src4 src.port dst4 dst.port payload in
        if written
        then (record { file = w.file ++ bytes; count = w.count + 1 }, some (w.count + 1))
        else (w, none)
  ]
]
