-- ===== src/Protocols/Tvt.antt =====
-- protocols/tvt.rs: the probe and the parser of the answer.
use uscan.Net.{Sending, send_multicast}
use uscan.Engine.{Listen, listen_multicast}
use uscan.Addr.{Ipv4Addr}
use uscan.Prelude.{ℕ, ◌+◌, Bool, not, ◌&&◌, ◌||◌, List, [], ◌∷◌}
use uscan.Prelude.{
  ltb, leb, ◌==◌, ◌=t=◌, if◌then◌else◌, length, byte, slice, write, replicate, Bytes, Text, codes,
}
use uscan.Addr.{IpAddr, v4, ipv4}
use uscan.Addr.Display.{mac_upper}
use uscan.Devices.{Device, is_empty}
use uscan.Protocols.{cstring, or_else}

-- `b"MHED"`
abbrev pub magic : Bytes
magic = 0x4d ∷ 0x48 ∷ 0x45 ∷ 0x44 ∷ []

abbrev pub off_mac : ℕ
off_mac = 0x20

abbrev pub off_ip : ℕ
off_ip = 0x28

abbrev pub off_mask : ℕ
off_mask = 0x2c

abbrev pub off_gateway : ℕ
off_gateway = 0x30

unfoldable pub build_probe : Bytes
build_probe =
    write (write (write (write (replicate 140 0) 0 magic) 4 (9 ∷ [])) 6 (1 ∷ [])) 8 (1 ∷ [])

-- The test that drops a packet.
unfoldable pub is_dropped : Bytes → Bool
is_dropped d =
    ltb (length d) 152
    || not (slice d 0 4 =t= magic)
    || not (byte d 4 == 8)
    || not (slice d 8 4 =t= (2 ∷ 0 ∷ 0 ∷ 0 ∷ []))

unfoldable pub device_type_of : Bytes → Text
unfolding cstring
device_type_of d =
    let t1 = cstring (slice d 0xc 8) in
    if leb (0xc4 + 8) (length d) && is_empty t1 then cstring (slice d 0xc4 8) else t1

unfoldable pub parse : IpAddr → Bytes → List Device
unfolding is_dropped device_type_of mac_upper
parse from d =
    if is_dropped d
    then []
    else (let mac = mac_upper (slice d off_mac 6) in
        record {
          protocol = codes "TVT";
          version = 1;
          ip =
              if slice d off_ip 4 =t= (0 ∷ 0 ∷ 0 ∷ 0 ∷ [])
              then from
              else v4 (
                  ipv4 (byte d off_ip) (byte d (off_ip + 1)) (byte d (off_ip + 2))
                    (byte d (off_ip + 3)));
          mac = mac;
          device_type = device_type_of d;
          serial = or_else (cstring (slice d 0x8c 12)) mac;
        }
        ∷ [])

abbrev pub port : ℕ
port = 23456

abbrev pub probe_group : Ipv4Addr
probe_group = ipv4 234 55 55 55

abbrev pub answer_group : Ipv4Addr
answer_group = ipv4 234 55 55 56

abbrev pub listen : Listen
listen = listen_multicast (probe_group ∷ answer_group ∷ []) port

unfoldable pub scan : List Sending
unfolding build_probe
scan = send_multicast probe_group port build_probe ∷ []
