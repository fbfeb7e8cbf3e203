-- ===== src/Protocols/GigE.antt =====
-- protocols/gige.rs: the probe and the parser of the acknowledgement.
use uscan.Net.{Sending, send_broadcast}
use uscan.Engine.{Listen, listen_only_interfaces}
use Prim.Native.Nat.{bit_and}
use uscan.Prelude.{ℕ, ◌+◌, ◌-◌, ◌/◌, ◌%◌, ◌^◌, List, [], ◌∷◌}
use uscan.Prelude.{◌==◌, if◌then◌else◌, length, byte, slice, Bytes, codes, u16_from_be, u32_from_le}
use uscan.Addr.{IpAddr, v4, ipv4_of}
use uscan.Addr.Display.{mac_upper}
use uscan.Devices.{Device}
use uscan.Protocols.{cstring, or_else}

-- The counter's next state and the probe of the round. The 32-bit counter wraps, and the sum of a
-- count and 1 stays below 2^32 but for the last count, where the debug build stops.
unfoldable pub scan : ℕ → ℕ × Bytes
scan request_counter =
    let id = bit_and (request_counter + 1) 0xffff in
    (
      (request_counter + 1) % 2 ^ 32,
      0x42 ∷ 0x11 ∷ 0x00 ∷ 0x02 ∷ 0x00 ∷ 0x00 ∷ bit_and id 0xff ∷ id / 256 ∷ [],
    )

unfoldable pub parse : IpAddr → Bytes → List Device
unfolding cstring mac_upper
parse from d =
    if length d == 0x100
    then if u16_from_be (byte d 4) (byte d 5) == (length d - 8) % 2 ^ 16
      then (let ip_raw = u32_from_le (byte d 0x2c) (byte d 0x2d) (byte d 0x2e) (byte d 0x2f) in
          let mac = mac_upper (slice d 0x12 6) in
          record {
            protocol = or_else (cstring (slice d 0x50 0x20)) (codes "GigEVision");
            version = 0;
            ip = if ip_raw == 0 then from else v4 (ipv4_of ip_raw);
            mac = mac;
            device_type = or_else (cstring (slice d 0x70 0x20)) (cstring (slice d 0xf0 0x10));
            serial = or_else (cstring (slice d 0xe0 0x10)) mac;
          }
          ∷ [])
      else []
    else []

abbrev pub port : ℕ
port = 3956

abbrev pub listen : Listen
listen = listen_only_interfaces

unfoldable pub probes : ℕ → List Sending × ℕ
unfolding scan
probes request_counter =
    let (next, probe) = scan request_counter in (send_broadcast port probe ∷ [], next)
