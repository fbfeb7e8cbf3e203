-- ===== src/Protocols/Bosch.antt =====
-- protocols/bosch.rs: the probe with the time of day, and the parser of the binary and the XML answer.
use Prim.Native.Nat.{bit_or}
use uscan.Prelude.{ℕ, ◌*◌, ◌/◌, ◌^◌, List, [], ◌∷◌, ◌++◌, none, some}
use uscan.Prelude.{
  ◌==◌, if◌then◌else◌, length, byte, slice, Bytes, Text, codes, u32_from_be, u32_to_be,
}
use uscan.Addr.{IpAddr, v4, ipv4}
use uscan.Addr.Parse.{parse_ip, ip_or}
use uscan.Addr.Display.{mac_upper}
use uscan.Utf8.{from_utf8_lossy}
use uscan.Devices.{Device, normalize_mac}
use uscan.Net.{Sending, send_broadcast}
use uscan.Engine.{Listen, listen_global}
use uscan.Protocols.{or_empty, or_first, mapped}
use uscan.Protocols.Xml.{extract_xml_string}

abbrev pub request_port : ℕ
request_port = 1757

abbrev pub answer_port : ℕ
answer_port = 1758

abbrev pub answer_magic : ℕ
answer_magic = 0x9939a427

abbrev pub request_magic : ℕ
request_magic = 0xff0006de

-- The hour, minute, second and millisecond of the clock.
unfoldable pub build_probe : ℕ → ℕ → ℕ → ℕ → Bytes
build_probe hour minute second millis =
    let t =
      bit_or (bit_or (bit_or (hour * 2 ^ 24) (minute * 2 ^ 16)) (second * 2 ^ 8)) (millis / 10) in
    u32_to_be answer_magic ++ (u32_to_be t ++ u32_to_be request_magic)

abbrev pub listen : Listen
listen = listen_global answer_port

unfoldable pub scan : ℕ → ℕ → ℕ → ℕ → List Sending
unfolding build_probe
scan hour minute second millis =
    send_broadcast request_port (build_probe hour minute second millis) ∷ []

-- The answer of 32 bytes; the address comes with its bytes reversed.
unfoldable pub parse_binary : Bytes → List Device
unfolding mac_upper
parse_binary d =
    if u32_from_be (byte d 0) (byte d 1) (byte d 2) (byte d 3) == answer_magic
    then record {
      protocol = codes "Bosch";
      version = 1;
      ip = v4 (ipv4 (byte d 0x13) (byte d 0x12) (byte d 0x11) (byte d 0x10));
      mac = mac_upper (slice d 8 6);
      device_type = codes "Bosch";
      serial = mac_upper (slice d 8 6);
    }
      ∷ []
    else []

unfoldable pub parse_xml : IpAddr → Text → List Device
unfolding extract_xml_string normalize_mac
parse_xml from xml =
    let phys = extract_xml_string xml (codes "physAddress") in
    let device_model = or_empty (extract_xml_string xml (codes "friendlyName")) in
    let device_serial = or_empty (or_first (extract_xml_string xml (codes "serialNumber")) phys) in
    let mac = or_empty (mapped normalize_mac phys) in
    let found : IpAddr → Device = λ ip. record {
      protocol = codes "Bosch";
      version = 2;
      ip = ip;
      mac = mac;
      device_type = device_model;
      serial = device_serial;
    } in
    found (ip_or from (or_empty (extract_xml_string xml (codes "unitIPAddress"))))
    ∷ elim (parse_ip (or_empty (extract_xml_string xml (codes "unitIPv6Address")))) [
      | none ↦ []
      | some ip6 ↦ found ip6 ∷ []
    ]

unfoldable pub parse : IpAddr → Bytes → List Device
unfolding parse_binary parse_xml
parse from d = if length d == 0x20 then parse_binary d else parse_xml from (from_utf8_lossy d)
