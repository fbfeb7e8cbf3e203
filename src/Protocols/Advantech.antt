-- ===== src/Protocols/Advantech.antt =====
-- protocols/advantech.rs: the probe and the parser of the answer.
use uscan.Prelude.{ℕ, List, [], ◌∷◌, ◌++◌}
use uscan.Prelude.{ltb, ◌==◌, if◌then◌else◌, length, byte, slice, drop, replicate, Bytes, codes}
use uscan.Addr.{IpAddr}
use uscan.Addr.Display.{mac_upper}
use uscan.Utf8.{from_utf8_lossy}
use uscan.Devices.{Device}
use uscan.Net.{Sending, send_broadcast}
use uscan.Engine.{Listen, listen_only_interfaces}

abbrev pub port : ℕ
port = 5048

abbrev pub min_len : ℕ
min_len = 0x6a

abbrev pub build_probe : Bytes
build_probe =
    0x4d ∷ 0x41 ∷ 0x44 ∷ 0x41 ∷ 0 ∷ 0 ∷ 0 ∷ 0x83 ∷ 1 ∷ 0 ∷ 0x50 ∷ replicate 42 0
    ++ 0x20 ∷ replicate 6 0

abbrev pub listen : Listen
listen = listen_only_interfaces

abbrev pub scan : List Sending
scan = send_broadcast port build_probe ∷ []

unfoldable pub parse : IpAddr → Bytes → List Device
unfolding mac_upper
parse from d =
    if ltb (length d) min_len
    then []
    else record {
      protocol = codes "Advantech";
      version = 1;
      ip = from;
      mac = mac_upper (slice d 0xd 6);
      device_type =
          if byte d 0x35 == 0x20 then from_utf8_lossy (drop min_len d) else codes "Unknown";
      serial = mac_upper (slice d 0xd 6);
    }
      ∷ []
