-- ===== src/Protocols/Vstarcam.antt =====
-- protocols/vstarcam.rs: the probe and the parser of the answer.
use uscan.Prelude.{ℕ, List, [], ◌∷◌}
use uscan.Prelude.{ltb, ◌==◌, if◌then◌else◌, length, byte, slice, Bytes, codes, u32_from_be}
use uscan.Addr.{IpAddr}
use uscan.Addr.Parse.{ip_or}
use uscan.Addr.Display.{mac_upper}
use uscan.Devices.{Device}
use uscan.Net.{Sending, send_broadcast}
use uscan.Engine.{Listen, listen_global}
use uscan.Protocols.{cstring}

abbrev pub port : ℕ
port = 8600

abbrev pub build_probe : Bytes
build_probe = 0x44 ∷ 0x48 ∷ 1 ∷ 1 ∷ []

abbrev pub listen : Listen
listen = listen_global port

abbrev pub scan : List Sending
scan = send_broadcast port build_probe ∷ []

unfoldable pub parse : IpAddr → Bytes → List Device
unfolding cstring mac_upper
parse from d =
    if ltb (length d) 0x100
    then []
    else if u32_from_be (byte d 0) (byte d 1) (byte d 2) (byte d 3) == 0x44480108
    then record {
      protocol = codes "VStarcam";
      version = 1;
      ip = ip_or from (cstring (slice d 4 16));
      mac = mac_upper (slice d 0x54 6);
      device_type = cstring (slice d 0x7c 32);
      serial = cstring (slice d 0x5c 32);
    }
      ∷ []
    else []
