-- ===== src/Protocols/Microchip.antt =====
-- protocols/microchip.rs: the probe and the parser of the answer in lines.
use uscan.Prelude.{ℕ, List, [], ◌∷◌, none, some}
use uscan.Prelude.{◌==◌, ◌=t=◌, if◌then◌else◌, Bytes, Text, codes}
use uscan.Addr.{IpAddr}
use uscan.Strings.{split, trim, starts_newline}
use uscan.Strings.Find.{from_utf8}
use uscan.Devices.{Device, normalize_mac}
use uscan.Net.{Sending, send_broadcast}
use uscan.Engine.{Listen, listen_global}

abbrev pub port : ℕ
port = 30303

abbrev pub probe : Bytes
probe = codes "Discover GCE Devices"

abbrev pub listen : Listen
listen = listen_global port

abbrev pub scan : List Sending
scan = send_broadcast port probe ∷ []

-- `replace("\r\n", "\n")` and then `replace('\r', "\n")`
unfoldable pub normalized : Text → Text
unfolding starts_newline
normalized [] = []
normalized (c ∷ s) =
    let rest = normalized s in
    if c == 13 then if starts_newline s then rest else 10 ∷ rest else c ∷ rest

unfoldable pub device_of : IpAddr → Text → Text → Text → Device
unfolding trim normalize_mac
device_of from protocol device_type serial = record {
  protocol = protocol;
  version = 1;
  ip = from;
  mac = normalize_mac (trim serial);
  device_type = trim device_type;
  serial = trim serial;
}

-- Four lines or more, two or three, or less.
unfoldable pub parse_lines : IpAddr → List Text → List Device
unfolding device_of
parse_lines from (hostname ∷ (mac ∷ (_ ∷ (product ∷ others)))) =
    device_of from (codes "GCE") product mac ∷ []
parse_lines from (product ∷ (mac ∷ others)) = device_of from (codes "Microchip") product mac ∷ []
parse_lines from _ = []

unfoldable pub parse : IpAddr → Bytes → List Device
unfolding parse_lines normalized split from_utf8
parse from d = elim (from_utf8 d) [
  | none ↦
      record {
        protocol = codes "Microchip";
        version = 1;
        ip = from;
        mac = [];
        device_type = codes "Unknown";
        serial = [];
      }
      ∷ []
  | some text ↦ if text =t= probe then [] else parse_lines from (split 10 (normalized text))
]
