-- ===== src/Protocols/Eden.antt =====
-- protocols/eden.rs: the probe and the parser of the answer `BOX|…`.
use uscan.Prelude.{ℕ, List, [], ◌∷◌}
use uscan.Prelude.{◌=t=◌, if◌then◌else◌, Bytes, Text, codes}
use uscan.Addr.{IpAddr}
use uscan.Addr.Parse.{ip_or}
use uscan.Utf8.{from_utf8_lossy}
use uscan.Strings.{split}
use uscan.Devices.{Device}
use uscan.Net.{Sending, send_broadcast}
use uscan.Engine.{Listen, listen_global}
use uscan.Protocols.{or_empty}
use uscan.Protocols.Xml.{extract_xml_string}

abbrev pub port : ℕ
port = 8088

abbrev pub listen : Listen
listen = listen_global port

abbrev pub scan : List Sending
scan = send_broadcast port (codes "DETECT BOX") ∷ []

-- The device of the fields between the bars; a text has at least one.
unfoldable pub parse_fields : IpAddr → List Text → List Device
unfolding extract_xml_string
parse_fields from [] = []
parse_fields from (magic ∷ []) = []
parse_fields from (magic ∷ (body ∷ rest)) =
    if magic =t= codes "BOX"
    then record {
      protocol = codes "Eden";
      version = 1;
      ip = ip_or from (or_empty (extract_xml_string body (codes "adresseIP")));
      mac = [];
      device_type = codes "Optima box";
      serial = or_empty (extract_xml_string body (codes "serialNumber"));
    }
      ∷ []
    else []

unfoldable pub parse : IpAddr → Bytes → List Device
unfolding parse_fields split
parse from d = parse_fields from (split b'|' (from_utf8_lossy d))
