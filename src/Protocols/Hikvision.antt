-- ===== src/Protocols/Hikvision.antt =====
-- protocols/hikvision.rs: the probe and the parser of the XML answer.
use uscan.Prelude.{ℕ, List, [], ◌∷◌, none, some}
use uscan.Prelude.{if◌then◌else◌, Bytes, Text, codes}
use uscan.Addr.{IpAddr, Ipv4Addr, ipv4}
use uscan.Addr.Parse.{parse_ip, ip_or}
use uscan.Addr.Display.{ip_text}
use uscan.Utf8.{from_utf8_lossy}
use uscan.Strings.Find.{contains_text}
use uscan.Devices.{Device}
use uscan.Net.{Sending, send_multicast}
use uscan.Engine.{Listen, listen_multicast}
use uscan.Protocols.{or_empty, or_text}
use uscan.Protocols.Xml.{extract_xml_string}

abbrev pub group : Ipv4Addr
group = ipv4 239 255 255 250

abbrev pub port : ℕ
port = 37020

abbrev pub probe : Bytes
probe =
    codes
      "<?xml version=\"1.0\" encoding=\"utf-8\"?><Probe><Uuid>6a0eaae3-897b-4472-a692-ca0b08e09cd1</Uuid><Types>inquiry</Types></Probe>"

abbrev pub listen : Listen
listen = listen_multicast (group ∷ []) port

abbrev pub scan : List Sending
scan = send_multicast group port probe ∷ []

unfoldable pub parse_xml : IpAddr → Text → List Device
unfolding extract_xml_string contains_text
parse_xml from xml =
    let found : IpAddr → Device = λ ip. record {
      protocol = codes "Hikvision";
      version = 1;
      ip = ip;
      mac = [];
      device_type = or_empty (extract_xml_string xml (codes "DeviceDescription"));
      serial = or_empty (extract_xml_string xml (codes "DeviceSN"));
    } in
    if contains_text (codes "<ProbeMatch>") xml
    then found (ip_or from (or_text (extract_xml_string xml (codes "IPv4Address")) (ip_text from)))
      ∷ elim (extract_xml_string xml (codes "IPv6Address")) [
        | none ↦ []
        | some v6 ↦ elim (parse_ip v6) [ none ↦ [] | some ip6 ↦ found ip6 ∷ [] ]
      ]
    else []

unfoldable pub parse : IpAddr → Bytes → List Device
unfolding parse_xml
parse from d = parse_xml from (from_utf8_lossy d)
