-- ===== src/Protocols/Tests.antt =====
-- Runs of the parsers on the packets of the unit tests of universal-scanner/src/protocols.
use uscan.Prelude.{◌≡◌, refl, List, [], ◌∷◌, ◌++◌, Option, some, none, map}
use uscan.Prelude.{Text, codes}
use uscan.Addr.{IpAddr, ipv4, v4}
use uscan.Utf8.{from_utf8_lossy, as_bytes}
use uscan.Strings.{split_at}
use uscan.Addr.Parse.{parse_ip}
use uscan.Prelude.{◌=t=◌}
use uscan.Devices.{Device}
use uscan.Protocols.Vision360
use uscan.Protocols.Dahua2
use uscan.Protocols.Eaton
use uscan.Protocols.Wsd
use uscan.Protocols.Ssdp
use uscan.Protocols.Mssql
use uscan.Protocols.Microchip
use uscan.Protocols.Sony
use uscan.Protocols.Bosch
use uscan.Protocols.Hikvision

abbrev sender : IpAddr
sender = v4 (ipv4 240 0 13 0)

abbrev texts : List Device → List (Text × Text)
texts vs = map (λ v. (v.device_type, v.serial)) vs

abbrev read : Option (List Device) → List (Text × Text)
read none = []
read (some vs) = texts vs

newline_drops_a_character :
    read (Vision360.parse sender (codes "TYPE=CAM1\nKEY=SN123\n"))
    ≡ ((codes "CAM", codes "Unknown") ∷ [])
unfolding Vision360.parse from_utf8_lossy ◌=t=◌
newline_drops_a_character = refl

four_lines :
    texts (Microchip.parse sender (codes "hostname\n00-11-22-33-44-55\n80\nVirtual"))
    ≡ ((codes "Virtual", codes "00-11-22-33-44-55") ∷ [])
unfolding Microchip.parse from_utf8_lossy ◌=t=◌ as_bytes
four_lines = refl

last_server_token :
    texts (
      Ssdp.parse sender (
        codes
          "HTTP/1.1 200 OK\r\nUSN: uuid:abc-1::upnp:rootdevice\r\nSERVER: Linux/3.1 UPnP/1.0 Cam/2.0\r\n"))
    ≡ ((codes "Cam/2.0", codes "abc-1") ∷ [])
unfolding Ssdp.parse from_utf8_lossy ◌=t=◌ split_at
last_server_token = refl

namespaces_removed :
    texts (
      Wsd.parse sender (
        codes
          "<a:Address>urn:uuid:77-8</a:Address><d:Types>dn:NetworkVideoTransmitter tds:Device</d:Types>"))
    ≡ ((codes "NetworkVideoTransmitter Device", codes "77-8") ∷ [])
unfolding Wsd.parse from_utf8_lossy split_at
namespaces_removed = refl

server_and_instance :
    texts (Mssql.parse sender (5 ∷ 37 ∷ 0 ∷ codes "ServerName;ILSUNG1;InstanceName;YUKON"))
    ≡ ((codes "YUKON", codes "ILSUNG1") ∷ [])
unfolding Mssql.parse from_utf8_lossy ◌=t=◌
server_and_instance = refl

no_serial :
    texts
      (Sony.parse sender (2 ∷ codes "Model: X1" ++ 0xff ∷ codes "ipadr:10.0.0.1" ++ 0xff ∷ 3 ∷ []))
    ≡ ((codes " X1", codes "unkonwn") ∷ [])
unfolding Sony.parse from_utf8_lossy ◌=t=◌
no_serial = refl

serial_of_the_address :
    texts (
      Bosch.parse sender (
        codes
          "<a><friendlyName>NBC</friendlyName><physAddress>00-11-22-33-44-55</physAddress><unitIPAddress>10.0.0.1</unitIPAddress></a>"))
    ≡ ((codes "NBC", codes "00-11-22-33-44-55") ∷ [])
unfolding Bosch.parse from_utf8_lossy split_at parse_ip
serial_of_the_address = refl

two_addresses :
    texts (
      Hikvision.parse sender (
        codes
          "<ProbeMatch><DeviceDescription>DS</DeviceDescription><DeviceSN>S1</DeviceSN><IPv6Address>fe80::1</IPv6Address></ProbeMatch>"))
    ≡ ((codes "DS", codes "S1") ∷ (codes "DS", codes "S1") ∷ [])
unfolding Hikvision.parse from_utf8_lossy split_at parse_ip
two_addresses = refl

spaces_in_the_tag :
    read (
      Eaton.parse sender (
        codes
          "<OBJECT name=\"UPS.PowerSummary.iSerialNumber\">S9</OBJECT><OBJECT  name = \"System.Description\">E5</OBJECT>"))
    ≡ ((codes "E5", codes "S9") ∷ [])
unfolding Eaton.parse from_utf8_lossy split_at
spaces_in_the_tag = refl

cut_address :
    read (
      Dahua2.parse_body sender (
        codes
          "{\"method\":\"client.notifyDevInfo\",\"mac\":\"00:11:22:33:44:55\",\"DeviceType\" : \"IPC\",\"IPv6Address\":{\"IPAddress\":\"fe80::12/64\"}}"))
    ≡ ((codes "IPC", codes "00:11:22:33:44:55") ∷ (codes "IPC", codes "00:11:22:33:44:55") ∷ [])
unfolding Dahua2.parse_body from_utf8_lossy ◌=t=◌ split_at parse_ip
cut_address = refl
