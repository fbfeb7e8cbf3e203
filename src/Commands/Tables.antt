-- ===== src/Commands/Tables.antt =====
-- uscan/src/commands.rs: `list-protocols` and its table.
use uscan.Prelude.{ℕ, ◌-◌, List, [], ◌∷◌, ◌++◌, map, replicate}
use uscan.Prelude.{◌==◌, if◌then◌else◌, length, Text, codes}
use uscan.Addr.Display.{decimal}
use uscan.Scanner.{Engine}
use uscan.Commands.{Outcome}

pub record Meta : Type 0 where
  pub port : Text
  pub listen : Text
  pub desc : Text

abbrev row : ℕ → Text → Text → Text → ℕ × Meta
row id port listen desc = (id, record { port = port; listen = listen; desc = desc })

-- The rows of the match, by the ID.
abbrev rows : List (ℕ × Meta)
rows =
    row 1 (codes "1900") (codes "multicast 239.255.255.250:1900")
      (codes "UPnP SSDP rootdevice discovery")
    ∷ row 2 (codes "3702") (codes "multicast 239.255.255.250:3702")
        (codes "WS-Discovery device probe")
    ∷ row 3 (codes "5050") (codes "global+ifaces :5050") (codes "Dahua (legacy) probe")
    ∷ row 4 (codes "37810") (codes "multicast 239.255.255.251:37810")
        (codes "Dahua subnet scan (netscan)")
    ∷ row 5 (codes "37020") (codes "multicast 239.255.255.250:37020")
        (codes "Hikvision device discovery")
    ∷ row 6 (codes "5353") (codes "mdns broker 5353") (codes "Axis (mDNS consumer)")
    ∷ row 7 (codes "1758") (codes "global+ifaces :1758") (codes "Bosch video server discovery")
    ∷ row 8 (codes "5353") (codes "mdns broker 5353") (codes "Google Cast (mDNS consumer)")
    ∷ row 9 (codes "7711") (codes "global+ifaces :7711") (codes "Hanwha camera discovery")
    ∷ row 10 (codes "10000") (codes "ifaces only :10000") (codes "Vivotek camera discovery")
    ∷ row 11 (codes "2380") (codes "ifaces only :2380") (codes "Sony camera discovery")
    ∷ row 12 (codes "10001") (codes "global+ifaces :10001") (codes "Ubiquiti UniFi discovery")
    ∷ row 13 (codes "3600") (codes "global+ifaces :3600") (codes "360 Vision camera discovery")
    ∷ row 14 (codes "2007") (codes "global+ifaces :2007") (codes "NiceVision discovery")
    ∷ row 15 (codes "10670") (codes "global+ifaces :10670") (codes "Panasonic camera discovery")
    ∷ row 16 (codes "5353") (codes "mdns broker 5353") (codes "Arecont (mDNS consumer)")
    ∷ row 17 (codes "3956") (codes "ifaces only :3956") (codes "GigE Vision discovery")
    ∷ row 18 (codes "8600") (codes "global+ifaces :8600") (codes "VStarcam camera discovery")
    ∷ row 19 (codes "4679") (codes "global+ifaces :4679") (codes "Eaton IPM discovery")
    ∷ row 20 (codes "10000") (codes "global+ifaces :10000") (codes "Foscam camera discovery")
    ∷ row 23 (codes "30718") (codes "global+ifaces :30718") (codes "Lantronix/Vauban discovery")
    ∷ row 24 (codes "30303") (codes "global+ifaces :30303") (codes "Microchip discovery")
    ∷ row 25 (codes "5048") (codes "ifaces only :5048") (codes "Advantech camera discovery")
    ∷ row 26 (codes "8088") (codes "global+ifaces :8088") (codes "Eden Optima discovery")
    ∷ row 28 (codes "53566") (codes "global+ifaces :53566") (codes "CyberPower UPS discovery")
    ∷ row 29 (codes "1434") (codes "global+ifaces :1434") (codes "MSSQL browser discovery")
    ∷ row 30 (8212 ∷ []) (codes "pcap ARP (L2)") (codes "ARP/GARP host discovery (L2 capture)")
    ∷ row 31 (codes "23456") (codes "multicast 234.55.55.55/.56 :23456")
        (codes "TVT camera discovery (MHED, reverse-engineered)")
    ∷ []

abbrev no_meta : Meta
no_meta = record { port = 8212 ∷ []; listen = 8212 ∷ []; desc = [] }

abbrev row_of : ℕ → List (ℕ × Meta) → Meta
row_of id [] = no_meta
row_of id ((i, m) ∷ ms) = let rest = row_of id ms in if i == id then m else rest

unfoldable pub proto_meta : ℕ → Meta
proto_meta id = row_of id rows

-- `{:<width}`
abbrev pub padded : ℕ → Text → Text
padded width text = text ++ replicate (width - length text) 32

abbrev pub columns : Text → Text → Text → Text → Text → Text
columns id name port listen desc =
    padded 3 id
    ++ (codes " | "
        ++ (padded 12 name
            ++ (codes " | "
                ++ (padded 7 port
                    ++ (codes " | " ++ (padded 32 listen ++ (codes " | " ++ desc)))))))

unfoldable pub run_list_protocols : List Engine → Outcome
unfolding proto_meta
run_list_protocols registry = record {
  printed =
      (columns (codes "ID") (codes "Name") (codes "Port") (codes "Listen") (codes "Description")
        ∷ map
            (λ e.
              columns (decimal e.id) (e.body.name) ((proto_meta (e.id)).port)
                ((proto_meta (e.id)).listen) ((proto_meta (e.id)).desc))
            registry)
      ++ ([]
          ∷ (codes
                "mDNS broker 5353 (shared, no registry ID): Axis / Google / Arecont consume mDNS via the broker."
              ∷ []));
  errors = [];
  code = 0;
}
