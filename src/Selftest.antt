-- ===== src/Selftest.antt =====
-- universal-scanner/src/selftest.rs: the replay of the fixtures. The reading of a file is an argument.
use uscan.Prelude.{ℕ, List, [], ◌∷◌, ◌++◌, none, some}
use uscan.Prelude.{◌=t=◌, if◌then◌else◌, Bytes, Text, codes}
use uscan.Prelude.Maps.{Assoc, lookup}
use uscan.Prelude.Results.{Result, ok, err}
use uscan.Addr.{v4, ipv4}
use uscan.Strings.Find.{starts_with}
use uscan.Config.{default}
use uscan.Devices.{Device}
use uscan.Pcap.{SocketAddr}
use uscan.Mdns.Broker.{on_packet}
use uscan.Engine.Receive.{ScanEngine}
use uscan.Protocols.Consumers.{listen_axis, listen_googlecast, listen_arecont, reported}
use uscan.Protocols.Registry.{
  engine_ssdp, engine_wsd, engine_dahua1, engine_dahua2, engine_hikvision, engine_axis,
  engine_bosch, engine_googlecast, engine_hanwha, engine_vivotek, engine_sony, engine_ubiquiti,
  engine_vision360, engine_nicevision, engine_panasonic, engine_arecont, engine_gige,
  engine_vstarcam, engine_eaton, engine_foscam, engine_lantronix, engine_microchip,
  engine_advantech, engine_eden, engine_cyberpower, engine_mssql, engine_arp, engine_tvt,
}

pub record Replay : Type 0 where
  pub engine_name : Text
  pub fixture : Text
  pub source : SocketAddr

-- `Replay::addr`
abbrev pub addr : ℕ → ℕ → SocketAddr
addr id minor = record { ip = v4 (ipv4 240 0 id minor); port = 1024 }

abbrev pub r : Text → Text → ℕ → ℕ → Replay
r engine_name fixture id minor = record {
  engine_name = engine_name;
  fixture = fixture;
  source = addr id minor;
}

unfoldable pub replays : List Replay
replays =
    r (codes "SSDP") (codes "SSDP.selftest") 1 0
    ∷ r (codes "WSDiscovery") (codes "Wsdiscovery.selftest") 2 0
    ∷ r (codes "Dahua") (codes "Dahua1.selftest") 3 0
    ∷ r (codes "Dahua") (codes "Dahua2.selftest") 4 0
    ∷ r (codes "Hikvision") (codes "Hikvision.selftest") 5 0
    ∷ r (codes "Axis") (codes "Axis.selftest") 0 0
    ∷ r (codes "Bosch") (codes "Bosch.bin.selftest") 7 0
    ∷ r (codes "Bosch") (codes "Bosch.xml.selftest") 7 0
    ∷ r (codes "Google") (codes "GoogleCast.selftest") 0 0
    ∷ r (codes "Hanwha") (codes "Hanwha.selftest") 9 0
    ∷ r (codes "Vivotek") (codes "Vivotek.selftest") 10 0
    ∷ r (codes "Sony") (codes "Sony.selftest") 11 0
    ∷ r (codes "Ubiquiti") (codes "Ubiquiti.selftest") 12 0
    ∷ r (codes "360Vision") (codes "360Vision.selftest") 13 0
    ∷ r (codes "NiceVision") (codes "NiceVision.selftest") 14 0
    ∷ r (codes "Panasonic") (codes "Panasonic.selftest") 15 0
    ∷ r (codes "Arecont") (codes "Arecont.selftest") 0 0
    ∷ r (codes "GigEVision") (codes "GigEVision.selftest") 17 0
    ∷ r (codes "VStarcam") (codes "Vstarcam.selftest") 18 0
    ∷ r (codes "Eaton") (codes "Eaton.selftest") 19 0
    ∷ r (codes "Foscam") (codes "Foscam.selftest") 20 0
    ∷ r (codes "Foscam") (codes "Foscam_cipher.selftest") 20 0
    ∷ r (codes "Lantronix") (codes "Lantronix.selftest") 23 0
    ∷ r (codes "Lantronix") (codes "Vauban.selftest") 23 1
    ∷ r (codes "Microchip") (codes "Microchip.selftest") 24 0
    ∷ r (codes "Microchip") (codes "GCE.selftest") 24 0
    ∷ r (codes "Advantech") (codes "Advantech.selftest") 25 0
    ∷ r (codes "Eden") (codes "Eden.selftest") 26 0
    ∷ r (codes "CyberPower") (codes "CyberPower.selftest") 28 0
    ∷ r (codes "MSSQL") (codes "MSSQL.selftest") 29 0
    ∷ r (codes "ARP") (codes "Arp.selftest") 30 0
    ∷ r (codes "TVT") (codes "TVT.selftest") 31 0
    ∷ []

-- The arms of the match that look at the name only.
abbrev pub by_name : Assoc ScanEngine
by_name =
    (codes "SSDP", engine_ssdp)
    ∷ (codes "WSDiscovery", engine_wsd)
    ∷ (codes "Hikvision", engine_hikvision)
    ∷ (codes "Bosch", engine_bosch)
    ∷ (codes "Hanwha", engine_hanwha)
    ∷ (codes "Vivotek", engine_vivotek)
    ∷ (codes "Sony", engine_sony)
    ∷ (codes "Ubiquiti", engine_ubiquiti)
    ∷ (codes "360Vision", engine_vision360)
    ∷ (codes "NiceVision", engine_nicevision)
    ∷ (codes "Axis", engine_axis)
    ∷ (codes "Google", engine_googlecast)
    ∷ (codes "Arecont", engine_arecont)
    ∷ (codes "Panasonic", engine_panasonic)
    ∷ (codes "GigEVision", engine_gige)
    ∷ (codes "VStarcam", engine_vstarcam)
    ∷ (codes "Eaton", engine_eaton)
    ∷ (codes "Foscam", engine_foscam)
    ∷ (codes "Lantronix", engine_lantronix)
    ∷ (codes "Microchip", engine_microchip)
    ∷ (codes "Advantech", engine_advantech)
    ∷ (codes "Eden", engine_eden)
    ∷ (codes "CyberPower", engine_cyberpower)
    ∷ (codes "MSSQL", engine_mssql)
    ∷ (codes "TVT", engine_tvt)
    ∷ []

-- What a replay gives; `panicked` stops the program.
pub data Replayed : Type 0 where
  devices : List Device → Replayed
  failed : Text → Replayed
  panicked : Replayed

unfoldable pub engine_for : Replay → Result Text ScanEngine
engine_for re =
    if re.engine_name =t= codes "Dahua"
    then if starts_with (codes "Dahua1") (re.fixture) then ok engine_dahua1 else ok engine_dahua2
    else elim (lookup (re.engine_name) by_name) [
      | some e ↦ ok e
      | none ↦ err (codes "config: unknown selftest engine: " ++ re.engine_name)
    ]

-- `engine.parse(re.source, &bytes)`
abbrev pub parsed : ScanEngine → Replay → Bytes → Replayed
parsed e re d = elim (e.parse (re.source.ip) d) [ none ↦ panicked | some ds ↦ devices ds ]

-- The broker with the one engine, and the packet.
unfoldable pub replay_mdns : Replay → Bytes → Replayed
replay_mdns re d = devices (
    reported (
      on_packet
        (if re.engine_name =t= codes "Axis"
          then listen_axis default []
          else if re.engine_name =t= codes "Google"
          then listen_googlecast []
          else listen_arecont default [])
        d))

unfoldable pub replay : (Text → Result Text Bytes) → Replay → Replayed
unfolding replay_mdns engine_for
replay read re = elim (read (re.fixture)) [
  | err e ↦ failed (codes "io: " ++ e)
  | ok d ↦
      if re.engine_name =t= codes "Axis"
      then replay_mdns re d
      else if re.engine_name =t= codes "Google"
      then replay_mdns re d
      else if re.engine_name =t= codes "Arecont"
      then replay_mdns re d
      else if re.engine_name =t= codes "ARP"
      then parsed engine_arp re d
      else elim (engine_for re) [ err e ↦ failed e | ok e ↦ parsed e re d ]
]
