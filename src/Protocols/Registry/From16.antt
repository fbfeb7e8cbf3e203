-- ===== src/Protocols/Registry/From16.antt =====
-- The engines of protocols/mod.rs with the numbers from 16 on.
use uscan.Prelude.{[], ◌∷◌}
use uscan.Prelude.{codes}
use uscan.Engine.{listen_nothing}
use uscan.Engine.Receive.{ScanEngine}
use uscan.Arp
use uscan.Protocols.GigE
use uscan.Protocols.Vstarcam
use uscan.Protocols.Eaton
use uscan.Protocols.Foscam
use uscan.Protocols.Lantronix
use uscan.Protocols.Microchip
use uscan.Protocols.Advantech
use uscan.Protocols.Eden
use uscan.Protocols.CyberPower
use uscan.Protocols.Mssql
use uscan.Protocols.Tvt
use uscan.Protocols.Registry.Shapes.{once, counted, always, no_parser}

unfoldable pub engine_arecont : ScanEngine
engine_arecont = record {
  name = codes "Arecont";
  used_ports = [];
  color = 0x8b;
  counter = 0;
  listen = listen_nothing;
  probes = once [];
  parse = no_parser;
}

unfoldable pub engine_gige : ScanEngine
engine_gige = record {
  name = codes "GigEVision";
  used_ports = GigE.port ∷ [];
  color = 0xff0000;
  counter = 0;
  listen = GigE.listen;
  probes = counted GigE.probes;
  parse = always GigE.parse;
}

unfoldable pub engine_vstarcam : ScanEngine
engine_vstarcam = record {
  name = codes "VStarcam";
  used_ports = Vstarcam.port ∷ [];
  color = 0x8b;
  counter = 0;
  listen = Vstarcam.listen;
  probes = once Vstarcam.scan;
  parse = always Vstarcam.parse;
}

unfoldable pub engine_eaton : ScanEngine
engine_eaton = record {
  name = codes "Eaton";
  used_ports = Eaton.port ∷ [];
  color = 0xff;
  counter = 0;
  listen = Eaton.listen;
  probes = once Eaton.scan;
  parse = Eaton.parse;
}

unfoldable pub engine_foscam : ScanEngine
engine_foscam = record {
  name = codes "Foscam";
  used_ports = Foscam.port ∷ [];
  color = 0xff0000;
  counter = 0;
  listen = Foscam.listen;
  probes = once Foscam.scan;
  parse = always Foscam.parse;
}

unfoldable pub engine_lantronix : ScanEngine
engine_lantronix = record {
  name = codes "Lantronix";
  used_ports = Lantronix.port ∷ [];
  color = 0xffa500;
  counter = 0;
  listen = Lantronix.listen;
  probes = once Lantronix.scan;
  parse = always Lantronix.parse;
}

unfoldable pub engine_microchip : ScanEngine
engine_microchip = record {
  name = codes "Microchip";
  used_ports = Microchip.port ∷ [];
  color = 0xff0000;
  counter = 0;
  listen = Microchip.listen;
  probes = once Microchip.scan;
  parse = always Microchip.parse;
}

unfoldable pub engine_advantech : ScanEngine
engine_advantech = record {
  name = codes "Advantech";
  used_ports = [];
  color = 0x8080;
  counter = 0;
  listen = Advantech.listen;
  probes = once Advantech.scan;
  parse = always Advantech.parse;
}

unfoldable pub engine_eden : ScanEngine
engine_eden = record {
  name = codes "Eden";
  used_ports = Eden.port ∷ [];
  color = 0xff0000;
  counter = 0;
  listen = Eden.listen;
  probes = once Eden.scan;
  parse = always Eden.parse;
}

unfoldable pub engine_cyberpower : ScanEngine
engine_cyberpower = record {
  name = codes "CyberPower";
  used_ports = CyberPower.port ∷ [];
  color = 0xff8c00;
  counter = 0;
  listen = CyberPower.listen;
  probes = once CyberPower.scan;
  parse = always (λ from. CyberPower.parse);
}

unfoldable pub engine_mssql : ScanEngine
engine_mssql = record {
  name = codes "MSSQL";
  used_ports = Mssql.port ∷ [];
  color = 0x0;
  counter = 0;
  listen = Mssql.listen;
  probes = once Mssql.scan;
  parse = always Mssql.parse;
}

unfoldable pub engine_arp : ScanEngine
engine_arp = record {
  name = codes "ARP";
  used_ports = [];
  color = 0xff;
  counter = 0;
  listen = listen_nothing;
  probes = once [];
  parse = always (λ from. Arp.arp_parse);
}

unfoldable pub engine_tvt : ScanEngine
engine_tvt = record {
  name = codes "TVT";
  used_ports = Tvt.port ∷ [];
  color = 0x9932cc;
  counter = 0;
  listen = Tvt.listen;
  probes = once Tvt.scan;
  parse = always Tvt.parse;
}
