-- ===== src/Protocols/Registry/From1.antt =====
-- The engines of protocols/mod.rs with the numbers from 1 to 15.
use uscan.Prelude.{[], ◌∷◌}
use uscan.Prelude.{codes}
use uscan.Engine.{listen_nothing}
use uscan.Engine.Receive.{ScanEngine}
use uscan.Protocols.Ssdp
use uscan.Protocols.Wsd
use uscan.Protocols.Dahua1
use uscan.Protocols.Dahua2
use uscan.Protocols.Hikvision
use uscan.Protocols.Bosch
use uscan.Protocols.Hanwha
use uscan.Protocols.Vivotek
use uscan.Protocols.Sony
use uscan.Protocols.Ubiquiti
use uscan.Protocols.Vision360
use uscan.Protocols.NiceVision
use uscan.Protocols.Panasonic
use uscan.Protocols.Registry.Shapes.{once, counted, always, no_parser}

unfoldable pub engine_ssdp : ScanEngine
engine_ssdp = record {
  name = codes "SSDP";
  used_ports = Ssdp.port ∷ [];
  color = 0x6400;
  counter = 0;
  listen = Ssdp.listen;
  probes = once Ssdp.scan;
  parse = always Ssdp.parse;
}

unfoldable pub engine_wsd : ScanEngine
engine_wsd = record {
  name = codes "WSDiscovery";
  used_ports = Wsd.port ∷ [];
  color = 0x404040;
  counter = 0;
  listen = Wsd.listen;
  probes =
      λ config environment counter. (Wsd.scan (config.onvif_verbatim) (environment.uuid), counter);
  parse = always Wsd.parse;
}

unfoldable pub engine_dahua1 : ScanEngine
engine_dahua1 = record {
  name = codes "Dahua";
  used_ports = Dahua1.port ∷ [];
  color = 0x8b0000;
  counter = 0;
  listen = Dahua1.listen;
  probes = once Dahua1.scan;
  parse = always Dahua1.parse;
}

unfoldable pub engine_dahua2 : ScanEngine
engine_dahua2 = record {
  name = codes "Dahua";
  used_ports = Dahua2.port ∷ [];
  color = 0x8b0000;
  counter = 0;
  listen = Dahua2.listen;
  probes = once Dahua2.scan;
  parse = Dahua2.parse;
}

unfoldable pub engine_hikvision : ScanEngine
engine_hikvision = record {
  name = codes "Hikvision";
  used_ports = Hikvision.port ∷ [];
  color = 0xff0000;
  counter = 0;
  listen = Hikvision.listen;
  probes = once Hikvision.scan;
  parse = always Hikvision.parse;
}

unfoldable pub engine_axis : ScanEngine
engine_axis = record {
  name = codes "Axis";
  used_ports = [];
  color = 0x806000;
  counter = 0;
  listen = listen_nothing;
  probes = once [];
  parse = no_parser;
}

unfoldable pub engine_bosch : ScanEngine
engine_bosch = record {
  name = codes "Bosch";
  used_ports = Bosch.answer_port ∷ [];
  color = 0xff0000;
  counter = 0;
  listen = Bosch.listen;
  probes = λ config environment counter. (
    Bosch.scan (environment.hour) (environment.minute) (environment.second) (environment.millis),
    counter,
  );
  parse = always Bosch.parse;
}

unfoldable pub engine_googlecast : ScanEngine
engine_googlecast = record {
  name = codes "Google";
  used_ports = [];
  color = 0x8b;
  counter = 0;
  listen = listen_nothing;
  probes = once [];
  parse = no_parser;
}

unfoldable pub engine_hanwha : ScanEngine
engine_hanwha = record {
  name = codes "Hanwha";
  used_ports = Hanwha.answer_port ∷ [];
  color = 0xff8c00;
  counter = 0;
  listen = Hanwha.listen;
  probes = once Hanwha.scan;
  parse = always Hanwha.parse;
}

unfoldable pub engine_vivotek : ScanEngine
engine_vivotek = record {
  name = codes "Vivotek";
  used_ports = [];
  color = 0x8080;
  counter = 1;
  listen = Vivotek.listen;
  probes = counted Vivotek.scan;
  parse = always (λ from. Vivotek.parse);
}

unfoldable pub engine_sony : ScanEngine
engine_sony = record {
  name = codes "Sony";
  used_ports = [];
  color = 0x0;
  counter = 0;
  listen = Sony.listen;
  probes = once Sony.scan;
  parse = always Sony.parse;
}

unfoldable pub engine_ubiquiti : ScanEngine
engine_ubiquiti = record {
  name = codes "Ubiquiti";
  used_ports = Ubiquiti.port ∷ [];
  color = 0x8080;
  counter = 0;
  listen = Ubiquiti.listen;
  probes = once Ubiquiti.scan;
  parse = always Ubiquiti.parse;
}

unfoldable pub engine_vision360 : ScanEngine
engine_vision360 = record {
  name = codes "360Vision";
  used_ports = Vision360.port ∷ [];
  color = 0x800080;
  counter = 0;
  listen = Vision360.listen;
  probes = once Vision360.scan;
  parse = Vision360.parse;
}

unfoldable pub engine_nicevision : ScanEngine
engine_nicevision = record {
  name = codes "NiceVision";
  used_ports = [];
  color = 0x32948e;
  counter = 0;
  listen = NiceVision.listen;
  probes = counted NiceVision.scan;
  parse = always (λ from. NiceVision.parse);
}

unfoldable pub engine_panasonic : ScanEngine
engine_panasonic = record {
  name = codes "Panasonic";
  used_ports = Panasonic.probe_port ∷ [];
  color = 0x0;
  counter = 0;
  listen = Panasonic.listen;
  probes = once Panasonic.scan;
  parse = always (λ from. Panasonic.parse);
}
