-- ===== src/Witnesses/Scanner.antt =====
-- The scanner and the engines: the theorems at one system, one scanner and one answer.
use uscan.Prelude.{◌≡◌, refl, true, false, List, [], ◌∷◌, none, some}
use uscan.Prelude.{◌=t=◌, codes, All}
use uscan.Prelude.Results.{ok}
use uscan.Addr.{Ipv4Addr, ipv4}
use uscan.Config.{default}
use uscan.Ports.{PortProvider, free_port, pick}
use uscan.Engine.{listen_global, listen_interfaces, listen_interface, take_port}
use uscan.Net.{System, udp_bind_global, udp_bind_interface}
use uscan.Engine.Fresh.{FreshPorts, local_socks}
use uscan.Scanner.{select_entries, has_mdns_consumer, reserve_used}
use uscan.Scanner.Selection.{fixed_port}
use uscan.Scanner.Running.{Scanner, start, listen_all, listen_entries, listen_broker}
use uscan.Scanner.Running.FixedPorts.{start-FreshPorts}
use uscan.Protocols.Registry.{registry, engine_eden}
use uscan.Protocols.Xml.{extract_xml_string}
use uscan.Protocols.Xml.Search.{first_match, extract_xml_string-first_match}

-- A system that answers every attempt with success.
abbrev willing : System
willing = record {
  in_use = λ p. false;
  bind_global = λ p. none;
  finish_global = λ p. none;
  bind_interface = λ ip p. none;
  bind_multicast = λ p. none;
  join_multicast = λ g ip. none;
  finish_multicast = λ p. none;
  can_bind = λ call left p. true;
  sends = λ d. true;
}

abbrev fresh_ports : PortProvider
fresh_ports = record { state = 7; used = [] }

abbrev eden_only : Scanner
eden_only = record {
  config = default;
  filter = some (codes "eden" ∷ []);
  entries = [];
  contexts = 0;
  handles = [];
  cancelled = false;
}

abbrev nics : List Ipv4Addr
nics = ipv4 192 168 1 77 ∷ []

eden_chosen :
    select_entries registry (eden_only.filter) ≡ ok (record { id = 26; body = engine_eden } ∷ [])
unfolding select_entries registry ◌=t=◌
eden_chosen = refl

eden_starts : (start willing nics true fresh_ports registry eden_only).0 ≡ ok tt
unfolding start listen_all listen_entries listen_broker select_entries registry engine_eden
    listen_global listen_interfaces listen_interface udp_bind_global udp_bind_interface take_port
    free_port ◌=t=◌ has_mdns_consumer reserve_used pick
eden_starts = refl

start-FreshPorts_example :
    FreshPorts [] (local_socks ((start willing nics true fresh_ports registry eden_only).1.handles))
    × All
        (λ k. fixed_port (record { id = 26; body = engine_eden } ∷ []) (k.port) ≡ false)
        (local_socks ((start willing nics true fresh_ports registry eden_only).1.handles))
start-FreshPorts_example =
    start-FreshPorts willing nics true fresh_ports (record { id = 26; body = engine_eden } ∷ [])
      eden_only eden_chosen eden_starts

extract_xml_string-first_match_example :
    extract_xml_string (codes "<a>x<b></a><a>y</a>") (codes "a")
    ≡ first_match (codes "a") (codes "<a>x<b></a><a>y</a>")
extract_xml_string-first_match_example =
    extract_xml_string-first_match (codes "<a>x<b></a><a>y</a>") (codes "a") (refl, (refl, tt))
