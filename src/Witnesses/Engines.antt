-- ===== src/Witnesses/Engines.antt =====
-- The engines: the theorems at one failing start and at the packets of one socket.
use uscan.Prelude.{◌≡◌, ◌≢◌, refl, true, false, List, [], ◌∷◌, ◌++◌, Option, none, some, arith}
use uscan.Prelude.{◌=t=◌, Text, codes}
use uscan.Prelude.Results.{ok, err}
use uscan.Addr.{Ipv4Addr, ipv4, v4}
use uscan.Config.{default}
use uscan.Ports.{PortProvider, free_port, pick}
use uscan.Pcap.{new}
use uscan.Pcap.Record.{append_all}
use uscan.Net.{System, udp_bind_global, udp_bind_interface}
use uscan.Devices.{Device}
use uscan.Engine.{listen_global, listen_interfaces, listen_interface, take_port}
use uscan.Engine.Receive.{recv_loop}
use uscan.Engine.Receiving.{
  Arrival, events_of, packets, devices_in, recv_loop_alive, recv_loop_panics,
}
use uscan.Scanner.{Engine, select_entries, has_mdns_consumer, reserve_used}
use uscan.Scanner.Running.{Scanner, io, start, initial, listen_all, listen_entries, listen_broker}
use uscan.Scanner.Running.Failing.{FailsAt, start-FailsAt}
use uscan.Protocols.Registry.{engine_eden}
use uscan.Protocols.Vision360.{parse}
use uscan.Utf8.{from_utf8_lossy}

-- A system where no socket can be bound on an interface.
abbrev without_interfaces : System
without_interfaces = record {
  in_use = λ p. false;
  bind_global = λ p. none;
  finish_global = λ p. none;
  bind_interface = λ ip p. some (codes "no");
  bind_multicast = λ p. none;
  join_multicast = λ g ip. none;
  finish_multicast = λ p. none;
  can_bind = λ call left p. true;
  sends = λ d. true;
}

abbrev provider : PortProvider
provider = record { state = 7; used = [] }

abbrev eden : List Engine
eden = record { id = 26; body = engine_eden } ∷ []

abbrev scanner : Scanner
scanner = record {
  config = default;
  filter = none;
  entries = [];
  contexts = 0;
  handles = [];
  cancelled = false;
}

abbrev nics : List Ipv4Addr
nics = ipv4 192 168 1 77 ∷ []

eden_chosen : select_entries eden (scanner.filter) ≡ ok eden
unfolding select_entries
eden_chosen = refl

eden_fails : (start without_interfaces nics true provider eden scanner).0 ≡ err (io (codes "no"))
unfolding start listen_all listen_entries listen_broker select_entries engine_eden listen_global
    listen_interfaces listen_interface udp_bind_global udp_bind_interface take_port free_port ◌=t=◌
    has_mdns_consumer reserve_used pick
eden_fails = refl

start-FailsAt_example :
    FailsAt without_interfaces default nics eden
      (listen_broker without_interfaces nics eden (initial provider eden))
      (codes "no")
      (listen_all without_interfaces default nics provider eden)
    × ((start without_interfaces nics true provider eden scanner).1.entries
        ≡ (listen_all without_interfaces default nics provider eden).entries)
    × ((start without_interfaces nics true provider eden scanner).1.contexts
        ≡ (listen_all without_interfaces default nics provider eden).contexts)
    × ((start without_interfaces nics true provider eden scanner).2
        ≡ (listen_all without_interfaces default nics provider eden).state.messages)
    × ((start without_interfaces nics true provider eden scanner).1.handles ≡ [])
start-FailsAt_example =
    start-FailsAt without_interfaces nics provider eden eden scanner (codes "no") eden_chosen
      eden_fails

abbrev arrival : Text → Arrival
arrival payload = record {
  secs = 1;
  micros = 2;
  src4 = ipv4 192 168 1 9;
  src_port = 3600;
  payload = payload;
}

-- A packet, an error and another packet.
abbrev two_packets : List (Option Arrival)
two_packets = some (arrival (codes "DISCOVER\n")) ∷ none ∷ some (arrival (codes "DISCOVER\n")) ∷ []

not_none : (ds : List Device) → ◌≢◌ {A = Option (List Device)} (some ds) none
not_none ds e = absurd (ground (arith, e))

echo_parses : parse (v4 (ipv4 192 168 1 9)) (codes "DISCOVER\n") ≡ some []
unfolding parse ◌=t=◌ from_utf8_lossy
echo_parses = refl

recv_loop_alive_example :
    recv_loop parse
      (record { ip = v4 (ipv4 192 168 1 77); port = 3600 })
      (events_of two_packets)
      (some new)
    ≡ record {
      pcap = some (append_all new (packets (ipv4 192 168 1 77) 3600 two_packets));
      devices = devices_in parse two_packets;
    }
recv_loop_alive_example =
    recv_loop_alive parse (ipv4 192 168 1 77) 3600 two_packets new
      (rw echo_parses (not_none []), (rw echo_parses (not_none []), tt))

bad_panics : parse (v4 (ipv4 192 168 1 9)) (codes "TYPE=1\n") ≡ none
unfolding parse ◌=t=◌ from_utf8_lossy
bad_panics = refl

recv_loop_panics_example :
    recv_loop parse
      (record { ip = v4 (ipv4 192 168 1 77); port = 3600 })
      (events_of two_packets ++ events_of (some (arrival (codes "TYPE=1\n")) ∷ two_packets))
      (some new)
    ≡ record {
      pcap = some (
          append_all
            (append_all new (packets (ipv4 192 168 1 77) 3600 two_packets))
            (packets (ipv4 192 168 1 77) 3600 (some (arrival (codes "TYPE=1\n")) ∷ [])));
      devices = devices_in parse two_packets;
    }
recv_loop_panics_example =
    recv_loop_panics parse (ipv4 192 168 1 77) 3600 two_packets two_packets
      (arrival (codes "TYPE=1\n")) new
      (rw echo_parses (not_none []), (rw echo_parses (not_none []), tt)) bad_panics
