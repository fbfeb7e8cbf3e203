-- ===== src/Engine/BrokerPorts.antt =====
-- mdns.rs: the ports of the sockets that the broker binds on the interfaces.
use uscan.Prelude.{◌≡◌, refl, sym, [], ◌∷◌, List, Option-cases, inl, inr}
use uscan.Prelude.Results.{Result-cases}
use uscan.Addr.{Ipv4Addr}
use uscan.Net.{System, udp_bind_interface, udp_bind_multicast}
use uscan.Engine.{Listening, take_port}
use uscan.Engine.Broker.{
  mdns_group, mdns_port, bind_broker, broker_interface, broker_interfaces, broker_listen,
}
use uscan.Engine.Fresh.{Extends, Extends-trans, Extends-refl, Extends-with_messages, local_socks}
use uscan.Engine.Interfaces.{
  Extends-take_port, Extends-with_socket, udp_bind_interface-eq_ok, udp_bind_multicast-unspecified,
}

Extends-broker_interface :
    (sys : System) (ip : Ipv4Addr) (s : Listening) → Extends s (broker_interface sys ip s)
unfolding broker_interface
Extends-broker_interface sys ip s = elim (Option-cases ((take_port sys s).0)) [
  | inl absent ↦
      rw (absent, broker_interface)
        (Extends-trans (Extends-take_port sys s) (Extends-with_messages _ ((take_port sys s).1)))
  | inr (p, there) ↦ elim (Result-cases (udp_bind_interface sys ip p)) [
    | inl (e, failed) ↦
        rw (there, broker_interface, failed, broker_interface)
          (Extends-trans (Extends-take_port sys s) (Extends-with_messages _ ((take_port sys s).1)))
    | inr (k, bound) ↦
        rw (there, broker_interface, bound, broker_interface)
          (let e : record { addr = ip; port = p } ≡ k =
              sym (udp_bind_interface-eq_ok sys ip p k bound) in
            rw (sym e) (Extends-with_socket sys s ip p there))
  ]
]

Extends-broker_interfaces :
    (sys : System) (ips : List Ipv4Addr) (s : Listening) → Extends s (broker_interfaces sys ips s)
unfolding broker_interfaces
Extends-broker_interfaces sys [] s = Extends-refl s
Extends-broker_interfaces sys (ip ∷ ips) s =
    Extends-trans (Extends-broker_interface sys ip s)
      (Extends-broker_interfaces sys ips (broker_interface sys ip s))

Extends-bind_broker :
    (sys : System) (ips : List Ipv4Addr) (s : Listening) → Extends s ((bind_broker sys ips s).1)
unfolding bind_broker
Extends-bind_broker sys ips s =
    elim (Result-cases ((udp_bind_multicast sys mdns_group mdns_port ips).1)) [
      | inl (e, failed) ↦ rw (failed, bind_broker) (Extends-with_messages _ s)
      | inr (k, bound) ↦ rw (bound, bind_broker) (Extends-with_messages _ s)
    ]

pub Extends-broker_listen :
    (sys : System) (ips : List Ipv4Addr) (s : Listening) → Extends s ((broker_listen sys ips s).1)
unfolding broker_listen
Extends-broker_listen sys ips s =
    Extends-trans (Extends-bind_broker sys ips s)
      (Extends-broker_interfaces sys ips ((bind_broker sys ips s).1))

-- The multicast socket stands at no interface.
pub broker_listen_unspecified :
    (sys : System) (ips : List Ipv4Addr) (s : Listening)
    → local_socks ((broker_listen sys ips s).0) ≡ []
unfolding broker_listen bind_broker
broker_listen_unspecified sys ips s =
    elim (Result-cases ((udp_bind_multicast sys mdns_group mdns_port ips).1)) [
      | inl (e, failed) ↦ rw (failed, bind_broker) refl
      | inr (k, bound) ↦
          rw (bound, bind_broker)
            (rw (udp_bind_multicast-unspecified sys mdns_group mdns_port ips k bound) refl)
    ]
