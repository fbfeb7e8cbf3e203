-- ===== src/Engine.antt =====
-- universal-scanner/src/engine.rs: an engine as the scanner sees it, and the ways in which the engines
-- of universal-scanner/src/protocols listen: on a global socket or on a multicast group, and on a socket
-- for each address of the interfaces. The receiving tasks are outside the model: a socket that was
-- added has one.
pub mod Fresh
pub mod Interfaces
pub mod Receive
pub mod Receiving
pub mod SendAll
pub mod Broker
pub mod BrokerPorts
use uscan.Prelude.{ℕ, zero, suc, ◌+◌, Bool, true, false, List, [], ◌∷◌, ◌++◌, Option, none, some}
use uscan.Prelude.{if◌then◌else◌, Bytes, Text, codes}
use uscan.Prelude.Results.{Result, ok, err}
use uscan.Addr.{Ipv4Addr, IpAddr}
use uscan.Ports.{PortProvider, free_port}
use uscan.Devices.{Device}
use uscan.Config.{Config}
use uscan.Net.{
  System, Socket, SocketSet, Sending, Message, warning, add, udp_bind_global, udp_bind_interface,
  udp_bind_multicast,
}

-- What a listening engine works on: its sockets, the shared port provider with the number of its
-- calls, and the messages so far.
pub record Listening : Type 0 where
  pub socks : SocketSet
  pub ports : PortProvider
  pub calls : ℕ
  pub messages : List Message

-- The state at the end, with the error that `?` returns.
abbrev pub Outcome : Type 0
Outcome = Listening × Option Text

abbrev pub with_messages : List Message → Listening → Listening
with_messages ms s = record {
  socks = s.socks;
  ports = s.ports;
  calls = s.calls;
  messages = s.messages ++ ms;
}

abbrev pub with_socket : Socket → Listening → Listening
with_socket sock s = record {
  socks = add sock (s.socks);
  ports = s.ports;
  calls = s.calls;
  messages = s.messages;
}

-- `ctx.ports.lock().unwrap().free_port()`
unfoldable pub take_port : System → Listening → Option ℕ × Listening
take_port sys s =
    let (port, ports) = free_port (sys.can_bind (s.calls)) (s.ports) in
    (port, record { socks = s.socks; ports = ports; calls = s.calls + 1; messages = s.messages })

-- A round of the loop over the addresses: no port is a warning, and a socket that cannot be bound an
-- error.
unfoldable pub listen_interface : System → Ipv4Addr → Listening → Outcome
listen_interface sys ip s =
    let (port, t) = take_port sys s in
    elim port [
      | none ↦
          (with_messages (warning (codes "no free port; skipping interface socket") ∷ []) t, none)
      | some p ↦ elim (udp_bind_interface sys ip p) [
        | err e ↦ (t, some e)
        | ok sock ↦ (with_socket sock t, none)
      ]
    ]

-- The code behind a step, unless the step failed.
infixl 5 ◌then_on◌
abbrev pub ◌then_on◌ : Outcome → (Listening → Outcome) → Outcome
(s, some e) then_on k = (s, some e)
(s, none) then_on k = k s

unfoldable pub listen_interfaces : System → List Ipv4Addr → Listening → Outcome
listen_interfaces sys [] s = (s, none)
listen_interfaces sys (ip ∷ ips) s = listen_interface sys ip s then_on listen_interfaces sys ips

-- What a binding gave, with its socket added.
abbrev pub added : List Message × Result Text (Option Socket) → Listening → Outcome
added (ms, err e) s = (with_messages ms s, some e)
added (ms, ok none) s = (with_messages ms s, none)
added (ms, ok (some sock)) s = (with_socket sock (with_messages ms s), none)

unfoldable pub bind_group : System → List Ipv4Addr → ℕ → Ipv4Addr → Listening → Outcome
bind_group sys nic_ips port group s =
    let (ms, bound) = udp_bind_multicast sys group port nic_ips in
    elim bound [
      | err e ↦ (with_messages ms s, some e)
      | ok sock ↦ (with_socket sock (with_messages ms s), none)
    ]

-- The loop over the groups.
unfoldable pub bind_groups : System → List Ipv4Addr → ℕ → List Ipv4Addr → Listening → Outcome
bind_groups sys nic_ips port [] s = (s, none)
bind_groups sys nic_ips port (g ∷ groups) s =
    bind_group sys nic_ips port g s then_on bind_groups sys nic_ips port groups

-- `listen` of an engine: from the configuration and the addresses of the interfaces.
abbrev pub Listen : Type 0
Listen = System → Config → List Ipv4Addr → Listening → Outcome

-- On a fixed port and on the interfaces.
unfoldable pub listen_global : ℕ → Listen
listen_global port sys config nic_ips s =
    added (udp_bind_global sys port (config.port_sharing)) s then_on listen_interfaces sys nic_ips

-- On a port of the provider and on the interfaces.
unfoldable pub listen_free_global : Listen
listen_free_global sys config nic_ips s =
    let (port, t) = take_port sys s in
    let first : Outcome = elim port [
      | none ↦ (with_messages (warning (codes "no free port; skipping global socket") ∷ []) t, none)
      | some p ↦ added (udp_bind_global sys p (config.port_sharing)) t
    ] in
    first then_on listen_interfaces sys nic_ips

-- On groups at one port and on the interfaces.
unfoldable pub listen_multicast : List Ipv4Addr → ℕ → Listen
listen_multicast groups port sys config nic_ips s =
    bind_groups sys nic_ips port groups s then_on listen_interfaces sys nic_ips

unfoldable pub listen_only_interfaces : Listen
listen_only_interfaces sys config nic_ips s = listen_interfaces sys nic_ips s

-- What an engine that has no sockets of its own does.
abbrev pub listen_nothing : Listen
listen_nothing sys config nic_ips s = (s, none)
