-- ===== src/Engine/Interfaces.antt =====
-- engine.rs and net.rs: the ports of the sockets that an engine binds on the interfaces.
use uscan.Prelude.{
  ℕ, ◌≡◌, refl, sym, Bool, true, List, [], ◌∷◌, Option, none, some, arith, inl, inr,
}
use uscan.Prelude.{Option-cases, Text}
use uscan.Prelude.Results.{Result, ok, err, Result-cases}
use uscan.Addr.{Ipv4Addr, ipv4_eq}
use uscan.Config.{Config}
use uscan.Ports.Choice.{free_port_found, free_port-used}
use uscan.Net.{
  System, Socket, unspecified, Message, udp_bind_interface, udp_bind_global, udp_bind_multicast,
}
use uscan.Engine.{
  Listening, Listen, take_port, with_socket, listen_interface, listen_interfaces, listen_global,
  listen_multicast, listen_free_global, listen_only_interfaces, listen_nothing, bind_group,
  bind_groups, added,
}
use uscan.Engine.Fresh.{
  Extends, Extends-trans, Extends-refl, Extends-none, Extends-with_messages, Extends-global,
  Extends-local, Extends-then_on,
}

pub Extends-take_port : (sys : System) (s : Listening) → Extends s ((take_port sys s).1)
unfolding take_port
Extends-take_port sys s =
    Extends-none refl (λ q e. free_port-used (sys.can_bind (s.calls)) (s.ports) q e)

-- A socket on a port that the provider gave.
pub Extends-with_socket :
    (sys : System) (s : Listening) (ip : Ipv4Addr) (p : ℕ)
    → (take_port sys s).0 ≡ some p
    → Extends s (with_socket (record { addr = ip; port = p }) ((take_port sys s).1))
unfolding take_port
Extends-with_socket sys s ip p e =
    let (low, high, unused, after) = free_port_found (sys.can_bind (s.calls)) (s.ports) p e in
    Extends-local (record { addr = ip; port = p }) refl
      (λ q h. free_port-used (sys.can_bind (s.calls)) (s.ports) q h) unused
      (rw (after p) (ground arith))

pub udp_bind_interface-eq_ok :
    (sys : System) (ip : Ipv4Addr) (p : ℕ) (k : Socket)
    → udp_bind_interface sys ip p ≡ ok k
    → k ≡ record { addr = ip; port = p }
unfolding udp_bind_interface
udp_bind_interface-eq_ok sys ip p k e = ground (arith, e)

Extends-listen_interface :
    (sys : System) (ip : Ipv4Addr) (s : Listening) → Extends s ((listen_interface sys ip s).0)
unfolding listen_interface
Extends-listen_interface sys ip s = elim (Option-cases ((take_port sys s).0)) [
  | inl absent ↦
      rw (absent, listen_interface)
        (Extends-trans (Extends-take_port sys s) (Extends-with_messages _ ((take_port sys s).1)))
  | inr (p, there) ↦ elim (Result-cases (udp_bind_interface sys ip p)) [
    | inl (e, failed) ↦
        rw (there, listen_interface, failed, listen_interface) (Extends-take_port sys s)
    | inr (k, bound) ↦
        rw (there, listen_interface, bound, listen_interface)
          (let e : record { addr = ip; port = p } ≡ k =
              sym (udp_bind_interface-eq_ok sys ip p k bound) in
            rw (sym e) (Extends-with_socket sys s ip p there))
  ]
]

pub Extends-listen_interfaces :
    (sys : System) (nic_ips : List Ipv4Addr) (s : Listening)
    → Extends s ((listen_interfaces sys nic_ips s).0)
unfolding listen_interfaces
Extends-listen_interfaces sys [] s = Extends-refl s
Extends-listen_interfaces sys (ip ∷ nic_ips) s =
    Extends-then_on (listen_interface sys ip s) (listen_interfaces sys nic_ips)
      (Extends-listen_interface sys ip s) (λ t. Extends-listen_interfaces sys nic_ips t)

-- What an engine that binds at the unspecified address first adds.
Extends-added :
    (o : List Message × Result Text (Option Socket)) (s : Listening)
    → ((k : Socket) → o.1 ≡ ok (some k) → ipv4_eq (k.addr) unspecified ≡ true)
    → Extends s ((added o s).0)
Extends-added (ms, err e) s h = Extends-with_messages ms s
Extends-added (ms, ok none) s h = Extends-with_messages ms s
Extends-added (ms, ok (some k)) s h = Extends-global k refl (λ q e. e) (h k refl)

udp_bind_global-unspecified :
    (sys : System) (port : ℕ) (sharing : Bool) (k : Socket)
    → (udp_bind_global sys port sharing).1 ≡ ok (some k)
    → ipv4_eq (k.addr) unspecified ≡ true
unfolding udp_bind_global ipv4_eq
udp_bind_global-unspecified sys port sharing k e = ground (arith, e)

pub udp_bind_multicast-unspecified :
    (sys : System) (group : Ipv4Addr) (port : ℕ) (nic_ips : List Ipv4Addr) (k : Socket)
    → (udp_bind_multicast sys group port nic_ips).1 ≡ ok k
    → ipv4_eq (k.addr) unspecified ≡ true
unfolding udp_bind_multicast ipv4_eq
udp_bind_multicast-unspecified sys group port nic_ips k e = ground (arith, e)

Extends-bind_group :
    (sys : System) (nic_ips : List Ipv4Addr) (port : ℕ) (group : Ipv4Addr) (s : Listening)
    → Extends s ((bind_group sys nic_ips port group s).0)
unfolding bind_group
Extends-bind_group sys nic_ips port group s =
    elim (Result-cases ((udp_bind_multicast sys group port nic_ips).1)) [
      | inl (e, failed) ↦ rw (failed, bind_group) (Extends-with_messages _ s)
      | inr (k, bound) ↦
          rw (bound, bind_group)
            (Extends-global k refl (λ q e. e)
              (udp_bind_multicast-unspecified sys group port nic_ips k bound))
    ]

Extends-bind_groups :
    (sys : System) (nic_ips : List Ipv4Addr) (port : ℕ) (groups : List Ipv4Addr) (s : Listening)
    → Extends s ((bind_groups sys nic_ips port groups s).0)
unfolding bind_groups
Extends-bind_groups sys nic_ips port [] s = Extends-refl s
Extends-bind_groups sys nic_ips port (g ∷ groups) s =
    Extends-then_on (bind_group sys nic_ips port g s) (bind_groups sys nic_ips port groups)
      (Extends-bind_group sys nic_ips port g s) (λ t. Extends-bind_groups sys nic_ips port groups t)

-- A way to listen that keeps to fresh ports on the interfaces.
abbrev pub KeepsPorts : Listen → Type 0
KeepsPorts listen =
    (sys : System) (config : Config) (nic_ips : List Ipv4Addr) (s : Listening)
    → Extends s ((listen sys config nic_ips s).0)

pub listen_global-KeepsPorts : (port : ℕ) → KeepsPorts (listen_global port)
unfolding listen_global
listen_global-KeepsPorts port sys config nic_ips s =
    Extends-then_on (added (udp_bind_global sys port (config.port_sharing)) s)
      (listen_interfaces sys nic_ips)
      (Extends-added (udp_bind_global sys port (config.port_sharing)) s
        (udp_bind_global-unspecified sys port (config.port_sharing)))
      (Extends-listen_interfaces sys nic_ips)

pub listen_multicast-KeepsPorts :
    (groups : List Ipv4Addr) (port : ℕ) → KeepsPorts (listen_multicast groups port)
unfolding listen_multicast
listen_multicast-KeepsPorts groups port sys config nic_ips s =
    Extends-then_on (bind_groups sys nic_ips port groups s) (listen_interfaces sys nic_ips)
      (Extends-bind_groups sys nic_ips port groups s) (Extends-listen_interfaces sys nic_ips)

pub listen_only_interfaces-KeepsPorts : KeepsPorts listen_only_interfaces
unfolding listen_only_interfaces
listen_only_interfaces-KeepsPorts sys config nic_ips s = Extends-listen_interfaces sys nic_ips s

pub listen_nothing-KeepsPorts : KeepsPorts listen_nothing
listen_nothing-KeepsPorts sys config nic_ips s = Extends-refl s

pub listen_free_global-KeepsPorts : KeepsPorts listen_free_global
unfolding listen_free_global
listen_free_global-KeepsPorts sys config nic_ips s = elim (Option-cases ((take_port sys s).0)) [
  | inl absent ↦
      rw (absent, listen_free_global)
        (Extends-trans (Extends-take_port sys s) (
          Extends-trans (Extends-with_messages _ ((take_port sys s).1))
            (Extends-listen_interfaces sys nic_ips _)))
  | inr (p, there) ↦
      rw (there, listen_free_global)
        (Extends-trans (Extends-take_port sys s) (
          Extends-then_on
            (added (udp_bind_global sys p (config.port_sharing)) ((take_port sys s).1))
            (listen_interfaces sys nic_ips)
            (Extends-added (udp_bind_global sys p (config.port_sharing)) ((take_port sys s).1)
              (udp_bind_global-unspecified sys p (config.port_sharing)))
            (Extends-listen_interfaces sys nic_ips)))
]
