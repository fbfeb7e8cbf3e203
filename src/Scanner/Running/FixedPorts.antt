-- ===== src/Scanner/Running/FixedPorts.antt =====
-- scanner.rs: the ports of the sockets of a start.
use uscan.Prelude.{
  ℕ, ◌≡◌, refl, sym, ap, ◌∙◌, Bool, true, false, List, [], ◌∷◌, ◌++◌, arith, inl, inr,
}
use uscan.Prelude.{Bool-cases, Option-cases, All}
use uscan.Prelude.Results.{ok}
use uscan.Addr.{Ipv4Addr}
use uscan.Config.{Config}
use uscan.Ports.{PortProvider, used_port}
use uscan.Net.{System, SocketSet}
use uscan.Engine.{Listening}
use uscan.Engine.Broker.{broker_listen}
use uscan.Engine.BrokerPorts.{Extends-broker_listen, broker_listen_unspecified}
use uscan.Engine.Fresh.{
  Extends, Extends-trans, Extends-refl, FreshPorts, FreshPorts-mono, local_socks,
  local_socks-append,
}
use uscan.Engine.Interfaces.{KeepsPorts}
use uscan.Scanner.{Engine, select_entries, reserve_used, has_mdns_consumer}
use uscan.Scanner.Selection.{fixed_port, reserve_used-used}
use uscan.Protocols.Registry.{registry}
use uscan.Scanner.Running.Registered.{AllKeepPorts, registry-AllKeepPorts, All-select_entries}
use uscan.Scanner.Running.{
  own, joined, initial, listen_entries, listen_broker, listen_all, Scanner, start,
}

Extends-joined : (s t : Listening) → Extends (own s) t → Extends s (joined (s.socks) t)
Extends-joined s t h = record {
  bound = h.bound;
  together = ap (λ x. s.socks ++ x) h.together;
  fresh = h.fresh;
  grows = h.grows;
  used_bound = h.used_bound;
}

Extends-listen_entries :
    (sys : System) (config : Config) (nic_ips : List Ipv4Addr) (es : List Engine) (s : Listening)
    → AllKeepPorts es
    → Extends s ((listen_entries sys config nic_ips es s).state)
unfolding listen_entries
Extends-listen_entries sys config nic_ips [] s keeps = Extends-refl s
Extends-listen_entries sys config nic_ips (e ∷ es) s (keep, keeps) =
    let o = e.body.listen sys config nic_ips (own s) in
    let first = Extends-joined s (o.0) (keep sys config nic_ips (own s)) in
    elim (Option-cases (o.1)) [
      | inl fine ↦
          rw (fine, listen_entries)
            (Extends-trans first
              (Extends-listen_entries sys config nic_ips es (joined (s.socks) (o.0)) keeps))
      | inr (msg, failed) ↦ rw (failed, listen_entries) first
    ]

-- The sockets of the broker; those on the interfaces are fresh.
Extends-listen_broker :
    (sys : System) (nic_ips : List Ipv4Addr) (es : List Engine) (s : Listening)
    → s.socks ≡ []
    → Extends s (listen_broker sys nic_ips es s)
unfolding listen_broker
Extends-listen_broker sys nic_ips es s e = elim (Bool-cases (has_mdns_consumer es)) [
  | inr idle ↦ rw idle (Extends-refl s)
  | inl needed ↦
      let h = Extends-broker_listen sys nic_ips s in
      let group_socks = (broker_listen sys nic_ips s).0 in
      let locals : local_socks (group_socks ++ h.bound) ≡ local_socks h.bound =
        local_socks-append group_socks h.bound
        ∙ ap (λ x. x ++ local_socks h.bound) (broker_listen_unspecified sys nic_ips s) in
      rw needed (record {
        bound = group_socks ++ h.bound;
        together =
            ap (λ x. group_socks ++ x) h.together
            ∙ ap (λ x. group_socks ++ (x ++ h.bound)) e
            ∙ ap (λ x. x ++ (group_socks ++ h.bound)) (sym e);
        fresh = rw locals h.fresh;
        grows = h.grows;
        used_bound = rw locals h.used_bound;
      })
]

-- The sockets of a start.
Extends-listen_all :
    (sys : System) (config : Config) (nic_ips : List Ipv4Addr) (ports : PortProvider)
    (es : List Engine)
    → AllKeepPorts es
    → Extends (initial ports es) ((listen_all sys config nic_ips ports es).state)
unfolding listen_all
Extends-listen_all sys config nic_ips ports es keeps =
    Extends-trans (Extends-listen_broker sys nic_ips es (initial ports es) refl) (
      Extends-listen_entries sys config nic_ips es (listen_broker sys nic_ips es (initial ports es))
        keeps)

All-unused :
    (used : List ℕ) (socks : SocketSet)
    → FreshPorts used socks
    → All (λ k. used_port used (k.port) ≡ false) socks
All-unused used [] h = tt
All-unused used (k ∷ socks) (h, hs) = (
  h,
  All-unused used socks (FreshPorts-mono used (k.port ∷ used) socks (λ q e. ground (arith, e)) hs),
)

not_fixed :
    (es : List Engine) (ports : PortProvider) (socks : SocketSet)
    → All (λ k. used_port ((reserve_used es ports).used) (k.port) ≡ false) socks
    → All (λ k. fixed_port es (k.port) ≡ false) socks
not_fixed es ports [] h = tt
not_fixed es ports (k ∷ socks) (h, hs) =
    (ground (arith, h, reserve_used-used es ports (k.port)), not_fixed es ports socks hs)

start-handles :
    (sys : System) (nic_ips : List Ipv4Addr) (has_interface : Bool) (ports : PortProvider)
    (all es : List Engine) (s : Scanner)
    → select_entries all (s.filter) ≡ ok es
    → (start sys nic_ips has_interface ports all s).0 ≡ ok tt
    → (start sys nic_ips has_interface ports all s).1.handles
      ≡ (listen_all sys (s.config) nic_ips ports es).state.socks
unfolding start
start-handles sys nic_ips false ports all es s chosen = λ e. absurd (ground (arith, e))
start-handles sys nic_ips true ports all es s chosen =
    elim (Option-cases ((listen_all sys (s.config) nic_ips ports es).error)) [
      | inl fine ↦ rw (chosen, start, fine, start) (λ e. refl)
      | inr (msg, failed) ↦ rw (chosen, start, failed, start) (λ e. absurd (ground (arith, e)))
    ]

-- When a start of engines of the registry succeeds, the sockets that it has bound on the interfaces,
-- those of the broker included, all have ports of their own, which the provider had not given before,
-- and none of them has the fixed port of an engine that was selected.
pub start-FreshPorts :
    (sys : System) (nic_ips : List Ipv4Addr) (has_interface : Bool) (ports : PortProvider)
    (es : List Engine) (s : Scanner)
    → select_entries registry (s.filter) ≡ ok es
    → (start sys nic_ips has_interface ports registry s).0 ≡ ok tt
    → FreshPorts
        (ports.used)
        (local_socks ((start sys nic_ips has_interface ports registry s).1.handles))
      × All
          (λ k. fixed_port es (k.port) ≡ false)
          (local_socks ((start sys nic_ips has_interface ports registry s).1.handles))
start-FreshPorts sys nic_ips has_interface ports es s chosen e =
    let keeps =
      All-select_entries (λ e. KeepsPorts (e.body.listen)) registry es (s.filter) chosen
        registry-AllKeepPorts in
    let h = Extends-listen_all sys (s.config) nic_ips ports es keeps in
    let reserved = (reserve_used es ports).used in
    let fresh : FreshPorts reserved
        (local_socks ((listen_all sys (s.config) nic_ips ports es).state.socks)) =
      rw h.together h.fresh in
    rw (start-handles sys nic_ips has_interface ports registry es s chosen e) (
      FreshPorts-mono (ports.used) reserved _
          (λ q u. ground (arith, u, reserve_used-used es ports q)) fresh,
      not_fixed es ports _ (All-unused reserved _ fresh),
    )
