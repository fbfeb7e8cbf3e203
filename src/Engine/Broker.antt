-- ===== src/Engine/Broker.antt =====
-- mdns.rs: the sockets of the broker (`listen`) and the sending of a query (`scan`).
use uscan.Prelude.{ℕ, List, [], ◌∷◌, ◌++◌, none, some}
use uscan.Prelude.{Text, codes}
use uscan.Prelude.Results.{Result, ok, err}
use uscan.Addr.{Ipv4Addr, ipv4}
use uscan.Addr.Display.{decimal, ipv4_text}
use uscan.Mdns.{DnsError}
use uscan.Mdns.Queries.{build_query}
use uscan.Net.{
  System, SocketSet, Sending, Datagram, warning, datagram, udp_bind_interface, udp_bind_multicast,
}
use uscan.Engine.{Listening, take_port, with_messages, with_socket}

abbrev pub mdns_group : Ipv4Addr
mdns_group = ipv4 224 0 0 251

abbrev pub mdns_port : ℕ
mdns_port = 5353

-- The multicast socket, which only receives; without it the broker goes on.
unfoldable pub bind_broker : System → List Ipv4Addr → Listening → SocketSet × Listening
bind_broker sys iface_ips s =
    let (ms, bound) = udp_bind_multicast sys mdns_group mdns_port iface_ips in
    elim bound [
      | ok sock ↦ (sock ∷ [], with_messages ms s)
      | err e ↦ (
        [],
        with_messages
            (ms
              ++ warning (
                  codes "mDNS listen: multicast bind "
                  ++ (decimal mdns_port ++ (codes " failed: " ++ (e ++ codes " (degrading)"))))
                ∷ [])
            s,
      )
    ]

-- A round of the loop over the addresses: what fails is a warning.
unfoldable pub broker_interface : System → Ipv4Addr → Listening → Listening
broker_interface sys ip s =
    let (port, t) = take_port sys s in
    elim port [
      | none ↦
          with_messages (warning (codes "mDNS listen: no free port for " ++ ipv4_text ip) ∷ []) t
      | some p ↦ elim (udp_bind_interface sys ip p) [
        | ok sock ↦ with_socket sock t
        | err e ↦
            with_messages
              (warning (
                  codes "mDNS listen: bind "
                  ++ (ipv4_text ip ++ (58 ∷ (decimal p ++ (codes " failed: " ++ e)))))
                ∷ [])
              t
      ]
    ]

unfoldable pub broker_interfaces : System → List Ipv4Addr → Listening → Listening
broker_interfaces sys [] s = s
broker_interfaces sys (ip ∷ ips) s = broker_interfaces sys ips (broker_interface sys ip s)

-- `listen`: the receiving multicast socket, if it is there, and the state with the sending sockets.
unfoldable pub broker_listen : System → List Ipv4Addr → Listening → SocketSet × Listening
broker_listen sys iface_ips s =
    let (group_socks, t) = bind_broker sys iface_ips s in
    (group_socks, broker_interfaces sys iface_ips t)

-- `scan`: a query for the domain from every sending socket.
unfoldable pub broker_scan : SocketSet → Text → Result DnsError (List Datagram)
unfolding build_query
broker_scan socks domain = elim (build_query domain 12) [
  | err e ↦ err e
  | ok pkt ↦ ok (sent_from socks (record { to = mdns_group; to_port = mdns_port; payload = pkt }))
]
  where
    sent_from : SocketSet → Sending → List Datagram
    sent_from [] m = []
    sent_from (k ∷ ks) m = datagram m k ∷ sent_from ks m
