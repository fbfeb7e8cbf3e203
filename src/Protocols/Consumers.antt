-- ===== src/Protocols/Consumers.antt =====
-- protocols/axis.rs, googlecast.rs and arecont.rs at the mDNS broker: `listen` registers their domains,
-- `scan` queries them, and a packet of a domain gives the devices of its engine.
use uscan.Prelude.{◌≡◌, ap, ◌∙◌, arith, List, [], ◌∷◌, ◌++◌, Option, none, some}
use uscan.Prelude.{◌=t=◌, if◌then◌else◌, any, All, Bytes, Text, codes}
use uscan.Prelude.Maps.{lookup, insert, lookup-insert}
use uscan.Prelude.Results.{Result, ok, err}
use uscan.Config.{Config}
use uscan.Devices.{Device}
use uscan.Mdns.{DnsError, MdnsAnswer}
use uscan.Mdns.Answers.{parse_dns}
use uscan.Mdns.Broker.{
  MdnsBroker, Reaction, warned, idle, called, register_domain, on_packet, Unknown, on_packet_first,
}
use uscan.Net.{SocketSet, Datagram}
use uscan.Engine.Broker.{broker_scan}
use uscan.Protocols.Axis
use uscan.Protocols.GoogleCast
use uscan.Protocols.Arecont.{arecont_convert}

-- A handler reports the devices of the answers.
abbrev pub Handler : Type 0
Handler = List MdnsAnswer → List Device

abbrev pub arecont_domain : Text
arecont_domain = codes "_arec._tcp.local"

unfoldable pub listen_domains : List Text → Handler → MdnsBroker Handler → MdnsBroker Handler
listen_domains [] handler broker = broker
listen_domains (d ∷ ds) handler broker =
    listen_domains ds handler (register_domain d handler broker)

unfoldable pub listen_axis : Config → MdnsBroker Handler → MdnsBroker Handler
listen_axis config =
    listen_domains Axis.domains
      (λ answers. Axis.axis_convert answers (config.force_zeroconf) (config.force_link_local))

unfoldable pub listen_googlecast : MdnsBroker Handler → MdnsBroker Handler
listen_googlecast = register_domain GoogleCast.domain GoogleCast.googlecast_convert

unfoldable pub listen_arecont : Config → MdnsBroker Handler → MdnsBroker Handler
listen_arecont config =
    register_domain arecont_domain
      (λ answers. arecont_convert answers (config.force_zeroconf) (config.force_link_local))

-- A query for each domain, up to the first that fails.
unfoldable pub scan_domains : SocketSet → List Text → Result DnsError (List Datagram)
scan_domains socks [] = ok []
scan_domains socks (d ∷ ds) =
    let rest = scan_domains socks ds in
    elim (broker_scan socks d) [
      | err e ↦ err e
      | ok sent ↦ elim rest [ err e ↦ err e | ok more ↦ ok (sent ++ more) ]
    ]

abbrev pub scan_axis : SocketSet → Result DnsError (List Datagram)
scan_axis socks = scan_domains socks Axis.domains

abbrev pub scan_googlecast : SocketSet → Result DnsError (List Datagram)
scan_googlecast socks = broker_scan socks GoogleCast.domain

-- The broker after a start with the three engines, in the order of the registry.
abbrev pub consumers : Config → MdnsBroker Handler
consumers config = listen_arecont config (listen_googlecast (listen_axis config []))

-- The devices that a packet gives.
abbrev pub reported : Reaction Handler → List Device
reported (warned e) = []
reported idle = []
reported (called h name answers) = h answers

abbrev by_axis : Config → Handler
by_axis config answers = Axis.axis_convert answers (config.force_zeroconf) (config.force_link_local)

abbrev by_arecont : Config → Handler
by_arecont config answers =
    arecont_convert answers (config.force_zeroconf) (config.force_link_local)

-- The engine of a name.
abbrev pub handler_of : Config → Text → Option Handler
handler_of config name =
    if arecont_domain =t= name
    then some (by_arecont config)
    else if GoogleCast.domain =t= name
    then some GoogleCast.googlecast_convert
    else if any (λ d. d =t= name) Axis.domains
    then some (by_axis config)
    else none

lookup-consumers :
    (config : Config) (name : Text) → lookup name (consumers config) ≡ handler_of config name
unfolding listen_arecont listen_googlecast listen_axis listen_domains register_domain lookup
lookup-consumers config name =
    rw
      (
        lookup-insert arecont_domain name (by_arecont config)
            (listen_googlecast (listen_axis config [])),
        lookup-insert GoogleCast.domain name GoogleCast.googlecast_convert (listen_axis config []),
      )
      (ground (
        arith,
        lookup-insert (codes "_axis-video._tcp.local") name (by_axis config)
            (insert (codes "_axis-nvr._tcp.local") (by_axis config) []),
        lookup-insert (codes "_axis-nvr._tcp.local") name (by_axis config) [],
      ))

All-Unknown :
    (config : Config) (answers : List MdnsAnswer)
    → All (λ b. handler_of config (b.name) ≡ none) answers
    → All (Unknown (consumers config)) answers
All-Unknown config [] h = tt
All-Unknown config (b ∷ answers) (h, hs) =
    (lookup-consumers config (b.name) ∙ h, All-Unknown config answers hs)

-- After a start with the three engines, a packet goes to the engine that has the first name of an
-- answer among its domains, and gives the devices that this engine reads in all the answers.
pub on_packet-consumers :
    (config : Config) (d : Bytes) (before after : List MdnsAnswer) (a : MdnsAnswer)
    (handler : Handler)
    → parse_dns d ≡ ok (before ++ (a ∷ after))
    → All (λ b. handler_of config (b.name) ≡ none) before
    → handler_of config (a.name) ≡ some handler
    → reported (on_packet (consumers config) d) ≡ handler (before ++ (a ∷ after))
on_packet-consumers config d before after a handler parsed unknown known = ap reported (
    on_packet_first (consumers config) d before after a handler parsed
      (All-Unknown config before unknown) (lookup-consumers config (a.name) ∙ known))
