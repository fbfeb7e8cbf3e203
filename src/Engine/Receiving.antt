-- ===== src/Engine/Receiving.antt =====
-- net.rs: the receiving task over the packets of a socket, and the capture file that it writes.
use uscan.Prelude.{
  ℕ, ◌≡◌, ◌≢◌, refl, sym, ap, ◌∙◌, true, List, [], ◌∷◌, ◌++◌, Option, none, some, inl, inr,
  append_assoc, append-nil,
}
use uscan.Prelude.{Option-cases, Bytes}
use uscan.Addr.{Ipv4Addr, IpAddr, v4}
use uscan.Devices.{Device}
use uscan.Pcap.{PcapWriter, SocketAddr, append_udp}
use uscan.Pcap.Record.{Packet, append_all}
use uscan.Engine.Receive.{Event, received, failed, Received, recv_loop}

-- A packet that a socket gives, from an IPv4 address.
pub record Arrival : Type 0 where
  pub secs : ℕ
  pub micros : ℕ
  pub src4 : Ipv4Addr
  pub src_port : ℕ
  pub payload : Bytes

abbrev pub Parser : Type 0
Parser = IpAddr → Bytes → Option (List Device)

-- What a socket gives: packets and errors.
abbrev pub events_of : List (Option Arrival) → List Event
events_of [] = []
events_of (none ∷ xs) = failed ∷ events_of xs
events_of (some a ∷ xs) =
    received (a.secs) (a.micros) (record { ip = v4 a.src4; port = a.src_port }) (a.payload) true
    ∷ events_of xs

-- The datagrams at a socket with the address and the port.
abbrev pub packets : Ipv4Addr → ℕ → List (Option Arrival) → List Packet
packets ip port [] = []
packets ip port (none ∷ xs) = packets ip port xs
packets ip port (some a ∷ xs) =
    record {
      secs = a.secs;
      micros = a.micros;
      src4 = a.src4;
      src_port = a.src_port;
      dst4 = ip;
      dst_port = port;
      payload = a.payload;
    }
    ∷ packets ip port xs

abbrev pub reported : Option (List Device) → List Device
reported none = []
reported (some ds) = ds

abbrev pub devices_in : Parser → List (Option Arrival) → List Device
devices_in parse [] = []
devices_in parse (none ∷ xs) = devices_in parse xs
devices_in parse (some a ∷ xs) = reported (parse (v4 a.src4) (a.payload)) ++ devices_in parse xs

-- The parser panics at none of the packets.
abbrev pub Parses : Parser → List (Option Arrival) → Type 0
Parses parse [] = Unit {0}
Parses parse (none ∷ xs) = Parses parse xs
Parses parse (some a ∷ xs) = (parse (v4 a.src4) (a.payload) ≢ none) × Parses parse xs

abbrev behind : List Device → Received → Received
behind ds r = record { pcap = r.pcap; devices = ds ++ r.devices }

recv_loop-append :
    (parse : Parser) (ip : Ipv4Addr) (port : ℕ) (xs : List (Option Arrival)) (more : List Event)
    (w : PcapWriter)
    → Parses parse xs
    → recv_loop parse (record { ip = v4 ip; port = port }) (events_of xs ++ more) (some w)
      ≡ behind (devices_in parse xs) (
          recv_loop parse
            (record { ip = v4 ip; port = port })
            more
            (some (append_all w (packets ip port xs))))
unfolding recv_loop append_all
recv_loop-append parse ip port [] more w h = refl
recv_loop-append parse ip port (none ∷ xs) more w h = recv_loop-append parse ip port xs more w h
recv_loop-append parse ip port (some a ∷ xs) more w (h, hs) =
    elim (Option-cases (parse (v4 a.src4) (a.payload))) [
      | inl wrong ↦ absurd (h wrong)
      | inr (ds, fine) ↦
          let local : SocketAddr = record { ip = v4 ip; port = port } in
          let next =
            (append_udp w (a.secs) (a.micros) (record { ip = v4 a.src4; port = a.src_port }) local
              (a.payload) true).0 in
          let r = recv_loop parse local more (some (append_all next (packets ip port xs))) in
          rw (fine, recv_loop)
            (ap (behind ds) (recv_loop-append parse ip port xs more next hs)
              ∙ ap (λ d. record { pcap = r.pcap; devices = d })
                  (sym (append_assoc ds (devices_in parse xs) (r.devices))))
    ]

-- A socket whose packets the parser all takes: errors of the socket in between do not stop the task,
-- every packet's devices are reported in their order, and the capture file has every packet.
pub recv_loop_alive :
    (parse : Parser) (ip : Ipv4Addr) (port : ℕ) (xs : List (Option Arrival)) (w : PcapWriter)
    → Parses parse xs
    → recv_loop parse (record { ip = v4 ip; port = port }) (events_of xs) (some w)
      ≡ record { pcap = some (append_all w (packets ip port xs)); devices = devices_in parse xs }
unfolding recv_loop
recv_loop_alive parse ip port xs w h =
    ap (λ es. recv_loop parse (record { ip = v4 ip; port = port }) es (some w))
      (sym (append-nil (events_of xs)))
    ∙ recv_loop-append parse ip port xs [] w h
    ∙ ap (λ d. record { pcap = some (append_all w (packets ip port xs)); devices = d })
        (append-nil (devices_in parse xs))

-- The first packet at which the parser panics is the last that the task handles: the capture file has
-- it and the packets before it, the devices before it are reported, and nothing behind it is.
pub recv_loop_panics :
    (parse : Parser) (ip : Ipv4Addr) (port : ℕ) (xs later : List (Option Arrival)) (a : Arrival)
    (w : PcapWriter)
    → Parses parse xs
    → parse (v4 a.src4) (a.payload) ≡ none
    → recv_loop parse
        (record { ip = v4 ip; port = port })
        (events_of xs ++ events_of (some a ∷ later))
        (some w)
      ≡ record {
        pcap =
            some (append_all (append_all w (packets ip port xs)) (packets ip port (some a ∷ [])));
        devices = devices_in parse xs;
      }
unfolding recv_loop append_all
recv_loop_panics parse ip port xs later a w h wrong =
    let written = append_all w (packets ip port xs) in
    let local : SocketAddr = record { ip = v4 ip; port = port } in
    recv_loop-append parse ip port xs (events_of (some a ∷ later)) w h
    ∙ ap (behind (devices_in parse xs)) (the_end written local)
    ∙ ap
        (λ d. record {
          pcap = some (append_all written (packets ip port (some a ∷ [])));
          devices = d;
        })
        (append-nil (devices_in parse xs))
  where
    the_end :
        (u : PcapWriter) (local : SocketAddr)
        → recv_loop parse local (events_of (some a ∷ later)) (some u) ≡ record {
          pcap = some (
              (append_udp u
                (a.secs)
                (a.micros)
                (record { ip = v4 a.src4; port = a.src_port })
                local
                (a.payload)
                true).0);
          devices = [];
        }
    the_end u local = rw (wrong, recv_loop) refl
