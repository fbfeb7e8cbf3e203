-- ===== src/Engine/Receive.antt =====
-- engine.rs and net.rs: the engine that the scanner holds, a round of probes, and the receiving task.
use uscan.Prelude.{ℕ, ◌+◌, Bool, List, [], ◌∷◌, ◌++◌, Option, none, some}
use uscan.Prelude.{ltb, if◌then◌else◌, Bytes, Text, codes}
use uscan.Addr.{IpAddr}
use uscan.Addr.Display.{decimal}
use uscan.Devices.{Device}
use uscan.Config.{Config}
use uscan.Pcap.{PcapWriter, SocketAddr, append_udp}
use uscan.Net.{System, SocketSet, Sending, Message, warning, send_to_all}
use uscan.Engine.{Listen}

-- What a round of probes takes from the clock and from the generator of UUIDs.
pub record Environment : Type 0 where
  pub hour : ℕ
  pub minute : ℕ
  pub second : ℕ
  pub millis : ℕ
  pub uuid : Text

-- `ScanEngine`, with the first value of its counter. What an engine sends in a round comes with the next
-- value of its counter, and a parser gives no list where the code would stop by a panic.
pub record ScanEngine : Type 0 where
  pub name : Text
  pub used_ports : List ℕ
  pub color : ℕ
  pub counter : ℕ
  pub listen : Listen
  pub probes : Config → Environment → ℕ → List Sending × ℕ
  pub parse : IpAddr → Bytes → Option (List Device)

-- The failed sendings of a round.
unfoldable pub failed_sends : System → SocketSet → List Sending → ℕ
failed_sends sys socks [] = 0
failed_sends sys socks (m ∷ ms) = send_to_all sys socks m + failed_sends sys socks ms

-- The warning at the end of `scan`.
unfoldable pub scan_messages : System → SocketSet → Text → List Sending → List Message
unfolding failed_sends
scan_messages sys socks name ms =
    let failed = failed_sends sys socks ms in
    if ltb 0 failed
    then warning (decimal failed ++ (32 ∷ (name ++ codes " sends failed"))) ∷ []
    else []

-- What `select!` takes: a packet with its time, its sender and whether the capture file took it, or
-- an error of the socket. The end of the list is the cancellation.
pub data Event : Type 0 where
  received : ℕ → ℕ → SocketAddr → Bytes → Bool → Event
  failed : Event

-- `if let Some(p) = &ctx.pcap { … }`
abbrev pub tapped :
    Option PcapWriter → ℕ → ℕ → SocketAddr → SocketAddr → Bytes → Bool → Option PcapWriter
tapped none secs micros from local d written = none
tapped (some w) secs micros from local d written =
    some ((append_udp w secs micros from local d written).0)

-- The receiving task up to its end or its panic: the capture file at the end and the devices that it
-- reported.
pub record Received : Type 0 where
  pub pcap : Option PcapWriter
  pub devices : List Device

unfoldable pub recv_loop :
    (IpAddr → Bytes → Option (List Device)) → SocketAddr → List Event → Option PcapWriter → Received
recv_loop parse local [] pcap = record { pcap = pcap; devices = [] }
recv_loop parse local (failed ∷ events) pcap = recv_loop parse local events pcap
recv_loop parse local (received secs micros from d written ∷ events) pcap =
    let next = tapped pcap secs micros from local d written in
    elim (parse (from.ip) d) [
      | none ↦ record { pcap = next; devices = [] }
      | some devices ↦
          let rest = recv_loop parse local events next in
          record { pcap = rest.pcap; devices = devices ++ rest.devices }
    ]
