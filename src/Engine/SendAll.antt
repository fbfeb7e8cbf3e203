-- ===== src/Engine/SendAll.antt =====
-- engine.rs and netscan.rs: the sending from all sockets with the capture file and the log, and the
-- sending of a net scan to its hosts.
use uscan.Prelude.{ℕ, true, ◌+◌, List, [], ◌∷◌, ◌++◌, Option}
use uscan.Prelude.{ltb, if◌then◌else◌, length, Bytes, Text, codes}
use uscan.Addr.{Ipv4Addr, v4}
use uscan.Addr.Display.{decimal, ipv4_text}
use uscan.Log.{Level}
use uscan.Pcap.{PcapWriter, SocketAddr}
use uscan.Net.{
  System, Socket, SocketSet, Sending, Message, warning, datagram, send_unicast, send_to_all,
}
use uscan.Engine.Receive.{tapped}

abbrev addr_of : Socket → SocketAddr
addr_of s = record { ip = v4 s.addr; port = s.port }

abbrev to_text : Sending → Text
to_text m = ipv4_text m.to ++ (58 ∷ decimal m.to_port)

-- `send_all`, at one time: the capture file and the messages. The addresses of the sockets are known.
unfoldable pub send_all :
    System → ℕ → ℕ → Sending → SocketSet → Option PcapWriter → Option PcapWriter × List Message
send_all sys secs micros m [] pcap = (pcap, [])
send_all sys secs micros m (s ∷ socks) pcap =
    let next =
      tapped pcap secs micros (addr_of s) (record { ip = v4 m.to; port = m.to_port }) m.payload
        true in
    let (last, ms) = send_all sys secs micros m socks next in
    (
      last,
      record {
        level = Level.debug;
        text =
            codes "-> "
            ++ (to_text m ++ (codes " (" ++ (decimal (length m.payload) ++ codes "B)")));
      }
          ∷ (if sys.sends (datagram m s)
              then ms
              else warning (codes "send to " ++ (to_text m ++ codes " failed")) ∷ ms),
    )

-- The sends of a net scan that failed.
unfoldable pub failed_unicasts : System → SocketSet → ℕ → Bytes → List Ipv4Addr → ℕ
failed_unicasts sys socks port probe [] = 0
failed_unicasts sys socks port probe (host ∷ hosts) =
    send_to_all sys socks (send_unicast host port probe)
    + failed_unicasts sys socks port probe hosts

-- What a net scan that comes to its end warns of.
unfoldable pub netscan_messages : System → SocketSet → ℕ → Bytes → List Ipv4Addr → List Message
unfolding failed_unicasts
netscan_messages sys socks port probe hosts =
    let failed = failed_unicasts sys socks port probe hosts in
    if ltb 0 failed
    then warning (codes "Dahua2 netscan: " ++ (decimal failed ++ codes " sends failed")) ∷ []
    else []
