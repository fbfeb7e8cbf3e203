-- ===== src/Net.antt =====
-- universal-scanner/src/net.rs: the binding of the three kinds of sockets, and the sending from all
-- sockets of an engine. The system is a record of what it answers: an attempt at a port, an
-- interface or a group succeeds or fails. A port is bound for one interface only, and a socket that
-- was bound is its address and port.
use uscan.Prelude.{ℕ, Bool, not, ◌&&◌, List, [], ◌∷◌, ◌++◌, map, Option, none, some}
use uscan.Prelude.{if◌then◌else◌, length, filter, Bytes, Text, codes}
use uscan.Prelude.Results.{Result, ok, err}
use uscan.Addr.{Ipv4Addr, ipv4}
use uscan.Addr.Display.{decimal, ipv4_text}
use uscan.Log.{Level}

pub record Socket : Type 0 where
  pub addr : Ipv4Addr
  pub port : ℕ

pub record Datagram : Type 0 where
  pub from : Socket
  pub to : Socket
  pub payload : Bytes

-- A message for the log, with its level.
pub record Message : Type 0 where
  pub level : Level
  pub text : Text

abbrev pub warning : Text → Message
warning text = record { level = Level.warn; text = text }

-- What the system answers: `none` is success, and a text the error.
pub record System : Type 0 where
  -- the trial of `probe_port_in_use`
  pub in_use : ℕ → Bool
  pub bind_global : ℕ → Option Text
  -- what follows the binding of a global socket: `set_broadcast`, `to_pair`
  pub finish_global : ℕ → Option Text
  pub bind_interface : Ipv4Addr → ℕ → Option Text
  pub bind_multicast : ℕ → Option Text
  pub join_multicast : Ipv4Addr → Ipv4Addr → Option Text
  pub finish_multicast : ℕ → Option Text
  -- the trials of the port provider: the number of the call, the attempts left and the port
  pub can_bind : ℕ → ℕ → ℕ → Bool
  -- the sending of a datagram
  pub sends : Datagram → Bool

abbrev pub unspecified : Ipv4Addr
unspecified = ipv4 0 0 0 0

abbrev pub broadcast : Ipv4Addr
broadcast = ipv4 255 255 255 255

-- The socket behind the binding, which finishes or fails.
abbrev pub finished : {A : Type 0} → Option Text → A → Result Text A
finished none s = ok s
finished (some e) s = err e

abbrev pub port_text : Text → ℕ → Text → Text
port_text before port after = before ++ (decimal port ++ after)

-- The messages, and a socket, none, or an error.
unfoldable pub udp_bind_global : System → ℕ → Bool → List Message × Result Text (Option Socket)
udp_bind_global sys port port_sharing =
    let sock : Socket = record { addr = unspecified; port = port } in
    let shared : List Message =
      if sys.in_use port
      then warning (port_text (codes "port ") port (codes " in use; sharing via SO_REUSEADDR")) ∷ []
      else [] in
    if sys.in_use port && not port_sharing
    then (
      warning (
            port_text (codes "port ") port
              (codes " in use; port_sharing off, skipping global socket"))
          ∷ [],
      ok none,
    )
    else elim (sys.bind_global port) [
      | some e ↦ (
        shared
            ++ warning (
                port_text (codes "port ") port
                  (codes " bind failed: " ++ (e ++ codes "; skipping global socket")))
              ∷ [],
        ok none,
      )
      | none ↦ (shared, finished (sys.finish_global port) (some sock))
    ]

unfoldable pub udp_bind_interface : System → Ipv4Addr → ℕ → Result Text Socket
udp_bind_interface sys addr port =
    finished (sys.bind_interface addr port) (record { addr = addr; port = port })

-- The message of each attempt to join.
abbrev pub join_message : System → Ipv4Addr → Ipv4Addr → Message
join_message sys group iface = elim (sys.join_multicast group iface) [
  | some e ↦ warning (
      codes "join "
      ++ (ipv4_text group ++ (codes " on " ++ (ipv4_text iface ++ (codes " failed: " ++ e)))))
  | none ↦ record {
    level = Level.debug;
    text =
        codes "joining group " ++ (ipv4_text group ++ (codes " on interface " ++ ipv4_text iface));
  }
]

unfoldable pub udp_bind_multicast :
    System → Ipv4Addr → ℕ → List Ipv4Addr → List Message × Result Text Socket
udp_bind_multicast sys group port iface_ips = elim (sys.bind_multicast port) [
  | some e ↦ ([], err e)
  | none ↦ (
    map (join_message sys group) iface_ips,
    finished (sys.finish_multicast port) (record { addr = unspecified; port = port }),
  )
]

-- `SocketSet`, in the order of `add`
abbrev pub SocketSet : Type 0
SocketSet = List Socket

abbrev pub add : Socket → SocketSet → SocketSet
add s socks = socks ++ s ∷ []

-- A destination with what is sent to it.
pub record Sending : Type 0 where
  pub to : Ipv4Addr
  pub to_port : ℕ
  pub payload : Bytes

abbrev pub datagram : Sending → Socket → Datagram
datagram m s = record {
  from = s;
  to = record { addr = m.to; port = m.to_port };
  payload = m.payload;
}

-- The number of sockets that failed.
unfoldable pub send_to_all : System → SocketSet → Sending → ℕ
send_to_all sys socks m = length (filter (λ s. not (sys.sends (datagram m s))) socks)

abbrev pub send_broadcast : ℕ → Bytes → Sending
send_broadcast port payload = record { to = broadcast; to_port = port; payload = payload }

abbrev pub send_multicast : Ipv4Addr → ℕ → Bytes → Sending
send_multicast group port payload = record { to = group; to_port = port; payload = payload }

abbrev pub send_unicast : Ipv4Addr → ℕ → Bytes → Sending
send_unicast ip port payload = record { to = ip; to_port = port; payload = payload }
