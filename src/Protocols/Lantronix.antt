-- ===== src/Protocols/Lantronix.antt =====
-- protocols/lantronix.rs: the probe and the parser, which tells three makes of devices apart.
use uscan.Prelude.{ℕ, ◌&&◌, List, [], ◌∷◌, ◌++◌}
use uscan.Prelude.{ltb, ◌==◌, if◌then◌else◌, length, byte, slice, Bytes, Text, codes}
use uscan.Addr.{IpAddr}
use uscan.Addr.Display.{mac_upper}
use uscan.Devices.{Device}
use uscan.Net.{Sending, send_broadcast}
use uscan.Engine.{Listen, listen_global}

abbrev pub port : ℕ
port = 30718

abbrev pub answer_len : ℕ
answer_len = 0x1e

abbrev pub probe : Bytes
probe = 0 ∷ 0 ∷ 0 ∷ 0xf6 ∷ []

abbrev pub listen : Listen
listen = listen_global port

abbrev pub scan : List Sending
scan = send_broadcast port probe ∷ []

-- The text behind the model of a Vauban device, by its minor number.
abbrev pub suffix : ℕ → Text
suffix minor = if minor == 2 then codes " 2" else if minor == 4 then codes " 4" else []

-- The protocol and the model.
unfoldable pub kind_of : ℕ → ℕ → ℕ → Text × Text
kind_of magic major minor =
    if magic == 0x15 && major == 2 && ltb minor 10
    then (codes "Vauban", codes "Verso+" ++ suffix minor)
    else if magic == 0x13
    then (codes "Vauban", codes "unknown")
    else (codes "Lantronix", codes "unknown")

unfoldable pub parse : IpAddr → Bytes → List Device
unfolding kind_of mac_upper
parse from d =
    if length d == answer_len
    then if byte d 3 == 0xf7
      then (let (protocol, model) = kind_of (byte d 2) (byte d 0xc) (byte d 0xd) in
          record {
            protocol = protocol;
            version = 1;
            ip = from;
            mac = mac_upper (slice d 0x18 6);
            device_type = model;
            serial = mac_upper (slice d 0x18 6);
          }
          ∷ [])
      else []
    else []
