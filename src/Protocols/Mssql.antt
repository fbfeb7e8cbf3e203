-- ===== src/Protocols/Mssql.antt =====
-- protocols/mssql.rs: the probe and the parser of the answer with names and values between semicolons.
use uscan.Prelude.{ℕ, ◌-◌, List, [], ◌∷◌, Option, none, some}
use uscan.Prelude.{ltb, ◌==◌, ◌=t=◌, if◌then◌else◌, length, byte, drop, Bytes, Text, codes}
use uscan.Addr.{IpAddr}
use uscan.Utf8.{from_utf8_lossy}
use uscan.Strings.{split}
use uscan.Devices.{Device, is_empty}
use uscan.Net.{Sending, send_broadcast}
use uscan.Engine.{Listen, listen_global}
use uscan.Protocols.{or_text}

abbrev pub port : ℕ
port = 1434

abbrev pub probe : Bytes
probe = 2 ∷ []

abbrev pub listen : Listen
listen = listen_global port

abbrev pub scan : List Sending
scan = send_broadcast port probe ∷ []

pub record Names : Type 0 where
  pub server_name : Option Text
  pub instance_name : Option Text

abbrev pub no_names : Names
no_names = record { server_name = none; instance_name = none }

abbrev pub set_name : Text → Text → Names → Names
set_name name value n =
    if name =t= codes "ServerName"
    then record { server_name = some value; instance_name = n.instance_name }
    else if name =t= codes "InstanceName"
    then record { server_name = n.server_name; instance_name = some value }
    else n

-- The loop over the pairs, up to an empty name.
unfoldable pub read_pairs : List Text → Names → Names
read_pairs (name ∷ (value ∷ parts)) n =
    let rest = read_pairs parts (set_name name value n) in if is_empty name then n else rest
read_pairs _ n = n

unfoldable pub parse_body : IpAddr → Text → List Device
unfolding read_pairs split
parse_body from body =
    let n = read_pairs (split b';' body) no_names in
    record {
      protocol = codes "MSSQL";
      version = 1;
      ip = from;
      mac = [];
      device_type = or_text (n.instance_name) (codes "Unknown");
      serial = or_text (n.server_name) (codes "Unknown");
    }
    ∷ []

unfoldable pub parse : IpAddr → Bytes → List Device
unfolding parse_body
parse from d =
    if ltb (length d) 3
    then []
    else if byte d 0 == 5
    then if byte d 1 == length d - 3 then parse_body from (from_utf8_lossy (drop 3 d)) else []
    else []
