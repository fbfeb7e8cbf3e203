-- ===== src/Protocols/Hanwha.antt =====
-- protocols/hanwha.rs: the probe and the parser, for which a short packet is filled up with zeros.
use uscan.Prelude.{ℕ, ◌-◌, List, [], ◌∷◌, ◌++◌}
use uscan.Prelude.{length, slice, replicate, Bytes, codes}
use uscan.Addr.{IpAddr}
use uscan.Addr.Parse.{ip_or}
use uscan.Devices.{Device}
use uscan.Net.{Sending, send_broadcast}
use uscan.Engine.{Listen, listen_global}
use uscan.Protocols.{cstring}

abbrev pub answer_port : ℕ
answer_port = 7711

abbrev pub request_port : ℕ
request_port = 7701

abbrev pub build_probe : Bytes
build_probe = 1 ∷ replicate 0x105 0

abbrev pub listen : Listen
listen = listen_global answer_port

abbrev pub scan : List Sending
scan = send_broadcast request_port build_probe ∷ []

-- `struct_field`: the bytes of the field that are there, and zeros for the others.
unfoldable pub struct_field : Bytes → ℕ → ℕ → Bytes
struct_field d off len = let part = slice d off len in part ++ replicate (len - length part) 0

unfoldable pub parse : IpAddr → Bytes → List Device
unfolding struct_field cstring
parse from d =
    let serial = cstring (struct_field d 0x13 18) in
    record {
      protocol = codes "Hanwha";
      version = 1;
      ip = ip_or from (cstring (struct_field d 0x25 16));
      mac = serial;
      device_type = cstring (struct_field d 0x6d 10);
      serial = serial;
    }
    ∷ []
