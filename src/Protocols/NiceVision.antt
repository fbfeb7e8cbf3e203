-- ===== src/Protocols/NiceVision.antt =====
-- protocols/nicevision.rs: the counted probe and the parser of the answer.
use uscan.Prelude.{ℕ, ◌+◌, ◌%◌, ◌^◌, List, [], ◌∷◌, ◌++◌}
use uscan.Prelude.{ltb, if◌then◌else◌, length, byte, slice, Bytes, codes, u16_to_be}
use uscan.Addr.{v4, ipv4}
use uscan.Addr.Display.{mac_upper}
use uscan.Devices.{Device}
use uscan.Net.{Sending, send_broadcast}
use uscan.Engine.{Listen, listen_free_global}
use uscan.Protocols.{cstring}

abbrev pub request_port : ℕ
request_port = 2007

unfoldable pub build_probe : ℕ → Bytes
build_probe tx = codes "NICE" ++ (u16_to_be tx ++ 1 ∷ 8 ∷ 0 ∷ 0 ∷ 0 ∷ 0 ∷ [])

abbrev pub listen : Listen
listen = listen_free_global

-- The counter's next state, which the probe carries.
unfoldable pub scan : ℕ → List Sending × ℕ
unfolding build_probe
scan transaction_id =
    let tx = (transaction_id + 1) % 2 ^ 16 in
    (send_broadcast request_port (build_probe tx) ∷ [], tx)

unfoldable pub parse : Bytes → List Device
unfolding cstring mac_upper
parse d =
    if ltb (length d) 0x5a
    then []
    else record {
      protocol = codes "NiceVision";
      version = 1;
      ip = v4 (ipv4 (byte d 0x13) (byte d 0x12) (byte d 0x11) (byte d 0x10));
      mac = mac_upper (slice d 0xa 6);
      device_type = cstring (slice d 0x4a 16);
      serial = mac_upper (slice d 0xa 6);
    }
      ∷ []
