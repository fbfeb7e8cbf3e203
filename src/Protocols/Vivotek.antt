-- ===== src/Protocols/Vivotek.antt =====
-- protocols/vivotek.rs: the counted probe and the parser of the TLVs behind the header.
use uscan.Prelude.{ℕ, zero, suc, ◌+◌, ◌%◌, List, [], ◌∷◌, Option, none, some}
use uscan.Prelude.{
  ltb, leb, ◌==◌, if◌then◌else◌, length, byte, slice, take, Bytes, Text, codes, u32_from_be,
  u32_to_be,
}
use uscan.Addr.{IpAddr, v4, v6, ipv4}
use uscan.Addr.Display.{mac_upper}
use uscan.Utf8.{from_utf8_lossy}
use uscan.Devices.{Device}
use uscan.Net.{Sending, send_broadcast}
use uscan.Engine.{Listen, listen_only_interfaces}

abbrev pub port : ℕ
port = 10000

abbrev pub magic : ℕ
magic = 0x4a5d8f1c

-- The next state of the session counter of a byte, and the probe.
unfoldable pub build_probe : ℕ → ℕ × Bytes
build_probe session = ((session + 1) % 256, session ∷ u32_to_be magic)

abbrev pub listen : Listen
listen = listen_only_interfaces

unfoldable pub scan : ℕ → List Sending × ℕ
unfolding build_probe
scan session = let (next, probe) = build_probe session in (send_broadcast port probe ∷ [], next)

pub record Found : Type 0 where
  pub mac : Text
  pub model : Text
  pub ip : Option IpAddr

abbrev pub nothing_found : Found
nothing_found = record { mac = []; model = []; ip = none }

-- The arms of the match on the type; `none` drops the packet.
unfoldable pub take_value : ℕ → Bytes → Found → Option Found
unfolding mac_upper
take_value vtype value f =
    if vtype == 0
    then none
    else if vtype == 3
    then if length value == 4
      then some (record {
        mac = f.mac;
        model = f.model;
        ip = some (v4 (ipv4 (byte value 0) (byte value 1) (byte value 2) (byte value 3)));
      })
      else if length value == 16
      then some (record { mac = f.mac; model = f.model; ip = some (v6 value) })
      else none
    else if vtype == 2
    then if ltb (length value) 6
      then none
      else some (record { mac = mac_upper (take 6 value); model = f.model; ip = f.ip })
    else if vtype == 9
    then some (record { mac = f.mac; model = from_utf8_lossy value; ip = f.ip })
    else some f

-- The loop from a position on; each round takes two bytes at least, so a round for each byte is
-- enough.
unfoldable pub read_tlvs : ℕ → Bytes → ℕ → Found → Option Found
unfolding take_value
read_tlvs zero d position f = some f
read_tlvs (suc fuel) d position f =
    let vtype = byte d position in
    let size = byte d (position + 1) in
    let skipped = read_tlvs fuel d (position + 2) f in
    let taken : Option Found = elim (take_value vtype (slice d (position + 2) size) f) [
      | none ↦ none
      | some g ↦ read_tlvs fuel d (position + 2 + size) g
    ] in
    if leb (length d) position
    then some f
    else if leb (length d) (position + 2)
    then none
    else if vtype == 4
    then skipped
    else if ltb (length d) (position + 2 + size)
    then none
    else taken

unfoldable pub report : Option Found → List Device
report none = []
report (some f) = elim (f.ip) [
  | none ↦ []
  | some ip ↦
      record {
        protocol = codes "Vivotek";
        version = 1;
        ip = ip;
        mac = f.mac;
        device_type = f.model;
        serial = f.mac;
      }
      ∷ []
]

unfoldable pub parse : Bytes → List Device
unfolding read_tlvs report
parse d =
    if ltb (length d) 5
    then []
    else if u32_from_be (byte d 1) (byte d 2) (byte d 3) (byte d 4) == magic
    then report (read_tlvs (length d) d 5 nothing_found)
    else []
