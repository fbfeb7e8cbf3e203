-- ===== src/Protocols/Ubiquiti.antt =====
-- protocols/ubiquiti.rs: the probe and the parser of the TLV answer.
pub mod Tlv
use uscan.Net.{Sending, send_broadcast, send_multicast}
use uscan.Engine.{Listen, listen_global}
use uscan.Prelude.{
  ℕ, zero, suc, ◌+◌, ◌-◌, Bool, true, false, ◌&&◌, ◌||◌, not, List, [], ◌∷◌, ◌++◌, Option, none,
  some,
}
use uscan.Prelude.{
  ltb, leb, ◌==◌, if◌then◌else◌, length, byte, slice, take, drop, Bytes, Text, codes, u16_from_be,
  u16_from_le, u32_to_le,
}
use uscan.Addr.{Ipv4Addr, IpAddr, v4, v6, ipv4}
use uscan.Addr.Display.{mac_upper}
use uscan.Utf8.{from_utf8_lossy}
use uscan.Devices.{Device}

unfoldable pub build_probe : Bytes
build_probe = u32_to_le 1

-- What the TLVs have given so far; the MAC has six bytes.
pub record Found : Type 0 where
  pub mac : Option Bytes
  pub ip : Option Ipv4Addr
  pub model : Option Text

abbrev pub or_some {ℓ} : {A : Type ℓ} → Option A → A → Option A
or_some none x = some x
or_some (some y) x = some y

abbrev pub is_none {ℓ} : {A : Type ℓ} → Option A → Bool
is_none none = true
is_none (some y) = false

-- The arms of the match on the type, but for the type 0.
unfoldable pub take_value : ℕ → Bytes → Found → Found
take_value vtype value f =
    if (vtype == 1 || vtype == 0x13) && (length value == 6 && is_none (f.mac))
    then record { mac = some (take 6 value); ip = f.ip; model = f.model }
    else if vtype == 2 && length value == 10
    then record {
      mac = or_some (f.mac) (take 6 value);
      ip = or_some (f.ip) (ipv4 (byte value 6) (byte value 7) (byte value 8) (byte value 9));
      model = f.model;
    }
    else if (vtype == 0xc || vtype == 0x15) && (is_none (f.model) && ltb 0 (length value))
    then record { mac = f.mac; ip = f.ip; model = some (from_utf8_lossy value) }
    else f

-- The loop over the TLVs; `none` is the return with no device. Each round takes three bytes at
-- least, so a round for each byte is enough.
unfoldable pub read_tlvs : ℕ → Bytes → ℕ → Found → Option Found
read_tlvs zero d pos f = some f
read_tlvs (suc fuel) d pos f =
    let vtype = u16_from_le (byte d pos) (byte d (pos + 1)) in
    let size = byte d (pos + 2) in
    let rest = read_tlvs fuel d (pos + 3 + size) (take_value vtype (slice d (pos + 3) size) f) in
    if leb (length d) pos
    then some f
    else if leb (length d) (pos + 3)
    then none
    else if ltb (length d) (pos + 3 + size)
    then none
    else if vtype == 0
    then none
    else rest

abbrev pub or_ip : Option Ipv4Addr → IpAddr → IpAddr
or_ip none from = from
or_ip (some a) from = v4 a

abbrev pub or_unknown : Option Text → Text
or_unknown none = codes "unknown"
or_unknown (some m) = m

abbrev pub report : IpAddr → Option Found → List Device
report from none = []
report from (some f) = elim (f.mac) [
  | none ↦ []
  | some mac ↦
      record {
        protocol = codes "Ubiquiti";
        version = 1;
        ip = or_ip (f.ip) from;
        mac = mac_upper mac;
        device_type = or_unknown (f.model);
        serial = mac_upper mac;
      }
      ∷ []
]

unfoldable pub parse : IpAddr → Bytes → List Device
unfolding read_tlvs
parse from d =
    if ltb (length d) 4
    then []
    else if u16_from_be (byte d 2) (byte d 3) == length d - 4
    then report from (read_tlvs (length d) d 4 (record { mac = none; ip = none; model = none }))
    else []

abbrev pub port : ℕ
port = 10001

abbrev pub multicast_group : Ipv4Addr
multicast_group = ipv4 233 89 188 1

abbrev pub listen : Listen
listen = listen_global port

unfoldable pub scan : List Sending
unfolding build_probe
scan = send_multicast multicast_group port build_probe ∷ send_broadcast port build_probe ∷ []
