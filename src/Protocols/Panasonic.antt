-- ===== src/Protocols/Panasonic.antt =====
-- protocols/panasonic.rs: the probe and the parser of the TLVs behind the header.
pub mod Tlv
use uscan.Prelude.{ℕ, zero, suc, ◌+◌, ◌-◌, List, [], ◌∷◌, ◌++◌, Option, none, some, replicate}
use uscan.Prelude.{
  ltb, leb, ◌==◌, if◌then◌else◌, length, byte, slice, take, Bytes, codes, u16_from_be, u32_to_be,
}
use uscan.Prelude.Options.{◌>>=◌}
use uscan.Addr.{IpAddr, v4, v6, ipv4}
use uscan.Addr.Display.{mac_upper}
use uscan.Utf8.{from_utf8_lossy}
use uscan.Devices.{Device}
use uscan.Net.{Sending, send_broadcast}
use uscan.Engine.{Listen, listen_global}

abbrev pub probe_port : ℕ
probe_port = 10670

abbrev pub answer_port : ℕ
answer_port = 10669

abbrev pub header_size : ℕ
header_size = 52

unfoldable pub build_probe : Bytes
build_probe =
    u32_to_be 0x00010000
    ++ (u32_to_be 0x000d0000
        ++ (replicate 4 0
            ++ (replicate 6 0xff
                ++ (replicate 4 0xff
                    ++ (u32_to_be 0x00012011
                        ++ (u32_to_be 0x1e11231f
                            ++ (u32_to_be 0x1e191300
                                ++ (u32_to_be 0x00020000
                                    ++ (replicate 8 0
                                        ++ (u32_to_be 0xffff ++ replicate 2 0))))))))))

abbrev pub listen : Listen
listen = listen_global answer_port

unfoldable pub scan : List Sending
unfolding build_probe
scan = send_broadcast probe_port build_probe ∷ []

-- The values by their keys.
abbrev pub Tlvs : Type 0
Tlvs = List (ℕ × Bytes)

unfoldable pub get : ℕ → Tlvs → Option Bytes
get k [] = none
get k ((j, v) ∷ tlv) = let rest = get k tlv in if j == k then some v else rest

-- A key keeps its first value.
unfoldable pub push : ℕ → Bytes → Tlvs → Tlvs
unfolding get
push key value tlv = elim (get key tlv) [ none ↦ tlv ++ (key, value) ∷ [] | some v ↦ tlv ]

-- The loop from a position on; each round takes four bytes at least, so a round for each byte is
-- enough.
unfoldable pub read_tlvs : ℕ → Bytes → ℕ → Tlvs → Tlvs
unfolding push
read_tlvs zero d i tlv = tlv
read_tlvs (suc fuel) d i tlv =
    let key = u16_from_be (byte d i) (byte d (i + 1)) in
    let size = u16_from_be (byte d (i + 2)) (byte d (i + 3)) in
    let rest = read_tlvs fuel d (i + 4 + size) (push key (slice d (i + 4) size) tlv) in
    if ltb i (length d - 4) then if leb (length d) (i + 4 + size) then tlv else rest else tlv

-- An address of four or of sixteen bytes.
unfoldable pub address : Bytes → Option IpAddr
address v =
    if length v == 4
    then some (v4 (ipv4 (byte v 0) (byte v 1) (byte v 2) (byte v 3)))
    else if length v == 16
    then some (v6 (take 16 v))
    else none

abbrev pub or_bytes : Option Bytes → Option Bytes → Option Bytes
or_bytes none other = other
or_bytes (some v) other = some v

unfoldable pub report : Bytes → Tlvs → List Device
unfolding get address mac_upper
report mac tlv = elim (or_bytes (get 0xa7 tlv) (get 0xa8 tlv)) [
  | none ↦ []
  | some model ↦ elim (get 0x20 tlv >>= address) [
    | none ↦ []
    | some ip ↦
        record {
          protocol = codes "Panasonic";
          version = 1;
          ip = ip;
          mac = mac_upper mac;
          device_type = from_utf8_lossy model;
          serial = mac_upper mac;
        }
        ∷ []
  ]
]

unfoldable pub parse : Bytes → List Device
unfolding read_tlvs report
parse d =
    if leb (length d) header_size then [] else report (slice d 6 6) (read_tlvs (length d) d 53 [])
