-- ===== src/Protocols/Dahua1.antt =====
-- protocols/dahua1.rs: the probe and the parser of the answer in three sections.
use uscan.Prelude.{ℕ, ◌+◌, ◌-◌, ◌||◌, List, [], ◌∷◌, ◌++◌, none, some, min, replicate}
use uscan.Prelude.{ltb, ◌==◌, if◌then◌else◌, length, byte, slice, Bytes, Text, codes, u16_from_le}
use uscan.Prelude.Maps.{Assoc, lookup, insert}
use uscan.Addr.{IpAddr, v4, ipv4}
use uscan.Addr.Parse.{parse_ip}
use uscan.Utf8.{from_utf8_lossy}
use uscan.Strings.{split_once, drop_empty}
use uscan.Strings.Find.{split_on, before_first}
use uscan.Devices.{Device, normalize_mac}
use uscan.Net.{Sending, send_broadcast}
use uscan.Engine.{Listen, listen_global}
use uscan.Protocols.{cstring, or_text}

abbrev pub port : ℕ
port = 5050

abbrev pub section1_len : ℕ
section1_len = 0x78

-- `DISCOVER`: the four bytes that are not 0 among the first 17
abbrev pub discover : Bytes
discover = 0xa3 ∷ 1 ∷ 0 ∷ 1 ∷ replicate 12 0 ++ 2 ∷ replicate 15 0

abbrev pub listen : Listen
listen = listen_global port

abbrev pub scan : List Sending
scan = send_broadcast port discover ∷ []

-- The loop over the lines: a later value of a key takes the place of an earlier one.
unfoldable pub read_lines : List Text → Assoc Text → Assoc Text
unfolding split_once insert
read_lines [] out = out
read_lines (l ∷ ls) out = elim (split_once b':' l) [
  | none ↦ read_lines ls out
  | some (key, value) ↦ read_lines ls (insert key value out)
]

unfoldable pub parse_section3 : Bytes → Assoc Text
unfolding read_lines split_on
parse_section3 d =
    read_lines (drop_empty (split_on (λ c. c == 13 || c == 10) (from_utf8_lossy d))) []

-- The value of `IPv6Addr` up to the first `;`, and of that up to the first `/`.
unfoldable pub ipv6_part : Text → Text
unfolding before_first
ipv6_part v6 = before_first (λ c. c == b'/') (before_first (λ c. c == b';') v6)

abbrev pub section2_of : Bytes → ℕ
section2_of d = byte d 2

abbrev pub section3_of : Bytes → ℕ
section3_of d = u16_from_le (byte d 0x14) (byte d 0x15)

-- The devices of a packet whose sections fill it.
unfoldable pub parse_sections : IpAddr → Bytes → List Device
unfolding parse_section3 ipv6_part cstring normalize_mac
parse_sections from d =
    let section2_len = section2_of d in
    let section3_len = section3_of d in
    let mac_size = min 17 section2_len in
    let mac_raw = from_utf8_lossy (slice d section1_len mac_size) in
    let values =
      if ltb 0 section3_len
      then parse_section3 (slice d (section1_len + section2_len) section3_len)
      else [] in
    let found : ℕ → IpAddr → Device = λ version ip. record {
      protocol = codes "Dahua";
      version = version;
      ip = ip;
      mac = normalize_mac mac_raw;
      device_type =
          if ltb mac_size section2_len
          then from_utf8_lossy (slice d (section1_len + mac_size) (section2_len - mac_size))
          else cstring (slice d 0x28 16);
      serial = or_text (lookup (codes "SerialNo") values) mac_raw;
    } in
    let ip =
      if byte d 0x38 + byte d 0x39 + byte d 0x3a + byte d 0x3b == 0
      then from
      else v4 (ipv4 (byte d 0x38) (byte d 0x39) (byte d 0x3a) (byte d 0x3b)) in
    found 1 ip ∷ elim (lookup (codes "IPv6Addr") values) [
      | none ↦ []
      | some v6 ↦ elim (parse_ip (ipv6_part v6)) [ none ↦ [] | some ip6 ↦ found 2 ip6 ∷ [] ]
    ]

unfoldable pub parse : IpAddr → Bytes → List Device
unfolding parse_sections
parse from d =
    if ltb (length d) section1_len
    then []
    else if byte d 0 == 0xb3
    then if section1_len + section2_of d + section3_of d == length d
      then parse_sections from d
      else []
    else []
