-- ===== src/Protocols/Dahua2.antt =====
-- protocols/dahua2.rs: the probe, and the parser of the JSON text behind the header. `none` is a panic.
pub mod Sweep
use uscan.Prelude.{
  ℕ, ◌-◌, ◌%◌, ◌^◌, Bool, true, false, ◌||◌, List, [], ◌∷◌, ◌++◌, Option, none, some,
}
use uscan.Prelude.{
  ltb, ◌==◌, ◌=t=◌, if◌then◌else◌, length, byte, drop, replicate, Bytes, Text, codes, u32_from_le,
  u32_to_le,
}
use uscan.Prelude.Options.{◌>>=◌}
use uscan.Addr.{Ipv4Addr, IpAddr, v4, v6, ipv4, ipv4_eq}
use uscan.Addr.Parse.{parse_ip, ip_or}
use uscan.Addr.Display.{ip_text}
use uscan.Utf8.{from_utf8_lossy}
use uscan.Strings.{split_once}
use uscan.Strings.Find.{before_first, from_first, last_or, without_last}
use uscan.Devices.{Device, normalize_mac}
use uscan.Net.{Sending, send_broadcast, send_multicast}
use uscan.Engine.{Listen, listen_multicast}
use uscan.Protocols.{or_empty, or_text, or_first, mapped}
use uscan.Protocols.Seek.{Attempt, found, missed, seek, found_text}

abbrev pub group : Ipv4Addr
group = ipv4 239 255 255 251

abbrev pub port : ℕ
port = 37810

abbrev pub header_size : ℕ
header_size = 0x20

-- The text of the probe.
abbrev pub body : Text
body = codes "{\"method\":\"DHDiscover.search\",\"params\":{\"mac\":\"\",\"uni\":0}}\n"

unfoldable pub header : ℕ → Bytes
header body_len =
    u32_to_le header_size
    ++ (codes "DHIP"
        ++ (replicate 8 0
            ++ (u32_to_le body_len ++ (replicate 4 0 ++ (u32_to_le body_len ++ replicate 4 0)))))

unfoldable pub build_probe : Bytes
unfolding header
build_probe = header (length body) ++ body

abbrev pub listen : Listen
listen = listen_multicast (group ∷ []) port

unfoldable pub scan : List Sending
unfolding build_probe
scan = send_multicast group port build_probe ∷ send_broadcast port build_probe ∷ []

abbrev pub skip_spaces : Text → Text
skip_spaces s = from_first (λ c. if c == 32 then false else true) s

-- A text in quotation marks, and a section up to the first closing brace.
abbrev pub quoted : Text → Attempt
quoted [] = missed
quoted (c ∷ s) =
    if c == b'"'
    then elim (split_once b'"' s) as (λ _. Attempt) [
      | none ↦ missed
      | some (content, rest) ↦ found content
    ]
    else missed

abbrev pub braced : Text → Attempt
braced [] = missed
braced (c ∷ s) =
    if c == b'{'
    then elim (split_once b'}' (c ∷ s)) as (λ _. Attempt) [
      | none ↦ missed
      | some (content, rest) ↦ found (content ++ b'}' ∷ [])
    ]
    else missed

-- What follows a key: spaces, a colon, spaces and a value.
unfoldable pub behind_colon : (Text → Attempt) → Text → Attempt
unfolding from_first
behind_colon value [] = missed
behind_colon value (c ∷ s) = if c == b':' then value (skip_spaces s) else missed

unfoldable pub after_key : (Text → Attempt) → Text → Attempt
unfolding behind_colon from_first
after_key value s = behind_colon value (skip_spaces s)

abbrev pub key_pattern : Text → Text
key_pattern key = b'"' ∷ (key ++ b'"' ∷ [])

unfoldable pub extract_json_string : Text → Text → Option Text
unfolding seek after_key split_once
extract_json_string key json = found_text (seek (key_pattern key) (after_key quoted) json)

unfoldable pub extract_json_section : Text → Text → Option Text
unfolding seek after_key split_once
extract_json_section key json = found_text (seek (key_pattern key) (after_key braced) json)

abbrev pub is_separator : ℕ → Bool
is_separator c = c == b'/' || c == b'\\'

-- The IPv6 text: what stands before the first separator loses its last byte, which stops the task if
-- it is not a character.
unfoldable pub cut_ipv6 : Text → Option Text
unfolding before_first from_first without_last
cut_ipv6 t = elim (from_first is_separator t) [
  | [] ↦ some t
  | c ∷ rest ↦ elim (before_first is_separator t) [
    | [] ↦ some t
    | d ∷ s ↦ if ltb (last_or d s) 0x80 then some (without_last (d ∷ s)) else none
  ]
]

abbrev pub is_unspecified : IpAddr → Bool
is_unspecified (v4 a) = ipv4_eq a (ipv4 0 0 0 0)
is_unspecified (v6 b) = false

-- The devices of a body, with the IPv6 text after the cut.
unfoldable pub devices_of : IpAddr → Text → Option Text → List Device
unfolding extract_json_string extract_json_section normalize_mac ipv4_eq
devices_of from json ipv6 =
    let mac = extract_json_string (codes "mac") json in
    let ipv4_str =
      or_text
        (extract_json_section (codes "IPv4Address") json
          >>= extract_json_string (codes "IPAddress"))
        (ip_text from) in
    let parsed = ip_or from ipv4_str in
    let device : IpAddr → Device = λ ip. record {
      protocol = codes "Dahua";
      version = 2;
      ip = ip;
      mac = or_empty (mapped normalize_mac mac);
      device_type = or_text (extract_json_string (codes "DeviceType") json) (codes "Dahua");
      serial =
          or_text (or_first (extract_json_string (codes "SerialNo") json) mac)
            (codes "Dahua device");
    } in
    device (if is_unspecified parsed then from else parsed)
    ∷ elim (ipv6 >>= parse_ip) [ none ↦ [] | some ip6 ↦ device ip6 ∷ [] ]

unfoldable pub parse_body : IpAddr → Text → Option (List Device)
unfolding devices_of cut_ipv6 extract_json_string extract_json_section
parse_body from json =
    if or_empty (extract_json_string (codes "method") json) =t= codes "client.notifyDevInfo"
    then elim (extract_json_section (codes "IPv6Address") json
        >>= extract_json_string (codes "IPAddress")) [
          | none ↦ some (devices_of from json none)
          | some t ↦ elim (cut_ipv6 t) [
            | none ↦ none
            | some cut ↦ some (devices_of from json (some cut))
          ]
        ]
    else some []

unfoldable pub parse : IpAddr → Bytes → Option (List Device)
unfolding parse_body
parse from d =
    if ltb (length d) header_size
    then some []
    else if u32_from_le (byte d 0) (byte d 1) (byte d 2) (byte d 3) == header_size
    then if u32_from_le (byte d 0x10) (byte d 0x11) (byte d 0x12) (byte d 0x13)
        == (length d - header_size) % 2 ^ 32
      then parse_body from (from_utf8_lossy (drop header_size d))
      else some []
    else some []
