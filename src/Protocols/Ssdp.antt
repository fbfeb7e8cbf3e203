-- ===== src/Protocols/Ssdp.antt =====
-- protocols/ssdp.rs: the probes and the parser of the HTTP-like answer.
use uscan.Prelude.{ℕ, zero, suc, Bool, true, false, not, ◌||◌, List, [], ◌∷◌, ◌++◌, none, some}
use uscan.Prelude.{◌==◌, if◌then◌else◌, length, drop, Bytes, Text, codes}
use uscan.Addr.{IpAddr, Ipv4Addr, ipv4}
use uscan.Utf8.{from_utf8_lossy}
use uscan.Strings.{split_at, split_once, strip_prefix, trim, drop_empty}
use uscan.Strings.Find.{split_on, before_first, from_first, eq_ignore_ascii_case}
use uscan.Devices.{Device, is_empty}
use uscan.Net.{Sending, send_broadcast, send_multicast}
use uscan.Engine.{Listen, listen_multicast}
use uscan.Protocols.{or_else}

abbrev pub group : Ipv4Addr
group = ipv4 239 255 255 250

abbrev pub port : ℕ
port = 1900

abbrev pub probe : Text → Bytes
probe host =
    codes "M-SEARCH * HTTP/1.1\r\nHost: "
    ++ (host ++ codes "\r\nST:upnp:rootdevice\r\nMan:\"ssdp:discover\"\r\nMX:2\r\n\r\n")

abbrev pub listen : Listen
listen = listen_multicast (group ∷ []) port

abbrev pub scan : List Sending
scan =
    send_multicast group port (probe (codes "239.255.255.250:1900"))
    ∷ send_broadcast port (probe (codes "255.255.255.255:1900"))
    ∷ []

-- The first line whose name is the variable's in any case; a text without it gives an empty one.
unfoldable pub find_var : Text → List Text → Text
unfolding split_once trim eq_ignore_ascii_case
find_var variable [] = []
find_var variable (l ∷ ls) = elim (split_once b':' l) [
  | none ↦ find_var variable ls
  | some (a, b) ↦ elim (eq_ignore_ascii_case (trim a) variable) [
    | true ↦ trim b
    | false ↦ find_var variable ls
  ]
]

-- The first of the lines, which are not empty, is left out.
unfoldable pub extract_http_var : Text → Text → Text
unfolding find_var split_on
extract_http_var s variable =
    find_var variable (drop 1 (drop_empty (split_on (λ c. c == 13 || c == 10) s)))

abbrev pub is_gap : ℕ → Bool
is_gap c = c == b',' || c == b'/' || c == 32 || c == 9

abbrev pub ends_token : ℕ → Bool
ends_token c = c == b',' || c == b'/'

-- A token with the version behind its slash, which goes up to a space or a comma.
unfoldable pub token_at : Text → Text × Text
unfolding before_first from_first
token_at s =
    let name = before_first ends_token s in
    let rest = from_first ends_token s in
    elim rest [
      | [] ↦ (name, [])
      | c ∷ t ↦
          if c == b'/'
          then (
            name ++ (c ∷ before_first (λ x. x == 32 || x == b',') t),
            from_first (λ x. x == 32 || x == b',') t,
          )
          else (name, c ∷ t)
    ]

-- The tokens between the gaps, without those of white space. Each round takes a character at least.
unfoldable pub tokens : ℕ → Text → List Text
unfolding token_at from_first trim
tokens zero s = []
tokens (suc fuel) s = elim (from_first (λ c. not (is_gap c)) s) [
  | [] ↦ []
  | c ∷ t ↦
      let (token, rest) = token_at (c ∷ t) in
      let others = tokens fuel rest in if is_empty (trim token) then others else trim token ∷ others
]

unfoldable pub split_server_details : Text → List Text
unfolding tokens
split_server_details device = tokens (suc (length device)) device

-- `pop`, or the given text without one
abbrev pub last_token : Text → List Text → Text
last_token t [] = t
last_token t (u ∷ us) = last_token u us

unfoldable pub extract_uuid : Text → Text
unfolding split_at
extract_uuid usn =
    let s = elim (split_at (codes "::") usn) as (λ _. Text) [ none ↦ usn | some (a, b) ↦ a ] in
    elim (strip_prefix (codes "uuid:") s) [ none ↦ s | some rest ↦ rest ]

unfoldable pub parse_text : IpAddr → Text → List Device
unfolding extract_http_var split_server_details extract_uuid trim
parse_text from s =
    if is_empty (extract_http_var s (codes "USN"))
    then []
    else record {
      protocol = codes "SSDP";
      version = 0;
      ip = from;
      mac = [];
      device_type =
          or_else
            (trim (last_token [] (split_server_details (extract_http_var s (codes "SERVER")))))
            (codes "anonymous");
      serial = extract_uuid (extract_http_var s (codes "USN"));
    }
      ∷ []

unfoldable pub parse : IpAddr → Bytes → List Device
unfolding parse_text
parse from d = parse_text from (from_utf8_lossy d)
