-- ===== src/Protocols/Wsd.antt =====
-- protocols/wsd.rs: the probe and the parser of the XML answer. The UUID of a probe is an argument.
use uscan.Prelude.{
  ℕ, zero, suc, ◌+◌, Bool, true, false, not, ◌&&◌, ◌||◌, List, [], ◌∷◌, ◌++◌, Option, none, some,
}
use uscan.Prelude.{ltb, ◌==◌, if◌then◌else◌, length, drop, Bytes, Text, codes}
use uscan.Addr.{IpAddr, Ipv4Addr, ipv4}
use uscan.Utf8.{from_utf8_lossy}
use uscan.Strings.{split_at, strip_prefix}
use uscan.Strings.Find.{
  starts_with, before_first, from_first, is_ascii_alphabetic, is_ascii_alphanumeric,
}
use uscan.Devices.{Device, is_empty}
use uscan.Net.{Sending, send_multicast}
use uscan.Engine.{Listen, listen_multicast}

abbrev pub group : Ipv4Addr
group = ipv4 239 255 255 250

abbrev pub port : ℕ
port = 3702

-- `ANNOUNCE`, before and behind its `{0}`
abbrev pub announce_before : Text
announce_before =
    codes
      "<s:Envelope xmlns:s=\"http://www.w3.org/2003/05/soap-envelope\" xmlns:a=\"http://schemas.xmlsoap.org/ws/2004/08/addressing\" xmlns:d=\"http://schemas.xmlsoap.org/ws/2005/04/discovery\" xmlns:w=\"http://schemas.xmlsoap.org/ws/2006/02/devprof\" xmlns:o=\"http://www.onvif.org/ver10/device/wsdl\"><s:Header><a:Action s:mustUnderstand=\"1\">http://schemas.xmlsoap.org/ws/2005/04/discovery/Probe</a:Action><a:MessageID>urn:uuid:"

abbrev pub announce_after : Text
announce_after =
    codes
      "</a:MessageID><a:To s:mustUnderstand=\"1\">urn:schemas-xmlsoap-org:ws:2005:04:discovery</a:To><a:ReplyTo><a:Address>http://schemas.xmlsoap.org/ws/2004/08/addressing/role/anonymous</a:Address></a:ReplyTo></s:Header><s:Body><d:Probe><d:Types>w:Device o:Device</d:Types></d:Probe></s:Body></s:Envelope>"

abbrev pub verbatim : Text
verbatim =
    codes
      "<s:Envelope xmlns:s=\"http://www.w3.org/2003/05/soap-envelope\" xmlns:a=\"http://schemas.xmlsoap.org/ws/2004/08/addressing\"><s:Header><a:Action s:mustUnderstand=\"1\">http://schemas.xmlsoap.org/ws/2005/04/discovery/Probe</a:Action><a:MessageID>uuid:f686768c-3e60-4f9c-a344-0769929d665c</a:MessageID><a:ReplyTo><a:Address>http://schemas.xmlsoap.org/ws/2004/08/addressing/role/anonymous</a:Address></a:ReplyTo><a:To s:mustUnderstand=\"1\">urn:schemas-xmlsoap-org:ws:2005:04:discovery</a:To></s:Header><s:Body><Probe xmlns=\"http://schemas.xmlsoap.org/ws/2005/04/discovery\"><d:Types xmlns:d=\"http://schemas.xmlsoap.org/ws/2005/04/discovery\" xmlns:dp0=\"http://www.onvif.org/ver10/network/wsdl\">dp0:NetworkVideoTransmitter</d:Types></Probe></s:Body></s:Envelope>"

abbrev pub listen : Listen
listen = listen_multicast (group ∷ []) port

unfoldable pub scan : Bool → Text → List Sending
scan onvif_verbatim uuid =
    send_multicast group port
      (if onvif_verbatim then verbatim else announce_before ++ (uuid ++ announce_after))
    ∷ []

abbrev pub without_prefix : Text → Text → Text
without_prefix marker s = elim (strip_prefix marker s) [ none ↦ s | some rest ↦ rest ]

unfoldable pub extract_uuid : Text → Text
extract_uuid usn = without_prefix (codes "uuid:") (without_prefix (codes "urn:") usn)

abbrev pub starts_name : ℕ → Bool
starts_name c = is_ascii_alphabetic c || c == b'_'

abbrev pub in_name : ℕ → Bool
in_name c = is_ascii_alphanumeric c || c == b'_' || c == b'-'

-- The loop over what is left: a name goes with the colon behind it, and stays without. Each round
-- takes a character at least.
unfoldable pub namespaces : ℕ → Text → Text
unfolding before_first from_first
namespaces zero s = []
namespaces (suc fuel) [] = []
namespaces (suc fuel) (c ∷ s) = elim (starts_name c) [
  | false ↦ c ∷ namespaces fuel s
  | true ↦ elim (from_first (λ x. not (in_name x)) (c ∷ s)) [
    | [] ↦ before_first (λ x. not (in_name x)) (c ∷ s)
    | e ∷ rest ↦ elim (e == b':') [
      | true ↦ namespaces fuel rest
      | false ↦ before_first (λ x. not (in_name x)) (c ∷ s) ++ namespaces fuel (e ∷ rest)
    ]
  ]
]

unfoldable pub remove_namespace : Text → Text
unfolding namespaces
remove_namespace value = namespaces (length value) value

-- The content behind an opening tag: some characters up to a closing tag.
unfoldable pub tag_content : Text → Option Text
unfolding before_first from_first
tag_content s =
    let ends : ℕ → Bool = λ c. c == b'<' || c == b'>' in
    if not (is_empty (before_first ends s)) && starts_with (codes "</") (from_first ends s)
    then some (before_first ends s)
    else none

-- The next candidate: how many characters stand before it, and what follows it.
abbrev pub candidate : Option (Text × Text) → Option (Text × Text) → Option (ℕ × Text)
candidate none none = none
candidate (some (a, after)) none = some (length a, after)
candidate none (some (b, after)) = some (length b, after)
candidate (some (a, after)) (some (b, behind)) =
    if ltb (length b) (length a) then some (length b, behind) else some (length a, after)

-- The loop over the cursor, on the text behind it.
unfoldable pub tag_loop : ℕ → Text → Text → Option Text
unfolding tag_content split_at
tag_loop zero tag s = none
tag_loop (suc fuel) tag s =
    elim (candidate (split_at (b'<' ∷ (tag ++ b'>' ∷ [])) s)
      (split_at (b':' ∷ (tag ++ b'>' ∷ [])) s)) [
        | none ↦ none
        | some (off, after) ↦ elim (tag_content after) [
          | some content ↦ some content
          | none ↦ tag_loop fuel tag (drop (off + 1) s)
        ]
      ]

unfoldable pub extract_tag : Text → Text → Option Text
unfolding tag_loop
extract_tag xml tag = tag_loop (suc (length xml)) tag xml

unfoldable pub parse_xml : IpAddr → Text → List Device
unfolding extract_tag remove_namespace extract_uuid
parse_xml from xml = elim (extract_tag xml (codes "Address")) [
  | none ↦ []
  | some address ↦ elim (extract_tag xml (codes "Types")) [
    | none ↦ []
    | some types ↦
        if is_empty (remove_namespace types) || is_empty (extract_uuid address)
        then []
        else record {
          protocol = codes "WSDiscovery";
          version = 0;
          ip = from;
          mac = [];
          device_type = remove_namespace types;
          serial = extract_uuid address;
        }
          ∷ []
  ]
]

unfoldable pub parse : IpAddr → Bytes → List Device
unfolding parse_xml
parse from d = parse_xml from (from_utf8_lossy d)
