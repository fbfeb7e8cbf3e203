-- ===== src/Protocols/Eaton.antt =====
-- protocols/eaton.rs: the probe and the parser of the XML answer. `none` is a panic.
use uscan.Prelude.{ℕ, Bool, not, ◌&&◌, List, [], ◌∷◌, Option, none, some}
use uscan.Prelude.{ltb, leb, ◌==◌, if◌then◌else◌, length, byte, Bytes, Text, codes}
use uscan.Addr.{IpAddr}
use uscan.Utf8.{from_utf8_lossy, as_bytes}
use uscan.Strings.{strip_prefix}
use uscan.Strings.Find.{starts_with, before_first, from_first}
use uscan.Devices.{Device}
use uscan.Net.{Sending, send_broadcast}
use uscan.Engine.{Listen, listen_global}
use uscan.Protocols.Xml.{is_less}
use uscan.Protocols.Seek.{Attempt, found, missed, panicked, seek}

abbrev pub port : ℕ
port = 4679

abbrev pub probe : Bytes
probe = codes "<SCAN_REQUEST/>"

abbrev pub listen : Listen
listen = listen_global port

abbrev pub scan : List Sending
scan = send_broadcast port probe ∷ []

abbrev pub is_space : ℕ → Bool
is_space c = c == 32

abbrev pub skip_spaces : Text → Text
skip_spaces s = from_first (λ c. not (is_space c)) s

-- `&xml[i..i + n]` of what is left: whether the end lies inside a character.
unfoldable pub splits_char : ℕ → Text → Bool
unfolding as_bytes
splits_char n s =
    let bytes = as_bytes s in
    ltb n (length bytes) && leb 0x80 (byte bytes n) && ltb (byte bytes n) 0xc0

-- The content up to the next `<` or the end, if the closing tag is there.
unfoldable pub object_content : Text → Attempt
unfolding before_first from_first
object_content s =
    if starts_with (codes "</OBJECT>") (from_first is_less s)
    then found (before_first is_less s)
    else missed

-- The name, compared byte by byte, and the end of the tag.
unfoldable pub match_name : Text → Text → Attempt
unfolding splits_char object_content as_bytes
match_name name s =
    if ltb (length (as_bytes s)) (length name)
    then missed
    else if splits_char (length name) s
    then panicked
    else elim (strip_prefix name s) [
      | none ↦ missed
      | some after ↦ elim (strip_prefix (codes "\">") after) [
        | none ↦ missed
        | some content ↦ object_content content
      ]
    ]

-- A text without a prefix that it must have.
abbrev pub expect : Text → Text → (Text → Attempt) → Attempt
expect marker s k = elim (strip_prefix marker s) [ none ↦ missed | some after ↦ k after ]

-- What follows `<OBJECT`: spaces, `name`, and the name behind `=` in quotation marks.
unfoldable pub match_object : Text → Text → Attempt
unfolding match_name from_first
match_object name s =
    if starts_with (codes " ") s
    then expect (codes "name") (skip_spaces s) (λ s1.
      expect (codes "=") (skip_spaces s1)
        (λ s2. expect (codes "\"") (skip_spaces s2) (match_name name)))
    else missed

unfoldable pub extract_object_entry : Text → Text → Attempt
unfolding seek match_object
extract_object_entry xml name = seek (codes "<OBJECT") (match_object name) xml

-- `or_else`: the second search is made if the first finds nothing.
abbrev pub or_else : Attempt → Attempt → Attempt
or_else (found t) other = found t
or_else panicked other = panicked
or_else missed other = other

abbrev pub device_of : IpAddr → Text → Text → Device
device_of from model serial = record {
  protocol = codes "Eaton";
  version = 1;
  ip = from;
  mac = [];
  device_type = model;
  serial = serial;
}

abbrev pub with_serial : IpAddr → Text → Attempt → Option (List Device)
with_serial from model panicked = none
with_serial from model (found serial) = some (device_of from model serial ∷ [])
with_serial from model missed = some (device_of from model (codes "Unknown") ∷ [])

unfoldable pub parse_xml : IpAddr → Text → Option (List Device)
unfolding extract_object_entry
parse_xml from xml =
    elim (or_else (extract_object_entry xml (codes "System.Description"))
      (extract_object_entry xml (codes "UPS.PowerSummary.iProduct"))) [
        | missed ↦ some []
        | panicked ↦ none
        | found model ↦
            with_serial from model
              (extract_object_entry xml (codes "UPS.PowerSummary.iSerialNumber"))
      ]

unfoldable pub parse : IpAddr → Bytes → Option (List Device)
unfolding parse_xml
parse from d = parse_xml from (from_utf8_lossy d)
