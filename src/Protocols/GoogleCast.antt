-- ===== src/Protocols/GoogleCast.antt =====
-- protocols/googlecast.rs: the domain, and `googlecast_convert`.
use uscan.Prelude.{List, [], ◌∷◌, ◌++◌, Option, none, some}
use uscan.Prelude.{◌=t=◌, if◌then◌else◌, any, ◌==◌, Text, codes}
use uscan.Strings.{split, trim}
use uscan.Addr.{IpAddr}
use uscan.Devices.{Device}
use uscan.Mdns.{MdnsData, addr_v4, addr_v6, ptr, txt, srv, MdnsAnswer}

abbrev pub domain : Text
domain = codes "_googlecast._tcp.local"

pub record Found : Type 0 where
  pub ipv4 : Option IpAddr
  pub ipv6 : Option IpAddr
  pub device_type : Text
  pub device_id : Text

abbrev pub nothing_found : Found
nothing_found = record {
  ipv4 = none;
  ipv6 = none;
  device_type = codes "unknown";
  device_id = codes "unknown";
}

-- `if self.is_none() { self = Some(ip) }`
abbrev pub keep_first : Option IpAddr → IpAddr → Option IpAddr
keep_first none ip = some ip
keep_first (some old) ip = some old

-- An entry counts if it has exactly one `=`.
unfoldable pub take_parts : List Text → Found → Found
unfolding trim
take_parts (key ∷ (value ∷ [])) f =
    if trim key =t= codes "fn"
    then record {
      ipv4 = f.ipv4;
      ipv6 = f.ipv6;
      device_type = f.device_type;
      device_id = trim value;
    }
    else if trim key =t= codes "md"
    then record { ipv4 = f.ipv4; ipv6 = f.ipv6; device_type = trim value; device_id = f.device_id }
    else f
take_parts _ f = f

unfoldable pub take_entries : List Text → Found → Found
unfolding take_parts split
take_entries [] f = f
take_entries (e ∷ es) f = take_entries es (take_parts (split b'=' e) f)

-- The arms of the match on an answer's data; `none` drops the packet.
unfoldable pub add_data : MdnsData → Found → Option Found
unfolding take_entries
add_data (addr_v4 ip) f = some (record {
  ipv4 = keep_first (f.ipv4) ip;
  ipv6 = f.ipv6;
  device_type = f.device_type;
  device_id = f.device_id;
})
add_data (addr_v6 ip) f = some (record {
  ipv4 = f.ipv4;
  ipv6 = keep_first (f.ipv6) ip;
  device_type = f.device_type;
  device_id = f.device_id;
})
add_data (txt []) f = none
add_data (txt (e ∷ es)) f = some (if any (λ c. c == b'=') e then take_entries (e ∷ es) f else f)
add_data (ptr n) f = some f
add_data (srv a b c n) f = some f

unfoldable pub gather : List MdnsAnswer → Found → Option Found
unfolding add_data
gather [] f = some f
gather (a ∷ rest) f = elim (add_data (a.rdata) f) [ none ↦ none | some g ↦ gather rest g ]

abbrev pub device_of : Found → Option IpAddr → List Device
device_of f none = []
device_of f (some ip) =
    record {
      protocol = codes "Google";
      version = 1;
      ip = ip;
      mac = [];
      device_type = f.device_type;
      serial = f.device_id;
    }
    ∷ []

unfoldable pub googlecast_convert : List MdnsAnswer → List Device
unfolding gather
googlecast_convert answers = elim (gather answers nothing_found) [
  | none ↦ []
  | some f ↦ device_of f (f.ipv4) ++ device_of f (f.ipv6)
]
