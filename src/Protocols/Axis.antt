-- ===== src/Protocols/Axis.antt =====
-- protocols/axis.rs: the registration of its two domains, and `axis_convert`.
use uscan.Prelude.{Bool, List, [], ◌∷◌, ◌++◌, Option, none, some}
use uscan.Prelude.{if◌then◌else◌, Text, codes}
use uscan.Strings.{split_once, split_at, trim}
use uscan.Strings.Find.{eq_ignore_ascii_case}
use uscan.Addr.{IpAddr}
use uscan.Devices.{Device, normalize_mac}
use uscan.Mdns.{MdnsData, addr_v4, addr_v6, ptr, txt, srv, MdnsAnswer}
use uscan.Mdns.Report.{report_addresses}
use uscan.Protocols.{or_empty, or_text, or_first, mapped}
use uscan.Protocols.Arecont.{before_dot}

abbrev pub domains : List Text
domains = codes "_axis-nvr._tcp.local" ∷ codes "_axis-video._tcp.local" ∷ []

pub record Found : Type 0 where
  pub addresses : List IpAddr
  pub model : Option Text
  pub serial : Option Text
  pub mac : Option Text

abbrev pub nothing_found : Found
nothing_found = record { addresses = []; model = none; serial = none; mac = none }

-- The first entry with the key `macaddress`, in any case of the letters.
unfoldable pub find_mac : List Text → Option Text
unfolding split_once trim eq_ignore_ascii_case
find_mac [] = none
find_mac (e ∷ es) = elim (split_once b'=' e) [
  | none ↦ find_mac es
  | some (k, v) ↦
      let rest = find_mac es in
      if eq_ignore_ascii_case (trim k) (codes "macaddress") then some (trim v) else rest
]

-- What stands behind the first `=`, or all of it.
abbrev pub behind_equals : Text → Text
behind_equals e = elim (split_once b'=' e) [ none ↦ e | some (k, v) ↦ v ]

-- A TXT answer: the MAC, and the serial of the first; `none` drops the packet.
unfoldable pub add_txt : List Text → Found → Option Found
unfolding find_mac
add_txt es f =
    let mac = or_first (f.mac) (find_mac es) in
    let with_serial : Text → Found =
      λ s. record { addresses = f.addresses; model = f.model; serial = some s; mac = mac } in
    elim (f.serial) [
      | some s ↦ some (with_serial s)
      | none ↦ elim es [ [] ↦ none | e ∷ rest ↦ some (with_serial (behind_equals e)) ]
    ]

abbrev pub add_address : IpAddr → Found → Found
add_address ip f = record {
  addresses = f.addresses ++ ip ∷ [];
  model = f.model;
  serial = f.serial;
  mac = f.mac;
}

-- The arms of the match on an answer's data.
unfoldable pub add_data : MdnsData → Found → Option Found
unfolding add_txt
add_data (addr_v4 ip) f = some (add_address ip f)
add_data (addr_v6 ip) f = some (add_address ip f)
add_data (ptr n) f = some (record {
  addresses = f.addresses;
  model = or_first (f.model) (some (before_dot n));
  serial = f.serial;
  mac = f.mac;
})
add_data (txt es) f = add_txt es f
add_data (srv a b c n) f = some f

unfoldable pub gather : List MdnsAnswer → Found → Option Found
unfolding add_data
gather [] f = some f
gather (a ∷ rest) f = elim (add_data (a.rdata) f) [ none ↦ none | some g ↦ gather rest g ]

-- The model up to ` - `, and what stands behind it.
unfoldable pub by_dash : Text → Text × Option Text
unfolding split_at trim
by_dash model = elim (split_at (codes " - ") model) [
  | none ↦ (model, none)
  | some (before, after) ↦ (trim before, some (trim after))
]

unfoldable pub convert_found : Found → Bool → Bool → List Device
unfolding by_dash report_addresses normalize_mac
convert_found f zeroconf link_local =
    let (model, suffix) = by_dash (or_text (f.model) (codes "unknown")) in
    let dash_serial : Option Text = elim (f.serial) [ none ↦ suffix | some s ↦ none ] in
    elim (f.addresses) [
      | [] ↦ []
      | a ∷ rest ↦
          report_addresses (codes "Axis") 1 (a ∷ rest) model
            (or_text (or_first (f.serial) suffix) (codes "unknown"))
            (or_empty (mapped normalize_mac (or_first (f.mac) dash_serial))) zeroconf link_local
    ]

unfoldable pub axis_convert : List MdnsAnswer → Bool → Bool → List Device
unfolding gather convert_found
axis_convert answers zeroconf link_local = elim (gather answers nothing_found) [
  | none ↦ []
  | some f ↦ convert_found f zeroconf link_local
]
