-- ===== src/Protocols/Arecont.antt =====
-- protocols/arecont.rs: `arecont_convert`, which makes devices of the answers of an mDNS packet.
pub mod Answers
use uscan.Prelude.{ℕ, ◌+◌, Bool, true, false, not, ◌&&◌, List, [], ◌∷◌, ◌++◌, Option, none, some}
use uscan.Prelude.{◌==◌, if◌then◌else◌, ◌=t=◌, Text, codes}
use uscan.Prelude.Maps.{Assoc, lookup}
use uscan.Strings.{split_once, trim}
use uscan.Addr.{IpAddr}
use uscan.Devices.{Device}
use uscan.Mdns.{MdnsData, addr_v4, addr_v6, ptr, txt, srv, MdnsAnswer}
use uscan.Mdns.Report.{report_addresses}

-- What the loop over the answers has found; a variable keeps its first value.
pub record Found : Type 0 where
  addresses : List IpAddr
  model : Option Text
  variables : Assoc Text

abbrev pub nothing_found : Found
nothing_found = record { addresses = []; model = none; variables = [] }

-- What stands before the first `.`, or all of it.
abbrev pub before_dot : Text → Text
before_dot n = elim (split_once 46 n) [ none ↦ n | some (a, b) ↦ a ]

unfoldable pub add_entry : Text → Assoc Text → Assoc Text
unfolding lookup
add_entry entry variables = elim (split_once 61 entry) [
  | none ↦ variables
  | some (name, value) ↦ elim (lookup name variables) [
    | none ↦ variables ++ (name, value) ∷ []
    | some v ↦ variables
  ]
]

unfoldable pub add_entries : List Text → Assoc Text → Assoc Text
unfolding add_entry
add_entries [] variables = variables
add_entries (e ∷ es) variables = add_entries es (add_entry e variables)

-- The arms of the match on an answer's data.
unfoldable pub add_data : MdnsData → Found → Found
unfolding add_entries
add_data (addr_v4 ip) f = record {
  addresses = f.addresses ++ ip ∷ [];
  model = f.model;
  variables = f.variables;
}
add_data (addr_v6 ip) f = record {
  addresses = f.addresses ++ ip ∷ [];
  model = f.model;
  variables = f.variables;
}
add_data (ptr n) f = elim (f.model) [
  | none ↦ record { addresses = f.addresses; model = some (before_dot n); variables = f.variables }
  | some m ↦ f
]
add_data (txt es) f = record {
  addresses = f.addresses;
  model = f.model;
  variables = add_entries es (f.variables);
}
add_data (srv a b c n) f = f

unfoldable pub gather : List MdnsAnswer → Found → Found
unfolding add_data
gather [] f = f
gather (a ∷ rest) f = gather rest (add_data (a.rdata) f)

-- Method 1: the model up to its first `-`, and the serial behind it.
unfoldable pub by_name : Text → Text × Option Text
unfolding trim
by_name model = elim (split_once 45 model) [
  | none ↦ (model, none)
  | some (before, after) ↦ (trim before, some (trim after))
]

-- Method 2: the variable `MAC` gives the model behind its `/`, and without a serial before its `-`.
abbrev pub behind_slash : Text → Text → Text
behind_slash mac model = elim (split_once 47 mac) [
  | none ↦ model
  | some (before, after) ↦ codes "AV" ++ after
]

abbrev pub before_dash : Text → Text → Text
before_dash mac model = elim (split_once 45 mac) [ none ↦ model | some (before, after) ↦ before ]

unfoldable pub by_mac : Text → Text → Option Text → Text
by_mac mac model (some serial) = behind_slash mac model
by_mac mac model none = before_dash mac (behind_slash mac model)

-- `replace("AV", "001A07")`
unfoldable pub replace_av : Text → Text
replace_av [] = []
replace_av (a ∷ []) = a ∷ []
replace_av (a ∷ (b ∷ s)) = elim (a == 65 && b == 86) [
  | true ↦ codes "001A07" ++ replace_av s
  | false ↦ a ∷ replace_av (b ∷ s)
]

-- The model and the serial of what was found.
unfoldable pub names_of : Option Text → Assoc Text → Text × Text
unfolding by_name by_mac replace_av lookup
names_of found variables =
    let (model, serial) = by_name (elim found [ none ↦ codes "unknown" | some m ↦ m ]) in
    (
      elim (lookup (codes "MAC") variables) [ none ↦ model | some mac ↦ by_mac mac model serial ],
      elim serial [ none ↦ [] | some s ↦ replace_av s ],
    )

unfoldable pub convert_found : Found → Bool → Bool → List Device
unfolding names_of report_addresses
convert_found f zeroconf link_local = elim (f.addresses) [
  | [] ↦ []
  | a ∷ rest ↦
      let (model, serial) = names_of (f.model) (f.variables) in
      report_addresses (codes "Arecont") 1 (a ∷ rest) model serial [] zeroconf link_local
]

unfoldable pub arecont_convert : List MdnsAnswer → Bool → Bool → List Device
unfolding gather convert_found
arecont_convert answers zeroconf link_local =
    convert_found (gather answers nothing_found) zeroconf link_local
