-- ===== src/Scanner.antt =====
-- universal-scanner/src/scanner.rs and protocols/mod.rs: the registry of the engines, their selection
-- by name, the ports that a start reserves, and the states of a scanner.
pub mod Selection
pub mod Running
use uscan.Prelude.{ℕ, Bool, true, false, not, ◌||◌, List, [], ◌∷◌, ◌++◌, Option, none, some, map}
use uscan.Prelude.{◌==◌, ◌=t=◌, if◌then◌else◌, any, filter, Text, codes}
use uscan.Prelude.Results.{Result, ok, err}
use uscan.Mdns.Queries.{to_lower}
use uscan.Ports.{PortProvider, reserve}
use uscan.Engine.Receive.{ScanEngine}

-- An engine with its number.
pub record Engine : Type 0 where
  pub id : ℕ
  pub body : ScanEngine

abbrev pub lowercase : Text → Text
lowercase s = map to_lower s

-- `contains` of a list of names
abbrev pub has_name : List Text → Text → Bool
has_name names n = any (λ m. m =t= n) names

pub data ScannerError : Type 0 where
  -- the name that is not known, and those that are
  unknown_protocol : Text → List Text → ScannerError
  no_interface : ScannerError

-- The loop over the wanted names: the first that is not known.
unfoldable pub first_unknown : List Text → List Text → Option Text
first_unknown known [] = none
first_unknown known (w ∷ wanted) =
    let rest = first_unknown known wanted in if has_name known w then rest else some w

abbrev pub known_names : List Engine → List Text
known_names all = map (λ e. lowercase e.body.name) all

unfoldable pub select_entries : List Engine → Option (List Text) → Result ScannerError (List Engine)
unfolding first_unknown
select_entries all none = ok all
select_entries all (some wanted) = elim (first_unknown (known_names all) wanted) [
  | some w ↦ err (unknown_protocol w (known_names all))
  | none ↦ ok (filter (λ e. has_name wanted (lowercase e.body.name)) all)
]

-- The filter of `new`: the names as they were given, in small letters.
unfoldable pub new_entries : List Engine → Option (List Text) → Result ScannerError (List Engine)
unfolding select_entries
new_entries all none = select_entries all none
new_entries all (some names) = select_entries all (some (map lowercase names))

-- The loop of `start` that reserves the fixed ports.
unfoldable pub reserve_used : List Engine → PortProvider → PortProvider
unfolding reserve
reserve_used [] ports = ports
reserve_used (e ∷ es) ports = reserve_used es (reserve e.body.used_ports ports)

-- `start` asks whether the broker is needed.
unfoldable pub has_mdns_consumer : List Engine → Bool
has_mdns_consumer entries =
    any
      (λ e.
        e.body.name =t= codes "Axis"
        || e.body.name =t= codes "Google"
        || e.body.name =t= codes "Arecont")
      entries
