-- ===== src/Protocols/Sony.antt =====
-- protocols/sony.rs: the probe and the parser of the lines `key:value`, each of which ends in 0xff.
use uscan.Prelude.{ℕ, ◌-◌, not, ◌||◌, List, [], ◌∷◌, ◌++◌, Option, none, some}
use uscan.Prelude.{ltb, ◌==◌, ◌=t=◌, if◌then◌else◌, length, byte, slice, Bytes, Text, codes}
use uscan.Addr.{IpAddr}
use uscan.Addr.Parse.{ip_or}
use uscan.Utf8.{from_utf8_lossy}
use uscan.Strings.{split, trim}
use uscan.Strings.Find.{split_on, to_ascii_lowercase}
use uscan.Devices.{Device, normalize_mac}
use uscan.Net.{Sending, send_broadcast}
use uscan.Engine.{Listen, listen_only_interfaces}
use uscan.Protocols.{or_empty, or_text, or_first, mapped}

abbrev pub port : ℕ
port = 2380

abbrev pub build_probe : Bytes
build_probe = 2 ∷ codes "ENQ:allinfo" ++ 0xff ∷ 3 ∷ []

abbrev pub listen : Listen
listen = listen_only_interfaces

abbrev pub scan : List Sending
scan = send_broadcast port build_probe ∷ []

-- The parts that the end of a line closes: all but the last.
unfoldable pub closed_lines : List Bytes → List Text
closed_lines [] = []
closed_lines (l ∷ []) = []
closed_lines (l ∷ (m ∷ ls)) = from_utf8_lossy l ∷ closed_lines (m ∷ ls)

pub record Found : Type 0 where
  pub model : Option Text
  pub serial : Option Text
  pub mac : Option Text
  pub ipv4 : Option Text

abbrev pub nothing_found : Found
nothing_found = record { model = none; serial = none; mac = none; ipv4 = none }

-- The arms of the match on a variable.
unfoldable pub set_variable : Text → Text → Found → Found
set_variable name value f =
    if name =t= codes "model"
    then record { model = some value; serial = f.serial; mac = f.mac; ipv4 = f.ipv4 }
    else if name =t= codes "serial"
    then record { model = f.model; serial = some value; mac = f.mac; ipv4 = f.ipv4 }
    else if name =t= codes "mac"
    then record { model = f.model; serial = f.serial; mac = some value; ipv4 = f.ipv4 }
    else if name =t= codes "ipadr"
    then record { model = f.model; serial = f.serial; mac = f.mac; ipv4 = some value }
    else f

-- A line counts if it has exactly one colon.
unfoldable pub take_parts : List Text → Found → Found
unfolding set_variable trim to_ascii_lowercase
take_parts (name ∷ (value ∷ [])) f = set_variable (trim (to_ascii_lowercase name)) value f
take_parts _ f = f

unfoldable pub take_lines : List Text → Found → Found
unfolding take_parts split
take_lines [] f = f
take_lines (l ∷ ls) f = take_lines ls (take_parts (split b':' l) f)

unfoldable pub report : IpAddr → Found → List Device
unfolding normalize_mac
report from f = elim (f.ipv4) [
  | none ↦ []
  | some ip ↦ elim (f.model) [
    | none ↦ []
    | some model ↦
        record {
          protocol = codes "Sony";
          version = 1;
          ip = ip_or from ip;
          mac = or_empty (mapped normalize_mac (f.mac));
          device_type = model;
          serial = or_text (or_first (f.serial) (f.mac)) (codes "unkonwn");
        }
        ∷ []
  ]
]

unfoldable pub parse : IpAddr → Bytes → List Device
unfolding closed_lines take_lines report split_on
parse from d =
    if ltb (length d) 2 || not (byte d 0 == 2) || not (byte d (length d - 1) == 3)
    then []
    else report from (
        take_lines (closed_lines (split_on (λ b. b == 0xff) (slice d 1 (length d - 2))))
          nothing_found)
