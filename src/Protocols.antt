-- ===== src/Protocols.antt =====
-- universal-scanner/src/protocols: the parsers of three discovery protocols and what they share.
-- An engine's sockets are outside the model: a packet and its sender's address are arguments.
pub mod Arecont
pub mod Xml
mod Tests
pub mod Registry
pub mod Consumers
pub mod Wsd
pub mod Ssdp
pub mod Mssql
pub mod Microchip
pub mod Vision360
pub mod Axis
pub mod GoogleCast
pub mod Seek
pub mod Dahua2
pub mod Eaton
pub mod Dahua1
pub mod Hanwha
pub mod Vstarcam
pub mod NiceVision
pub mod Advantech
pub mod Lantronix
pub mod Sony
pub mod Panasonic
pub mod Vivotek
pub mod CyberPower
pub mod Bosch
pub mod Eden
pub mod Hikvision
pub mod Ubiquiti
pub mod Foscam
pub mod GigE
pub mod Tvt
use uscan.Prelude.{ℕ, Bool, true, false, List, [], ◌∷◌, ◌++◌, Option, none, some}
use uscan.Prelude.{◌==◌, if◌then◌else◌, Bytes, Text, slice, byte, ◌=t=◌}
use uscan.Addr.Display.{mac_upper}
use uscan.Utf8.{from_utf8_lossy}
use uscan.Devices.{is_empty}

-- `bytes[..position of the first 0]`
unfoldable pub until_nul : Bytes → Bytes
until_nul [] = []
until_nul (b ∷ bs) = let rest = until_nul bs in if b == 0 then [] else b ∷ rest

unfoldable pub cstring : Bytes → Text
unfolding until_nul
cstring bytes = from_utf8_lossy (until_nul bytes)

-- `if s.is_empty() { fallback } else { s }`
abbrev pub or_else : Text → Text → Text
or_else s fallback = if is_empty s then fallback else s

-- `unwrap_or_default()`, `unwrap_or_else(|| s)`, `or_else(|| other)` and `map(f)` of an optional text
abbrev pub or_empty : Option Text → Text
or_empty none = []
or_empty (some s) = s

abbrev pub or_text : Option Text → Text → Text
or_text none s = s
or_text (some t) s = t

abbrev pub or_first : Option Text → Option Text → Option Text
or_first none other = other
or_first (some s) other = some s

abbrev pub mapped : (Text → Text) → Option Text → Option Text
mapped f none = none
mapped f (some s) = some (f s)
