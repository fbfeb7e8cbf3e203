-- ===== src/Devices.antt =====
-- universal-scanner/src/devices.rs: the device record, the MAC format, and the table that removes
-- duplicates. A `BTreeMap` is an association list; the code never iterates over it.
pub mod Table
pub mod Stream
pub mod Versions
pub mod Mac
mod Tests
use uscan.Prelude.Maps.{Assoc, lookup, insert}
use uscan.Prelude.{
  ℕ, zero, suc, ◌+◌, ◌-◌, ◌*◌, ◌<◌, Bool, true, false, ◌&&◌, ◌||◌, Option, none, some,
}
use uscan.Prelude.{
  List, [], ◌∷◌, ◌++◌, map, filter, ◌==◌, ltb, leb, if◌then◌else◌, length, Text, slice,
}
use uscan.Addr.{IpAddr, v4, v6}
use uscan.Addr.Display.{ip_text, join}

pub record Device : Type 0 where
  pub protocol : Text
  pub version : ℕ
  pub ip : IpAddr
  pub mac : Text
  pub device_type : Text
  pub serial : Text

abbrev pub is_empty : Text → Bool
is_empty [] = true
is_empty (c ∷ s) = false

-- `char::is_ascii_hexdigit`, and `to_ascii_uppercase` of one character
unfoldable pub is_hex_digit : ℕ → Bool
is_hex_digit c =
    (leb b'0' c && leb c b'9') || (leb b'a' c && leb c b'f') || (leb b'A' c && leb c b'F')

unfoldable pub to_upper : ℕ → ℕ
to_upper c = if leb b'a' c && leb c b'z' then c - 32 else c

-- Six pairs of digits joined by colons.
pairs : Text → List Text
pairs (a ∷ (b ∷ rest)) = (a ∷ b ∷ []) ∷ pairs rest
pairs _ = []

-- The hexadecimal digits of a text, in upper case.
unfoldable pub hex_of : Text → Text
unfolding is_hex_digit to_upper
hex_of raw = map to_upper (filter is_hex_digit raw)

unfoldable pub normalize_mac : Text → Text
unfolding hex_of pairs join
normalize_mac raw =
    let hex = hex_of raw in if length hex == 12 then join (58 ∷ []) (pairs hex) else raw

pub record DeviceTable : Type 0 where
  pub force_generic : Bool
  pub entries : Assoc Device
  pub order : List Text

-- `DeviceTable::new`
abbrev pub new : Bool → DeviceTable
new force_generic_protocols = record {
  force_generic = force_generic_protocols;
  entries = [];
  order = [];
}

unfoldable pub family_ok : IpAddr → Bool → Bool → Bool
family_ok (v4 a) enable_ipv4 enable_ipv6 = enable_ipv4
family_ok (v6 b) enable_ipv4 enable_ipv6 = enable_ipv6

-- The key under which a device is kept: its address, with the protocol in front in generic mode.
unfoldable pub key_of : Bool → Device → Text
key_of force_generic d = if force_generic then d.protocol ++ (124 ∷ ip_text d.ip) else ip_text d.ip

-- The device that replaces `existing`: its address stays, and its MAC if the new one has none.
unfoldable pub updated : Device → Device → Device
updated existing device = record {
  protocol = device.protocol;
  version = device.version;
  ip = existing.ip;
  mac = if is_empty device.mac then existing.mac else device.mac;
  device_type = device.device_type;
  serial = device.serial;
}

-- The three arms of the match on the present entry.
add_at : DeviceTable → Text → Device → Option Device → DeviceTable × Option Device
add_at t key device none =
    (record t { order = t.order ++ (key ∷ []); entries = insert key device t.entries }, some device)
add_at t key device (some existing) =
    if ltb existing.version device.version
    then (
      record t { entries = insert key (updated existing device) t.entries },
      some (updated existing device),
    )
    else (t, none)

unfoldable pub add : DeviceTable → Device → Bool → Bool → DeviceTable × Option Device
unfolding family_ok add_at
add t device enable_ipv4 enable_ipv6 =
    if family_ok device.ip enable_ipv4 enable_ipv6
    then (let key = key_of t.force_generic device in add_at t key device (lookup key t.entries))
    else (t, none)

-- `order.iter().filter_map(|k| entries.get(k))`
found : Assoc Device → List Text → List Device
found entries [] = []
found entries (k ∷ ks) = elim (lookup k entries) [
  | none ↦ found entries ks
  | some d ↦ d ∷ found entries ks
]

unfoldable pub all_devices : DeviceTable → List Device
unfolding found
all_devices t = found t.entries t.order

-- `DeviceTable::len`
abbrev pub table_len : DeviceTable → ℕ
table_len t = length t.entries
