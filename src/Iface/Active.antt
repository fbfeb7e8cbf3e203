-- ===== src/Iface/Active.antt =====
-- universal-scanner/src/iface.rs and netscan.rs: the interfaces by name, the mask of an address, and
-- the targets of a net scan. The list that the system gives for `get_if_addrs` is an argument.
pub mod Grouping
use uscan.Prelude.{
  ℕ, Bool, true, false, not, ◌&&◌, ◌||◌, List, [], ◌∷◌, ◌++◌, Option, none, some, map,
}
use uscan.Prelude.{◌==◌, ◌=t=◌, if◌then◌else◌, filter, length, Text, Bytes, codes}
use uscan.Addr.{Ipv4Addr, IpAddr, v4, ipv4, ipv4_eq}
use uscan.Iface.{is_private, mask_from_prefix, plan_hosts}
use uscan.Strings.{split, from_str_radix}

-- An address of an interface: IPv4 with the prefix length, or another.
pub data IfAddr : Type 0 where
  if_v4 : Ipv4Addr → ℕ → IfAddr
  if_v6 : Bytes → IfAddr

-- One entry of the system's list.
pub record Entry : Type 0 where
  pub name : Text
  pub addr : IfAddr
  pub oper_up : Bool
  pub loopback : Bool

pub record Iface : Type 0 where
  pub name : Text
  pub is_up : Bool
  pub is_loopback : Bool
  pub addrs : List IfAddr

abbrev pub ip_of : IfAddr → List Ipv4Addr
ip_of (if_v4 a prefix) = a ∷ []
ip_of (if_v6 b) = []

abbrev pub ips_of : List IfAddr → List Ipv4Addr
ips_of [] = []
ips_of (a ∷ more) = ip_of a ++ ips_of more

unfoldable pub ipv4_addrs : Iface → List Ipv4Addr
ipv4_addrs i = ips_of i.addrs

-- `find(|i| i.name == e.name)` and the two arms of the match.
unfoldable pub add_entry : Entry → List Iface → List Iface
add_entry e [] =
    record { name = e.name; is_up = e.oper_up; is_loopback = e.loopback; addrs = e.addr ∷ [] } ∷ []
add_entry e (i ∷ is) =
    let rest = add_entry e is in
    if i.name =t= e.name
    then record {
      name = i.name;
      is_up = i.is_up;
      is_loopback = i.is_loopback;
      addrs = i.addrs ++ (e.addr ∷ []);
    }
      ∷ is
    else i ∷ rest

unfoldable pub group : List Entry → List Iface → List Iface
unfolding add_entry
group [] out = out
group (e ∷ es) out = group es (add_entry e out)

unfoldable pub active_interfaces : List Entry → List Iface
unfolding group
active_interfaces entries = filter (λ i. i.is_up) (group entries [])

-- The inner loop of `mask_of`: the prefix length of the address, if the interface has it.
unfoldable pub prefix_in : Ipv4Addr → List IfAddr → Option ℕ
prefix_in ip [] = none
prefix_in ip (if_v6 b ∷ more) = prefix_in ip more
prefix_in ip (if_v4 a prefix ∷ more) =
    let rest = prefix_in ip more in if ipv4_eq a ip then some prefix else rest

unfoldable pub mask_in : Ipv4Addr → List Iface → Ipv4Addr
unfolding prefix_in
mask_in ip [] = ipv4 255 255 255 255
mask_in ip (i ∷ is) = elim (prefix_in ip i.addrs) [
  | some prefix ↦ mask_from_prefix prefix
  | none ↦ mask_in ip is
]

unfoldable pub mask_of : List Entry → Ipv4Addr → Ipv4Addr
unfolding mask_in active_interfaces
mask_of entries ip = mask_in ip (active_interfaces entries)

-- `parse_mac`
abbrev pub mac_bytes_of : List Text → Option Bytes
mac_bytes_of [] = some []
mac_bytes_of (p ∷ ps) = elim (from_str_radix 0xff p) [
  | none ↦ none
  | some b ↦ elim (mac_bytes_of ps) [ none ↦ none | some bs ↦ some (b ∷ bs) ]
]

unfoldable pub parse_mac : Text → Option Bytes
unfolding split from_str_radix
parse_mac s = let parts = split 58 s in if length parts == 6 then mac_bytes_of parts else none

-- The hosts that `netscan` sends to, for the addresses of its interfaces in their order; `cancelled`
-- says of the number of addresses still to come whether the scan is cancelled there.
unfoldable pub scan_targets : List Entry → (ℕ → Bool) → List Ipv4Addr → List Ipv4Addr
unfolding mask_of
scan_targets entries cancelled [] = []
scan_targets entries cancelled (ip ∷ ips) =
    let rest = scan_targets entries cancelled ips in
    if cancelled (length ips)
    then []
    else if is_private (v4 ip)
    then plan_hosts ip (mask_of entries ip) ++ rest
    else rest

abbrev pub all_ips : List Iface → List Ipv4Addr
all_ips [] = []
all_ips (i ∷ is) = ips_of i.addrs ++ all_ips is

unfoldable pub netscan : List Entry → (ℕ → Bool) → List Ipv4Addr
unfolding scan_targets active_interfaces
netscan entries cancelled = scan_targets entries cancelled (all_ips (active_interfaces entries))
