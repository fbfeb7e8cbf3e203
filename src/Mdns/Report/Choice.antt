-- ===== src/Mdns/Report/Choice.antt =====
-- mdns.rs: which addresses `report_addresses` reports, and that no family is lost.
use uscan.Prelude.{
  ℕ, ◌+◌, ◌≡◌, refl, sym, ap, ◌∙◌, Bool, true, false, not, ◌&&◌, ◌||◌, List, [], ◌∷◌, ◌++◌, map,
  arith,
}
use uscan.Prelude.{Text, any, filter, Bool-cases, length, length-append, inl, inr}
use uscan.Addr.{IpAddr, v4, v6}
use uscan.Iface.{is_autoconf}
use uscan.Devices.{Device}
use uscan.Mdns.Report.{is_v4, has_v4, has_v6, fallback, reported, report_addresses}

any-append : (q : IpAddr → Bool) (xs ys : List IpAddr) → any q (xs ++ ys) ≡ (any q xs || any q ys)
any-append q [] ys = refl
any-append q (x ∷ xs) ys = ground (arith, any-append q xs ys)

any-filter :
    (q p : IpAddr → Bool) (xs : List IpAddr) → any q (filter p xs) ≡ any (λ x. q x && p x) xs
any-filter q p [] = refl
any-filter q p (x ∷ xs) = ground (arith, any-filter q p xs)

-- An address that is reported: one that was not configured by itself, or a fallback.
abbrev pub chosen : List IpAddr → Bool → Bool → IpAddr → Bool
chosen addrs zeroconf link_local a = not (is_autoconf a) || fallback addrs zeroconf link_local a

any_or :
    (q p r : IpAddr → Bool) (xs : List IpAddr)
    → (any (λ x. q x && p x) xs || any (λ x. q x && r x) xs) ≡ any (λ x. q x && (p x || r x)) xs
any_or q p r [] = refl
any_or q p r (x ∷ xs) = ground (arith, any_or q p r xs)

any-reported :
    (q : IpAddr → Bool) (addrs : List IpAddr) (zeroconf link_local : Bool)
    → any q (reported addrs zeroconf link_local)
      ≡ any (λ a. q a && chosen addrs zeroconf link_local a) addrs
unfolding reported
any-reported q addrs zeroconf link_local =
    any-append q (filter (λ a. not (is_autoconf a)) addrs)
      (filter (fallback addrs zeroconf link_local) addrs)
    ∙ ground (
      arith,
      any-filter q (λ a. not (is_autoconf a)) addrs,
      any-filter q (fallback addrs zeroconf link_local) addrs,
      any_or q (λ a. not (is_autoconf a)) (fallback addrs zeroconf link_local) addrs,
    )

-- An address is at most once chosen: the two loops of the code share none.
count_split :
    (p r : IpAddr → Bool) (xs : List IpAddr)
    → ((a : IpAddr) → (p a && r a) ≡ false)
    → length (filter p xs) + length (filter r xs) ≡ length (filter (λ a. p a || r a) xs)
count_split p r [] h = refl
count_split p r (x ∷ xs) h = ground (arith, count_split p r xs h, h x)

fallback_apart :
    (addrs : List IpAddr) (z l : Bool) (a : IpAddr)
    → (not (is_autoconf a) && fallback addrs z l a) ≡ false
unfolding fallback
fallback_apart addrs z l (v4 a) = ground arith
fallback_apart addrs z l (v6 b) = ground arith

any-has : (addrs : List IpAddr) → has_v4 addrs ≡ any (λ a. is_v4 a && not (is_autoconf a)) addrs
unfolding has_v4
any-has addrs = refl

any_same :
    (q r : IpAddr → Bool) (xs : List IpAddr) → ((a : IpAddr) → q a ≡ r a) → any q xs ≡ any r xs
any_same q r [] h = refl
any_same q r (x ∷ xs) h = ground (arith, h x, any_same q r xs h)

-- What is true of every element that the stronger test holds of.
any_weaker :
    (q r : IpAddr → Bool) (xs : List IpAddr) → any (λ a. q a && r a) xs ≡ true → any q xs ≡ true
any_weaker q r [] h = h
any_weaker q r (x ∷ xs) h = ground (arith, any_weaker q r xs)

-- The addresses of the devices, in order.
abbrev pub ips : List Device → List IpAddr
ips [] = []
ips (v ∷ vs) = v.ip ∷ ips vs

ips-map :
    (protocol : Text) (version : ℕ) (device_type serial mac : Text) (xs : List IpAddr)
    → ips (
        map
          (λ ip. record {
            protocol = protocol;
            version = version;
            ip = ip;
            mac = mac;
            device_type = device_type;
            serial = serial;
          })
          xs)
      ≡ xs
ips-map protocol version device_type serial mac [] = refl
ips-map protocol version device_type serial mac (x ∷ xs) =
    ap (λ t. x ∷ t) (ips-map protocol version device_type serial mac xs)

ips-report_addresses :
    (protocol : Text) (version : ℕ) (addrs : List IpAddr) (device_type serial mac : Text)
    (z l : Bool)
    → ips (report_addresses protocol version addrs device_type serial mac z l) ≡ reported addrs z l
unfolding report_addresses
ips-report_addresses protocol version addrs device_type serial mac z l =
    ips-map protocol version device_type serial mac (reported addrs z l)

module _ (protocol : Text) (version : ℕ) (addrs : List IpAddr) (device_type serial mac : Text)
    (z l : Bool) where
  abbrev sent : List IpAddr
  sent = ips (report_addresses protocol version addrs device_type serial mac z l)

  -- A family of which the device has an address is reported: each test of addresses that tells the
  -- families apart holds of a reported address exactly if it holds of one of the device's chosen ones.
  pub any-report_addresses :
      (q : IpAddr → Bool) → any q sent ≡ any (λ a. q a && chosen addrs z l a) addrs
  any-report_addresses q =
      rw (ips-report_addresses protocol version addrs device_type serial mac z l)
        (any-reported q addrs z l)

  -- Every address that is chosen is reported once and no other is.
  pub length-report_addresses : length sent ≡ length (filter (chosen addrs z l) addrs)
  unfolding reported
  length-report_addresses =
      rw (ips-report_addresses protocol version addrs device_type serial mac z l) (
        length-append (filter (λ a. not (is_autoconf a)) addrs) (filter (fallback addrs z l) addrs)
        ∙ count_split (λ a. not (is_autoconf a)) (fallback addrs z l) addrs
            (fallback_apart addrs z l))

any_stronger :
    (q r s : IpAddr → Bool) (xs : List IpAddr)
    → any (λ a. q a && r a) xs ≡ true
    → any (λ a. q a && (r a || s a)) xs ≡ true
any_stronger q r s [] h = h
any_stronger q r s (x ∷ xs) h = ground (arith, any_stronger q r s xs)

v4_chosen :
    (addrs : List IpAddr) (z l : Bool)
    → has_v4 addrs ≡ false
    → (a : IpAddr) → (is_v4 a && chosen addrs z l a) ≡ is_v4 a
unfolding fallback
v4_chosen addrs z l h (v4 a) = ground (arith, h)
v4_chosen addrs z l h (v6 b) = refl

v6_chosen :
    (addrs : List IpAddr) (z l : Bool)
    → has_v6 addrs ≡ false
    → (a : IpAddr) → (not (is_v4 a) && chosen addrs z l a) ≡ not (is_v4 a)
unfolding fallback
v6_chosen addrs z l h (v4 a) = refl
v6_chosen addrs z l h (v6 b) = ground (arith, h)

v4_kept :
    (addrs : List IpAddr) (z l : Bool)
    → any (λ a. is_v4 a && chosen addrs z l a) addrs ≡ any is_v4 addrs
unfolding has_v4
v4_kept addrs z l = elim (Bool-cases (has_v4 addrs)) [
  | inl some_v4 ↦
      any_stronger is_v4 (λ a. not (is_autoconf a)) (fallback addrs z l) addrs some_v4
      ∙ sym (any_weaker is_v4 (λ a. not (is_autoconf a)) addrs some_v4)
  | inr no_v4 ↦
      any_same (λ a. is_v4 a && chosen addrs z l a) is_v4 addrs (v4_chosen addrs z l no_v4)
]

v6_kept :
    (addrs : List IpAddr) (z l : Bool)
    → any (λ a. not (is_v4 a) && chosen addrs z l a) addrs ≡ any (λ a. not (is_v4 a)) addrs
unfolding has_v6
v6_kept addrs z l = elim (Bool-cases (has_v6 addrs)) [
  | inl some_v6 ↦
      any_stronger (λ a. not (is_v4 a)) (λ a. not (is_autoconf a)) (fallback addrs z l) addrs
        some_v6
      ∙ sym (any_weaker (λ a. not (is_v4 a)) (λ a. not (is_autoconf a)) addrs some_v6)
  | inr no_v6 ↦
      any_same (λ a. not (is_v4 a) && chosen addrs z l a) (λ a. not (is_v4 a)) addrs
        (v6_chosen addrs z l no_v6)
]

-- A device keeps both of its families: some IPv4 address is reported exactly if the device has one,
-- and some IPv6 address exactly if it has one, whatever the two flags of the configuration.
pub report_addresses_families :
    (protocol : Text) (version : ℕ) (addrs : List IpAddr) (device_type serial mac : Text)
    (z l : Bool)
    → (any is_v4 (ips (report_addresses protocol version addrs device_type serial mac z l))
        ≡ any is_v4 addrs)
      × (any
            (λ a. not (is_v4 a))
            (ips (report_addresses protocol version addrs device_type serial mac z l))
          ≡ any (λ a. not (is_v4 a)) addrs)
report_addresses_families protocol version addrs device_type serial mac z l = (
  any-report_addresses protocol version addrs device_type serial mac z l is_v4 ∙ v4_kept addrs z l,
  any-report_addresses protocol version addrs device_type serial mac z l (λ a. not (is_v4 a))
      ∙ v6_kept addrs z l,
)
