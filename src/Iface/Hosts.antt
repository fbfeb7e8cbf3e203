-- ===== src/Iface/Hosts.antt =====
-- The hosts of a subnet, and the plans of the two sweeps.
use native.Mathlib.Nat.{one-le-pow, pow-suc, pow-le-pow_right}
use native.Mathlib.Decide.{dec_lt}
use uscan.Prelude.{
  ℕ, zero, suc, ◌+◌, ◌-◌, ◌*◌, ◌%◌, ◌^◌, ◌≤◌, ◌<◌, min, ◌≡◌, ◌≢◌, refl, sym, ap, ◌∙◌,
}
use uscan.Prelude.{true, false, not, ◌||◌, ◌==◌, ◌↔◌, length, arith, ltb, if◌then◌else◌}
use uscan.Addr.{Ipv4Addr, IsIpv4, u32_of, u32_of-lt, ipv4_of, u32_of-ipv4_of, ipv4_of-u32_of}
use uscan.Addr.{ipv4_eq, ipv4_eq_iff, contains, contains-filter}
use uscan.Iface.{
  mask_from_prefix, addresses_from, first_host, last_host, subnet_hosts, plan_hosts, host_cap,
}
use uscan.Iface.Masks.{parts, first_host-mask, last_host-mask}

pub length-addresses_from : (n first : ℕ) → length (addresses_from n first) ≡ n
unfolding addresses_from
length-addresses_from zero first = refl
length-addresses_from (suc n) first = ap suc (length-addresses_from n (first + 1))

ipv4_of-eq_iff :
    (n : ℕ) (a : Ipv4Addr)
    → n < 4294967296
    → IsIpv4 a
    → (ipv4_eq (ipv4_of n) a ≡ true) ↔ (n ≡ u32_of a)
ipv4_of-eq_iff n a h v = (
  λ e. sym (u32_of-ipv4_of n h) ∙ ap u32_of ((ipv4_eq_iff (ipv4_of n) a).0 e),
  λ e. (ipv4_eq_iff (ipv4_of n) a).1 (ap ipv4_of e ∙ ipv4_of-u32_of a v),
)

-- While nothing wraps, the list holds the addresses from `first` on.
contains-addresses_from :
    (n first : ℕ) (a : Ipv4Addr)
    → first + n ≤ 4294967296
    → IsIpv4 a
    → (contains (addresses_from n first) a ≡ true) ↔ ((first ≤ u32_of a) × (u32_of a < first + n))
unfolding addresses_from contains
contains-addresses_from zero first a h v = (λ e. ground arith, λ e. ground arith)
contains-addresses_from (suc n) first a h v =
    let e : first % 4294967296 ≡ first = omega arith in
    let eq = ipv4_of-eq_iff (first % 4294967296) a (omega arith) v in
    let ih = contains-addresses_from n (first + 1) a (omega arith) v in
    (λ c. ground (arith, e, eq, ih), λ c. ground (arith, e, eq, ih))

two-le-pow : (k : ℕ) → 1 ≤ k → 2 ≤ 2 ^ k
two-le-pow zero h = absurd (omega arith)
two-le-pow (suc k) h = omega (arith, pow-suc 2 k, one-le-pow k 2 (omega arith))

pow-le-256 : (k : ℕ) → k ≤ 8 → 2 ^ k ≤ 256
pow-le-256 k h = pow-le-pow_right (omega arith) h

module _ (net host : ℕ) (total : net + host ≡ 32) (addr : Ipv4Addr) (q r : ℕ) where
  module _ (split : u32_of addr ≡ q * 2 ^ host + r) (low : r < 2 ^ host) (high : q < 2 ^ net) where
    -- The whole block lies in 32 bits.
    block_fits : q * 2 ^ host + 2 ^ host ≤ 4294967296
    block_fits = grind (arith, parts net host total)

    -- With at least one host bit, the list is the addresses after the network address, without the
    -- broadcast address, up to the cap; it is empty for a /31.
    pub subnet_hosts-eq-addresses_from :
        (max_hosts : ℕ)
        → 1 ≤ host
        → subnet_hosts addr (mask_from_prefix net) max_hosts
          ≡ addresses_from (min (2 ^ host - 2) max_hosts) (q * 2 ^ host + 1)
    unfolding subnet_hosts addresses_from
    subnet_hosts-eq-addresses_from max_hosts h =
        let two = two-le-pow host h in
        let first : first_host addr (mask_from_prefix net) ≡ q * 2 ^ host + 1 =
          omega (arith, first_host-mask net host total addr q r split low high, block_fits) in
        let last : last_host addr (mask_from_prefix net) ≡ q * 2 ^ host + 2 ^ host - 2 =
          omega (arith, last_host-mask net host total addr q r split low high, block_fits) in
        rw (first, last)
          (elim (dec_lt 2 (2 ^ host)) [
            | yes more ↦
                let test : ltb (q * 2 ^ host + 2 ^ host - 2) (q * 2 ^ host + 1) ≡ false =
                  ground arith in
                let count : q * 2 ^ host + 2 ^ host - 2 - (q * 2 ^ host + 1) + 1 ≡ 2 ^ host - 2 =
                  omega arith in
                rw (test, count) refl
            | no less ↦
                let test : ltb (q * 2 ^ host + 2 ^ host - 2) (q * 2 ^ host + 1) ≡ true =
                  ground arith in
                let count : min (2 ^ host - 2) max_hosts ≡ 0 = omega arith in rw (test, count) refl
          ])

    -- For every prefix length up to /31 the number of hosts is 2 ^ host - 2, or the cap if less.
    pub length-subnet_hosts :
        (max_hosts : ℕ)
        → 1 ≤ host
        → length (subnet_hosts addr (mask_from_prefix net) max_hosts) ≡ min (2 ^ host - 2) max_hosts
    length-subnet_hosts max_hosts h =
        ap length (subnet_hosts-eq-addresses_from max_hosts h)
        ∙ length-addresses_from (min (2 ^ host - 2) max_hosts) (q * 2 ^ host + 1)

    -- For every prefix length up to 31, an address is among the hosts exactly if it lies in the
    -- block after the network address, before the broadcast address, and within the first
    -- `max_hosts` of these.
    pub contains-subnet_hosts :
        (max_hosts : ℕ) (a : Ipv4Addr)
        → 1 ≤ host
        → IsIpv4 a
        → (contains (subnet_hosts addr (mask_from_prefix net) max_hosts) a ≡ true)
          ↔ ((q * 2 ^ host < u32_of a) × (u32_of a ≤ q * 2 ^ host + min (2 ^ host - 2) max_hosts))
    contains-subnet_hosts max_hosts a h v =
        let two = two-le-pow host h in
        let c =
          contains-addresses_from (min (2 ^ host - 2) max_hosts) (q * 2 ^ host + 1) a
            (omega (arith, block_fits)) v in
        rw (subnet_hosts-eq-addresses_from max_hosts h)
          ((λ e. omega (arith, c.0 e)), (λ e. c.1 (omega arith)))

    -- The sweep of a network of prefix length 24 to 31 reaches every host of it but the
    -- interface's own address, and nothing else: neither the network address nor the broadcast
    -- address.
    pub plan_hosts-exact :
        (a : Ipv4Addr)
        → 1 ≤ host
        → host ≤ 8
        → IsIpv4 a
        → (contains (plan_hosts addr (mask_from_prefix net)) a ≡ true)
          ↔ ((q * 2 ^ host < u32_of a) × (u32_of a + 1 < q * 2 ^ host + 2 ^ host) × (a ≢ addr))
    unfolding plan_hosts
    plan_hosts-exact a h g v =
        let c = contains-subnet_hosts host_cap a h v in
        let small = pow-le-256 host g in
        let two = two-le-pow host h in
        let same = ipv4_eq_iff a addr in
        rw
          (contains-filter (λ x. not (ipv4_eq x addr))
            (subnet_hosts addr (mask_from_prefix net) host_cap) a)
          ((λ e. ground (arith, c, same)), (λ e. ground (arith, c, same)))

-- A /32: no hosts, unless the address is the lowest or the highest of all, where the wrapping steps
-- to the first and last host leave nearly the whole address space.
pub length-subnet_hosts_single :
    (addr : Ipv4Addr) (max_hosts : ℕ)
    → IsIpv4 addr
    → length (subnet_hosts addr (mask_from_prefix 32) max_hosts)
      ≡ (if u32_of addr == 0 || u32_of addr == 4294967295 then min 4294967295 max_hosts else 0)
unfolding subnet_hosts
length-subnet_hosts_single addr max_hosts v =
    let bound = u32_of-lt addr v in
    let first = first_host-mask 32 0 refl addr (u32_of addr) 0 (omega arith) (omega arith) bound in
    let last = last_host-mask 32 0 refl addr (u32_of addr) 0 (omega arith) (omega arith) bound in
    rw (first, last)
      (ground (
        arith,
        length-addresses_from (min 4294967295 max_hosts) 1,
        length-addresses_from (min 4294967295 max_hosts) 0,
      ))
