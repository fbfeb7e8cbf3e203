-- ===== src/Iface/Masks.antt =====
-- What a prefix mask does to an address, in plain arithmetic.
use native.Mathlib.Nat.{one-le-pow}
use uscan.Prelude.{ℕ, zero, suc, ◌+◌, ◌-◌, ◌*◌, ◌%◌, ◌^◌, ◌≤◌, ◌<◌, ◌≡◌, refl, sym, ap, ◌∙◌, arith}
use uscan.Prelude.Bits.{bit_and_prefix, bit_or_ones, two-pow-add}
use uscan.Addr.{Ipv4Addr, u32_of, u32_of-ipv4_of}
use uscan.Iface.{mask_from_prefix, first_host, last_host}

pred_times : (a b : ℕ) → 1 ≤ a → (a - 1) * b + b ≡ a * b
pred_times zero b h = absurd (omega arith)
pred_times (suc a) b h = ground arith

-- `u32::MAX << k` as a `u32`, with `t` for `2 ^ k`
shifted_ones : (t : ℕ) → 1 ≤ t → t ≤ 4294967296 → 4294967295 * t % 4294967296 ≡ 4294967296 - t
shifted_ones t h g = omega arith

module _ (net host : ℕ) (total : net + host ≡ 32) where
  -- The two parts of a mask fill 32 bits.
  pub parts : 2 ^ net * 2 ^ host ≡ 4294967296
  parts = sym (two-pow-add net host) ∙ ap (λ (t : ℕ). 2 ^ t) total

  pub host_pos : 1 ≤ 2 ^ host
  host_pos = one-le-pow host 2 (omega arith)

  prefix_bits : (2 ^ net - 1) * 2 ^ host + 2 ^ host ≡ 4294967296
  prefix_bits = pred_times (2 ^ net) (2 ^ host) (one-le-pow net 2 (omega arith)) ∙ parts

  -- The `net` high bits of the mask are set, and the `host` bits below them are clear.
  pub u32_of-mask : u32_of (mask_from_prefix net) ≡ (2 ^ net - 1) * 2 ^ host
  unfolding mask_from_prefix
  u32_of-mask =
      let e : 32 - net ≡ host = omega arith in
      let z : net ≡ 0 → (2 ^ net - 1) * 2 ^ host ≡ 0 =
        λ n. ap (λ (t : ℕ). (2 ^ t - 1) * 2 ^ host) n ∙ omega arith in
      rw e (
        ground (
          arith,
          z,
          prefix_bits,
          host_pos,
          shifted_ones (2 ^ host),
          u32_of-ipv4_of 0,
          u32_of-ipv4_of (4294967295 * 2 ^ host % 4294967296),
        ))

  -- An address whose network part is `q` and whose host part is `r`.
  module _ (addr : Ipv4Addr) (q r : ℕ) (split : u32_of addr ≡ q * 2 ^ host + r) (low : r < 2 ^ host)
      (high : q < 2 ^ net) where
    pub first_host-mask : first_host addr (mask_from_prefix net) ≡ (q * 2 ^ host + 1) % 4294967296
    unfolding first_host
    first_host-mask = rw (split, u32_of-mask, bit_and_prefix host net q r low high) refl

    pub last_host-mask :
        last_host addr (mask_from_prefix net)
        ≡ (q * 2 ^ host + (2 ^ host - 1) + 4294967296 - 1) % 4294967296
    unfolding last_host
    last_host-mask =
        let e : 4294967295 - (2 ^ net - 1) * 2 ^ host ≡ 2 ^ host - 1 =
          omega (arith, prefix_bits, host_pos) in
        rw (split, u32_of-mask, e, bit_or_ones host q r low) refl
