-- ===== src/Mdns/Queries/Digits.antt =====
-- mdns.rs: the digits of `punycode` against the decoder of RFC 3492, section 6.2.
use native.Mathlib.Omega.{div_any}
use native.Mathlib.Nat.{div-le_self, mod-lt}
use uscan.Prelude.{
  ℕ, zero, suc, ◌+◌, ◌-◌, ◌*◌, ◌/◌, ◌%◌, ◌≤◌, ◌<◌, ◌≡◌, refl, ap, ◌∙◌, [], ◌∷◌, arith, inl, inr,
}
use uscan.Prelude.{ltb, lt→ltb, ltb→lt, not_ltb, if◌then◌else◌, Bool-cases, Text}
use uscan.Mdns.Queries.{digit_char, threshold, digits}

-- The value of a digit: `a` to `z` are 0 to 25, `0` to `9` are 26 to 35.
abbrev pub digit_value : ℕ → ℕ
digit_value c = if ltb c 97 then c - 22 else c - 97

-- The number that digits stand for, from the place `k` on: a digit below the threshold is the last.
abbrev pub number : ℕ → ℕ → Text → ℕ
number k bias [] = 0
number k bias (c ∷ cs) =
    let d = digit_value c in
    let t = threshold k bias in
    let rest = number (k + 36) bias cs in if ltb d t then d else d + (36 - t) * rest

digit_value-digit_char : (d : ℕ) → d < 36 → digit_value (digit_char d) ≡ d
unfolding digit_char
digit_value-digit_char d h = ground arith

threshold_range : (k bias : ℕ) → (1 ≤ threshold k bias) × (threshold k bias ≤ 26)
threshold_range k bias = (ground arith, ground arith)

-- One step of the number: a digit of at least the threshold, and the rest.
step : (q t : ℕ) → t ≤ q → t ≤ 26 → t + (q - t) % (36 - t) + (36 - t) * ((q - t) / (36 - t)) ≡ q
step q t h g = omega (arith, div_any (q - t) (36 - t))

number-last :
    (q k bias : ℕ) (cs : Text) → q < threshold k bias → number k bias (digit_char q ∷ cs) ≡ q
number-last q k bias cs h =
    let r = threshold_range k bias in
    rw (digit_value-digit_char q (omega (arith, r.0, r.1)), lt→ltb q (threshold k bias) h) refl

number-more :
    (d k bias : ℕ) (cs : Text)
    → threshold k bias ≤ d
    → d < 36
    → number k bias (digit_char d ∷ cs) ≡ d + (36 - threshold k bias) * number (k + 36) bias cs
number-more d k bias cs h g =
    rw (digit_value-digit_char d g, not_ltb d (threshold k bias) (omega arith)) refl

-- The digits that are written for a number, with at least as many rounds as the number has units,
-- stand for it in the decoder of RFC 3492, at every place and bias.
pub number-digits : (fuel q k bias : ℕ) → q ≤ fuel → number k bias (digits fuel q k bias) ≡ q
unfolding digits
number-digits zero q k bias h =
    let r = threshold_range k bias in number-last q k bias [] (omega (arith, r.0, r.1))
number-digits (suc fuel) q k bias h = elim (Bool-cases (ltb q (threshold k bias))) [
  | inl last ↦ rw last (number-last q k bias [] (ltb→lt q (threshold k bias) last))
  | inr on ↦
      let t = threshold k bias in
      let r = threshold_range k bias in
      let le : t ≤ q = ground arith in
      let less : (q - t) / (36 - t) ≤ q - t =
        omega (arith, r.0, r.1, div-le_self (q - t) (36 - t)) in
      rw on (
        number-more (t + (q - t) % (36 - t)) k bias (digits fuel ((q - t) / (36 - t)) (k + 36) bias)
          (omega arith) (omega (arith, r.1, mod-lt (q - t) {m = 36 - t} (omega (arith, r.1))))
        ∙ ap (λ x. t + (q - t) % (36 - t) + (36 - t) * x)
            (number-digits fuel ((q - t) / (36 - t)) (k + 36) bias (omega (arith, less, r.0)))
        ∙ step q t le (r.1))
]
