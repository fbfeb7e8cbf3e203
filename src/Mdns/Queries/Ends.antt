-- ===== src/Mdns/Queries/Ends.antt =====
-- mdns.rs: the loops of `adapt` and `punycode` end within the counts that the model gives them.
use uscan.Prelude.{
  ℕ, zero, suc, ◌+◌, ◌-◌, ◌*◌, ◌/◌, ◌≤◌, ◌<◌, ◌≡◌, refl, sym, ap, ◌∙◌, [], ◌∷◌, arith, inl, inr,
}
use uscan.Prelude.{ltb, ◌==◌, Bool-cases, length, filter, All, Text}
use uscan.Utf8.{IsScalar}
use uscan.Mdns.Queries.{
  adapt_loop, saturate, Encoder, visit, pass, least_from, rounds, is_basic, basic_part,
}

-- The count of the bias ends because its number is small, not because the fuel is used up.
pub adapt_loop_ends : (fuel k d : ℕ) → d ≤ fuel → (adapt_loop fuel k d).1 ≤ 455
unfolding adapt_loop
adapt_loop_ends zero k d h = omega arith
adapt_loop_ends (suc fuel) k d h = elim (Bool-cases (ltb 455 d)) [
  | inl big ↦ rw big (adapt_loop_ends fuel (k + 36) (d / 35) (ground arith))
  | inr small ↦ rw small (ground arith)
]

-- How many code points are below `n`, and how many are `n`.
abbrev below : ℕ → Text → ℕ
below n cps = length (filter (λ c. ltb c n) cps)

abbrev equal : ℕ → Text → ℕ
equal n cps = length (filter (λ c. c == n) cps)

below-suc : (n : ℕ) (cps : Text) → below (n + 1) cps ≡ below n cps + equal n cps
below-suc n [] = omega arith
below-suc n (c ∷ cps) = ground (arith, below-suc n cps)

h-pass : (b n : ℕ) (s : Encoder) (cps : Text) → (pass b n s cps).h ≡ s.h + equal n cps
unfolding pass visit
h-pass b n s [] = omega arith
h-pass b n s (c ∷ cps) = ground (arith, h-pass b n (visit b n s c) cps)

below-least_from : (n x : ℕ) (cps : Text) → n ≤ x → x ≤ least_from n cps → below x cps ≡ below n cps
unfolding least_from
below-least_from n x [] a b = refl
below-least_from n x (c ∷ cps) a b = ground (arith, below-least_from n x cps a)

equal-least_from :
    (n : ℕ) (cps : Text) → least_from n cps < 0x11_0000 → 1 ≤ equal (least_from n cps) cps
unfolding least_from
equal-least_from n [] h = ground arith
equal-least_from n (c ∷ cps) h = ground (arith, equal-least_from n cps)

least_from_scalar :
    (n : ℕ) (cps : Text)
    → All (λ c. c < 0x11_0000) cps
    → below n cps < length cps
    → least_from n cps < 0x11_0000
unfolding least_from
least_from_scalar n [] all h = ground arith
least_from_scalar n (c ∷ cps) (s, all) h = ground (arith, least_from_scalar n cps all)

least_from_up : (n : ℕ) (cps : Text) → n ≤ 0x11_0000 → n ≤ least_from n cps
unfolding least_from
least_from_up n [] h = h
least_from_up n (c ∷ cps) h = ground (arith, least_from_up n cps h)

-- The rounds put every code point of the input.
rounds_ends :
    (fuel b : ℕ) (input : Text) (n : ℕ) (s : Encoder)
    → All (λ c. c < 0x11_0000) input
    → s.h ≡ below n input
    → n ≤ 0x11_0000
    → length input ≤ s.h + fuel
    → length input ≤ (rounds fuel b input n s).h
unfolding rounds
rounds_ends zero b input n s all e up f = omega arith
rounds_ends (suc fuel) b input n s all e up f = elim (Bool-cases (ltb (s.h) (length input))) [
  | inr done ↦ rw done (ground arith)
  | inl left ↦
      let m = least_from n input in
      let start : Encoder = record {
        delta = saturate (s.delta + saturate ((m - n) * (s.h + 1)));
        bias = s.bias;
        h = s.h;
        output = s.output;
      } in
      let t = pass b m start input in
      let scalar = least_from_scalar n input all (ground arith) in
      let same : below m input ≡ below n input =
        below-least_from n m input (least_from_up n input up) (omega arith) in
      let put : t.h ≡ s.h + equal m input = h-pass b m start input in
      let next : saturate (m + 1) ≡ m + 1 = ground arith in
      let counted : t.h ≡ below (saturate (m + 1)) input =
        rw next (put ∙ ap (λ k. k + equal m input) (e ∙ sym same) ∙ sym (below-suc m input)) in
      rw left (
        rounds_ends fuel b input (saturate (m + 1))
          (record { delta = saturate (t.delta + 1); bias = t.bias; h = t.h; output = t.output }) all
          counted (omega (arith, scalar, next))
          (omega (arith, put, equal-least_from n input scalar)))
]

basic-below : (cps : Text) → filter is_basic cps ≡ filter (λ c. ltb c 0x80) cps
basic-below cps = refl

IsScalar→below : (cps : Text) → All IsScalar cps → All (λ c. c < 0x11_0000) cps
IsScalar→below [] h = tt
IsScalar→below (c ∷ cps) (s, h) = (ground arith, IsScalar→below cps h)

-- On a text of characters the outer loop of `punycode` ends by its condition: it has put every one
-- of them.
pub punycode_ends :
    (input : Text)
    → All IsScalar input
    → length input
      ≤ (rounds (length input) (length (filter is_basic input)) input 0x80 (basic_part input)).h
unfolding basic_part
punycode_ends input h =
    rounds_ends (length input) (length (filter is_basic input)) input 0x80 (basic_part input)
      (IsScalar→below input h) refl (omega arith) (omega arith)
