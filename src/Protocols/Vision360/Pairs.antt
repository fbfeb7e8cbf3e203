-- ===== src/Protocols/Vision360/Pairs.antt =====
-- protocols/vision360.rs: the pairs that `key_value_pairs` reads in a text, and the text at which it
-- panics.
use uscan.Prelude.{
  some, Option, ℕ, zero, suc, ◌<◌, ◌≡◌, refl, ap, ◌∙◌, true, false, not, List, [], ◌∷◌, ◌++◌, none,
  arith, length-append, append_assoc,
}
use uscan.Prelude.{length, All, Text}
use uscan.Prelude.Maps.{Assoc}
use uscan.Protocols.Vision360.Marks.{
  stops, from_first-stops, written, IsValue, value_at-unquoted, strip_paired_quotes-unquoted,
  value_at-quoted, strip_paired_quotes-quoted,
}
use uscan.Protocols.Vision360.{
  starts_key, in_key, is_space, value_at, strip_paired_quotes, push, pairs_loop, key_value_pairs,
}

-- `KEY=value`, or the value in quotation marks.
pub record Pair : Type 0 where
  pub first : ℕ
  pub key : Text
  pub mark : Option ℕ
  pub value : Text

-- A key of letters, digits and underscores that does not begin with a digit, and a value that can be
-- written so.
pub record IsPair (p : Pair) : Type 0 where
  pub starts : starts_key p.first ≡ true
  pub in_rest : All (λ x. not (in_key x) ≡ false) p.key
  pub readable : IsValue p.mark p.value

abbrev pub entry : Pair → Text
entry p = p.first ∷ (p.key ++ (61 ∷ written p.mark p.value))

-- Pairs, with a space before each, and an end.
abbrev pub spaced : Text → List Pair → Text
spaced ending [] = ending
spaced ending (p ∷ ps) = 32 ∷ (entry p ++ spaced ending ps)

-- The pairs by their keys.
abbrev pub pushed : List Pair → Assoc Text → Assoc Text
pushed [] out = out
pushed (p ∷ ps) out = pushed ps (push (p.first ∷ p.key) p.value out)

-- A round at a key with its `=`, by what stands behind it.
abbrev behind_key : ℕ → Text → Text → Assoc Text → Option (Assoc Text)
behind_key fuel key [] out = none
behind_key fuel key (q ∷ t) out =
    pairs_loop fuel ((value_at q t).1) (push key (strip_paired_quotes ((value_at q t).0)) out)

pairs_loop-key :
    (fuel first : ℕ) (key rest : Text) (out : Assoc Text)
    → starts_key first ≡ true
    → All (λ x. not (in_key x) ≡ false) (first ∷ key)
    → pairs_loop (suc fuel) (first ∷ (key ++ (61 ∷ rest))) out
      ≡ behind_key fuel (first ∷ key) rest out
unfolding pairs_loop
pairs_loop-key fuel first key [] out starts ins =
    let (later, before) = from_first-stops (λ x. not (in_key x)) (first ∷ key) (61 ∷ []) ins refl in
    rw (starts, pairs_loop, later, pairs_loop) refl
pairs_loop-key fuel first key (q ∷ t) out starts ins =
    let (later, before) =
      from_first-stops (λ x. not (in_key x)) (first ∷ key) (61 ∷ (q ∷ t)) ins refl in
    rw (starts, pairs_loop, later, pairs_loop, before) refl

starts_key-in_key : (c : ℕ) → starts_key c ≡ true → not (in_key c) ≡ false
starts_key-in_key c h = ground (arith, h)

-- Behind the `=` stands a value.
behind_key-written :
    (fuel : ℕ) (key : Text) (mark : Option ℕ) (value rest : Text) (out : Assoc Text)
    → IsValue mark value
    → stops is_space rest ≡ true
    → behind_key fuel key (written mark value ++ rest) out
      ≡ pairs_loop fuel rest (push key value out)
behind_key-written fuel key none [] rest out h e = absurd (omega (arith, h))
behind_key-written fuel key none (c ∷ s) rest out (unquoted, space, spaces) e =
    rw
      (
        value_at-unquoted c s rest unquoted space spaces e,
        strip_paired_quotes-unquoted c s unquoted,
      )
      refl
behind_key-written fuel key (some mark) value rest out (quotes, inside) e =
    rw (value_at-quoted mark value rest quotes inside, strip_paired_quotes-quoted mark value quotes)
      refl

-- A round at a pair.
pub pairs_loop-entry :
    (fuel : ℕ) (p : Pair) (rest : Text) (out : Assoc Text)
    → IsPair p
    → stops is_space rest ≡ true
    → pairs_loop (suc fuel) (entry p ++ rest) out
      ≡ pairs_loop fuel rest (push (p.first ∷ p.key) p.value out)
pairs_loop-entry fuel p rest out h e =
    ap (λ s. pairs_loop (suc fuel) s out)
      (append_assoc (p.first ∷ p.key) (61 ∷ written p.mark p.value) rest)
    ∙ pairs_loop-key fuel p.first p.key (written p.mark p.value ++ rest) out h.starts
        (starts_key-in_key p.first h.starts, h.in_rest)
    ∙ behind_key-written fuel (p.first ∷ p.key) p.mark p.value rest out h.readable e

pub spaced-stops :
    (ending : Text) (ps : List Pair)
    → stops is_space ending ≡ true
    → stops is_space (spaced ending ps) ≡ true
spaced-stops ending [] e = e
spaced-stops ending (p ∷ ps) e = refl

-- The loop over the pairs comes to the end.
pub pairs_loop-spaced :
    (fuel : ℕ) (ending : Text) (ps : List Pair) (out : Assoc Text)
    (result : Assoc Text → Option (Assoc Text))
    → All IsPair ps
    → stops is_space ending ≡ true
    → ((left : ℕ) (found : Assoc Text)
        → length ending < left
        → pairs_loop left ending found ≡ result found)
    → length (spaced ending ps) < fuel
    → pairs_loop fuel (spaced ending ps) out ≡ result (pushed ps out)
unfolding pairs_loop
pairs_loop-spaced fuel ending [] out result h e at_end lt = at_end fuel out lt
pairs_loop-spaced zero ending (p ∷ ps) out result h e at_end lt = absurd (omega arith)
pairs_loop-spaced (suc zero) ending (p ∷ ps) out result h e at_end lt = absurd (omega arith)
pairs_loop-spaced (suc (suc fuel)) ending (p ∷ ps) out result (h, hs) e at_end lt =
    pairs_loop-entry fuel p (spaced ending ps) out h (spaced-stops ending ps e)
    ∙ pairs_loop-spaced fuel ending ps (push (p.first ∷ p.key) p.value out) result hs e at_end
        (omega (arith, length-append (entry p) (spaced ending ps)))

-- A text of pairs `KEY=value` with a space between two of them, each value a word or in quotation
-- marks, that ends with a space, a key and its `=`, makes the parser panic. A key has letters, digits
-- and underscores and does not begin with a digit; a bare value has no space and does not begin with a
-- quotation mark, and a quoted one does not hold its mark.
pub key_value_pairs_panics :
    (p : Pair) (ps : List Pair) (first : ℕ) (key : Text)
    → All IsPair (p ∷ ps)
    → starts_key first ≡ true
    → All (λ x. not (in_key x) ≡ false) key
    → key_value_pairs (entry p ++ spaced (32 ∷ (first ∷ (key ++ (61 ∷ [])))) ps) ≡ none
unfolding key_value_pairs pairs_loop
key_value_pairs_panics p ps first key (h, hs) starts ins =
    let ending = 32 ∷ (first ∷ (key ++ (61 ∷ []))) in
    pairs_loop-entry (length (entry p ++ spaced ending ps)) p (spaced ending ps) [] h
      (spaced-stops ending ps refl)
    ∙ pairs_loop-spaced (length (entry p ++ spaced ending ps)) ending ps
        (push (p.first ∷ p.key) p.value []) (λ found. none) hs refl at_end
        (omega (arith, length-append (entry p) (spaced ending ps)))
  where
    at_end :
        (left : ℕ) (found : Assoc Text)
        → length (32 ∷ (first ∷ (key ++ (61 ∷ [])))) < left
        → pairs_loop left (32 ∷ (first ∷ (key ++ (61 ∷ [])))) found ≡ none
    at_end zero found lt = absurd (omega arith)
    at_end (suc zero) found lt = absurd (omega arith)
    at_end (suc (suc left)) found lt =
        pairs_loop-key left first key [] found starts (starts_key-in_key first starts, ins)
