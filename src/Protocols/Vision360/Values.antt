-- ===== src/Protocols/Vision360/Values.antt =====
-- protocols/vision360.rs: the values that `key_value_pairs` finds.
use uscan.Prelude.{
  inl, inr, sym, Option, ℕ, zero, suc, ◌<◌, ◌≡◌, refl, ap, ◌∙◌, List, [], ◌∷◌, ◌++◌, none, some,
  arith, length-append,
}
use uscan.Prelude.{◌=t=◌, =t=_iff, if◌then◌else◌, Option-cases, Bool-cases, length, All, Text}
use uscan.Prelude.Maps.{Assoc, lookup}
use uscan.Protocols.{or_first}
use uscan.Protocols.Vision360.{push, pairs_loop, key_value_pairs}
use uscan.Protocols.Vision360.Pairs.{
  Pair, IsPair, entry, spaced, pushed, pairs_loop-entry, pairs_loop-spaced, spaced-stops,
}

-- The value of the first pair with the key.
abbrev pub first_value : Text → List Pair → Option Text
first_value k [] = none
first_value k (p ∷ ps) = if (p.first ∷ p.key) =t= k then some p.value else first_value k ps

lookup-append :
    (k j v : Text) (m : Assoc Text)
    → lookup k (m ++ ((j, v) ∷ [])) ≡ or_first (lookup k m) (if j =t= k then some v else none)
unfolding lookup
lookup-append k j v [] = ground arith
lookup-append k j v ((i, w) ∷ m) = ground (arith, lookup-append k j v m)

lookup-push :
    (k j v : Text) (m : Assoc Text)
    → lookup k (push j v m) ≡ or_first (lookup k m) (if j =t= k then some v else none)
unfolding push
lookup-push k j v m = elim (Option-cases (lookup j m)) [
  | inl absent ↦ rw (absent, push) (lookup-append k j v m)
  | inr (w, there) ↦
      rw (there, push)
        (elim (Bool-cases (j =t= k)) [
          | inl same ↦
              let e : j ≡ k = (=t=_iff j k).0 same in
              let there' : lookup k m ≡ some w = ap (λ i. lookup i m) (sym e) ∙ there in
              rw (same, there') refl
          | inr other ↦ elim (Option-cases (lookup k m)) [
            | inl nothing ↦ rw (other, nothing) refl
            | inr (u, found) ↦ rw (other, found) refl
          ]
        ])
]

or_first_assoc : (x y z : Option Text) → or_first (or_first x y) z ≡ or_first x (or_first y z)
or_first_assoc none y z = refl
or_first_assoc (some x) y z = refl

lookup-pushed :
    (k : Text) (ps : List Pair) (out : Assoc Text)
    → lookup k (pushed ps out) ≡ or_first (lookup k out) (first_value k ps)
lookup-pushed k [] out = elim (Option-cases (lookup k out)) [
  | inl nothing ↦ rw nothing refl
  | inr (u, found) ↦ rw found refl
]
lookup-pushed k (p ∷ ps) out =
    lookup-pushed k ps (push (p.first ∷ p.key) p.value out)
    ∙ ap (λ x. or_first x (first_value k ps)) (lookup-push k (p.first ∷ p.key) p.value out)
    ∙ or_first_assoc (lookup k out) (if (p.first ∷ p.key) =t= k then some p.value else none)
        (first_value k ps)
    ∙ ap (or_first (lookup k out)) (elim (Bool-cases ((p.first ∷ p.key) =t= k)) [
      | inl same ↦ rw same refl
      | inr other ↦ rw other refl
    ])

-- A text of pairs `KEY=value` with a space between two of them, each value a word or in quotation
-- marks, is read: each key of the text has the value of its first pair, without the marks, and no other
-- key has a value. A key has letters, digits and underscores and does not begin with a digit; a bare
-- value has a character at least, no space, and does not begin with a quotation mark; a quoted one
-- stands between two marks `'` or two marks `"` and does not hold that mark.
pub key_value_pairs-spaced :
    (p : Pair) (ps : List Pair)
    → All IsPair (p ∷ ps)
    → (found : Assoc Text) × (key_value_pairs (entry p ++ spaced [] ps) ≡ some found)
      × ((k : Text) → lookup k found ≡ first_value k (p ∷ ps))
unfolding key_value_pairs pairs_loop
key_value_pairs-spaced p ps (h, hs) = (
  pushed (p ∷ ps) [],
  pairs_loop-entry (length (entry p ++ spaced [] ps)) p (spaced [] ps) [] h
        (spaced-stops [] ps refl)
      ∙ pairs_loop-spaced (length (entry p ++ spaced [] ps)) [] ps
          (push (p.first ∷ p.key) p.value []) some hs refl at_end
          (omega (arith, length-append (entry p) (spaced [] ps))),
  λ k. lookup-pushed k (p ∷ ps) [],
)
  where
    at_end : (left : ℕ) (found : Assoc Text) → 0 < left → pairs_loop left [] found ≡ some found
    at_end zero found lt = refl
    at_end (suc left) found lt = refl
