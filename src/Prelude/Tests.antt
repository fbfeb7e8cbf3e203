-- ===== src/Prelude/Tests.antt =====
-- Boolean tests on the native numbers, the conditional, and case splits that keep an equation.
use Prim.Native.Nat.{ℕ, ◌≤◌, ◌<◌, compare, Ordering}
use mathlib.Core.Path.{◌≡◌, refl}
use mathlib.Core.Logic.{◌↔◌, ◌⊎◌, inl, inr}
use mathlib.Core.Bool.{Bool, true, false, ◌&&◌}
use mathlib.Core.Option.{Option, none, some}
use mathlib.Core.List.{List, [], ◌∷◌}
use native.Mathlib.Omega.{arith}

abbrev pub ltb : ℕ → ℕ → Bool
ltb a b = elim (compare a b) [ Ordering.lt ↦ true | _ ↦ false ]

abbrev pub leb : ℕ → ℕ → Bool
leb a b = elim (compare a b) [ Ordering.gt ↦ false | _ ↦ true ]

infix 50 ◌==◌
abbrev pub ◌==◌ : ℕ → ℕ → Bool
a == b = elim (compare a b) [ Ordering.eq ↦ true | _ ↦ false ]

infix 1 if◌then◌else◌
abbrev pub if◌then◌else◌ {ℓ} : {A : Type ℓ} → Bool → A → A → A
if true then x else y = x
if false then x else y = y

pub ltb→lt : (a b : ℕ) → ltb a b ≡ true → a < b
ltb→lt a b h = ground arith

pub lt→ltb : (a b : ℕ) → a < b → ltb a b ≡ true
lt→ltb a b h = ground arith

pub leb→le : (a b : ℕ) → leb a b ≡ true → a ≤ b
leb→le a b h = ground arith

pub ==_iff : (a b : ℕ) → ((a == b) ≡ true) ↔ (a ≡ b)
==_iff a b = ground arith

pub Bool-cases : (b : Bool) → (b ≡ true) ⊎ (b ≡ false)
Bool-cases true = inl refl
Bool-cases false = inr refl

pub Option-cases {ℓ} : {A : Type ℓ} (o : Option A) → (o ≡ none) ⊎ ((a : A) × (o ≡ some a))
Option-cases none = inl refl
Option-cases (some a) = inr (a, refl)

-- Equality of texts and byte strings.
infix 50 ◌=t=◌
unfoldable pub ◌=t=◌ : List ℕ → List ℕ → Bool
[] =t= [] = true
[] =t= (y ∷ ys) = false
(x ∷ xs) =t= [] = false
(x ∷ xs) =t= (y ∷ ys) = x == y && xs =t= ys

pub =t=_refl : (xs : List ℕ) → (xs =t= xs) ≡ true
unfolding ◌=t=◌
=t=_refl [] = refl
=t=_refl (x ∷ xs) = ground (arith, =t=_refl xs)

pub =t=→eq : (xs ys : List ℕ) → (xs =t= ys) ≡ true → xs ≡ ys
unfolding ◌=t=◌
=t=→eq [] [] h = refl
=t=→eq [] (y ∷ ys) h = ground arith
=t=→eq (x ∷ xs) [] h = ground arith
=t=→eq (x ∷ xs) (y ∷ ys) h = ground (arith, =t=→eq xs ys)

pub =t=_iff : (xs ys : List ℕ) → ((xs =t= ys) ≡ true) ↔ (xs ≡ ys)
=t=_iff xs ys = (=t=→eq xs ys, λ e. ground (arith, e, =t=_refl xs))

pub not_ltb : (a b : ℕ) → ¬ (a < b) → ltb a b ≡ false
not_ltb a b h = ground arith
