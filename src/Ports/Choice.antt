-- ===== src/Ports/Choice.antt =====
-- ports.rs: what the provider returns.
use uscan.Prelude.{
  ℕ, zero, suc, ◌-◌, ◌≤◌, ◌≡◌, refl, sym, ap, ◌∙◌, ◌≢◌, ◌⊎◌, Bool, true, false, not, ◌&&◌, ◌||◌,
  List, [], ◌∷◌, Option, none, some, arith, inl, inr,
}
use uscan.Prelude.{◌==◌, if◌then◌else◌, Bool-cases, Option-cases}
use uscan.Ports.{pick, port_min, port_max, used_port, add_port, PortProvider, try_ports, free_port}

pick_range : (s : ℕ) → (port_min ≤ (pick s).1) × ((pick s).1 ≤ port_max)
unfolding pick
pick_range s = (omega arith, omega arith)

-- The first candidates of the generator.
abbrev pub candidates : ℕ → ℕ → List ℕ
candidates zero rng = []
candidates (suc left) rng = (pick rng).1 ∷ candidates left ((pick rng).0)

-- The specification: the first candidate that is not used and can be bound; a candidate's attempt is
-- the number of those behind it.
abbrev pub first_free : ℕ → (ℕ → ℕ → Bool) → List ℕ → List ℕ → Option ℕ
first_free left bind used [] = none
first_free left bind used (p ∷ ps) =
    if not (used_port used p) && bind (left - 1) p
    then some p
    else first_free (left - 1) bind used ps

try_ports-first_free :
    (left : ℕ) (bind : ℕ → ℕ → Bool) (t : PortProvider) (rng : ℕ)
    → (try_ports left bind t rng).0 ≡ first_free left bind (t.used) (candidates left rng)
unfolding try_ports
try_ports-first_free zero bind t rng = refl
try_ports-first_free (suc left) bind t rng =
    ground (arith, try_ports-first_free left bind t ((pick rng).0))

-- A port that is found, and what becomes of the provider with it.
abbrev pub Found : PortProvider → ℕ → PortProvider → Type 0
Found t p after =
    (port_min ≤ p)
    × (p ≤ port_max)
    × (used_port (t.used) p ≡ false)
    × (after.used ≡ add_port p (t.used))

module _ (left : ℕ) (bind : ℕ → ℕ → Bool) (t : PortProvider) (rng : ℕ) where
  abbrev candidate : ℕ
  candidate = (pick rng).1

  passed_over :
      (used_port (t.used) candidate ≡ true) ⊎ (bind left candidate ≡ false)
      → try_ports (suc left) bind t rng ≡ try_ports left bind t ((pick rng).0)
  unfolding try_ports
  passed_over (inl taken) = ground (arith, taken)
  passed_over (inr refused) = ground (arith, refused)

  taken_up :
      used_port (t.used) candidate ≡ false
      → bind left candidate ≡ true
      → try_ports (suc left) bind t rng
        ≡ (some candidate, record { used = add_port candidate (t.used); state = (pick rng).0 })
  unfolding try_ports
  taken_up unused bound = ground (arith, unused, bound)

Found-eq :
    (t after : PortProvider) (c p : ℕ)
    → ◌≡◌ {A = Option ℕ} (some c) (some p)
    → Found t c after
    → Found t p after
Found-eq t after c p e f = let same : c ≡ p = cc in rw (sym same) f

Found-same :
    (t : PortProvider) (p : ℕ) (r s : Option ℕ × PortProvider)
    → r ≡ s
    → r.0 ≡ some p
    → (s.0 ≡ some p → Found t p (s.1))
    → Found t p (r.1)
Found-same t p r s h e f = rw h (f (sym (ap (λ v. v.0) h) ∙ e))

try_ports-Found :
    (left : ℕ) (bind : ℕ → ℕ → Bool) (t : PortProvider) (rng p : ℕ)
    → (try_ports left bind t rng).0 ≡ some p
    → Found t p ((try_ports left bind t rng).1)
unfolding try_ports
try_ports-Found zero bind t rng p e = ground (arith, e)
try_ports-Found (suc left) bind t rng p e =
    let c = (pick rng).1 in
    let next = try_ports left bind t ((pick rng).0) in
    let found : PortProvider = record { used = add_port c (t.used); state = (pick rng).0 } in
    let ih = try_ports-Found left bind t ((pick rng).0) p in
    elim (Bool-cases (used_port (t.used) c)) [
      | inl taken ↦ Found-same t p _ next (passed_over left bind t rng (inl taken)) e ih
      | inr unused ↦ elim (Bool-cases (bind left c)) [
        | inr refused ↦ Found-same t p _ next (passed_over left bind t rng (inr refused)) e ih
        | inl bound ↦
            Found-same t p _ (some c, found) (taken_up left bind t rng unused bound) e
              λ h. Found-eq t found c p h ((pick_range rng).0, (pick_range rng).1, unused, refl)
      ]
    ]

try_ports-none :
    (left : ℕ) (bind : ℕ → ℕ → Bool) (t : PortProvider) (rng : ℕ)
    → (try_ports left bind t rng).0 ≡ none
    → (try_ports left bind t rng).1 ≡ t
unfolding try_ports
try_ports-none zero bind t rng e = refl
try_ports-none (suc left) bind t rng e =
    ground (arith, e, try_ports-none left bind t ((pick rng).0))

pub used_port-add_port :
    (used : List ℕ) (p q : ℕ) → used_port (add_port p used) q ≡ (p == q || used_port used q)
used_port-add_port used p q = elim (Bool-cases (used_port used p)) [
  | inl there ↦ rw there (already used there)
  | inr new ↦ rw new refl
]
  where
    already : (ps : List ℕ) → used_port ps p ≡ true → used_port ps q ≡ (p == q || used_port ps q)
    already [] h = ground (arith, h)
    already (r ∷ ps) h = ground (arith, h, already ps)

-- The port that the provider returns is the first of its 64 candidates that is not used and that
-- the system binds; it returns none exactly if no candidate is such.
pub free_port_lem :
    (bind : ℕ → ℕ → Bool) (t : PortProvider)
    → (free_port bind t).0 ≡ first_free 64 bind (t.used) (candidates 64 (t.state))
unfolding free_port
free_port_lem bind t = try_ports-first_free 64 bind t (t.state)

-- A returned port lies from 1024 to 65533, it was not used, and afterwards it is used, as every
-- port that was used before, and no other.
pub free_port_found :
    (bind : ℕ → ℕ → Bool) (t : PortProvider) (p : ℕ)
    → (free_port bind t).0 ≡ some p
    → (port_min ≤ p)
      × (p ≤ port_max)
      × (used_port (t.used) p ≡ false)
      × ((q : ℕ) → used_port ((free_port bind t).1.used) q ≡ (p == q || used_port (t.used) q))
unfolding free_port
free_port_found bind t p e =
    let (low, high, unused, after) = try_ports-Found 64 bind t (t.state) p e in
    (low, high, unused, λ q. rw after (used_port-add_port (t.used) p q))

-- Two calls, one after the other, never return the same port, whatever the system answers.
pub free_port_distinct :
    (bind bind' : ℕ → ℕ → Bool) (t : PortProvider) (p q : ℕ)
    → (free_port bind t).0 ≡ some p
    → (free_port bind' ((free_port bind t).1)).0 ≡ some q
    → p ≢ q
free_port_distinct bind bind' t p q e f same =
    let used = (free_port_found bind t p e).3 q in
    let unused = (free_port_found bind' ((free_port bind t).1) q f).2 in
    ground (arith, used, unused, same)

-- A call that returns none leaves the provider as it was: the next call tries the same candidates.
pub free_port_exhausted :
    (bind bind' : ℕ → ℕ → Bool) (t : PortProvider)
    → (free_port bind t).0 ≡ none
    → (free_port bind' ((free_port bind t).1)).0
      ≡ first_free 64 bind' (t.used) (candidates 64 (t.state))
unfolding free_port
free_port_exhausted bind bind' t e =
    rw (try_ports-none 64 bind t (t.state) e) (try_ports-first_free 64 bind' t (t.state))

free_port-none :
    (bind : ℕ → ℕ → Bool) (t : PortProvider)
    → (free_port bind t).0 ≡ none
    → (free_port bind t).1 ≡ t
unfolding free_port
free_port-none bind t e = try_ports-none 64 bind t (t.state) e

-- A port that was used stays used.
pub free_port-used :
    (bind : ℕ → ℕ → Bool) (t : PortProvider) (q : ℕ)
    → used_port (t.used) q ≡ true
    → used_port ((free_port bind t).1.used) q ≡ true
free_port-used bind t q h = elim (Option-cases ((free_port bind t).0)) [
  | inl absent ↦ rw (free_port-none bind t absent) h
  | inr (p, there) ↦ ground (arith, (free_port_found bind t p there).3 q)
]
