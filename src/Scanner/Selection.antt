-- ===== src/Scanner/Selection.antt =====
-- scanner.rs: which engines a list of names selects, and which ports stay free.
use uscan.Prelude.{
  ℕ, ◌≡◌, ◌↔◌, refl, Bool, true, false, ◌||◌, List, [], ◌∷◌, Option, none, some, arith, inl, inr,
}
use uscan.Prelude.{◌==◌, any, all, filter, Option-cases, Text}
use uscan.Prelude.Results.{Result, ok, err, ok_injective}
use uscan.Ports.{PortProvider, reserve, reserve_all, used_port, add_port, free_port}
use uscan.Ports.Choice.{used_port-add_port, free_port_found}
use uscan.Scanner.{
  Engine, lowercase, has_name, ScannerError, unknown_protocol, first_unknown, known_names,
  select_entries, reserve_used,
}

first_unknown-none :
    (known wanted : List Text)
    → (first_unknown known wanted ≡ none) ↔ (all (has_name known) wanted ≡ true)
unfolding first_unknown
first_unknown-none known [] = (λ h. refl, λ h. refl)
first_unknown-none known (w ∷ wanted) = ground (arith, first_unknown-none known wanted)

-- The verdict on the wanted names: all known, or the first that is not.
abbrev pub verdict : List Engine → List Text → Option Text → Result ScannerError (List Engine)
verdict engines wanted none = ok (filter (λ e. has_name wanted (lowercase e.body.name)) engines)
verdict engines wanted (some w) = err (unknown_protocol w (known_names engines))

pub select_entries-ok :
    (engines es : List Engine) (wanted : List Text)
    → select_entries engines (some wanted) ≡ ok es
    → (all (has_name (known_names engines)) wanted ≡ true)
      × (filter (λ e. has_name wanted (lowercase e.body.name)) engines ≡ es)
unfolding select_entries
select_entries-ok engines es wanted h =
    let known = known_names engines in
    elim (Option-cases (first_unknown known wanted)) [
      | inl fine ↦ (
        (first_unknown-none known wanted).0 fine,
        ok_injective {E = ScannerError} (ground (arith, fine, h)),
      )
      | inr (w, bad) ↦ absurd (ground (arith, bad, h))
    ]

reserve_all-used :
    (ps used : List ℕ) (q : ℕ)
    → used_port (reserve_all ps used) q ≡ (any (λ p. p == q) ps || used_port used q)
unfolding reserve_all
reserve_all-used [] used q = refl
reserve_all-used (p ∷ ps) used q =
    ground (arith, reserve_all-used ps (add_port p used) q, used_port-add_port used p q)

-- Some engine of the list has the fixed port.
abbrev pub fixed_port : List Engine → ℕ → Bool
fixed_port es q = any (λ e. any (λ p. p == q) e.body.used_ports) es

pub reserve_used-used :
    (es : List Engine) (ports : PortProvider) (q : ℕ)
    → used_port (reserve_used es ports).used q ≡ (fixed_port es q || used_port ports.used q)
unfolding reserve_used reserve
reserve_used-used [] ports q = refl
reserve_used-used (e ∷ es) ports q = ground (
  arith,
  reserve_used-used es (reserve e.body.used_ports ports) q,
  reserve_all-used e.body.used_ports ports.used q,
)

-- The port that a provider gives after the fixed ports of the selected engines are reserved is
-- none of these.
pub free_port-reserve_used :
    (bind : ℕ → ℕ → Bool) (es : List Engine) (ports : PortProvider) (p : ℕ)
    → (free_port bind (reserve_used es ports)).0 ≡ some p
    → fixed_port es p ≡ false
free_port-reserve_used bind es ports p h =
    let unused = (free_port_found bind (reserve_used es ports) p h).2 in
    ground (arith, unused, reserve_used-used es ports p)
