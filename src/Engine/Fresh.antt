-- ===== src/Engine/Fresh.antt =====
-- engine.rs: steps of listening that keep to fresh ports on the interfaces.
use uscan.Prelude.{
  ℕ, ◌≡◌, refl, sym, ap, ◌∙◌, true, false, not, List, [], ◌∷◌, ◌++◌, none, some, arith,
  append_assoc, append-nil, inl, inr,
}
use uscan.Prelude.{◌==◌, Bool-cases, All, All-append, filter}
use uscan.Addr.{ipv4_eq}
use uscan.Ports.{used_port}
use uscan.Net.{Socket, SocketSet, unspecified, Message}
use uscan.Engine.{Listening, Outcome, with_messages, ◌then_on◌}

-- Sockets on ports that are not used, and each on a port of its own.
abbrev pub FreshPorts : List ℕ → SocketSet → Type 0
FreshPorts used [] = Unit {0}
FreshPorts used (k ∷ socks) = (used_port used (k.port) ≡ false) × FreshPorts (k.port ∷ used) socks

abbrev pub Within : List ℕ → List ℕ → Type 0
Within used later = (q : ℕ) → used_port used q ≡ true → used_port later q ≡ true

pub Within-cons : (used later : List ℕ) (p : ℕ) → Within used later → Within (p ∷ used) (p ∷ later)
Within-cons used later p w q h = ground (arith, w q)

-- Fewer used ports leave more that are fresh.
pub FreshPorts-mono :
    (used later : List ℕ) (socks : SocketSet)
    → Within used later
    → FreshPorts later socks
    → FreshPorts used socks
FreshPorts-mono used later [] w h = tt
FreshPorts-mono used later (k ∷ socks) w (h, hs) = (
  ground (arith, w (k.port)),
  FreshPorts-mono (k.port ∷ used) (k.port ∷ later) socks (Within-cons used later (k.port) w) hs,
)

-- Fresh ports behind fresh ports, where the latter are used.
FreshPorts-append :
    (used later : List ℕ) (xs ys : SocketSet)
    → Within used later
    → All (λ k. used_port later (k.port) ≡ true) xs
    → FreshPorts used xs
    → FreshPorts later ys
    → FreshPorts used (xs ++ ys)
FreshPorts-append used later [] ys w u h k = FreshPorts-mono used later ys w k
FreshPorts-append used later (x ∷ xs) ys w (u, us) (h, hs) k = (
  h,
  FreshPorts-append (x.port ∷ used) later xs ys
      (λ q e. elim (Bool-cases (x.port == q)) [
        | inl same ↦ let e' : x.port ≡ q = ground arith in rw (sym e') u
        | inr other ↦ w q (ground arith)
      ])
      us hs k,
)

-- The sockets that are not bound to the unspecified address.
abbrev pub local_socks : SocketSet → SocketSet
local_socks socks = filter (λ k. not (ipv4_eq (k.addr) unspecified)) socks

pub local_socks-append :
    (xs ys : SocketSet) → local_socks (xs ++ ys) ≡ local_socks xs ++ local_socks ys
local_socks-append [] ys = refl
local_socks-append (x ∷ xs) ys = ground (arith, local_socks-append xs ys)

-- What a step of listening does: it binds sockets, those on the interfaces on fresh ports, and uses
-- more ports, theirs among them.
pub record Extends (s : Listening) (t : Listening) : Type 0 where
  pub bound : SocketSet
  pub together : t.socks ≡ s.socks ++ bound
  pub fresh : FreshPorts (s.ports.used) (local_socks bound)
  pub grows : Within (s.ports.used) (t.ports.used)
  pub used_bound : All (λ k. used_port (t.ports.used) (k.port) ≡ true) (local_socks bound)

All-Within :
    (used later : List ℕ) (xs : SocketSet)
    → Within used later
    → All (λ k. used_port used (k.port) ≡ true) xs
    → All (λ k. used_port later (k.port) ≡ true) xs
All-Within used later [] w h = tt
All-Within used later (x ∷ xs) w (h, hs) = (w (x.port) h, All-Within used later xs w hs)

pub Extends-trans : {s t u : Listening} → Extends s t → Extends t u → Extends s u
Extends-trans {s} {t} {u} h k = record {
  bound = h.bound ++ k.bound;
  together =
      k.together ∙ ap (λ x. x ++ k.bound) h.together ∙ append_assoc (s.socks) h.bound k.bound;
  fresh = rw (local_socks-append h.bound k.bound) (
      FreshPorts-append (s.ports.used) (t.ports.used) (local_socks h.bound) (local_socks k.bound)
        h.grows h.used_bound h.fresh k.fresh);
  grows = λ q e. k.grows q (h.grows q e);
  used_bound = rw (local_socks-append h.bound k.bound) (
      All-append _ (local_socks h.bound) (local_socks k.bound)
        (All-Within (t.ports.used) (u.ports.used) (local_socks h.bound) k.grows h.used_bound)
        k.used_bound);
}

-- Nothing bound, and more ports used.
pub Extends-none :
    {s t : Listening} → t.socks ≡ s.socks → Within (s.ports.used) (t.ports.used) → Extends s t
Extends-none {s} e w = record {
  bound = [];
  together = e ∙ sym (append-nil (s.socks));
  fresh = tt;
  grows = w;
  used_bound = tt;
}

pub Extends-refl : (s : Listening) → Extends s s
Extends-refl s = Extends-none refl (λ q e. e)

pub Extends-with_messages : (ms : List Message) (s : Listening) → Extends s (with_messages ms s)
Extends-with_messages ms s = Extends-none refl (λ q e. e)

-- One socket at no interface.
pub Extends-global :
    {s t : Listening} (k : Socket)
    → t.socks ≡ s.socks ++ k ∷ []
    → Within (s.ports.used) (t.ports.used)
    → ipv4_eq (k.addr) unspecified ≡ true
    → Extends s t
Extends-global k e w global = record {
  bound = k ∷ [];
  together = e;
  fresh = rw global tt;
  grows = w;
  used_bound = rw global tt;
}

-- One socket on a port that was not used and is used afterwards.
pub Extends-local :
    {s t : Listening} (k : Socket)
    → t.socks ≡ s.socks ++ k ∷ []
    → Within (s.ports.used) (t.ports.used)
    → used_port (s.ports.used) (k.port) ≡ false
    → used_port (t.ports.used) (k.port) ≡ true
    → Extends s t
Extends-local k e w fresh after = elim (Bool-cases (ipv4_eq (k.addr) unspecified)) [
  | inl global ↦ Extends-global k e w global
  | inr local ↦ record {
    bound = k ∷ [];
    together = e;
    fresh = rw local (fresh, tt);
    grows = w;
    used_bound = rw local (after, tt);
  }
]

-- A step of listening and what follows it.
pub Extends-then_on :
    {s : Listening} (o : Outcome) (k : Listening → Outcome)
    → Extends s (o.0)
    → ((t : Listening) → Extends t ((k t).0))
    → Extends s ((o then_on k).0)
Extends-then_on (t, some e) k h next = h
Extends-then_on (t, none) k h next = Extends-trans h (next t)
