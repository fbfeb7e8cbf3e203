-- ===== src/Iface/Active/Grouping.antt =====
-- iface.rs: the grouping of the system's entries into interfaces keeps every address.
use uscan.Prelude.{
  ◌≡◌, refl, sym, ap, ◌∙◌, Bool, true, false, ◌||◌, List, [], ◌∷◌, ◌++◌, arith, inl, inr,
  append-nil, append_assoc,
}
use uscan.Prelude.{◌=t=◌, =t=_iff, if◌then◌else◌, any, Bool-cases, Text}
use uscan.Iface.Active.{IfAddr, Entry, Iface, add_entry, group}

-- The addresses that are listed under a name.
abbrev pub addrs_of : Text → List Iface → List IfAddr
addrs_of n [] = []
addrs_of n (i ∷ is) = (if i.name =t= n then i.addrs else []) ++ addrs_of n is

-- The addresses that the system gives for a name.
abbrev pub given : Text → List Entry → List IfAddr
given n [] = []
given n (e ∷ es) = (if e.name =t= n then e.addr ∷ [] else []) ++ given n es

abbrev pub named : Text → List Iface → Bool
named n is = any (λ i. i.name =t= n) is

-- No two interfaces have one name.
abbrev pub DistinctNames : List Iface → Type 0
DistinctNames [] = Unit
DistinctNames (i ∷ is) = (named i.name is ≡ false) × DistinctNames is

named-add_entry :
    (n : Text) (e : Entry) (is : List Iface)
    → named n (add_entry e is) ≡ (named n is || e.name =t= n)
unfolding add_entry
named-add_entry n e [] = ground arith
named-add_entry n e (i ∷ is) = ground (arith, named-add_entry n e is, =t=_iff i.name e.name)

add_entry-DistinctNames :
    (e : Entry) (is : List Iface) → DistinctNames is → DistinctNames (add_entry e is)
unfolding add_entry
add_entry-DistinctNames e [] h = (refl, tt)
add_entry-DistinctNames e (i ∷ is) (h, hs) = elim (Bool-cases (i.name =t= e.name)) [
  | inl same ↦ rw same (h, hs)
  | inr other ↦ rw other (
    ground (
      arith,
      h,
      other,
      named-add_entry i.name e is,
      =t=_iff i.name e.name,
      =t=_iff e.name i.name,
    ),
    add_entry-DistinctNames e is hs,
  )
]

addrs_of-unnamed : (n : Text) (is : List Iface) → named n is ≡ false → addrs_of n is ≡ []
addrs_of-unnamed n [] h = refl
addrs_of-unnamed n (i ∷ is) h = ground (arith, h, addrs_of-unnamed n is)

put_behind :
    (b : Bool) (xs ys rest : List IfAddr)
    → (b ≡ true → rest ≡ [])
    → (if b then xs ++ ys else []) ++ rest
      ≡ ((if b then xs else []) ++ rest) ++ (if b then ys else [])
put_behind true xs ys rest h =
    rw (h refl) (append-nil (xs ++ ys) ∙ ap (λ l. l ++ ys) (sym (append-nil xs)))
put_behind false xs ys rest h = sym (append-nil rest)

addrs_of-add_entry :
    (n : Text) (e : Entry) (is : List Iface)
    → DistinctNames is
    → addrs_of n (add_entry e is) ≡ addrs_of n is ++ (if e.name =t= n then e.addr ∷ [] else [])
unfolding add_entry
addrs_of-add_entry n e [] h = ground arith
addrs_of-add_entry n e (i ∷ is) (h, hs) = elim (Bool-cases (i.name =t= e.name)) [
  | inl same ↦ rw same (
      let eq : i.name ≡ e.name = (=t=_iff i.name e.name).0 same in
      rw (sym eq) (
        put_behind (i.name =t= n) i.addrs (e.addr ∷ []) (addrs_of n is)
          (λ here. addrs_of-unnamed n is (rw (sym ((=t=_iff i.name n).0 here)) h))))
  | inr other ↦ rw other (
      ap (λ l. (if i.name =t= n then i.addrs else []) ++ l) (addrs_of-add_entry n e is hs)
      ∙ sym (
          append_assoc (if i.name =t= n then i.addrs else []) (addrs_of n is)
            (if e.name =t= n then e.addr ∷ [] else [])))
]

group_lem :
    (n : Text) (es : List Entry) (out : List Iface)
    → DistinctNames out
    → (addrs_of n (group es out) ≡ addrs_of n out ++ given n es) × DistinctNames (group es out)
unfolding group
group_lem n [] out h = (sym (append-nil (addrs_of n out)), h)
group_lem n (e ∷ es) out h =
    let (addrs, names) = group_lem n es (add_entry e out) (add_entry-DistinctNames e out h) in
    (
      addrs
          ∙ ap (λ l. l ++ given n es) (addrs_of-add_entry n e out h)
          ∙ append_assoc (addrs_of n out) (if e.name =t= n then e.addr ∷ [] else []) (given n es),
      names,
    )

-- The entries of the system are grouped by name without a loss: there is one interface for a name,
-- and it has the addresses that the system gave for the name, in their order.
pub group-given :
    (es : List Entry) (n : Text)
    → (addrs_of n (group es []) ≡ given n es) × DistinctNames (group es [])
group-given es n = group_lem n es [] tt
