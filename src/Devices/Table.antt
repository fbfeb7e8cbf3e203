-- ===== src/Devices/Table.antt =====
-- The well-formedness of the table, what `add` answers, and what it leaves alone.
use uscan.Prelude.{◌≡◌, refl, sym, ap, ◌∙◌, inl, inr}
use uscan.Prelude.{Bool, true, false, ◌&&◌, ◌||◌, Option, none, some, Option-cases, Bool-cases}
use uscan.Prelude.{
  List, [], ◌∷◌, ◌++◌, arith, ltb, if◌then◌else◌, length, length-append, Text, ◌=t=◌, =t=_iff,
  =t=_refl,
}
use uscan.Prelude.Maps.{lookup, lookup-insert, length-insert_new, length-insert_old}
use uscan.Devices.{
  Device, DeviceTable, new, family_ok, key_of, updated, add_at, add, found, all_devices, table_len,
}

-- `order.contains(k)`, and that no key stands twice
abbrev member : Text → List Text → Bool
member k [] = false
member k (j ∷ ks) = j =t= k || member k ks

abbrev Distinct : List Text → Type 0
Distinct [] = Unit
Distinct (k ∷ ks) = (member k ks ≡ false) × Distinct ks

abbrev is_some {ℓ} : {A : Type ℓ} → Option A → Bool
is_some none = false
is_some (some a) = true

-- The discovery order lists exactly the keys of the entries, each once.
pub record IsValid (t : DeviceTable) : Type 0 where
  pub same_keys : (k : Text) → member k t.order ≡ is_some (lookup k t.entries)
  pub distinct : Distinct t.order
  pub counted : length t.entries ≡ length t.order

member-append : (k : Text) (xs ys : List Text) → member k (xs ++ ys) ≡ (member k xs || member k ys)
member-append k [] ys = refl
member-append k (x ∷ xs) ys = ground (arith, member-append k xs ys)

Distinct-append :
    (xs : List Text) (k : Text) → member k xs ≡ false → Distinct xs → Distinct (xs ++ (k ∷ []))
Distinct-append [] k h d = (refl, tt)
Distinct-append (x ∷ xs) k h d = (
  ground (arith, member-append x xs (k ∷ []), =t=_iff x k, =t=_iff k x),
  Distinct-append xs k (ground arith) d.1,
)

pub IsValid-new : (g : Bool) → IsValid (new g)
unfolding lookup
IsValid-new g = record { same_keys = λ k. refl; distinct = tt; counted = refl }

add_at-IsValid :
    (t : DeviceTable) (key : Text) (d : Device)
    → IsValid t
    → IsValid (add_at t key d (lookup key t.entries)).0
unfolding add_at
add_at-IsValid t key d v = elim (Option-cases (lookup key t.entries)) [
  | inl absent ↦ rw absent (record {
    same_keys = λ k. ground (
      arith,
      v.same_keys k,
      member-append k t.order (key ∷ []),
      lookup-insert key k d t.entries,
      =t=_iff key k,
    );
    distinct = Distinct-append t.order key (v.same_keys key ∙ ap is_some absent) v.distinct;
    counted = omega (
      arith,
      v.counted,
      length-insert_new key d t.entries absent,
      length-append t.order (key ∷ []),
    );
  })
  | inr (old, present) ↦ rw present (elim (Bool-cases (ltb old.version d.version)) [
    | inl newer ↦ rw newer (record {
      same_keys = λ k. ground (
        arith,
        v.same_keys k,
        v.same_keys key,
        present,
        lookup-insert key k (updated old d) t.entries,
        =t=_iff key k,
      );
      distinct = v.distinct;
      counted =
          omega (arith, v.counted, length-insert_old key (updated old d) old t.entries present);
    })
    | inr same ↦ rw same v
  ])
]

-- `add` keeps the table well formed, whatever the device and the address families.
pub add-IsValid :
    (t : DeviceTable) (d : Device) (ipv4 ipv6 : Bool) → IsValid t → IsValid (add t d ipv4 ipv6).0
unfolding add
add-IsValid t d ipv4 ipv6 v = elim (Bool-cases (family_ok d.ip ipv4 ipv6)) [
  | inl fits ↦ rw fits (add_at-IsValid t (key_of t.force_generic d) d v)
  | inr no_family ↦ rw no_family v
]

-- What the table holds under a key when `d` arrives there.
abbrev pub merged : Option Device → Device → Device
merged none d = d
merged (some old) d = if ltb old.version d.version then updated old d else old

-- A device of an enabled address family changes at most the entry under its own key: there it puts
-- itself, or its merge with the present entry if its version is strictly greater. A device of
-- another family changes no entry.
pub lookup-add :
    (t : DeviceTable) (d : Device) (ipv4 ipv6 : Bool) (k : Text)
    → lookup k (add t d ipv4 ipv6).0.entries ≡ (
        if family_ok d.ip ipv4 ipv6 && key_of t.force_generic d =t= k
        then some (merged (lookup k t.entries) d)
        else lookup k t.entries)
unfolding add add_at
lookup-add t d ipv4 ipv6 k = elim (Option-cases (lookup (key_of t.force_generic d) t.entries)) [
  | inl absent ↦ ground (
    arith,
    absent,
    =t=_iff (key_of t.force_generic d) k,
    lookup-insert (key_of t.force_generic d) k d t.entries,
  )
  | inr (old, present) ↦ ground (
    arith,
    present,
    =t=_iff (key_of t.force_generic d) k,
    lookup-insert (key_of t.force_generic d) k (updated old d) t.entries,
  )
]

-- `add` answers with what the table holds under the key afterwards, if it answers at all.
pub add_answer :
    (t : DeviceTable) (d x : Device) (ipv4 ipv6 : Bool)
    → (add t d ipv4 ipv6).1 ≡ some x
    → lookup (key_of t.force_generic d) (add t d ipv4 ipv6).0.entries ≡ some x
unfolding add add_at
add_answer t d x ipv4 ipv6 h = elim (Option-cases (lookup (key_of t.force_generic d) t.entries)) [
  | inl absent ↦ ground (
    arith,
    absent,
    =t=_refl (key_of t.force_generic d),
    lookup-insert (key_of t.force_generic d) (key_of t.force_generic d) d t.entries,
  )
  | inr (old, present) ↦ ground (
    arith,
    present,
    =t=_refl (key_of t.force_generic d),
    lookup-insert (key_of t.force_generic d) (key_of t.force_generic d) (updated old d) t.entries,
  )
]

-- Where `add` answers nothing, the table is as before.
pub add_silent :
    (t : DeviceTable) (d : Device) (ipv4 ipv6 : Bool)
    → (add t d ipv4 ipv6).1 ≡ none
    → (add t d ipv4 ipv6).0 ≡ t
unfolding add add_at
add_silent t d ipv4 ipv6 h = ground arith

pub force_generic-add :
    (t : DeviceTable) (d : Device) (ipv4 ipv6 : Bool)
    → (add t d ipv4 ipv6).0.force_generic ≡ t.force_generic
unfolding add add_at
force_generic-add t d ipv4 ipv6 = ground arith

-- Every listed key has its device.
length-found :
    (t : DeviceTable) (ks : List Text)
    → ((k : Text) → member k ks ≡ true → is_some (lookup k t.entries) ≡ true)
    → length (found t.entries ks) ≡ length ks
unfolding found
length-found t [] h = refl
length-found t (k ∷ ks) h =
    let ih = length-found t ks (λ j m. h j (ground arith)) in
    let here = h k (ground (arith, =t=_refl k)) in
    elim (Option-cases (lookup k t.entries)) [
      | inl absent ↦ ground (arith, absent)
      | inr (d, present) ↦ ground (arith, present, ih)
    ]

-- The list that `--batch` prints holds one device for each entry of the table.
pub length-all_devices : (t : DeviceTable) → IsValid t → length (all_devices t) ≡ table_len t
unfolding all_devices
length-all_devices t v = length-found t t.order (λ k m. sym (v.same_keys k) ∙ m) ∙ sym v.counted
