-- ===== src/Devices/Versions.antt =====
-- Which device of a run the table keeps under a key.
use uscan.Prelude.{ℕ, ◌≤◌, max, ◌≡◌, refl, ◌∙◌, Bool, true, false, ◌&&◌, Option, none, some}
use uscan.Prelude.{List, [], ◌∷◌, arith, if◌then◌else◌, Text, ◌=t=◌}
use uscan.Prelude.Maps.{lookup}
use uscan.Devices.{Device, DeviceTable, new, family_ok, key_of, updated, add, is_empty}
use uscan.Devices.Table.{lookup-add, force_generic-add, merged}
use uscan.Devices.Stream.{collect}

-- The device has the key `k` and an address family that is enabled.
abbrev pub competes : Bool → Bool → Bool → Text → Device → Bool
competes force_generic ipv4 ipv6 k d = family_ok d.ip ipv4 ipv6 && key_of force_generic d =t= k

-- The greatest of the versions seen so far and that of one more device.
abbrev pub greater : Option ℕ → ℕ → ℕ
greater none v = v
greater (some w) v = max w v

-- The greatest version of the devices that compete for a key.
abbrev pub greatest : (Device → Bool) → List Device → Option ℕ → Option ℕ
greatest test [] best = best
greatest test (d ∷ ds) best =
    greatest test ds (if test d then some (greater best d.version) else best)

abbrev pub version_of : Option Device → Option ℕ
version_of none = none
version_of (some d) = some d.version

version_of-merged :
    (o : Option Device) (d : Device) → (merged o d).version ≡ greater (version_of o) d.version
unfolding updated
version_of-merged none d = refl
version_of-merged (some e) d = ground arith

-- After any run the entry of a key has the greatest version among the entry that was there and the
-- devices of that key whose address family is enabled; without any of these there is no entry.
pub version-collect :
    (ipv4 ipv6 : Bool) (t : DeviceTable) (ds : List Device) (k : Text)
    → version_of (lookup k (collect ipv4 ipv6 t ds).entries)
      ≡ greatest (competes t.force_generic ipv4 ipv6 k) ds (version_of (lookup k t.entries))
unfolding collect
version-collect ipv4 ipv6 t [] k = refl
version-collect ipv4 ipv6 t (d ∷ ds) k =
    let t' = (add t d ipv4 ipv6).0 in
    let step : version_of (lookup k t'.entries) ≡ (
        if competes t.force_generic ipv4 ipv6 k d
        then some (greater (version_of (lookup k t.entries)) d.version)
        else version_of (lookup k t.entries)) =
      ground (arith, lookup-add t d ipv4 ipv6 k, version_of-merged (lookup k t.entries) d) in
    version-collect ipv4 ipv6 t' ds k ∙ rw (force_generic-add t d ipv4 ipv6, step) refl

-- What no later device takes away: the address, and a MAC that is known.
pub record Keeps (old new : Device) : Type 0 where
  pub same_ip : new.ip ≡ old.ip
  pub newer : old.version ≤ new.version
  pub mac_kept : is_empty old.mac ≡ false → is_empty new.mac ≡ false

Keeps-merged : (old d : Device) → Keeps old (merged (some old) d)
unfolding updated
Keeps-merged old d = ground arith

Keeps-if : (b : Bool) (old d : Device) → Keeps old (if b then merged (some old) d else old)
Keeps-if true old d = Keeps-merged old d
Keeps-if false old d = record { same_ip = refl; newer = omega arith; mac_kept = λ m. m }

Keeps-trans : {a b c : Device} → Keeps a b → Keeps b c → Keeps a c
Keeps-trans h g = record {
  same_ip = g.same_ip ∙ h.same_ip;
  newer = omega arith;
  mac_kept = λ m. g.mac_kept (h.mac_kept m);
}

-- No run of devices removes an entry: it keeps its address, its version never falls, and once it
-- has a MAC it always has one.
pub Keeps-collect :
    (ipv4 ipv6 : Bool) (t : DeviceTable) (ds : List Device) (k : Text) (old : Device)
    → lookup k t.entries ≡ some old
    → (new : Device) × (lookup k (collect ipv4 ipv6 t ds).entries ≡ some new) × Keeps old new
unfolding collect
Keeps-collect ipv4 ipv6 t [] k old h =
    (old, h, record { same_ip = refl; newer = omega arith; mac_kept = λ m. m })
Keeps-collect ipv4 ipv6 t (d ∷ ds) k old h =
    let mid : Device =
      if competes t.force_generic ipv4 ipv6 k d then merged (some old) d else old in
    let there : lookup k (add t d ipv4 ipv6).0.entries ≡ some mid =
      ground (arith, h, lookup-add t d ipv4 ipv6 k) in
    let kept : Keeps old mid = Keeps-if (competes t.force_generic ipv4 ipv6 k d) old d in
    let (new, e, more) = Keeps-collect ipv4 ipv6 (add t d ipv4 ipv6).0 ds k mid there in
    (new, e, Keeps-trans kept more)
