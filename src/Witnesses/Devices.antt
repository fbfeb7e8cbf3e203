-- ===== src/Witnesses/Devices.antt =====
-- devices.rs: the theorems on two devices of one address and a third.
use uscan.Prelude.{
  ◌≡◌, refl, true, false, ◌&&◌, none, some, List, [], ◌∷◌, if◌then◌else◌, codes, Text, ◌=t=◌,
  =t=_refl,
}
use uscan.Prelude.Maps.{lookup}
use uscan.Addr.{ipv4, v4}
use uscan.Devices.{all_devices, Device, DeviceTable, new, family_ok, key_of, add}
use uscan.Devices.Table.{IsValid, IsValid-new, add-IsValid, lookup-add, merged}
use uscan.Devices.Stream.{rows_of, collect, emitted, last_row, last_row-emitted}
use uscan.Devices.Versions.{version_of, greatest, competes, version-collect, Keeps, Keeps-collect}

abbrev camera : Device
camera = record {
  protocol = codes "SSDP";
  version = 0;
  ip = v4 (ipv4 192 168 1 50);
  mac = codes "AA:BB:CC:DD:EE:FF";
  device_type = codes "Camera";
  serial = codes "1";
}

-- A newer report of the same address, without a MAC.
abbrev camera_again : Device
camera_again = record {
  protocol = codes "Dahua";
  version = 2;
  ip = v4 (ipv4 192 168 1 50);
  mac = [];
  device_type = codes "IPC";
  serial = codes "2";
}

abbrev printer : Device
printer = record {
  protocol = codes "mDNS";
  version = 1;
  ip = v4 (ipv4 192 168 1 60);
  mac = [];
  device_type = codes "Printer";
  serial = codes "3";
}

abbrev arrivals : List Device
arrivals = camera ∷ printer ∷ camera_again ∷ camera ∷ []

abbrev camera_key : Text
camera_key = codes "192.168.1.50"

last_row-emitted_example :
    (last_row camera_key (emitted true false (new false) arrivals) none
      ≡ lookup camera_key (collect true false (new false) arrivals).entries)
    × (all_devices (collect true false (new false) arrivals)
        ≡ rows_of
            (λ j. last_row j (emitted true false (new false) arrivals) none)
            (collect true false (new false) arrivals).order)
unfolding lookup
last_row-emitted_example = last_row-emitted true false (new false) arrivals camera_key

version-collect_example :
    version_of (lookup camera_key (collect true false (new false) arrivals).entries)
    ≡ greatest (competes false true false camera_key) arrivals none
unfolding lookup
version-collect_example = version-collect true false (new false) arrivals camera_key

abbrev table : DeviceTable
table = record {
  force_generic = false;
  entries = (camera_key, camera) ∷ [];
  order = camera_key ∷ [];
}

camera_there : lookup camera_key table.entries ≡ some camera
unfolding lookup
camera_there = rw (=t=_refl camera_key) refl

Keeps-collect_example :
    (last : Device) × (lookup camera_key (collect true false table arrivals).entries ≡ some last)
    × Keeps camera last
Keeps-collect_example = Keeps-collect true false table arrivals camera_key camera camera_there

lookup-add_example : lookup camera_key (add table camera_again true false).0.entries ≡ (
    if family_ok camera_again.ip true false && key_of false camera_again =t= camera_key
    then some (merged (lookup camera_key table.entries) camera_again)
    else lookup camera_key table.entries)
lookup-add_example = lookup-add table camera_again true false camera_key

add-IsValid_example : IsValid (add (new false) camera true false).0
add-IsValid_example = add-IsValid (new false) camera true false (IsValid-new false)
