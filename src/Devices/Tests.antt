-- ===== src/Devices/Tests.antt =====
-- Runs of the table and of the MAC format, after the tests of devices.rs.
use uscan.Prelude.{◌≡◌, refl, codes}
use uscan.Devices.{normalize_mac}

mac_variants :
    (normalize_mac (codes "aa-bb-cc-dd-ee-ff") ≡ codes "AA:BB:CC:DD:EE:FF")
    × (normalize_mac (codes "001122334455") ≡ codes "00:11:22:33:44:55")
    × (normalize_mac (codes "123456789") ≡ codes "123456789")
unfolding normalize_mac
mac_variants = (refl, refl, refl)
