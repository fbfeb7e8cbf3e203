-- ===== src/Addr/Tests.antt =====
-- Runs of the address texts.
use uscan.Prelude.{◌≡◌, refl, [], ◌∷◌, codes}
use uscan.Addr.{ipv4, v4, v6}
use uscan.Addr.Display.{ip_text, mac_upper}

v4_text : ip_text (v4 (ipv4 192 168 1 50)) ≡ codes "192.168.1.50"
unfolding ip_text
v4_text = refl

v6_text :
    ip_text (v6 (0xfe ∷ 0x80 ∷ 0 ∷ 0 ∷ 0 ∷ 0 ∷ 0 ∷ 0 ∷ 0 ∷ 0 ∷ 0 ∷ 0 ∷ 0 ∷ 0 ∷ 0 ∷ 1 ∷ []))
    ≡ codes "fe80::1"
unfolding ip_text
v6_text = refl

v6_mapped :
    ip_text (v6 (0 ∷ 0 ∷ 0 ∷ 0 ∷ 0 ∷ 0 ∷ 0 ∷ 0 ∷ 0 ∷ 0 ∷ 0xff ∷ 0xff ∷ 10 ∷ 0 ∷ 0 ∷ 1 ∷ []))
    ≡ codes "::ffff:10.0.0.1"
unfolding ip_text
v6_mapped = refl

v6_full :
    ip_text (v6 (0x20 ∷ 1 ∷ 0xd ∷ 0xb8 ∷ 0 ∷ 0 ∷ 0 ∷ 1 ∷ 0 ∷ 0 ∷ 0 ∷ 0 ∷ 0 ∷ 0 ∷ 0xab ∷ 0xcd ∷ []))
    ≡ codes "2001:db8:0:1::abcd"
unfolding ip_text
v6_full = refl

mac_text : mac_upper (0 ∷ 0x11 ∷ 0xaa ∷ 0x33 ∷ 0x4f ∷ 0x55 ∷ []) ≡ codes "00:11:AA:33:4F:55"
unfolding mac_upper
mac_text = refl
