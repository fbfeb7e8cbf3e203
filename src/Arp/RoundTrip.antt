-- ===== src/Arp/RoundTrip.antt =====
-- Frames that are built parse back.
use uscan.Prelude.{
  codes, map, if◌then◌else◌, ◌+◌, ◌*◌, ℕ, ◌/◌, ◌%◌, ◌≡◌, refl, some, [], ◌∷◌, arith, length,
}
use uscan.Addr.{Ipv4Addr, v4, ipv4_eq}
use uscan.Addr.Display.{mac_upper, mac_lower}
use uscan.Arp.{
  MacAddr, mac_bytes, zero_mac, op_request, build, build_request, build_reply, parse, is_garp,
  arp_parse,
}

-- A request is 42 bytes and parses to the frame that was asked for: who-has, with no target MAC.
pub parse-build_request :
    (src_mac : MacAddr) (sender_ip target_ip : Ipv4Addr)
    → (length (build_request src_mac sender_ip target_ip) ≡ 42)
      × (parse (build_request src_mac sender_ip target_ip)
          ≡ some (record {
            op = op_request;
            src_mac = src_mac;
            sender_ip = sender_ip;
            target_mac = zero_mac;
            target_ip = target_ip;
          }))
unfolding build_request parse
parse-build_request m s t = (refl, refl)

-- Whatever the operation code, the fields of a built frame are read back from it.
pub parse-build :
    (op : ℕ) (src_mac : MacAddr) (sender_ip : Ipv4Addr) (target_mac : MacAddr)
    (target_ip : Ipv4Addr)
    → parse (build op src_mac sender_ip target_mac target_ip)
      ≡ some (record {
        op = op;
        src_mac = src_mac;
        sender_ip = sender_ip;
        target_mac = target_mac;
        target_ip = target_ip;
      })
unfolding build parse
parse-build op m s u t = let e : op / 256 * 256 + op % 256 ≡ op = omega arith in rw e refl

-- What the sweep's receiver reports of a reply: one device, at the sender's address and MAC.
pub arp_parse-build_reply :
    (src_mac target_mac : MacAddr) (sender_ip target_ip : Ipv4Addr)
    → arp_parse (build_reply src_mac sender_ip target_mac target_ip)
      ≡ record {
        protocol = codes "ARP";
        version = 0;
        ip = v4 sender_ip;
        mac = mac_upper (mac_bytes src_mac);
        device_type = codes "ARP";
        serial = mac_lower (mac_bytes src_mac);
      }
        ∷ []
unfolding arp_parse build_reply parse is_garp
arp_parse-build_reply m u s t = refl

-- A request is reported as a gratuitous announcement exactly if it asks for its own sender.
pub garp-build_request :
    (src_mac : MacAddr) (sender_ip target_ip : Ipv4Addr)
    → map (λ d. d.device_type) (arp_parse (build_request src_mac sender_ip target_ip))
      ≡ (if ipv4_eq sender_ip target_ip then codes "GARP" else codes "ARP") ∷ []
unfolding arp_parse build_request parse is_garp
garp-build_request m s t = refl
