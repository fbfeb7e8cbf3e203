-- ===== src/Commands/TvtSet.antt =====
-- uscan/src/commands.rs: `tvt-set`.
use uscan.Prelude.{
  ℕ, suc, ◌≡◌, refl, sym, ap, ◌∙◌, Bool, true, false, List, [], ◌∷◌, ◌++◌, Option, none, some,
  arith, inl, inr,
}
use uscan.Prelude.{◌==◌, if◌then◌else◌, Bool-cases, Option-cases, length, Bytes, Text, codes}
use uscan.Prelude.Results.{ok, err, Result-cases, ok_injective}
use uscan.Addr.{Ipv4Addr}
use uscan.Addr.Display.{decimal, mac_lower}
use uscan.Strings.{split}
use uscan.Provision.{
  ProvisionError, SetIpRequest, SendResult, packet_size, parse_mac, all_parts, mac_part,
  build_set_ip_request, hex_dump, send_set_ip,
}
use uscan.Provision.Layout.{hex_dump-build}

pub record TvtSetArgs : Type 0 where
  pub mac : Text
  pub ip : Ipv4Addr
  pub mask : Ipv4Addr
  pub gateway : Ipv4Addr
  pub password : Text
  pub dhcp : Bool
  pub version : ℕ
  pub dry_run : Bool

-- What is written, the error that stderr shows, the exit code, and how many packets were handed to the
-- socket.
pub record TvtSetOutcome : Type 0 where
  pub printed : Text
  pub error : Option ProvisionError
  pub code : ℕ
  pub packets : ℕ

abbrev pub refused : ProvisionError → ℕ → TvtSetOutcome
refused e packets = record { printed = []; error = some e; code = 1; packets = packets }

abbrev pub request_of : TvtSetArgs → Bytes → SetIpRequest
request_of args mac = record {
  mac = mac;
  password = args.password;
  new_ip = args.ip;
  subnet_mask = args.mask;
  gateway = args.gateway;
  dhcp = args.dhcp;
  protocol_version = args.version;
}

abbrev pub bool_text : Bool → Text
bool_text true = codes "true"
bool_text false = codes "false"

abbrev pub sent_text : Bytes → Bool → Text
sent_text mac dhcp =
    codes "sent "
    ++ (decimal packet_size
        ++ (codes "B TVT set-IP packet to 234.55.55.55:23456 (mac "
            ++ (mac_lower mac ++ (codes ", dhcp=" ++ (bool_text dhcp ++ codes ")\n")))))

-- The command behind the building of the packet.
abbrev pub with_packet :
    (Bytes → Bytes) → Option ℕ → (ℕ → SendResult) → TvtSetArgs → Bytes → Bytes → TvtSetOutcome
with_packet encode opened answer args mac packet =
    let (result, n) = send_set_ip encode opened answer (request_of args mac) in
    if args.dry_run
    then record { printed = hex_dump packet; error = none; code = 0; packets = 0 }
    else elim result [
      | ok u ↦ record { printed = sent_text mac (args.dhcp); error = none; code = 0; packets = n }
      | err e ↦ refused e n
    ]

unfoldable pub run_tvt_set :
    (Bytes → Bytes) → Option ℕ → (ℕ → SendResult) → TvtSetArgs → TvtSetOutcome
run_tvt_set encode opened answer args = elim (parse_mac (args.mac)) [
  | err e ↦ refused e 0
  | ok mac ↦ elim (build_set_ip_request encode (request_of args mac)) [
    | err e ↦ refused e 0
    | ok packet ↦ with_packet encode opened answer args mac packet
  ]
]

all_parts-length :
    (parts : List Text) (m : Bytes) → all_parts parts ≡ some m → length m ≡ length parts
all_parts-length [] m = λ e. let e' : [] ≡ m = cc in ap length (sym e')
all_parts-length (p ∷ ps) m = elim (Option-cases (mac_part p)) [
  | inl bad ↦ rw (bad, all_parts) (λ e. absurd (ground (arith, e)))
  | inr (b, fine) ↦ elim (Option-cases (all_parts ps)) [
    | inl bad ↦ rw (fine, all_parts, bad, all_parts) (λ e. absurd (ground (arith, e)))
    | inr (bs, fine') ↦
        rw (fine, all_parts, fine', all_parts)
          (λ e.
            let e' : b ∷ bs ≡ m = cc in
            ap length (sym e') ∙ ap (λ n. suc n) (all_parts-length ps bs fine'))
  ]
]

parse_mac-length : (text : Text) (m : Bytes) → parse_mac text ≡ ok m → length m ≡ 6
unfolding parse_mac
parse_mac-length text m = elim (Bool-cases (length (split 58 text) == 6)) [
  | inr other ↦ rw other (λ e. absurd (ground (arith, e)))
  | inl six ↦ elim (Option-cases (all_parts (split 58 text))) [
    | inl bad ↦ rw (six, bad) (λ e. absurd (ground (arith, e)))
    | inr (bs, fine) ↦
        rw (six, fine)
          (λ e.
            let e' : bs ≡ m = ok_injective {E = ProvisionError} e in
            ap length (sym e') ∙ all_parts-length (split 58 text) bs fine ∙ ground (arith, six))
  ]
]

-- A dry run that succeeds, by its packet.
dry_run_packet :
    (encode : Bytes → Bytes) (opened : Option ℕ) (answer : ℕ → SendResult) (args : TvtSetArgs)
    → args.dry_run ≡ true
    → (run_tvt_set encode opened answer args).code ≡ 0
    → (mac : Bytes) × (packet : Bytes) × (parse_mac (args.mac) ≡ ok mac)
      × (build_set_ip_request encode (request_of args mac) ≡ ok packet)
      × (run_tvt_set encode opened answer args
          ≡ record { printed = hex_dump packet; error = none; code = 0; packets = 0 })
unfolding run_tvt_set
dry_run_packet encode opened answer args dry = elim (Result-cases (parse_mac (args.mac))) [
  | inl (e, bad) ↦ rw (bad, run_tvt_set) (λ h. absurd (omega (arith, h)))
  | inr (mac, fine) ↦ elim (Result-cases (build_set_ip_request encode (request_of args mac))) [
    | inl (e, bad) ↦ rw (fine, run_tvt_set, bad, run_tvt_set) (λ h. absurd (omega (arith, h)))
    | inr (packet, built) ↦
        rw (fine, run_tvt_set, built, run_tvt_set, dry) (λ h. (mac, packet, refl, built, refl))
  ]
]

-- What a dry run prints tells nothing of the password: two dry runs that differ only in the password
-- print the same, if both succeed, and hand no packet to a socket.
pub run_tvt_set-dry_run :
    (encode : Bytes → Bytes) (opened : Option ℕ) (answer : ℕ → SendResult) (args : TvtSetArgs)
    (one two : Text)
    → args.dry_run ≡ true
    → (run_tvt_set encode opened answer (record args { password = one })).code ≡ 0
    → (run_tvt_set encode opened answer (record args { password = two })).code ≡ 0
    → (run_tvt_set encode opened answer (record args { password = one })
        ≡ run_tvt_set encode opened answer (record args { password = two }))
      × ((run_tvt_set encode opened answer (record args { password = one })).packets ≡ 0)
run_tvt_set-dry_run encode opened answer args one two dry first second =
    let (mac, p, parsed, built, out) =
      dry_run_packet encode opened answer (record args { password = one }) dry first in
    let (mac', q, parsed', built', out') =
      dry_run_packet encode opened answer (record args { password = two }) dry second in
    let same : mac ≡ mac' = ok_injective {E = ProvisionError} (sym parsed ∙ parsed') in
    let built'' : build_set_ip_request encode (request_of (record args { password = two }) mac)
        ≡ ok q =
      rw same built' in
    let dumps : hex_dump p ≡ hex_dump q =
      hex_dump-build encode (request_of args mac) one two p q
        (parse_mac-length (args.mac) mac parsed) built built'' in
    (
      out ∙ ap (λ d. record { printed = d; error = none; code = 0; packets = 0 }) dumps ∙ sym out',
      ap (λ o. o.packets) out,
    )
