-- ===== src/Witnesses/Commands.antt =====
-- The commands: the theorems at one dry run and one replay.
use uscan.Prelude.{ℕ, ◌≡◌, ◌↔◌, refl, true, false, List, [], ◌∷◌, none, some}
use uscan.Prelude.{Bytes, codes, All}
use uscan.Addr.{ipv4}
use uscan.Output.{Renderer}
use uscan.Selftest.{Replay, Replayed, devices, addr}
use uscan.Commands.{selected, run_selftest}
use uscan.Commands.Replaying.{Known, succeeded, run_selftest_zero}
use uscan.Commands.TvtSet.{TvtSetArgs, run_tvt_set, run_tvt_set-dry_run}
use uscan.Provision.{SendResult, sent, parse_mac, mac_part, build_set_ip_request}
use uscan.Utf8.{as_bytes, encode_char}
use uscan.Strings.{split, from_str_radix}
use uscan.Devices.{is_hex_digit}

abbrev args : TvtSetArgs
args = record {
  mac = codes "02:00:00:00:00:0a";
  ip = ipv4 192 168 1 9;
  mask = ipv4 255 255 255 0;
  gateway = ipv4 0 0 0 0;
  password = [];
  dhcp = false;
  version = 65544;
  dry_run = true;
}

abbrev plainly : Bytes → Bytes
plainly d = d

abbrev whole : ℕ → SendResult
whole attempt = sent 140

ab_runs : (run_tvt_set plainly none whole (record args { password = codes "ab" })).code ≡ 0
unfolding run_tvt_set parse_mac mac_part build_set_ip_request as_bytes encode_char split
    from_str_radix is_hex_digit
ab_runs = refl

ba_runs : (run_tvt_set plainly none whole (record args { password = codes "ba" })).code ≡ 0
unfolding run_tvt_set parse_mac mac_part build_set_ip_request as_bytes encode_char split
    from_str_radix is_hex_digit
ba_runs = refl

run_tvt_set-dry_run_example :
    (run_tvt_set plainly none whole (record args { password = codes "ab" })
      ≡ run_tvt_set plainly none whole (record args { password = codes "ba" }))
    × ((run_tvt_set plainly none whole (record args { password = codes "ab" })).packets ≡ 0)
run_tvt_set-dry_run_example =
    run_tvt_set-dry_run plainly none whole args (codes "ab") (codes "ba") refl ab_runs ba_runs

abbrev plain : Renderer
plain = record { json_text = λ fields. []; truecolor = λ s r g b. s; colors = [] }

abbrev one_replay : List Replay
one_replay =
    record { engine_name = codes "TVT"; fixture = codes "TVT.selftest"; source = addr 31 0 } ∷ []

abbrev silent : Replay → Replayed
silent re = devices []

run_selftest_zero_example :
    ((run_selftest plain silent one_replay (some (codes "tvt"))).code ≡ 0) ↔ (
      Known (some (codes "tvt")) one_replay
      × All (λ re. succeeded (silent re) ≡ true) (selected (some (codes "tvt")) one_replay))
run_selftest_zero_example = run_selftest_zero plain silent one_replay (some (codes "tvt"))
