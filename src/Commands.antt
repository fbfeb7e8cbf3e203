-- ===== src/Commands.antt =====
-- uscan/src/commands.rs: the commands beside the scan, and uscan/src/main.rs.
pub mod Tables
pub mod TvtSet
pub mod Replaying
use uscan.Prelude.{ℕ, ◌&&◌, Bool, true, false, List, [], ◌∷◌, ◌++◌, Option, none, some, filter, map}
use uscan.Prelude.{◌=t=◌, ◌==◌, if◌then◌else◌, Bytes, Text, codes}
use uscan.Prelude.Results.{Result, ok, err}
use uscan.Addr.{Ipv4Addr, v4, ipv4}
use uscan.Addr.Display.{decimal}
use uscan.Strings.Find.{to_ascii_lowercase}
use uscan.Output.{Renderer, OutputFormat, table, render_row}
use uscan.Pcap.{PcapWriter, append_udp}
use uscan.Provision.{
  ProvisionError, SetIpRequest, SendResult, parse_mac, build_set_ip_request, hex_dump, send_packet,
}
use uscan.Selftest.{Replay, Replayed, devices, failed, panicked, replays}
use uscan.Addr.Display.{ip_text}

-- What a command writes to stdout and to stderr, and its exit code.
pub record Outcome : Type 0 where
  pub printed : List Text
  pub errors : List Text
  pub code : ℕ

abbrev pub refused : Text → Outcome
refused message = record { printed = []; errors = message ∷ []; code = 1 }

-- The replays of the name that is asked for, in any case of the letters.
unfoldable pub selected : Option Text → List Replay → List Replay
selected none replays = replays
selected (some want) replays =
    filter (λ re. to_ascii_lowercase (re.engine_name) =t= to_ascii_lowercase want) replays

abbrev pub title : Replay → Text
title re =
    codes "== "
    ++ (re.engine_name
        ++ (codes " ["
            ++ (re.fixture
                ++ (codes "] (src "
                    ++ (ip_text (re.source.ip)
                        ++ (58 ∷ (decimal (re.source.port) ++ codes ")")))))))

abbrev pub add_lines : List Text → List Text → Outcome → Outcome
add_lines printed errors o = record {
  printed = printed ++ o.printed;
  errors = errors ++ o.errors;
  code = o.code;
}

-- The loop over the replays; a panic of a parser ends the program with the code 101.
unfoldable pub replay_loop : Renderer → (Replay → Replayed) → List Replay → Bool → Outcome
unfolding render_row
replay_loop r replay [] failed_before = record {
  printed = [];
  errors = [];
  code = if failed_before then 1 else 0;
}
replay_loop r replay (re ∷ res) failed_before = elim (replay re) [
  | devices devs ↦
      add_lines (title re ∷ map (λ d. codes "   " ++ render_row r d table true false) devs) []
        (replay_loop r replay res failed_before)
  | failed e ↦
      add_lines []
        ((codes "error: replay failed for "
            ++ (re.engine_name ++ (codes " [" ++ (re.fixture ++ (codes "]: " ++ e)))))
          ∷ [])
        (replay_loop r replay res true)
  | panicked ↦ record { printed = []; errors = []; code = 101 }
]

abbrev pub is_empty : List Replay → Bool
is_empty [] = true
is_empty (re ∷ res) = false

unfoldable pub run_selftest : Renderer → (Replay → Replayed) → List Replay → Option Text → Outcome
unfolding replay_loop selected
run_selftest r replay replays none = replay_loop r replay replays false
run_selftest r replay replays (some want) =
    if is_empty (selected (some want) replays)
    then refused (codes "error: unknown protocol: " ++ to_ascii_lowercase want)
    else replay_loop r replay (selected (some want) replays) false

-- What `run_selftest2pcap` asks of the files: whether the output exists, what reading the input, its
-- time (seconds and microseconds) and creating the output give, and whether the record is taken.
pub record PcapFiles : Type 0 where
  pub exists : Bool
  pub payload : Result Text Bytes
  pub modified : Result Text (ℕ × ℕ)
  pub created : Result Text PcapWriter
  pub written : Bool

abbrev pub loopback : Ipv4Addr
loopback = ipv4 127 0 0 1

-- The outcome, with the capture file if it was created.
unfoldable pub run_selftest2pcap : PcapFiles → Text → Text → ℕ → Outcome × Option PcapWriter
run_selftest2pcap files in_file out_file dest_port =
    if files.exists
    then (refused (codes "error: output file already exists: " ++ out_file), none)
    else elim (files.payload) [
      | err e ↦ (refused (codes "error: read fixture " ++ (in_file ++ (codes ": " ++ e))), none)
      | ok payload ↦ elim (files.modified) [
        | err e ↦ (refused (codes "error: read mtime " ++ (in_file ++ (codes ": " ++ e))), none)
        | ok time ↦ elim (files.created) [
          | err e ↦ (refused (codes "error: create pcap " ++ (out_file ++ (codes ": " ++ e))), none)
          | ok writer ↦
              let (w, n) =
                append_udp writer (time.0) (time.1) (record { ip = v4 loopback; port = 1024 })
                  (record { ip = v4 loopback; port = dest_port }) payload (files.written) in
              elim n [
                | some n ↦ (
                  record {
                    printed =
                        (codes "wrote " ++ (decimal n ++ (codes " packet(s) to " ++ out_file)))
                        ∷ [];
                    errors = [];
                    code = 0;
                  },
                  some w,
                )
                | none ↦ (refused (codes "error: failed to append packet to " ++ out_file), some w)
              ]
        ]
      ]
    ]

-- `run_update_oui`, from what the download gives.
unfoldable pub run_update_oui : Result Text Text → Outcome
run_update_oui (ok dest) = record {
  printed = (codes "OUI database saved to " ++ dest) ∷ [];
  errors = [];
  code = 0;
}
run_update_oui (err e) = refused (codes "error: " ++ e)
