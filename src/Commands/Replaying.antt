-- ===== src/Commands/Replaying.antt =====
-- uscan/src/commands.rs: the exit code of `selftest`, and the capture of `selftest2pcap`.
use uscan.Prelude.{
  ℕ, ◌≡◌, ◌↔◌, ◌⊎◌, refl, Bool, true, false, List, [], ◌∷◌, Option, none, some, arith, inl, inr,
  drop, ◌≤◌,
}
use uscan.Prelude.{Bool-cases, length, All, Text, Bytes}
use uscan.Prelude.Results.{ok}
use uscan.Pcap.{new, append_udp}
use uscan.Pcap.Record.{Packet, frame_of, append_all, read_frames, read_frames-append_all}
use uscan.Output.{Renderer}
use uscan.Devices.{Device}
use uscan.Selftest.{Replay, Replayed, devices, failed, panicked}
use uscan.Commands.{
  selected, is_empty, replay_loop, run_selftest, PcapFiles, loopback, run_selftest2pcap,
}

abbrev pub succeeded : Replayed → Bool
succeeded (devices ds) = true
succeeded (failed e) = false
succeeded panicked = false

Replayed-cases :
    (x : Replayed)
    → ((ds : List Device) × (x ≡ devices ds)) ⊎ (((e : Text) × (x ≡ failed e)) ⊎ (x ≡ panicked))
Replayed-cases (devices ds) = inl (ds, refl)
Replayed-cases (failed e) = inr (inl (e, refl))
Replayed-cases panicked = inr (inr refl)

replay_loop_zero :
    (r : Renderer) (replay : Replay → Replayed) (res : List Replay) (failed_before : Bool)
    → ((replay_loop r replay res failed_before).code ≡ 0)
      ↔ ((failed_before ≡ false) × All (λ re. succeeded (replay re) ≡ true) res)
unfolding replay_loop
replay_loop_zero r replay [] true =
    (λ e. absurd (omega (arith, e)), λ (e, u). absurd (ground (arith, e)))
replay_loop_zero r replay [] false = (λ e. (refl, tt), λ h. refl)
replay_loop_zero r replay (re ∷ res) failed_before = elim (Replayed-cases (replay re)) [
  | inl (ds, done) ↦
      let ih = replay_loop_zero r replay res failed_before in
      rw (done, replay_loop)
        (λ e. let (b, a) = ih.0 e in (b, (refl, a)), λ (b, (u, a)). ih.1 (b, a))
  | inr (inl (text, wrong)) ↦
      let ih = replay_loop_zero r replay res true in
      rw (wrong, replay_loop)
        (λ e. absurd (ground (arith, (ih.0 e).0)), λ (b, (u, a)). absurd (ground (arith, u)))
  | inr (inr wrong) ↦
      rw (wrong, replay_loop)
        (λ e. absurd (omega (arith, e)), λ (b, (u, a)). absurd (ground (arith, u)))
]

-- Some replay has the name that is asked for.
abbrev pub Known : Option Text → List Replay → Type 0
Known none replays = Unit {0}
Known (some want) replays = is_empty (selected (some want) replays) ≡ false

-- `selftest` exits with 0 exactly if the name that is asked for is known and each of the replays that it
-- selects gives devices, be it none, instead of an error or a panic.
pub run_selftest_zero :
    (r : Renderer) (replay : Replay → Replayed) (replays : List Replay) (protocol : Option Text)
    → ((run_selftest r replay replays protocol).code ≡ 0) ↔ (
        Known protocol replays
        × All (λ re. succeeded (replay re) ≡ true) (selected protocol replays))
unfolding run_selftest selected
run_selftest_zero r replay replays none =
    let h = replay_loop_zero r replay replays false in
    (λ e. (tt, (h.0 e).1), λ (u, a). h.1 (refl, a))
run_selftest_zero r replay replays (some want) =
    elim (Bool-cases (is_empty (selected (some want) replays))) [
      | inl none_there ↦
          rw (none_there, run_selftest)
            (λ e. absurd (omega (arith, e)), λ (k, a). absurd (ground (arith, k, none_there)))
      | inr some_there ↦
          let h = replay_loop_zero r replay (selected (some want) replays) false in
          rw (some_there, run_selftest) (λ e. (refl, (h.0 e).1), λ (k, a). h.1 (refl, a))
    ]

abbrev pub datagram_of : ℕ → ℕ → ℕ → Bytes → Packet
datagram_of secs micros dest_port payload = record {
  secs = secs;
  micros = micros;
  src4 = loopback;
  src_port = 1024;
  dst4 = loopback;
  dst_port = dest_port;
  payload = payload;
}

-- `selftest2pcap` with a new output file, a fixture of at most 65493 bytes and no error of the files exits
-- with 0, and a reader finds in the capture exactly one frame: the fixture as a datagram from 127.0.0.1
-- to the port.
pub run_selftest2pcap-read_frames :
    (files : PcapFiles) (in_file out_file : Text) (dest_port secs micros : ℕ) (payload : Bytes)
    → files.exists ≡ false
    → files.payload ≡ ok payload
    → files.modified ≡ ok (secs, micros)
    → files.created ≡ ok new
    → files.written ≡ true
    → length payload ≤ 65493
    → ((run_selftest2pcap files in_file out_file dest_port).0.code ≡ 0)
      × ((run_selftest2pcap files in_file out_file dest_port).1
          ≡ some (append_all new (datagram_of secs micros dest_port payload ∷ [])))
      × (read_frames 1
            (drop 24 (append_all new (datagram_of secs micros dest_port payload ∷ [])).file)
          ≡ frame_of (datagram_of secs micros dest_port payload) ∷ [])
unfolding run_selftest2pcap append_all append_udp
run_selftest2pcap-read_frames files in_file out_file dest_port secs micros payload absent read time
      created taken fits =
    let p = datagram_of secs micros dest_port payload in
    let back = (read_frames-append_all (p ∷ []) (fits, tt)).0 in
    rw
      (
        absent, run_selftest2pcap, read, run_selftest2pcap, time, run_selftest2pcap, created,
        run_selftest2pcap, taken,
      )
      (refl, rw (taken, append_udp) refl, back)
