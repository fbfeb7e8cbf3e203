-- ===== src/Run/Loop.antt =====
-- run.rs: what a scan prints and how it ends.
use uscan.Prelude.{
  ℕ, suc, ◌+◌, ◌≡◌, refl, sym, ap, ◌∙◌, ◌⊎◌, Bool, true, false, List, [], ◌∷◌, ◌++◌, Option, none,
  some, map, arith, append_assoc, append-nil, inl, inr,
}
use uscan.Prelude.{if◌then◌else◌, All, Text}
use uscan.Devices.{Device, DeviceTable, new, add, all_devices, key_of}
use uscan.Devices.Stream.{collect, answers, emitted}
use uscan.Config.{Config}
use uscan.Output.{Renderer, header, listed, render_row, batch_lines}
use uscan.Run.{
  Event, received, closed, rescan, timeout, ctrl_c, RunArgs, Outcome, row_lines, finish, behind,
  run_loop, run_scan,
}

-- The devices and the number of rescans among events after which the loop goes on.
abbrev pub devices_of : List Event → List Device
devices_of [] = []
devices_of (received d ∷ es) = d ∷ devices_of es
devices_of (closed ∷ es) = devices_of es
devices_of (rescan ∷ es) = devices_of es
devices_of (timeout ∷ es) = devices_of es
devices_of (ctrl_c ∷ es) = devices_of es

abbrev pub rescans : List Event → ℕ
rescans [] = 0
rescans (received d ∷ es) = rescans es
rescans (closed ∷ es) = rescans es
rescans (rescan ∷ es) = suc (rescans es)
rescans (timeout ∷ es) = rescans es
rescans (ctrl_c ∷ es) = rescans es

abbrev pub GoesOn : Event → Type 0
GoesOn (received d) = Unit
GoesOn closed = ⊥
GoesOn rescan = Unit
GoesOn timeout = ⊥
GoesOn ctrl_c = ⊥

unless-append :
    (b : Bool) (xs ys zs : List Text)
    → zs ≡ xs ++ ys
    → (if b then [] else zs) ≡ (if b then [] else xs) ++ (if b then [] else ys)
unless-append true xs ys zs h = refl
unless-append false xs ys zs h = h

unless-nil : (b : Bool) → ◌≡◌ {A = List Text} (if b then [] else []) []
unless-nil true = refl
unless-nil false = refl

unless-stream :
    (b : Bool) (xs ys : List Text)
    → b ≡ false
    → (if b then [] else xs) ++ (if b then ys else []) ≡ xs
unless-stream true xs ys h = ground (arith, h)
unless-stream false xs ys h = append-nil xs

unless-batch :
    (b : Bool) (xs ys : List Text)
    → b ≡ true
    → (if b then [] else xs) ++ (if b then ys else []) ≡ ys
unless-batch true xs ys h = refl
unless-batch false xs ys h = ground (arith, h)

behind-behind :
    (xs ys zs : List Text) (o : Outcome) → zs ≡ xs ++ ys → behind xs (behind ys o) ≡ behind zs o
behind-behind xs ys zs o h =
    ap (λ l. record { printed = l; scans = o.scans; code = o.code })
      (sym (append_assoc xs ys (o.printed)) ∙ ap (λ l. l ++ o.printed) (sym h))

module _ (r : Renderer) (args : RunArgs) (c : Config) where
  -- The lines of rows.
  abbrev pub row_texts : List (Text × Device) → List Text
  row_texts [] = []
  row_texts ((k, d) ∷ rows) =
      render_row r d args.format args.show_version args.color ∷ row_texts rows

  row_texts-append :
      (xs ys : List (Text × Device)) → row_texts (xs ++ ys) ≡ row_texts xs ++ row_texts ys
  row_texts-append [] ys = refl
  row_texts-append ((k, d) ∷ xs) ys =
      ap (λ t. render_row r d args.format args.show_version args.color ∷ t) (row_texts-append xs ys)

  -- The lines while the loop goes on.
  abbrev pub streamed : DeviceTable → List Device → List Text
  streamed t ds = if args.batch then [] else row_texts (emitted c.enable_ipv4 c.enable_ipv6 t ds)

  row_lines-answers :
      (k : Text) (o : Option Device)
      → row_lines r args o ≡ (if args.batch then [] else row_texts (answers k o))
  unfolding row_lines
  row_lines-answers k none = ground arith
  row_lines-answers k (some d) = refl

  streamed-step :
      (t : DeviceTable) (d : Device) (ds : List Device)
      → streamed t (d ∷ ds)
        ≡ row_lines r args (add t d c.enable_ipv4 c.enable_ipv6).1
          ++ streamed (add t d c.enable_ipv4 c.enable_ipv6).0 ds
  unfolding emitted
  streamed-step t d ds =
      let o = (add t d c.enable_ipv4 c.enable_ipv6).1 in
      let next = (add t d c.enable_ipv4 c.enable_ipv6).0 in
      rw (row_lines-answers (key_of t.force_generic d) o) (
        unless-append args.batch _ _ _ (
          row_texts-append (answers (key_of t.force_generic d) o)
            (emitted c.enable_ipv4 c.enable_ipv6 next ds)))

  -- Events after which the loop goes on, in front of others.
  run_loop-append :
      (t : DeviceTable) (scans : ℕ) (es rest : List Event)
      → All GoesOn es
      → run_loop r args c t scans (es ++ rest)
        ≡ behind (streamed t (devices_of es)) (
            run_loop r args c
              (collect c.enable_ipv4 c.enable_ipv6 t (devices_of es))
              (scans + rescans es)
              rest)
  unfolding run_loop collect emitted
  run_loop-append t scans [] rest h =
      let e : scans + 0 ≡ scans = omega arith in rw (unless-nil args.batch, e) refl
  run_loop-append t scans (closed ∷ es) rest (h, hs) = absurd h
  run_loop-append t scans (timeout ∷ es) rest (h, hs) = absurd h
  run_loop-append t scans (ctrl_c ∷ es) rest (h, hs) = absurd h
  run_loop-append t scans (rescan ∷ es) rest (h, hs) =
      let e : scans + suc (rescans es) ≡ scans + 1 + rescans es = omega arith in
      rw e (run_loop-append t (scans + 1) es rest hs)
  run_loop-append t scans (received d ∷ es) rest (h, hs) =
      let next = (add t d c.enable_ipv4 c.enable_ipv6).0 in
      let lines = row_lines r args (add t d c.enable_ipv4 c.enable_ipv6).1 in
      ap (behind lines) (run_loop-append next scans es rest hs)
      ∙ behind-behind lines (streamed next (devices_of es)) (streamed t (d ∷ devices_of es)) _
          (streamed-step t d (devices_of es))

  -- What the table holds after the events.
  abbrev table_after : List Event → DeviceTable
  table_after es =
      collect c.enable_ipv4 c.enable_ipv6 (new c.force_generic_protocols) (devices_of es)

  abbrev ended : List Event → Outcome
  ended es = record {
    printed =
        listed (header args.format)
        ++ (streamed (new c.force_generic_protocols) (devices_of es)
            ++ finish r args (table_after es));
    scans = 1 + rescans es;
    code = some 0;
  }

  run_ends :
      (es rest : List Event) (stop : Event)
      → All GoesOn es
      → (stop ≡ closed) ⊎ (stop ≡ timeout)
      → run_scan r args c true (es ++ (stop ∷ rest)) ≡ ended es
  unfolding run_scan run_loop
  run_ends es rest stop h (inl e) = rw e (
      ap (behind (listed (header args.format)))
        (run_loop-append (new c.force_generic_protocols) 1 es (closed ∷ rest) h))
  run_ends es rest stop h (inr e) = rw e (
      ap (behind (listed (header args.format)))
        (run_loop-append (new c.force_generic_protocols) 1 es (timeout ∷ rest) h))

  -- Without `--batch`, a prepared scan that the time limit or the end of the senders stops prints
  -- the header and then one row for every device that the table takes in or improves, in their
  -- order, and exits with 0; each tick of the rescan interval was one more round of scanning.
  pub run_scan_streaming :
      (es rest : List Event) (stop : Event)
      → args.batch ≡ false
      → All GoesOn es
      → (stop ≡ closed) ⊎ (stop ≡ timeout)
      → run_scan r args c true (es ++ (stop ∷ rest)) ≡ record {
        printed =
            listed (header args.format)
            ++ row_texts (
                emitted c.enable_ipv4 c.enable_ipv6
                  (new c.force_generic_protocols)
                  (devices_of es));
        scans = 1 + rescans es;
        code = some 0;
      }
  unfolding finish
  run_scan_streaming es rest stop b h e =
      run_ends es rest stop h e
      ∙ ap
          (λ l. record {
            printed = listed (header args.format) ++ l;
            scans = 1 + rescans es;
            code = some 0;
          })
          (unless-stream args.batch _
            (batch_lines r (table_after es) args.format args.show_version args.color) b)

  -- With `--batch`, a prepared scan that the time limit or the end of the senders stops prints the
  -- header, and then the lines of `batch_lines`, which start with the header once more: a CSV or
  -- TSV output has two header lines. The rows are those of the table at the end.
  pub run_scan_batch :
      (es rest : List Event) (stop : Event)
      → args.batch ≡ true
      → All GoesOn es
      → (stop ≡ closed) ⊎ (stop ≡ timeout)
      → run_scan r args c true (es ++ (stop ∷ rest)) ≡ record {
        printed =
            listed (header args.format)
            ++ (listed (header args.format)
                ++ map
                    (λ d. render_row r d args.format args.show_version args.color)
                    (all_devices (table_after es)));
        scans = 1 + rescans es;
        code = some 0;
      }
  unfolding finish batch_lines
  run_scan_batch es rest stop b h e =
      run_ends es rest stop h e
      ∙ ap
          (λ l. record {
            printed = listed (header args.format) ++ l;
            scans = 1 + rescans es;
            code = some 0;
          })
          (unless-batch args.batch _ _ b)

  -- Ctrl+C ends a prepared scan with 130 and what was streamed until then; with `--batch` nothing
  -- but the header is printed, however many devices were found.
  pub run_scan_ctrl_c :
      (es rest : List Event)
      → All GoesOn es
      → run_scan r args c true (es ++ (ctrl_c ∷ rest)) ≡ record {
        printed =
            listed (header args.format) ++ streamed (new c.force_generic_protocols) (devices_of es);
        scans = 1 + rescans es;
        code = some 130;
      }
  unfolding run_scan run_loop
  run_scan_ctrl_c es rest h =
      ap (behind (listed (header args.format)))
        (run_loop-append (new c.force_generic_protocols) 1 es (ctrl_c ∷ rest) h)
      ∙ ap
          (λ l. record {
            printed = listed (header args.format) ++ l;
            scans = 1 + rescans es;
            code = some 130;
          })
          (append-nil (streamed (new c.force_generic_protocols) (devices_of es)))
