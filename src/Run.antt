-- ===== src/Run.antt =====
-- uscan/src/run.rs: the loop of a scan over the events in the order in which `select!` takes them.
pub mod Loop
use uscan.Prelude.{ℕ, ◌+◌, Bool, true, false, List, [], ◌∷◌, ◌++◌, Option, none, some}
use uscan.Prelude.{if◌then◌else◌, Text}
use uscan.Devices.{Device, DeviceTable, new, add}
use uscan.Config.{Config}
use uscan.Output.{OutputFormat, Renderer, header, listed, render_row, batch_lines}

pub data Event : Type 0 where
  -- `rx.recv()` with a device, and with nothing once every sender is closed
  received : Device → Event
  closed : Event
  -- the rescan interval, the time limit and the first Ctrl+C
  rescan : Event
  timeout : Event
  ctrl_c : Event

-- The arguments that the loop looks at.
pub record RunArgs : Type 0 where
  pub format : OutputFormat
  pub batch : Bool
  pub show_version : Bool
  pub color : Bool

-- The lines of stdout, the rounds of scanning and the exit code; there is no code while the loop
-- still waits.
pub record Outcome : Type 0 where
  pub printed : List Text
  pub scans : ℕ
  pub code : Option ℕ

-- The lines that a row of `add` leads to.
unfoldable pub row_lines : Renderer → RunArgs → Option Device → List Text
unfolding render_row
row_lines r args none = []
row_lines r args (some d) =
    if args.batch then [] else render_row r d args.format args.show_version args.color ∷ []

-- What is printed once the loop is left.
unfoldable pub finish : Renderer → RunArgs → DeviceTable → List Text
finish r args t =
    if args.batch then batch_lines r t args.format args.show_version args.color else []

abbrev pub behind : List Text → Outcome → Outcome
behind lines o = record { printed = lines ++ o.printed; scans = o.scans; code = o.code }

unfoldable pub run_loop : Renderer → RunArgs → Config → DeviceTable → ℕ → List Event → Outcome
unfolding row_lines finish
run_loop r args c t scans [] = record { printed = []; scans = scans; code = none }
run_loop r args c t scans (received d ∷ events) =
    let (next, row) = add t d c.enable_ipv4 c.enable_ipv6 in
    behind (row_lines r args row) (run_loop r args c next scans events)
run_loop r args c t scans (closed ∷ events) = record {
  printed = finish r args t;
  scans = scans;
  code = some 0;
}
run_loop r args c t scans (rescan ∷ events) = run_loop r args c t (scans + 1) events
run_loop r args c t scans (timeout ∷ events) = record {
  printed = finish r args t;
  scans = scans;
  code = some 0;
}
run_loop r args c t scans (ctrl_c ∷ events) = record {
  printed = [];
  scans = scans;
  code = some 130;
}

-- `run_scan`: `prepared` says that the configuration, the scanner, its start and its first round of
-- scanning gave no error.
unfoldable pub run_scan : Renderer → RunArgs → Config → Bool → List Event → Outcome
unfolding run_loop
run_scan r args c prepared events =
    if prepared
    then behind (listed (header args.format))
        (run_loop r args c (new c.force_generic_protocols) 1 events)
    else record { printed = []; scans = 0; code = some 1 }
