-- ===== src/Protocols/Registry/Shapes.antt =====
-- What the engines of protocols/mod.rs have in common.
use uscan.Prelude.{ℕ, List, [], Option, some}
use uscan.Prelude.{Bytes}
use uscan.Addr.{IpAddr}
use uscan.Devices.{Device}
use uscan.Config.{Config}
use uscan.Net.{Sending}
use uscan.Engine.Receive.{Environment}

-- An engine that sends the same in each round, one with a counter, and one that sends nothing.
abbrev pub once : List Sending → Config → Environment → ℕ → List Sending × ℕ
once sendings config environment counter = (sendings, counter)

abbrev pub counted : (ℕ → List Sending × ℕ) → Config → Environment → ℕ → List Sending × ℕ
counted scan config environment counter = scan counter

-- A parser that never panics, and the parsers that do not look at the sender.
abbrev pub always : (IpAddr → Bytes → List Device) → IpAddr → Bytes → Option (List Device)
always parse from d = some (parse from d)

abbrev pub no_parser : IpAddr → Bytes → Option (List Device)
no_parser from d = some []
