-- ===== src/Scanner/Running.antt =====
-- scanner.rs: `start`, `scan` and `stop`. A scanner holds the engines of its last start, each with its
-- sockets and its counter, and the sockets whose receiving tasks `stop` awaits.
pub mod Failing
pub mod Registered
pub mod FixedPorts
use uscan.Prelude.{
  ℕ, zero, suc, ◌+◌, Bool, true, false, List, [], ◌∷◌, ◌++◌, Option, none, some, map,
}
use uscan.Prelude.{if◌then◌else◌, Text, take}
use uscan.Prelude.Results.{Result, ok, err}
use uscan.Addr.{Ipv4Addr}
use uscan.Config.{Config}
use uscan.Ports.{PortProvider}
use uscan.Net.{System, SocketSet, Sending, Message}
use uscan.Engine.{Listening}
use uscan.Engine.Receive.{ScanEngine, Environment, scan_messages}
use uscan.Engine.Broker.{broker_listen}
use uscan.Scanner.{Engine, ScannerError, select_entries, reserve_used, has_mdns_consumer}

-- An engine with its own state.
pub record Entry : Type 0 where
  pub engine : Engine
  pub socks : SocketSet
  pub counter : ℕ

pub record Scanner : Type 0 where
  pub config : Config
  -- the names in small letters
  pub filter : Option (List Text)
  pub entries : List Entry
  -- how many of the entries, from the first, have a context
  pub contexts : ℕ
  pub handles : SocketSet
  pub cancelled : Bool

pub data StartError : Type 0 where
  no_interface : StartError
  selection : ScannerError → StartError
  io : Text → StartError

abbrev pub fresh_entry : Engine → Entry
fresh_entry e = record { engine = e; socks = []; counter = e.body.counter }

-- The loop over the engines: the entries, those with a context, the state that listens, and the error
-- that ends it. The state's sockets are those of all the tasks so far.
pub record Started : Type 0 where
  pub entries : List Entry
  pub contexts : ℕ
  pub state : Listening
  pub error : Option Text

-- An engine starts with no socket of its own.
abbrev pub own : Listening → Listening
own s = record { socks = []; ports = s.ports; calls = s.calls; messages = s.messages }

abbrev pub joined : SocketSet → Listening → Listening
joined socks t = record {
  socks = socks ++ t.socks;
  ports = t.ports;
  calls = t.calls;
  messages = t.messages;
}

-- An engine that has listened, in front of the others.
abbrev pub with_entry : Engine → SocketSet → Started → Started
with_entry e socks st = record {
  entries = record { engine = e; socks = socks; counter = e.body.counter } ∷ st.entries;
  contexts = suc st.contexts;
  state = st.state;
  error = st.error;
}

unfoldable pub listen_entries : System → Config → List Ipv4Addr → List Engine → Listening → Started
listen_entries sys config nic_ips [] s = record {
  entries = [];
  contexts = 0;
  state = s;
  error = none;
}
listen_entries sys config nic_ips (e ∷ es) s =
    let (t, failed) = e.body.listen sys config nic_ips (own s) in
    elim failed [
      | some msg ↦ record {
        entries =
            record { engine = e; socks = t.socks; counter = e.body.counter } ∷ map fresh_entry es;
        contexts = 0;
        state = joined (s.socks) t;
        error = some msg;
      }
      | none ↦ with_entry e (t.socks) (listen_entries sys config nic_ips es (joined (s.socks) t))
    ]

-- The broker listens if an engine needs it; all its sockets receive.
unfoldable pub listen_broker : System → List Ipv4Addr → List Engine → Listening → Listening
listen_broker sys nic_ips es s =
    if has_mdns_consumer es
    then (let (group_socks, t) = broker_listen sys nic_ips s in
        record {
          socks = group_socks ++ t.socks;
          ports = t.ports;
          calls = t.calls;
          messages = t.messages;
        })
    else s

-- What a start listens with at first: the fixed ports of the engines are reserved.
abbrev pub initial : PortProvider → List Engine → Listening
initial ports es = record { socks = []; ports = reserve_used es ports; calls = 0; messages = [] }

unfoldable pub listen_all : System → Config → List Ipv4Addr → PortProvider → List Engine → Started
listen_all sys config nic_ips ports es =
    listen_entries sys config nic_ips es (listen_broker sys nic_ips es (initial ports es))

-- `start`, with the new provider; the registry is `all`. An error leaves the handles as they were.
unfoldable pub start :
    System
    → List Ipv4Addr
    → Bool
    → PortProvider
    → List Engine
    → Scanner
    → Result StartError (Unit {0}) × Scanner × List Message
start sys nic_ips has_interface ports all s =
    if has_interface
    then elim (select_entries all (s.filter)) [
      | err e ↦ (
        err (selection e),
        record {
          config = s.config;
          filter = s.filter;
          entries = s.entries;
          contexts = s.contexts;
          handles = s.handles;
          cancelled = false;
        },
        [],
      )
      | ok es ↦
          let st = listen_all sys (s.config) nic_ips ports es in
          elim (st.error) [
            | some msg ↦ (
              err (io msg),
              record {
                config = s.config;
                filter = s.filter;
                entries = st.entries;
                contexts = st.contexts;
                handles = s.handles;
                cancelled = false;
              },
              st.state.messages,
            )
            | none ↦ (
              ok tt,
              record {
                config = s.config;
                filter = s.filter;
                entries = st.entries;
                contexts = st.contexts;
                handles = st.state.socks;
                cancelled = false;
              },
              st.state.messages,
            )
          ]
    ]
    else (err no_interface, s, [])

-- A round of an engine: what it sends and warns of, and its next counter.
unfoldable pub scan_entry :
    System → Config → Environment → Entry → List Sending × Entry × List Message
scan_entry sys config environment e =
    let (sendings, next) = e.engine.body.probes config environment (e.counter) in
    (
      sendings,
      record { engine = e.engine; socks = e.socks; counter = next },
      scan_messages sys (e.socks) (e.engine.body.name) sendings,
    )

-- `scan`: a round of every engine that has a context.
unfoldable pub scan_entries :
    System → Config → Environment → ℕ → List Entry → List Sending × List Entry × List Message
scan_entries sys config environment zero es = ([], es, [])
scan_entries sys config environment (suc contexts) [] = ([], [], [])
scan_entries sys config environment (suc contexts) (e ∷ es) =
    let (sendings, e', ms) = scan_entry sys config environment e in
    let (more, es', ms') = scan_entries sys config environment contexts es in
    (sendings ++ more, e' ∷ es', ms ++ ms')

unfoldable pub scan : System → Environment → Scanner → List Sending × Scanner × List Message
scan sys environment s =
    let (sendings, es, ms) = scan_entries sys (s.config) environment (s.contexts) (s.entries) in
    (
      sendings,
      record {
        config = s.config;
        filter = s.filter;
        entries = es;
        contexts = s.contexts;
        handles = s.handles;
        cancelled = s.cancelled;
      },
      ms,
    )

-- `stop`: the tasks end, and their handles are taken.
unfoldable pub stop : Scanner → Scanner
stop s = record {
  config = s.config;
  filter = s.filter;
  entries = s.entries;
  contexts = s.contexts;
  handles = [];
  cancelled = true;
}
