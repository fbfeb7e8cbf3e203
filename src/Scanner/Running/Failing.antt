-- ===== src/Scanner/Running/Failing.antt =====
-- scanner.rs: a start that an engine's error ends.
use uscan.Prelude.{
  suc, ◌≡◌, refl, ap, ◌∙◌, List, [], ◌∷◌, ◌++◌, none, some, inl, inr, true, length, map, arith,
}
use uscan.Prelude.{Option-cases, Text}
use uscan.Prelude.Results.{Result, ok, err}
use uscan.Addr.{Ipv4Addr}
use uscan.Config.{Config}
use uscan.Ports.{PortProvider}
use uscan.Net.{System}
use uscan.Engine.{Listening}
use uscan.Scanner.{Engine, select_entries}
use uscan.Scanner.Running.{
  Started, fresh_entry, Scanner, StartError, io, own, joined, initial, listen_entries,
  listen_broker, listen_all, start,
}

-- The engine whose error ends the loop, between those that listened and those that did not come to it:
-- these have fresh entries, and the ports, the attempts to bind and the warnings are those at the error.
pub record FailsAt (sys : System) (config : Config) (nic_ips : List Ipv4Addr) (es : List Engine)
    (s : Listening) (msg : Text) (st : Started) : Type 0 where
  pub before : List Engine
  pub failing : Engine
  pub after : List Engine
  pub split : es ≡ before ++ (failing ∷ after)
  pub counted : st.contexts ≡ length before
  pub listened : (listen_entries sys config nic_ips before s).error ≡ none
  pub failed :
      (failing.body.listen sys config nic_ips
        (own ((listen_entries sys config nic_ips before s).state))).1
      ≡ some msg
  pub entries :
      st.entries
      ≡ (listen_entries sys config nic_ips before s).entries
        ++ (record {
          engine = failing;
          socks =
              (failing.body.listen sys config nic_ips
                (own ((listen_entries sys config nic_ips before s).state))).0.socks;
          counter = failing.body.counter;
        }
            ∷ map fresh_entry after)
  pub state :
      st.state
      ≡ joined ((listen_entries sys config nic_ips before s).state.socks) (
          (failing.body.listen sys config nic_ips
            (own ((listen_entries sys config nic_ips before s).state))).0)

listen_entries-FailsAt :
    (sys : System) (config : Config) (nic_ips : List Ipv4Addr) (es : List Engine) (s : Listening)
    (msg : Text)
    → (listen_entries sys config nic_ips es s).error ≡ some msg
    → FailsAt sys config nic_ips es s msg (listen_entries sys config nic_ips es s)
unfolding listen_entries
listen_entries-FailsAt sys config nic_ips [] s msg = λ e. absurd (ground (arith, e))
listen_entries-FailsAt sys config nic_ips (e ∷ es) s msg =
    let o = e.body.listen sys config nic_ips (own s) in
    elim (Option-cases (o.1)) [
      | inl fine ↦
          rw (fine, listen_entries)
            (λ h.
              let rest =
                listen_entries-FailsAt sys config nic_ips es (joined (s.socks) (o.0)) msg h in
              record {
                before = e ∷ rest.before;
                failing = rest.failing;
                after = rest.after;
                split = ap (λ xs. e ∷ xs) rest.split;
                counted = ap (λ n. suc n) rest.counted;
                listened = rw (fine, listen_entries) rest.listened;
                failed = rw (fine, listen_entries) rest.failed;
                entries =
                    rw (fine, listen_entries)
                      (ap
                        (λ xs.
                          record { engine = e; socks = o.0.socks; counter = e.body.counter } ∷ xs)
                        rest.entries);
                state = rw (fine, listen_entries) rest.state;
              })
      | inr (text, wrong) ↦
          rw (wrong, listen_entries)
            (λ h. record {
              before = [];
              failing = e;
              after = es;
              split = refl;
              counted = refl;
              listened = refl;
              failed = wrong ∙ h;
              entries = refl;
              state = refl;
            })
    ]

the_text : (t u : Text) → Path (Result StartError (Unit {0})) (err (io t)) (err (io u)) → t ≡ u
the_text t u e = cc

-- When a start ends with an error of the sockets, it is the error of one engine: those before it
-- listened and have a context; those behind it did not listen, so that they have no sockets and the
-- ports, the attempts to bind and the warnings are those at the error. The scanner has the entries and
-- contexts that this gives, and keeps the handles that it had before.
pub start-FailsAt :
    (sys : System) (nic_ips : List Ipv4Addr) (ports : PortProvider) (all es : List Engine)
    (s : Scanner) (msg : Text)
    → select_entries all (s.filter) ≡ ok es
    → (start sys nic_ips true ports all s).0 ≡ err (io msg)
    → FailsAt sys
        (s.config)
        nic_ips
        es
        (listen_broker sys nic_ips es (initial ports es))
        msg
        (listen_all sys (s.config) nic_ips ports es)
      × ((start sys nic_ips true ports all s).1.entries
          ≡ (listen_all sys (s.config) nic_ips ports es).entries)
      × ((start sys nic_ips true ports all s).1.contexts
          ≡ (listen_all sys (s.config) nic_ips ports es).contexts)
      × ((start sys nic_ips true ports all s).2
          ≡ (listen_all sys (s.config) nic_ips ports es).state.messages)
      × ((start sys nic_ips true ports all s).1.handles ≡ s.handles)
unfolding start listen_all listen_entries
start-FailsAt sys nic_ips ports all es s msg chosen =
    let s0 = listen_broker sys nic_ips es (initial ports es) in
    elim (Option-cases ((listen_entries sys (s.config) nic_ips es s0).error)) [
      | inl fine ↦ rw (chosen, start, fine, start) (λ e. absurd (ground (arith, e)))
      | inr (text, failed) ↦
          rw (chosen, start, failed, start)
            (λ e. (
              listen_entries-FailsAt sys (s.config) nic_ips es s0 msg
                  (failed ∙ ap some (the_text text msg e)),
              refl,
              refl,
              refl,
              refl,
            ))
    ]
