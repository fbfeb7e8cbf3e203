-- ===== src/Protocols/Dahua2/Sweep.antt =====
-- protocols/dahua2.rs and netscan.rs: the net scans as tasks. A scan puts its token in the place of the
-- one before it, cancels that one, and spawns its task. A task looks at its token once before each
-- address and then sends to the hosts of the address one by one. The steps come in any order.
pub mod Newest
pub mod Sending
use uscan.Prelude.{ℕ, suc, ◌≡◌, Bool, true, false, ◌||◌, List, [], ◌∷◌, ◌++◌, Option, none, some}
use uscan.Prelude.{◌==◌, if◌then◌else◌, any}
use uscan.Addr.{Ipv4Addr, v4}
use uscan.Iface.{is_private, plan_hosts}
use uscan.Iface.Active.{Entry, mask_of}

-- A task: its token, the hosts of its address that are still to be sent to, and the hosts of the
-- addresses behind it.
pub record Task : Type 0 where
  pub token : ℕ
  pub sending : List Ipv4Addr
  pub rounds : List (List Ipv4Addr)

-- Tokens are numbered; `next` is the number of the tokens so far.
pub record Sweeps : Type 0 where
  pub next : ℕ
  pub current : Option ℕ
  -- the tokens that `replace` has given back and that are to be cancelled
  pub replaced : List ℕ
  -- the scans whose task is not spawned yet
  pub starting : List (ℕ × List (List Ipv4Addr))
  pub cancelled : List ℕ
  -- the token of this start of the engine, which `stop` cancels
  pub stopped : Bool
  pub tasks : List Task

abbrev pub no_sweeps : Sweeps
no_sweeps = record {
  next = 0;
  current = none;
  replaced = [];
  starting = [];
  cancelled = [];
  stopped = false;
  tasks = [];
}

unfoldable pub is_cancelled : Sweeps → ℕ → Bool
is_cancelled s token = s.stopped || any (λ c. c == token) (s.cancelled)

abbrev pub put_old : Option ℕ → List ℕ → List ℕ
put_old none replaced = replaced
put_old (some old) replaced = old ∷ replaced

-- `cur.replace(sweep.clone())`, with the rounds of the scan.
unfoldable pub replace_sweep : List (List Ipv4Addr) → Sweeps → Sweeps
replace_sweep rounds s = record {
  next = suc (s.next);
  current = some (s.next);
  replaced = put_old (s.current) (s.replaced);
  starting = (s.next, rounds) ∷ s.starting;
  cancelled = s.cancelled;
  stopped = s.stopped;
  tasks = s.tasks;
}

-- The head of the loop over the addresses: the task ends behind the last one, or if it is cancelled.
unfoldable pub check_rounds : Bool → ℕ → List (List Ipv4Addr) → List Task
check_rounds cancelled_now token [] = []
check_rounds cancelled_now token (hosts ∷ rounds) =
    if cancelled_now then [] else record { token = token; sending = hosts; rounds = rounds } ∷ []

-- A step, with what is sent: the token of the task and the host.
pub data Step : Sweeps → List (ℕ × Ipv4Addr) → Sweeps → Type 0 where
  replaces : (s : Sweeps) (rounds : List (List Ipv4Addr)) → Step s [] (replace_sweep rounds s)
  -- `old.cancel()`
  cancels :
      (s : Sweeps) (before after : List ℕ) (old : ℕ)
      → s.replaced ≡ before ++ (old ∷ after)
      → Step s [] (record {
        next = s.next;
        current = s.current;
        replaced = before ++ after;
        starting = s.starting;
        cancelled = old ∷ s.cancelled;
        stopped = s.stopped;
        tasks = s.tasks;
      })
  spawns :
      (s : Sweeps) (before after : List (ℕ × List (List Ipv4Addr))) (token : ℕ)
      (rounds : List (List Ipv4Addr))
      → s.starting ≡ before ++ ((token, rounds) ∷ after)
      → Step s [] (record {
        next = s.next;
        current = s.current;
        replaced = s.replaced;
        starting = before ++ after;
        cancelled = s.cancelled;
        stopped = s.stopped;
        tasks = record { token = token; sending = []; rounds = rounds } ∷ s.tasks;
      })
  checks :
      (s : Sweeps) (before after : List Task) (token : ℕ) (rounds : List (List Ipv4Addr))
      → s.tasks ≡ before ++ (record { token = token; sending = []; rounds = rounds } ∷ after)
      → Step s [] (record {
        next = s.next;
        current = s.current;
        replaced = s.replaced;
        starting = s.starting;
        cancelled = s.cancelled;
        stopped = s.stopped;
        tasks = before ++ (check_rounds (is_cancelled s token) token rounds ++ after);
      })
  sends :
      (s : Sweeps) (before after : List Task) (token : ℕ) (host : Ipv4Addr) (hosts : List Ipv4Addr)
      (rounds : List (List Ipv4Addr))
      → s.tasks
        ≡ before ++ (record { token = token; sending = host ∷ hosts; rounds = rounds } ∷ after)
      → Step s ((token, host) ∷ []) (record {
        next = s.next;
        current = s.current;
        replaced = s.replaced;
        starting = s.starting;
        cancelled = s.cancelled;
        stopped = s.stopped;
        tasks = before ++ (record { token = token; sending = hosts; rounds = rounds } ∷ after);
      })
  stops :
      (s : Sweeps)
      → Step s [] (record {
        next = s.next;
        current = s.current;
        replaced = s.replaced;
        starting = s.starting;
        cancelled = s.cancelled;
        stopped = true;
        tasks = s.tasks;
      })

-- Steps one after another, with all that is sent.
pub data Run : Sweeps → List (ℕ × Ipv4Addr) → Sweeps → Type 0 where
  at_rest : (s : Sweeps) → Run s [] s
  behind :
      {s t u : Sweeps} {sent more : List (ℕ × Ipv4Addr)}
      → Step s sent t
      → Run t more u
      → Run s (sent ++ more) u

-- The rounds of a task that starts now.
unfoldable pub rounds_of : List Entry → List Ipv4Addr → List (List Ipv4Addr)
unfolding mask_of
rounds_of entries [] = []
rounds_of entries (ip ∷ ips) =
    (if is_private (v4 ip) then plan_hosts ip (mask_of entries ip) else []) ∷ rounds_of entries ips
