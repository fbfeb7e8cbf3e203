-- ===== src/Protocols/Dahua2/Sweep/Sending.antt =====
-- protocols/dahua2.rs and netscan.rs: what a task sends, cancelled or not.
use uscan.Prelude.{
  ℕ, ◌+◌, ◌≤◌, ◌≡◌, refl, ap, Bool, true, false, List, [], ◌∷◌, ◌++◌, arith, inl, inr, map,
}
use uscan.Prelude.{◌==◌, if◌then◌else◌, length, Bool-cases}
use uscan.Addr.{Ipv4Addr, v4}
use uscan.Iface.{is_private, plan_hosts}
use uscan.Iface.Active.{Entry, active_interfaces, mask_of, all_ips, scan_targets, netscan}
use uscan.Protocols.Dahua2.Sweep.{
  Task, Sweeps, is_cancelled, replace_sweep, check_rounds, Step, replaces, cancels, spawns, checks,
  sends, stops, Run, at_rest, behind, rounds_of,
}

-- How many of the sendings are of tasks with the token.
abbrev pub sent_by : ℕ → List (ℕ × Ipv4Addr) → ℕ
sent_by token [] = 0
sent_by token ((owner, host) ∷ sent) = (if owner == token then 1 else 0) + sent_by token sent

-- How many hosts the tasks with the token have still to send to before they look at it again.
abbrev pub loaded : ℕ → List Task → ℕ
loaded token [] = 0
loaded token (t ∷ tasks) = (if t.token == token then length t.sending else 0) + loaded token tasks

sent_by-append :
    (token : ℕ) (xs ys : List (ℕ × Ipv4Addr))
    → sent_by token (xs ++ ys) ≡ sent_by token xs + sent_by token ys
sent_by-append token [] ys = omega arith
sent_by-append token ((owner, host) ∷ xs) ys = omega (arith, sent_by-append token xs ys)

loaded-append :
    (token : ℕ) (xs ys : List Task) → loaded token (xs ++ ys) ≡ loaded token xs + loaded token ys
loaded-append token [] ys = omega arith
loaded-append token (x ∷ xs) ys = omega (arith, loaded-append token xs ys)

-- A cancelled task does not go on to another address.
loaded-check_rounds :
    (token owner : ℕ) (now : Bool) (rounds : List (List Ipv4Addr))
    → (owner == token ≡ true → now ≡ true)
    → loaded token (check_rounds now owner rounds) ≡ 0
unfolding check_rounds
loaded-check_rounds token owner now [] h = refl
loaded-check_rounds token owner true (hosts ∷ rounds) h = refl
loaded-check_rounds token owner false (hosts ∷ rounds) h = elim (Bool-cases (owner == token)) [
  | inl same ↦ absurd (ground (arith, h same))
  | inr other ↦ rw other refl
]

module _ (token : ℕ) (tasks before after others : List Task) (t : Task)
    (there : tasks ≡ before ++ (t ∷ after)) where
  loaded-in_place :
      (sent : ℕ)
      → sent + loaded token others ≤ loaded token (t ∷ [])
      → sent + loaded token (before ++ (others ++ after)) ≤ loaded token tasks
  loaded-in_place sent h =
      let e0 = ap (loaded token) there in
      let e1 = loaded-append token before (t ∷ after) in
      let e2 = loaded-append token before (others ++ after) in
      let e3 = loaded-append token others after in omega (arith, h, e0, e1, e2, e3)

is_cancelled-step :
    (s t : Sweeps) (sent : List (ℕ × Ipv4Addr)) (token : ℕ)
    → Step s sent t
    → is_cancelled s token ≡ true
    → is_cancelled t token ≡ true
unfolding is_cancelled replace_sweep
is_cancelled-step s _ _ token (replaces _ rounds) h = h
is_cancelled-step s _ _ token (cancels _ before after old e) h = ground (arith, h)
is_cancelled-step s _ _ token (spawns _ before after owner rounds e) h = h
is_cancelled-step s _ _ token (checks _ before after owner rounds e) h = h
is_cancelled-step s _ _ token (sends _ before after owner host hosts rounds e) h = h
is_cancelled-step s _ _ token (stops _) h = refl

-- One step of any task.
loaded-step :
    (s t : Sweeps) (sent : List (ℕ × Ipv4Addr)) (token : ℕ)
    → Step s sent t
    → is_cancelled s token ≡ true
    → sent_by token sent + loaded token (t.tasks) ≤ loaded token (s.tasks)
unfolding replace_sweep
loaded-step s _ _ token (replaces _ rounds) h = omega arith
loaded-step s _ _ token (cancels _ before after old e) h = omega arith
loaded-step s _ _ token (spawns _ before after owner rounds e) h = ground arith
loaded-step s _ _ token (checks _ before after owner rounds e) h =
    let left = check_rounds (is_cancelled s owner) owner rounds in
    let nothing =
      loaded-check_rounds token owner (is_cancelled s owner) rounds
        (λ same. let eq : owner ≡ token = ground (arith, same) in rw eq h) in
    loaded-in_place token (s.tasks) before after left
      (record { token = owner; sending = []; rounds = rounds }) e 0 (omega (arith, nothing))
loaded-step s _ _ token (sends _ before after owner host hosts rounds e) h =
    loaded-in_place token (s.tasks) before after
      (record { token = owner; sending = hosts; rounds = rounds } ∷ [])
      (record { token = owner; sending = host ∷ hosts; rounds = rounds }) e
      (sent_by token ((owner, host) ∷ [])) (ground arith)
loaded-step s _ _ token (stops _) h = omega arith

-- From any state in which a scan's token or the engine's is cancelled, whatever steps follow, the tasks
-- of that scan send no more than the hosts that they had already taken up, those of the address under
-- way: what they send and what is left of it are together at most what was left at first.
pub sent_by_cancelled :
    (s t : Sweeps) (sent : List (ℕ × Ipv4Addr)) (token : ℕ)
    → Run s sent t
    → is_cancelled s token ≡ true
    → sent_by token sent + loaded token (t.tasks) ≤ loaded token (s.tasks)
sent_by_cancelled s _ _ token (at_rest _) h = omega arith
sent_by_cancelled _ _ _ token (behind {s} {t} {u} {sent} {more} step run) h =
    let first = loaded-step s t sent token step h in
    let later = sent_by_cancelled t u more token run (is_cancelled-step s t sent token step h) in
    omega (arith, first, later, sent_by-append token sent more)

abbrev pub with_tasks : List Task → Sweeps → Sweeps
with_tasks tasks s = record {
  next = s.next;
  current = s.current;
  replaced = s.replaced;
  starting = s.starting;
  cancelled = s.cancelled;
  stopped = s.stopped;
  tasks = tasks;
}

abbrev pub owned : ℕ → List Ipv4Addr → List (ℕ × Ipv4Addr)
owned token hosts = map (λ host. (token, host)) hosts

abbrev all_hosts : List (List Ipv4Addr) → List Ipv4Addr
all_hosts [] = []
all_hosts (hosts ∷ rounds) = hosts ++ all_hosts rounds

-- A task that is alone and not cancelled comes to its end, and sends to all its hosts in their order.
task_alone :
    (s : Sweeps) (token : ℕ) (hosts : List Ipv4Addr) (rounds : List (List Ipv4Addr))
    → is_cancelled s token ≡ false
    → Run
        (with_tasks (record { token = token; sending = hosts; rounds = rounds } ∷ []) s)
        (owned token (hosts ++ all_hosts rounds))
        (with_tasks [] s)
unfolding is_cancelled check_rounds
task_alone s token (host ∷ hosts) rounds h =
    let t : Task = record { token = token; sending = host ∷ hosts; rounds = rounds } in
    behind (sends (with_tasks (t ∷ []) s) [] [] token host hosts rounds refl)
      (task_alone s token hosts rounds h)
task_alone s token [] [] h =
    let t : Task = record { token = token; sending = []; rounds = [] } in
    behind (checks (with_tasks (t ∷ []) s) [] [] token [] refl) (at_rest (with_tasks [] s))
task_alone s token [] (hosts ∷ rounds) h =
    let t : Task = record { token = token; sending = []; rounds = hosts ∷ rounds } in
    let rest = task_alone s token hosts rounds h in
    behind (checks (with_tasks (t ∷ []) s) [] [] token (hosts ∷ rounds) refl) (rw h rest)

all_hosts-rounds_of :
    (entries : List Entry) (ips : List Ipv4Addr)
    → all_hosts (rounds_of entries ips) ≡ scan_targets entries (λ k. false) ips
unfolding rounds_of scan_targets
all_hosts-rounds_of entries [] = refl
all_hosts-rounds_of entries (ip ∷ ips) = elim (Bool-cases (is_private (v4 ip))) [
  | inl private ↦
      rw private
        (ap (λ hs. plan_hosts ip (mask_of entries ip) ++ hs) (all_hosts-rounds_of entries ips))
  | inr public ↦ rw public (all_hosts-rounds_of entries ips)
]

-- The task of a net scan that is alone and that nothing cancels comes to its end, and sends to the
-- targets of `netscan` in their order.
pub uncancelled_netscan :
    (s : Sweeps) (token : ℕ) (entries : List Entry)
    → is_cancelled s token ≡ false
    → Run
        (with_tasks
          (record {
            token = token;
            sending = [];
            rounds = rounds_of entries (all_ips (active_interfaces entries));
          }
            ∷ [])
          s)
        (owned token (netscan entries (λ k. false)))
        (with_tasks [] s)
unfolding netscan
uncancelled_netscan s token entries h =
    let ips = all_ips (active_interfaces entries) in
    rw⁻¹ (all_hosts-rounds_of entries ips) (task_alone s token [] (rounds_of entries ips) h)
