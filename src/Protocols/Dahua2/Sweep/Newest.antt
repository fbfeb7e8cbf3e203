-- ===== src/Protocols/Dahua2/Sweep/Newest.antt =====
-- protocols/dahua2.rs and netscan.rs: which task passes its look at the token.
use uscan.Prelude.{
  ℕ, ◌≡◌, refl, ap, ◌∙◌, Bool, true, false, ◌||◌, List, [], ◌∷◌, ◌++◌, Option, none, some, arith,
}
use uscan.Prelude.{◌==◌, any, All, All-append}
use uscan.Addr.{Ipv4Addr}
use uscan.Protocols.Dahua2.Sweep.{
  Task, Sweeps, no_sweeps, is_cancelled, put_old, replace_sweep, check_rounds, Step, replaces,
  cancels, spawns, checks, sends, stops, Run, at_rest, behind,
}

abbrev holds : Option ℕ → ℕ → Bool
holds none token = false
holds (some c) token = c == token

-- The token is that of the newest scan, or is to be cancelled, or is cancelled.
abbrev is_settled : Option ℕ → List ℕ → List ℕ → ℕ → Bool
is_settled current replaced cancelled token =
    holds current token || any (λ c. c == token) replaced || any (λ c. c == token) cancelled

abbrev Settled : Sweeps → ℕ → Type 0
Settled s token = is_settled (s.current) (s.replaced) (s.cancelled) token ≡ true

abbrev IsSettled : Sweeps → Type 0
IsSettled s = All (λ w. Settled s (w.0)) (s.starting) × All (λ t. Settled s (t.token)) (s.tasks)

All-split {ℓ κ} :
    {A : Type ℓ} (P : A → Type κ) (xs ys : List A) → All P (xs ++ ys) → All P xs × All P ys
All-split P [] ys h = (tt, h)
All-split P (x ∷ xs) ys (h, hs) = let (a, b) = All-split P xs ys hs in ((h, a), b)

All-weaken {ℓ κ} :
    {A : Type ℓ} (P Q : A → Type κ) → ((x : A) → P x → Q x) → (xs : List A) → All P xs → All Q xs
All-weaken P Q f [] h = tt
All-weaken P Q f (x ∷ xs) (h, hs) = (f x h, All-weaken P Q f xs hs)

-- A new token: the one before it is to be cancelled.
is_settled-put_old :
    (current : Option ℕ) (replaced cancelled : List ℕ) (next token : ℕ)
    → is_settled current replaced cancelled token ≡ true
    → is_settled (some next) (put_old current replaced) cancelled token ≡ true
is_settled-put_old none replaced cancelled next token h = ground (arith, h)
is_settled-put_old (some old) replaced cancelled next token h = ground (arith, h)

any-without :
    (before after : List ℕ) (old token : ℕ)
    → any (λ c. c == token) (before ++ (old ∷ after))
      ≡ (old == token || any (λ c. c == token) (before ++ after))
any-without [] after old token = refl
any-without (b ∷ before) after old token = ground (arith, any-without before after old token)

-- The token that is cancelled moves from one list to the other.
is_settled-cancels :
    (current : Option ℕ) (replaced before after cancelled : List ℕ) (old token : ℕ)
    → replaced ≡ before ++ (old ∷ after)
    → is_settled current replaced cancelled token ≡ true
    → is_settled current (before ++ after) (old ∷ cancelled) token ≡ true
is_settled-cancels current replaced before after cancelled old token e h =
    let moved = ap (λ l. any (λ c. c == token) l) e ∙ any-without before after old token in
    ground (arith, moved, h)

-- What is left of a task has its token.
All-check_rounds :
    (P : ℕ → Type 0) (now : Bool) (token : ℕ) (rounds : List (List Ipv4Addr))
    → P token
    → All (λ t. P (t.token)) (check_rounds now token rounds)
unfolding check_rounds
All-check_rounds P now token [] h = tt
All-check_rounds P true token (hosts ∷ rounds) h = tt
All-check_rounds P false token (hosts ∷ rounds) h = (h, tt)

-- One task of a list gives way to others with its token.
All-in_place :
    (P : ℕ → Type 0) (tasks before after others : List Task) (t : Task)
    → tasks ≡ before ++ (t ∷ after)
    → All (λ t. P (t.token)) tasks
    → (P (t.token) → All (λ t. P (t.token)) others)
    → All (λ t. P (t.token)) (before ++ (others ++ after))
All-in_place P tasks before after others t e h keeps =
    let Q : Task → Type 0 = λ t. P (t.token) in
    let h' : All Q (before ++ (t ∷ after)) = rw⁻¹ e h in
    let (hb, ht) = All-split Q before (t ∷ after) h' in
    All-append Q before (others ++ after) hb (All-append Q others after (keeps (ht.0)) (ht.1))

IsSettled-step :
    (s t : Sweeps) (sent : List (ℕ × Ipv4Addr)) → Step s sent t → IsSettled s → IsSettled t
unfolding replace_sweep
IsSettled-step s _ _ (replaces _ rounds) (hs, ht) =
    let moved = is_settled-put_old (s.current) (s.replaced) (s.cancelled) (s.next) in
    let Before : ℕ → Type 0 = Settled s in
    let After : ℕ → Type 0 = Settled (replace_sweep rounds s) in
    (
      (
        ground arith,
        All-weaken (λ w. Before (w.0)) (λ w. After (w.0)) (λ w. moved (w.0)) (s.starting) hs,
      ),
      All-weaken (λ t. Before (t.token)) (λ t. After (t.token)) (λ t. moved (t.token)) (s.tasks) ht,
    )
IsSettled-step s _ _ (cancels _ before after old e) (hs, ht) =
    let moved =
      λ (k : ℕ). is_settled-cancels (s.current) (s.replaced) before after (s.cancelled) old k e in
    let After : ℕ → Type 0 =
      λ k. is_settled (s.current) (before ++ after) (old ∷ s.cancelled) k ≡ true in
    (
      All-weaken (λ w. Settled s (w.0)) (λ w. After (w.0)) (λ w. moved (w.0)) (s.starting) hs,
      All-weaken (λ t. Settled s (t.token)) (λ t. After (t.token)) (λ t. moved (t.token)) (s.tasks)
          ht,
    )
IsSettled-step s _ _ (spawns _ before after token rounds e) (hs, ht) =
    let Q : ℕ × List (List Ipv4Addr) → Type 0 = λ w. Settled s (w.0) in
    let h' : All Q (before ++ ((token, rounds) ∷ after)) = rw⁻¹ e hs in
    let (hb, hw) = All-split Q before ((token, rounds) ∷ after) h' in
    (All-append Q before after hb (hw.1), (hw.0, ht))
IsSettled-step s _ _ (checks _ before after token rounds e) (hs, ht) = (
  hs,
  All-in_place (Settled s) (s.tasks) before after (check_rounds (is_cancelled s token) token rounds)
      (record { token = token; sending = []; rounds = rounds }) e ht
      (All-check_rounds (Settled s) (is_cancelled s token) token rounds),
)
IsSettled-step s _ _ (sends _ before after token host hosts rounds e) (hs, ht) = (
  hs,
  All-in_place (Settled s) (s.tasks) before after
      (record { token = token; sending = hosts; rounds = rounds } ∷ [])
      (record { token = token; sending = host ∷ hosts; rounds = rounds }) e ht (λ h. (h, tt)),
)
IsSettled-step s _ _ (stops _) h = h

Run-IsSettled :
    (s t : Sweeps) (sent : List (ℕ × Ipv4Addr)) → Run s sent t → IsSettled s → IsSettled t
Run-IsSettled s _ _ (at_rest _) h = h
Run-IsSettled _ _ _ (behind {s} {t} {u} {sent} {more} step run) h =
    Run-IsSettled t u more run (IsSettled-step s t sent step h)

holds-current : (current : Option ℕ) (token : ℕ) → holds current token ≡ true → current ≡ some token
holds-current none token h = absurd (ground (arith, h))
holds-current (some c) token h = let e : c ≡ token = ground (arith, h) in ap some e

live :
    (now : Bool) (token : ℕ) (rounds : List (List Ipv4Addr)) (left : Task) (more : List Task)
    → check_rounds now token rounds ≡ left ∷ more
    → now ≡ false
unfolding check_rounds
live now token [] left more e = absurd (ground (arith, e))
live true token (hosts ∷ rounds) left more e = absurd (ground (arith, e))
live false token (hosts ∷ rounds) left more e = refl

-- After any steps of scans, tasks and a stop, in whatever order they come: unless a scan is just
-- between the replacing of a token and its cancellation, only the task of the newest scan goes on to
-- another address, and none does once the engine is stopped.
pub check_rounds_newest :
    (s : Sweeps) (sent : List (ℕ × Ipv4Addr)) (before after more : List Task) (token : ℕ)
    (rounds : List (List Ipv4Addr)) (left : Task)
    → Run no_sweeps sent s
    → s.replaced ≡ []
    → s.tasks ≡ before ++ (record { token = token; sending = []; rounds = rounds } ∷ after)
    → check_rounds (is_cancelled s token) token rounds ≡ left ∷ more
    → (s.current ≡ some token) × (s.stopped ≡ false)
unfolding is_cancelled
check_rounds_newest s sent before after more token rounds left run no_replaced there goes_on =
    let not_cancelled = live (is_cancelled s token) token rounds left more goes_on in
    let t : Task = record { token = token; sending = []; rounds = rounds } in
    let tasks = (Run-IsSettled no_sweeps s sent run (tt, tt)).1 in
    let h' : All (λ t. Settled s (t.token)) (before ++ (t ∷ after)) = rw⁻¹ there tasks in
    let settled = ((All-split (λ t. Settled s (t.token)) before (t ∷ after) h').1).0 in
    let none_left = ap (λ l. any (λ c. c == token) l) no_replaced in
    (
      holds-current (s.current) token (ground (arith, settled, none_left, not_cancelled)),
      ground (arith, not_cancelled),
    )
