-- ===== src/Log.antt =====
-- universal-scanner/src/log.rs: the levels, the logger and the lines that it writes to stderr.
use uscan.Prelude.{ℕ, ◌+◌, ◌-◌, ◌%◌, ◌^◌, ◌≡◌, refl, Bool, List, [], ◌∷◌, ◌++◌}
use uscan.Prelude.{leb, ◌==◌, if◌then◌else◌, length, replicate, Text, codes}
use uscan.Addr.Display.{decimal}

pub data Level : Type 0 where
  fatal : Level
  error : Level
  warn : Level
  info : Level
  debug : Level

-- `level as u8`
abbrev pub number_of : Level → ℕ
number_of fatal = 0
number_of error = 1
number_of warn = 2
number_of info = 3
number_of debug = 4

abbrev pub tag : Level → Text
tag fatal = codes "FATAL"
tag error = codes "ERROR"
tag warn = codes "WARN"
tag info = codes "INFO"
tag debug = codes "DEBUG"

pub record Logger : Type 0 where
  pub level : ℕ
  pub task_ids : ℕ

abbrev pub new_logger : Level → Logger
new_logger l = record { level = number_of l; task_ids = 1 }

abbrev pub set_level : Level → Logger → Logger
set_level l t = record { level = number_of l; task_ids = t.task_ids }

unfoldable pub level_of : ℕ → Level
level_of n =
    if n == 0
    then fatal
    else if n == 1
    then error
    else if n == 2
    then warn
    else if n == 3
    then info
    else debug

-- `level <= self.level()`
unfoldable pub enabled : Logger → Level → Bool
unfolding level_of
enabled t l = leb (number_of l) (number_of (level_of (t.level)))

-- The counter wraps.
abbrev pub next_task_id : Logger → ℕ × Logger
next_task_id t = (t.task_ids, record { level = t.level; task_ids = (t.task_ids + 1) % 2 ^ 32 })

-- `{:4}` of a number
unfoldable pub padded : ℕ → Text
padded n = let s = decimal n in replicate (4 - length s) 32 ++ s

unfoldable pub line_text : Level → ℕ → Text → Text
unfolding padded
line_text l task_id msg = 91 ∷ (padded task_id ++ (codes "] " ++ (tag l ++ (codes ": " ++ msg))))

-- The lines that a call writes.
unfoldable pub log : Logger → Level → ℕ → Text → List Text
unfolding enabled
log t l task_id msg = if enabled t l then line_text l task_id msg ∷ [] else []

-- A logger writes the messages of its level and of the more serious ones, and no others.
pub enabled-set_level :
    (t : Logger) (l m : Level) → enabled (set_level l t) m ≡ leb (number_of m) (number_of l)
unfolding enabled
enabled-set_level t fatal m = refl
enabled-set_level t error m = refl
enabled-set_level t warn m = refl
enabled-set_level t info m = refl
enabled-set_level t debug m = refl
