-- ===== src/Logs.antt =====
-- nodepilot/logs.py: the set-up of the package's logger, and the context of a log line.
use nodepilot.Common.{
  ap, ◌∙◌, ℕ, ◌≡◌, inl, inr, Bool, true, false, List, [], ◌∷◌, ◌++◌, Option, none, some,
  if◌then◌else◌, Bool-cases,
}
use nodepilot.Common.Text.{Text, codes, is_empty, join}

-- Where a logger writes.
pub data Handler : Type 0 where
  stderr : Handler
  file : Text → Handler

-- The package's logger, which all callers share, with the module's flag `_CONFIGURED`.
pub record Logger : Type 0 where
  pub configured : Bool
  pub level : ℕ
  pub handlers : List Handler
  pub propagate : Bool
  -- the warnings that were logged
  pub warnings : List Text

-- The handler of the log file; a file that cannot be opened leaves a warning.
add_file : (can_open : Text → Bool) → Option Text → Logger → Logger
add_file can_open none logger = logger
add_file can_open (some path) logger =
    if is_empty path
    then logger
    else if can_open path
    then record logger { handlers = logger.handlers ++ file path ∷ [] }
    else record logger { warnings = (codes "could not open log file " ++ path) ∷ logger.warnings }

-- What the first call does.
configure : (can_open : Text → Bool) → Option Text → (level : ℕ) → Logger → Logger
unfolding add_file
configure can_open log_path level logger =
    let streaming = record logger { level = level; handlers = logger.handlers ++ stderr ∷ [] } in
    record (add_file can_open log_path streaming) { propagate = false; configured = true }

unfoldable pub get_logger : (can_open : Text → Bool) → Option Text → (level : ℕ) → Logger → Logger
unfolding configure
get_logger can_open log_path level logger =
    if logger.configured then logger else configure can_open log_path level logger

-- The pairs that have a value.
present : List (Text × Option Text) → List Text
present [] = []
present ((k, v) ∷ pairs) =
    let rest = present pairs in elim v [ none ↦ rest | some s ↦ (k ++ b'=' ∷ s) ∷ rest ]

-- `kv(**pairs)`, of printed values
unfoldable pub kv : List (Text × Option Text) → Text
unfolding present
kv pairs = join b' ' (present pairs)

get_logger-configured :
    (can_open : Text → Bool) (path : Option Text) (level : ℕ) (logger : Logger)
    → logger.configured ≡ true
    → get_logger can_open path level logger ≡ logger
unfolding get_logger
get_logger-configured can_open path level logger e =
    ap (λ b. if b then logger else configure can_open path level logger) e

configured-get_logger :
    (can_open : Text → Bool) (path : Option Text) (level : ℕ) (logger : Logger)
    → (get_logger can_open path level logger).configured ≡ true
unfolding get_logger configure
configured-get_logger can_open path level logger = elim (Bool-cases logger.configured) [
  | inl is_set ↦
      ap (λ x. x.configured) (get_logger-configured can_open path level logger is_set) ∙ is_set
  | inr fresh ↦
      ap (λ b. (if b then logger else configure can_open path level logger).configured) fresh
]

-- Of any two calls only the first has an effect: the second, whatever it is given, leaves the logger as
-- it is, so that no line is written twice.
get_logger-again :
    (can_open can_open' : Text → Bool) (path path' : Option Text) (level level' : ℕ)
    (logger : Logger)
    → get_logger can_open' path' level' (get_logger can_open path level logger)
      ≡ get_logger can_open path level logger
get_logger-again can_open can_open' path path' level level' logger =
    get_logger-configured can_open' path' level' (get_logger can_open path level logger)
      (configured-get_logger can_open path level logger)
