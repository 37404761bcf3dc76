-- ===== src/Cli.antt =====
-- nodepilot/cli.py: the commands on parsed arguments, and the table of `status`. The argument parser
-- is argparse's. The clock's answer that a state file is stamped with is a parameter: nothing reads it.
pub mod Counts
pub mod Commands
pub mod Shown
use nodepilot.Common.{
  ℕ, suc, ◌+◌, ◌-◌, Bool, true, false, ◌||◌, ◌&&◌, List, [], ◌∷◌, ◌++◌, Option, none, some, ◌==◌,
  if◌then◌else◌, Result, ok, ◌>>=◌, length, map, ltb_ℤ, eqb_ℤ,
}
use nodepilot.Common.Text.{Text, codes, text_eq, text_less, is_empty, join}
use nodepilot.Common.Decimal.{decimal, show}
use nodepilot.Common.Sort.{sort_by}
use nodepilot.Config.{Job, Config}
use nodepilot.Queue.{load_queue}
use nodepilot.Queue.Dict.{status_text}
use nodepilot.StateFile.{Disk, save_state}
use nodepilot.Orchestrator.{Setup, State}
use nodepilot.Orchestrator.Run.{Run, run, kill}
use nodepilot.Orchestrator.Startup.{Start, from_queue, jobs_of, reset}

-- What argparse returns.
pub data Command : Type 0 where
  run_queue : (queue : Text) → (max_ticks : ℕ) → Command
  show_status : (queue : Text) → Command
  kill_job : (queue job_id : Text) → Command
  reset_queue : (queue : Text) → Command

-- The exit code, the lines on stdout, and the disk.
pub record Exit : Type 0 where
  pub code : ℕ
  pub out : List Text
  pub disk : Disk

spaces : ℕ → Text
spaces ℕ.zero = []
spaces (suc n) = b' ' ∷ spaces n

-- `f"{s:<w}"` and `f"{s:>w}"`
ljust : ℕ → Text → Text
unfolding spaces
ljust w s = s ++ spaces (w - length s)

rjust : ℕ → Text → Text
unfolding spaces
rjust w s = spaces (w - length s) ++ s

-- `counts[s] = counts.get(s, 0) + 1`
unfoldable pub count_up : Text → List (Text × ℕ) → List (Text × ℕ)
count_up s [] = (s, 1) ∷ []
count_up s ((k, n) ∷ counts) =
    let rest = count_up s counts in if text_eq k s then (k, suc n) ∷ counts else (k, n) ∷ rest

-- The counts after the loop over the jobs.
unfoldable pub tally : List Job → List (Text × ℕ) → List (Text × ℕ)
tally [] counts = counts
tally (job ∷ jobs) counts = tally jobs (count_up (status_text job.status) counts)

-- The order of the keys `(priority, id)`.
abbrev row_less : Job → Job → Bool
row_less a b = ltb_ℤ a.priority b.priority || (eqb_ℤ a.priority b.priority && text_less a.id b.id)

row : (format_g : ℕ → Text) → Job → Text
unfolding ljust rjust
row format_g job =
    ljust 24 job.id
    ++ b' ' ∷ ljust 9 (status_text job.status)
    ++ b' ' ∷ rjust 4 (show job.priority)
    ++ b' ' ∷ rjust 5 (decimal job.cores)
    ++ b' ' ∷ rjust 7 (format_g job.ram_gb)
    ++ b' ' ∷ ljust 12 (if is_empty job.cpu_list then codes "-" else job.cpu_list)
    ++ b' ' ∷ job.failure_reason

header : Text
unfolding ljust rjust
header =
    ljust 24 (codes "ID")
    ++ b' ' ∷ ljust 9 (codes "STATUS")
    ++ b' ' ∷ rjust 4 (codes "PRIO")
    ++ b' ' ∷ rjust 5 (codes "CORES")
    ++ b' ' ∷ rjust 7 (codes "RAM_GB")
    ++ b' ' ∷ ljust 12 (codes "CPU")
    ++ b' ' ∷ codes "REASON"

dashes : Text → Text
dashes [] = []
dashes (c ∷ s) = b'-' ∷ dashes s

-- `sorted(counts.items())`: no two pairs have one key
unfoldable pub summary : List (Text × ℕ) → Text
summary counts =
    join b' ' (map (λ p. p.0 ++ b'=' ∷ decimal p.1) (sort_by (λ a b. text_less a.0 b.0) counts))

-- `_print_table`
unfoldable pub table : (format_g : ℕ → Text) → List Job → List Text
unfolding row header dashes
table format_g jobs =
    let sorted = sort_by row_less jobs in
    let counts = tally sorted [] in
    header
    ∷ dashes header
    ∷ (map (row format_g) sorted
        ++ dashes header
          ∷ (codes "total=" ++ decimal (length jobs) ++ codes "  " ++ summary counts)
          ∷ [])

-- The state file after a run or a kill: the list that was saved last, if one was. (A command that
-- raises an exception has no `Exit`.)
unfoldable pub stored : Start → (saved_at : ℕ) → Config → Run → Disk → Disk
stored start saved_at config r disk = elim r.saved [
  | none ↦ disk
  | some jobs ↦ save_state start.json saved_at config.state_path jobs disk
]

abbrev pub fresh_run : State → Run
fresh_run st = record { state = st; saved = none }

module _ (start : Start) (saved_at : ℕ) (disk : Disk) where
  -- `_cmd_status`
  unfoldable pub cmd_status : Text → Result (Option Exit)
  cmd_status queue = do
    q ← load_queue start.loader queue
    elim q [
      | none ↦ ok none
      | some (config, queue_jobs) ↦ (do
        jobs ← jobs_of start disk config queue_jobs
        ok (elim jobs [
          | none ↦ none
          | some js ↦ some (record { code = 0; out = table start.format_g js; disk = disk })
        ]))
    ]

  run_with : ℕ → Option (Setup × State) → Result (Option Exit)
  run_with max_ticks none = ok none
  run_with max_ticks (some (setup, st)) = do
    (r, ended) ← run setup max_ticks (fresh_run st)
    ok (some (record { code = 0; out = []; disk = stored start saved_at setup.config r disk }))

  kill_with : Text → Option (Setup × State) → Result (Option Exit)
  kill_with job_id none = ok none
  kill_with job_id (some (setup, st)) = do
    (r, killed) ← kill setup job_id (fresh_run st)
    ok (
        some (record {
          code = if killed then 0 else 1;
          out = [];
          disk = stored start saved_at setup.config r disk;
        }))

  reset_with : Option (Setup × State) → Result (Option Exit)
  reset_with none = ok none
  reset_with (some (setup, st)) =
      ok (
        some
          (record { code = 0; out = codes "state cleared" ∷ []; disk = reset setup.config disk }))

  unfoldable pub main : Command → Result (Option Exit)
  unfolding run_with kill_with reset_with
  main (run_queue queue max_ticks) = from_queue start disk queue >>= run_with max_ticks
  main (show_status queue) = cmd_status queue
  main (kill_job queue job_id) = from_queue start disk queue >>= kill_with job_id
  main (reset_queue queue) = from_queue start disk queue >>= reset_with
