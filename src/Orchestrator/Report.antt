-- ===== src/Orchestrator/Report.antt =====
-- The log lines of nodepilot/orchestrator.py about the whole queue. `format_f` prints an amount of RAM
-- as `:.1f` does, and `format_g` as `:g`.
pub mod Totals
use nodepilot.Common.{
  ℕ, ◌+◌, suc, ◌≡◌, not, Bool, true, false, ◌&&◌, List, [], ◌∷◌, ◌++◌, Option, none, some, ltb,
  if◌then◌else◌, length, keep, All, arith, Bool-cases,
}
use nodepilot.Common.Text.{Text, codes, text_eq, is_empty}
use nodepilot.Common.Decimal.{decimal}
use nodepilot.Config.{
  Job, Config, JobStatus, pending, running, done, failed, skipped, dormant, other,
}
use nodepilot.Queue.Dict.{status_text}
use nodepilot.Cgroups
use nodepilot.Host.{Host}
use nodepilot.Logs.{kv}
use nodepilot.Orchestrator.{Setup, Aux, look, next}

-- `self.log.info(...)` and `self.log.warning(...)`
pub data Line : Type 0 where
  info warning : Text → Line

-- `_count`
unfoldable pub count : Text → List Job → ℕ
count status jobs = length (keep (λ j. text_eq (status_text j.status) status) jobs)

-- What `run` logs at its end.
unfoldable pub complete_line : List Job → Line
complete_line jobs = info (
    codes "queue complete "
    ++ kv (
        (codes "done", some (decimal (count (codes "done") jobs)))
        ∷ (codes "failed", some (decimal (count (codes "failed") jobs)))
        ∷ []))

-- `_fmt`
unfoldable pub fmt : (format_f : ℕ → Text) → Option ℕ → Option Text
fmt format_f none = none
fmt format_f (some value) = some (format_f value)

module _ (setup : Setup) where
  open setup use {config}

  -- The line about the slice, of three observations: whether it is active, its use and its ceiling.
  unfoldable pub slice_line : (format_f : ℕ → Text) → Aux → Line
  slice_line format_f a =
      if not (is_empty config.memory_slice) && Cgroups.is_active (look setup a) config.memory_slice
      then info (
          codes "slice active "
          ++ kv (
              (codes "slice", some config.memory_slice)
              ∷ (
                codes "used_gb",
                fmt format_f (Cgroups.used_gb (look setup (next setup a)) config.memory_slice),
              )
              ∷ (
                codes "cap_gb",
                fmt format_f
                    (Cgroups.max_gb (look setup (next setup (next setup a))) config.memory_slice),
              )
              ∷ []))
      else warning (
          codes "cgroup slice inactive "
          ++ kv (
              (codes "slice", some config.memory_slice)
              ∷ (codes "mode", some (codes "declarative RAM accounting"))
              ∷ []))

  unfoldable pub queue_line : List Job → Line
  queue_line jobs = info (
      codes "queue loaded "
      ++ kv (
          (codes "jobs", some (decimal (length jobs)))
          ∷ (codes "pending", some (decimal (count (codes "pending") jobs)))
          ∷ (codes "done", some (decimal (count (codes "done") jobs)))
          ∷ (codes "cores", some (decimal config.core_budget))
          ∷ (codes "ram_budget_gb", some (setup.format_g config.ram_budget_gb))
          ∷ (codes "max_concurrent", some (decimal config.max_concurrent))
          ∷ (codes "nodes", some (decimal (length setup.numa_nodes)))
          ∷ []))

  -- `_log_startup`
  unfoldable pub log_startup : (format_f : ℕ → Text) → Aux → List Job → List Line
  log_startup format_f a jobs = slice_line format_f a ∷ queue_line jobs ∷ []

-- `_warn_if_queue_newer`; `mtime` is `st_mtime`, or `none` for an OSError.
unfoldable pub warn_if_queue_newer :
    (mtime : Text → Option ℕ) → (queue_path state_path : Text) → Option Line
warn_if_queue_newer mtime queue_path state_path = elim (mtime queue_path) [
  | none ↦ none
  | some edited ↦ elim (mtime state_path) [
    | none ↦ none
    | some saved ↦
        if ltb saved edited
        then some (
            warning (
              codes "queue edited after last state save "
              ++ kv (
                  (codes "queue", some queue_path)
                  ∷ (codes "hint", some (codes "changes ignored until 'reset'"))
                  ∷ [])))
        else none
  ]
]
