-- ===== src/Tests/Reports.antt =====
-- The log lines of the scheduler at concrete inputs.
use nodepilot.Common.{◌≡◌, refl, [], ◌∷◌, some, length}
use nodepilot.Common.Decimal.{decimal}
use nodepilot.Common.Text.{codes, text_eq, is_empty, join}
use nodepilot.Logs.{kv}
use nodepilot.Queue.Dict.{status_text}
use nodepilot.Orchestrator.Report.{
  info, warning, count, complete_line, log_startup, slice_line, queue_line, warn_if_queue_newer,
}
use nodepilot.Tests.{queue, initial_run}
use nodepilot.Tests.Draining.{slow_setup, ended_queue}

complete_sample : complete_line ended_queue ≡ info (codes "queue complete done=2 failed=0")
unfolding complete_line count text_eq status_text kv decimal join
complete_sample = refl

startup_sample :
    log_startup slow_setup (λ n. []) initial_run.state.aux queue
    ≡ warning (codes "cgroup slice inactive slice= mode=declarative RAM accounting")
      ∷ info (
          codes
            "queue loaded jobs=2 pending=2 done=0 cores=6 ram_budget_gb= max_concurrent=2 nodes=2")
      ∷ []
unfolding log_startup slice_line queue_line count text_eq status_text kv decimal join is_empty
startup_sample = refl

warn_sample :
    warn_if_queue_newer (λ p. some (length p)) (codes "queue") (codes "file")
    ≡ some (
        warning (
          codes
            "queue edited after last state save queue=queue hint=changes ignored until 'reset'"))
unfolding warn_if_queue_newer kv join
warn_sample = refl
