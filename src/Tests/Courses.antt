-- ===== src/Tests/Courses.antt =====
-- The theorems on whole runs, on the queue of two jobs and on a job that waits for itself.
use nodepilot.Common.{ℕ, ◌≡◌, refl, false, [], ◌∷◌, ok, none, All2, arith}
use nodepilot.Common.Text.{codes, text_eq}
use nodepilot.Config.{Job, new_job, is_pending, is_running}
use nodepilot.Orchestrator.{reap_finished, reap_job, enforce_pins, try_launch, deps_satisfied}
use nodepilot.Orchestrator.Dependents.{
  by_id, blocker, mark_job, mark_pass, mark_loop, mark_dead_dependents,
}
use nodepilot.Orchestrator.Loop.{tick, launch_pending, launch_each, launch_less, pending_from}
use nodepilot.Orchestrator.Run.{
  save_if, Run, run, run_loop, run_tick, reconcile_zombies, reconcile_from, reconcile_job,
  is_drained,
}
use nodepilot.Common.Sort.{insert_by, sort_by}
use nodepilot.Config.{is_done, is_dead}
use nodepilot.Common.{true}
use nodepilot.Config.{skipped}
use nodepilot.Orchestrator.Course.{Follows, run-Follows}
use nodepilot.Orchestrator.Knots.{IsKnotted}
use nodepilot.Orchestrator.Knots.Runs.{run-IsKnotted}
use nodepilot.Tests.{setup, queue, initial_run}
use nodepilot.Tests.Schedule.{after_run, after_tick, run_sample}

run-Follows_example : All2 Follows queue after_tick.jobs
run-Follows_example = run-Follows setup 1 initial_run after_run false run_sample

abbrev circular_job : Job
circular_job = record (new_job (codes "c") (codes "true")) { depends_on = codes "c" ∷ [] }

abbrev circular_run : ℕ → Run
circular_run reads = record {
  state = record {
    jobs = circular_job ∷ [];
    aux = record { cooldown_until = 0; procs = []; reads = reads };
  };
  saved = none;
}

circular_sample : run setup 1 (circular_run 0) ≡ ok (circular_run 3, false)
unfolding save_if run run_loop run_tick is_drained tick reconcile_zombies reconcile_from
    reconcile_job reap_finished reap_job mark_dead_dependents mark_loop mark_pass mark_job blocker
    by_id enforce_pins launch_pending pending_from launch_less launch_each try_launch deps_satisfied
    text_eq is_pending is_running is_done is_dead insert_by sort_by
circular_sample = refl

circular_knot : IsKnotted (text_eq (codes "c")) (circular_job ∷ [])
unfolding text_eq
circular_knot =
    (((λ t. refl, tt), ((λ t. (λ e. ground arith, ((refl, refl), tt))), tt)), codes "c", refl, refl)

run-IsKnotted_example :
    (false ≡ false) × IsKnotted (text_eq (codes "c")) (circular_run 3).state.jobs
run-IsKnotted_example =
    run-IsKnotted setup (text_eq (codes "c")) 1 (circular_run 0) (circular_run 3) false
      circular_knot circular_sample

-- A run with nothing left to do.
abbrev idle_run : ℕ → Run
idle_run reads = record {
  state = record {
    jobs = record circular_job { status = skipped } ∷ [];
    aux = record { cooldown_until = 0; procs = []; reads = reads };
  };
  saved = none;
}

idle_sample : run setup 5 (idle_run 0) ≡ ok (idle_run 3, true)
unfolding save_if run run_loop run_tick is_drained tick reconcile_zombies reconcile_from
    reconcile_job reap_finished reap_job mark_dead_dependents mark_loop mark_pass mark_job
    enforce_pins launch_pending pending_from launch_each is_pending is_running sort_by
idle_sample = refl
