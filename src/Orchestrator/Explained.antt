-- ===== src/Orchestrator/Explained.antt =====
-- What nodepilot/orchestrator.py leaves on the jobs that have ended: the exit code and the reason.
pub mod Runs
use nodepilot.Common.{
  ℕ, zero, suc, ◌≡◌, ◌≢◌, subst, ◌⊎◌, inl, inr, Bool, true, List, [], ◌∷◌, ◌++◌, Option, none, some,
  arith, ok, >>=-eq-ok, Bool-cases, Option-cases, All, All-append, get_elem?, length, ℤ, pos,
}
use nodepilot.Common.Text.{codes}
use nodepilot.Config.{Job, done, failed, is_running, is_pending, is_dead}
use nodepilot.Cgroups.{journal_reports_oom}
use nodepilot.Runner.{classify, reap, returncode, forget, is_alive}
use nodepilot.Orchestrator.{
  Setup, Aux, State, look, next, finish, reap_job, reap_finished, try_launch,
}
use nodepilot.Orchestrator.Dependents.{
  blocker, mark_job, mark_pass, mark_loop, mark_dead_dependents,
}
use nodepilot.Orchestrator.Induction.{run-keeps_jobs}
use nodepilot.Orchestrator.Loop.{launch_each, launch_pending, launch_order, tick}
use nodepilot.Orchestrator.Phases.{tick-Tick}
use nodepilot.Orchestrator.Run.{Run, reconcile_job, reconcile_from, run}
use nodepilot.Orchestrator.Steps.{try_launch-cases}
use nodepilot.Orchestrator.Total.{All-set}

-- A job that is done gives no reason, and its exit code is 0 or unknown; one that failed or was skipped
-- gives a reason.
abbrev pub IsExplained : Job → Type 0
IsExplained job =
    (job.status ≡ done
      → (job.failure_reason ≡ []) × ((job.exit_code ≡ none) ⊎ (job.exit_code ≡ some (pos 0))))
    × (is_dead job.status ≡ true → job.failure_reason ≢ [])

abbrev pub AllExplained : List Job → Type 0
AllExplained = All IsExplained

pub classify_explains :
    (hint : Bool) (code : Option ℤ)
    → ((classify hint code).status ≡ done
        → ((classify hint code).reason ≡ [])
          × (((classify hint code).exit_code ≡ none)
              ⊎ ((classify hint code).exit_code ≡ some (pos 0))))
      × (is_dead (classify hint code).status ≡ true → (classify hint code).reason ≢ [])
unfolding classify is_dead
classify_explains hint none = (λ e. ground arith, λ e r. ground arith)
classify_explains hint (some code) = (λ e. ground arith, λ e r. ground arith)

mark_job-IsExplained :
    (now : ℕ) (jobs : List Job) (job : Job)
    → IsExplained job
    → IsExplained (mark_job now jobs job).0
unfolding mark_job is_dead
mark_job-IsExplained now jobs job h = elim (Bool-cases (is_pending job.status)) [
  | inr other ↦ rw other h
  | inl waits ↦ elim (Option-cases (blocker jobs job.depends_on)) [
    | inl free ↦ rw (waits, free) h
    | inr (why, blocked) ↦ rw (waits, blocked) (λ e. cc, λ e r. ground arith)
  ]
]

mark_pass-AllExplained :
    (clock : ℕ → ℕ) (before after : List Job)
    → AllExplained before
    → AllExplained after
    → AllExplained (mark_pass clock before after).0
unfolding mark_pass
mark_pass-AllExplained clock before [] h k = h
mark_pass-AllExplained clock before (job ∷ after) h k =
    let first = mark_job-IsExplained (clock (length before)) (before ++ job ∷ after) job k.0 in
    mark_pass-AllExplained clock
      (before ++ (mark_job (clock (length before)) (before ++ job ∷ after) job).0 ∷ []) after
      (All-append IsExplained before _ h (first, tt)) k.1

pub mark_loop-AllExplained :
    (fuel pass : ℕ) (clock : ℕ → ℕ → ℕ) (jobs : List Job)
    → AllExplained jobs
    → AllExplained (mark_loop fuel pass clock jobs).0
unfolding mark_loop
mark_loop-AllExplained zero pass clock jobs h = h
mark_loop-AllExplained (suc fuel) pass clock jobs h =
    let first = mark_pass-AllExplained (clock pass) [] jobs tt h in
    elim (Bool-cases (mark_pass (clock pass) [] jobs).1) [
      | inl more ↦ rw more (mark_loop-AllExplained fuel (suc pass) clock _ first)
      | inr stuck ↦ rw stuck first
    ]
