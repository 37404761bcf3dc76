-- ===== src/Orchestrator/Lifecycle.antt =====
-- The lifecycle of a job: which changes of status one tick can make, and to which jobs.
pub mod Kept
pub mod Ticks
use nodepilot.Common.{
  ℕ, ◌≡◌, ◌≢◌, refl, sym, ap, ◌∙◌, subst, ◌⊎◌, inl, inr, Bool, true, false, List, [], ◌∷◌, none,
  some, arith, ok, >>=-eq-ok, Bool-cases, Option-cases, set, All, All-imp, All2, All2-refl,
  All2-set, All2-trans,
}
use nodepilot.Common.Sort.{AllPairs}
use nodepilot.Common.Text.{Text, text_eq}
use nodepilot.Config.{Job, pending, running, done, failed, skipped, is_done}
use nodepilot.Orchestrator.{Setup, State, deps_satisfied, try_launch}
use nodepilot.Orchestrator.Dependents.{by_id}
use nodepilot.Orchestrator.Loop.{launch_each, launch_pending, launch_order, tick}
use nodepilot.Orchestrator.Steps.{Launched, try_launch-cases}
use nodepilot.Orchestrator.Order.{
  PendingAt, PendingAt-set, launch_order-PendingAt, launch_order-AllPairs,
}
use nodepilot.Orchestrator.Phases.{tick-Tick}
use nodepilot.Orchestrator.Safety.Sums.{Stops, Stops-trans}
use nodepilot.Orchestrator.Safety.Passes.{mark_dead-AllStop, reap_finished-AllStop}

-- The two jobs are one, but for the runtime fields.
abbrev pub SameJob : Job → Job → Type 0
SameJob j j' = (j'.id ≡ j.id) × (j'.depends_on ≡ j.depends_on)

-- Every dependency of the job is a job of the list that is done.
abbrev pub DepsDone : List Job → Job → Type 0
DepsDone jobs j =
    All (λ dep. (u : Job) × (by_id jobs dep ≡ some u) × (u.status ≡ done)) j.depends_on

-- A launch: a pending job fails to start, or runs; either way its dependencies are done.
abbrev pub Starts : List Job → Job → Job → Type 0
Starts jobs j j' =
    (j' ≡ j)
    ⊎ SameJob j j'
      × (j.status ≡ pending)
      × ((j'.status ≡ failed) ⊎ (j'.status ≡ running))
      × DepsDone jobs j

-- What one tick may do to a job, where `jobs` is the list after the tick.
abbrev pub Moves : List Job → Job → Job → Type 0
Moves jobs j j' =
    (j' ≡ j)
    ⊎ SameJob j j'
      × (((j.status ≡ running) × ((j'.status ≡ done) ⊎ (j'.status ≡ failed)))
          ⊎ ((j.status ≡ pending)
              × ((j'.status ≡ skipped)
                  ⊎ ((j'.status ≡ failed) ⊎ (j'.status ≡ running)) × DepsDone jobs j)))

-- Launches leave the jobs that are done.
abbrev pub Waits : Job → Job → Type 0
Waits j j' = (j' ≡ j) ⊎ SameJob j j' × (j.status ≡ pending)
