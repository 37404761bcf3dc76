-- ===== src/Orchestrator/Progress.antt =====
-- When a run of nodepilot/orchestrator.py is sure to drain its queue: what the world, the set-up and
-- the jobs must be like, and the work that is left.
pub mod Work
pub mod Ripe
pub mod Reaped
pub mod Doable
pub mod Alone
pub mod Going
pub mod Stuck
pub mod Ranked
pub mod Ticks
pub mod Drains
use nodepilot.Common.{
  ℕ, zero, suc, ◌+◌, ◌≤◌, ◌<◌, ◌≡◌, ◌≢◌, ◌⊎◌, Bool, true, false, List, [], ◌∷◌, none, ok, ℤ, All,
}
use nodepilot.Common.Text.{Text, is_empty}
use nodepilot.Config.{Job, JobStatus, pending, running, done, failed, skipped, dormant, other}
use nodepilot.Host.{Host}
use nodepilot.Runner.{Procs, is_alive, pid_alive, tmux_alive}
use nodepilot.Admission.Gate.{FitsRam}
use nodepilot.Numa.Allocate.Complete.{IsFull}
use nodepilot.Orchestrator.{Setup, request}

-- The launches and endings that a job may still see.
abbrev pub weight : JobStatus → ℕ
weight pending = 2
weight running = 1
weight _ = 0

unfoldable pub work : List Job → ℕ
work [] = 0
work (j ∷ js) = weight j.status + work js

module _ (setup : Setup) where
  -- From some observation of the world on.
  abbrev pub Eventually : (Host → Type 0) → Type 0
  Eventually P = (since : ℕ) × ((n : ℕ) → since ≤ n → P (setup.world n))

  -- Every process and every session ends at last, the clock passes every time, launches are not paused
  -- for ever, and one job may run.
  pub record IsFair : Type 0 where
    pub polled : (pid : ℤ) → Eventually (λ h. h.poll pid ≢ none)
    pub probed : (pid : ℤ) → Eventually (λ h. pid_alive h pid ≡ ok false)
    pub session : (name : Text) → Eventually (λ h. tmux_alive h name ≡ false)
    pub clock : (time : ℕ) → Eventually (λ h. time ≤ h.now)
    pub unpaused : Eventually (λ h.
        (is_empty setup.config.pause_file ≡ true) ⊎ (h.exists setup.config.pause_file ≡ false))
    pub slot : 0 < setup.config.max_concurrent

  -- The job fits the budget of cores and some node when no other runs, and from some time on the RAM.
  pub record IsFeasible (job : Job) : Type 0 where
    pub cores : job.cores ≤ setup.config.core_budget
    pub ram : Eventually (λ h. FitsRam setup.config h job [])
    pub node : (job.cores ≡ 0) ⊎ ¬ All (IsFull (request setup job setup.reserved)) setup.numa_nodes

  -- The job's process is gone at an observation, as far as can be told.
  abbrev pub IsGone : ℕ → Job → Type 0
  IsGone n job =
      (procs : Procs) (alive : Bool) → is_alive (setup.world n) procs job ≡ ok alive → alive ≡ false

  -- What all wait for has come, for good: the ends of the running jobs, the end of the cooldown and of a
  -- pause, and the RAM.
  pub record IsRipe (since cooldown_until : ℕ) (jobs : List Job) : Type 0 where
    pub ended : (n : ℕ) → since ≤ n → All (λ j. j.status ≡ running → IsGone n j) jobs
    pub cooled : (n : ℕ) → since ≤ n → cooldown_until ≤ (setup.world n).now
    pub unpaused :
        (n : ℕ)
        → since ≤ n
        → (is_empty setup.config.pause_file ≡ true)
          ⊎ ((setup.world n).exists setup.config.pause_file ≡ false)
    pub ram :
        (n : ℕ)
        → since ≤ n
        → All (λ j. j.status ≡ pending → FitsRam setup.config (setup.world n) j []) jobs

-- A status that the scheduler acts on, or one that is final.
abbrev pub IsUsual : JobStatus → Type 0
IsUsual dormant = ⊥
IsUsual (other s) = ⊥
IsUsual _ = Unit

-- The job has a usual status, is feasible while it waits, and depends only on ids of less rank, so that
-- no dependencies are circular.
pub record IsDoable (setup : Setup) (rank : Text → ℕ) (job : Job) : Type 0 where
  pub usual : IsUsual job.status
  pub feasible : job.status ≡ pending → IsFeasible setup job
  pub ranked : All (λ dep. rank dep < rank job.id) job.depends_on
