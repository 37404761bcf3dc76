-- ===== src/Orchestrator/Safety.antt =====
-- What no schedule may break: the budgets, the exclusive mutex, and one running job to a core.
pub mod Sums
pub mod Passes
pub mod Occupied
pub mod Launches
pub mod Ticks
use nodepilot.Common.{ℕ, ◌+◌, ◌≤◌, ◌≡◌, ◌⊎◌, Bool, [], List, if◌then◌else◌, ok, err}
use nodepilot.Config.{Job}
use nodepilot.Numa.Cores.{CoreSet, contains}
use nodepilot.Numa.CpuList.{parse_cpu_list}
use nodepilot.Admission.{sum_by, running_jobs, running_cores, running_count}
use nodepilot.Orchestrator.{Setup}

-- The cores of a job's CPU list.
unfoldable pub held : Job → CoreSet
held j = elim (parse_cpu_list j.cpu_list) [ ok s ↦ s | err e ↦ [] ]

abbrev pub one_if : Bool → ℕ
one_if b = if b then 1 else 0

-- How many running jobs hold the core, and how many are exclusive.
abbrev pub holders : ℕ → List Job → ℕ
holders c jobs = sum_by (λ j. one_if (contains c (held j))) (running_jobs jobs)

abbrev pub exclusive_count : List Job → ℕ
exclusive_count jobs = sum_by (λ j. one_if j.exclusive) (running_jobs jobs)

pub record IsSafe (setup : Setup) (jobs : List Job) : Type 0 where
  pub count : running_count jobs ≤ setup.config.max_concurrent
  pub cores : running_cores jobs ≤ setup.config.core_budget
  pub mutex : (exclusive_count jobs ≡ 0) ⊎ (running_count jobs ≤ 1)
  pub apart : (c : ℕ) → holders c jobs + one_if (contains c setup.reserved) ≤ 1
