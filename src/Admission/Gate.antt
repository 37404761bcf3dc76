-- ===== src/Admission/Gate.antt =====
-- When `can_launch` lets a job through, stated without the order of the checks.
use nodepilot.Common.{
  ℕ, ◌+◌, ◌≤◌, ◌<◌, ◌≡◌, refl, ◌↔◌, ◌⊎◌, true, false, List, [], ◌∷◌, none, some, arith, All, any_of,
  length,
}
use nodepilot.Common.Text.{is_empty}
use nodepilot.Config.{Job, Config}
use nodepilot.Host.{Host}
use nodepilot.Admission.{
  free_ram_gb, running_jobs, running_cores, running_ram_gb, slice_used_gb, slice_cap_gb, check_ram,
  check_budgets, can_launch, in_cooldown, is_none,
}

-- The ceiling of the slice, or the configured budget where the slice has none.
abbrev pub ceiling : Config → Host → ℕ
ceiling cfg h = elim (slice_cap_gb cfg h) [ none ↦ cfg.ram_budget_gb | some c ↦ c ]

-- The job's RAM and the safety margin fit on top of what the slice uses; or no slice is live, the
-- declared RAM fits the budget, and so does the job with the margin in the free memory, if that
-- is known.
abbrev pub FitsRam : Config → Host → Job → List Job → Type 0
FitsRam cfg h job jobs =
    ((used : ℕ) × (slice_used_gb cfg h ≡ some used)
      × (used + job.ram_gb + cfg.ram_safety_gb ≤ ceiling cfg h))
    ⊎ ((slice_used_gb cfg h ≡ none)
        × (running_ram_gb jobs + job.ram_gb ≤ cfg.ram_budget_gb)
        × ((free_ram_gb h ≡ none)
            ⊎ ((free : ℕ) × (free_ram_gb h ≡ some free) × (job.ram_gb + cfg.ram_safety_gb ≤ free))))

pub record Admits (cfg : Config) (cooldown_until : ℕ) (h : Host) (job : Job) (jobs : List Job)
    : Type 0 where
  pub unpaused : (is_empty cfg.pause_file ≡ true) ⊎ (h.exists cfg.pause_file ≡ false)
  pub cooled : cooldown_until ≤ h.now
  pub unblocked : All (λ j. j.exclusive ≡ false) (running_jobs jobs)
  pub alone : (job.exclusive ≡ false) ⊎ (running_jobs jobs ≡ [])
  pub slot : length (running_jobs jobs) < cfg.max_concurrent
  pub cores : running_cores jobs + job.cores ≤ cfg.core_budget
  pub ram : FitsRam cfg h job jobs

any_of-exclusive :
    (js : List Job) → (any_of (λ j. j.exclusive) js ≡ false) ↔ All (λ j. j.exclusive ≡ false) js
any_of-exclusive [] = (λ _. tt, λ _. refl)
any_of-exclusive (j ∷ js) = (
  λ e. (ground arith, (any_of-exclusive js).0 (ground arith)),
  λ h. ground (arith, (any_of-exclusive js).1 h.1),
)

is_none_iff : (js : List Job) → (is_none js ≡ true) ↔ (js ≡ [])
unfolding is_none
is_none_iff [] = (λ _. refl, λ _. refl)
is_none_iff (j ∷ js) = (λ e. cc, λ e. cc)

module _ (cfg : Config) (h : Host) (job : Job) (jobs : List Job) where
  check_ram_iff : ((check_ram cfg h job (running_jobs jobs)).ok ≡ true) ↔ FitsRam cfg h job jobs
  unfolding check_ram running_ram_gb
  check_ram_iff = (λ e. ground arith, λ f. ground arith)

module _ (cfg : Config) (cooldown_until : ℕ) (h : Host) (job : Job) (jobs : List Job) where
  abbrev Budgets : Type 0
  Budgets =
      (length (running_jobs jobs) < cfg.max_concurrent)
      × (running_cores jobs + job.cores ≤ cfg.core_budget)
      × FitsRam cfg h job jobs

  check_budgets_iff : ((check_budgets cfg h job (running_jobs jobs)).ok ≡ true) ↔ Budgets
  unfolding check_budgets running_cores
  check_budgets_iff = (
    λ e. (ground arith, ground arith, (check_ram_iff cfg h job jobs).0 (ground arith)),
    λ (slot, cores, ram). ground (arith, (check_ram_iff cfg h job jobs).1 ram),
  )

  admits :
      (can_launch cfg cooldown_until h job jobs).ok ≡ true → Admits cfg cooldown_until h job jobs
  unfolding can_launch in_cooldown
  admits e =
      let idle = any_of-exclusive (running_jobs jobs) in
      let empty = is_none_iff (running_jobs jobs) in
      let budgets = check_budgets_iff.0 (ground arith) in
      record {
        unpaused = ground arith;
        cooled = ground arith;
        unblocked = idle.0 (ground arith);
        alone = ground (arith, empty.0);
        slot = budgets.0;
        cores = budgets.1;
        ram = budgets.2;
      }

  launches :
      Admits cfg cooldown_until h job jobs → (can_launch cfg cooldown_until h job jobs).ok ≡ true
  unfolding can_launch in_cooldown
  launches a = ground (
    arith,
    a.unpaused,
    a.alone,
    (any_of-exclusive (running_jobs jobs)).1 a.unblocked,
    (is_none_iff (running_jobs jobs)).1,
    check_budgets_iff.1 (a.slot, a.cores, a.ram),
  )

  -- A job is let through exactly when launches are not paused, the cooldown is over, no running
  -- job is exclusive, an exclusive job finds nothing running, and the job fits the cap on
  -- running jobs, the core budget and the RAM limits.
  pub can_launch_iff :
      ((can_launch cfg cooldown_until h job jobs).ok ≡ true) ↔ Admits cfg cooldown_until h job jobs
  can_launch_iff = (admits, launches)
