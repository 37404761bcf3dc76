-- ===== src/Admission.antt =====
-- nodepilot/admission.py: whether a pending job may start now.
pub mod Gate
use nodepilot.Common.{
  ℕ, zero, suc, ◌+◌, ◌-◌, ◌*◌, Bool, true, false, not, ◌||◌, ◌&&◌, List, [], ◌∷◌, map, Option, none,
  some, leb, ltb, ◌==◌, if◌then◌else◌, length, keep, any_of,
}
use nodepilot.Common.Text.{Text, codes, is_empty}
use nodepilot.Config.{Job, Config, is_running, effective_nprocs}
use nodepilot.Cgroups
use nodepilot.Host.{Host}
use nodepilot.Proc.{read_meminfo}

-- The reason's text as a tag with the values that are printed in it.
pub data Reason : Type 0 where
  ready : Reason
  paused : Text → Reason
  cooldown : (remaining : ℕ) → Reason
  exclusive_running : (owner : Option Text) → Reason
  others_running : Reason
  concurrency_cap : (count max_concurrent : ℕ) → Reason
  core_budget : (need used budget : ℕ) → Reason
  slice_ram : (used need cap : ℕ) → Reason
  declared_ram : (need declared budget : ℕ) → Reason
  live_ram : (free need safety : ℕ) → Reason
  maxcore_warning : (ram_gb maxcore nprocs : ℕ) → Reason

pub record Decision : Type 0 where
  pub ok : Bool
  pub reason : Reason

abbrev refuse : Reason → Decision
refuse reason = record { ok = false; reason = reason }

abbrev allow : Reason → Decision
allow reason = record { ok = true; reason = reason }

abbrev pub running_jobs : List Job → List Job
running_jobs = keep (λ j. is_running j.status)

-- `sum(f(j) for j in jobs)`
unfoldable pub sum_by : (Job → ℕ) → List Job → ℕ
sum_by f [] = 0
sum_by f (j ∷ js) = f j + sum_by f js

unfoldable pub running_cores : List Job → ℕ
running_cores jobs = sum_by (λ j. j.cores) (running_jobs jobs)

unfoldable pub running_ram_gb : List Job → ℕ
running_ram_gb jobs = sum_by (λ j. j.ram_gb) (running_jobs jobs)

unfoldable pub running_count : List Job → ℕ
running_count jobs = sum_by (λ _. 1) (running_jobs jobs)

-- `job.ram_gb >= maxcore * nprocs * 1.3 / 1024`, in bytes and without fractions: `maxcore` is in
-- MiB, of 1048576 bytes.
unfoldable pub maxcore_sane : Job → Bool
maxcore_sane job =
    if job.maxcore == 0
    then true
    else leb (job.maxcore * effective_nprocs job * 13 * 1048576) (job.ram_gb * 10)

-- AdmissionController.in_cooldown; the subtraction stops at 0 like the `max`.
unfoldable pub in_cooldown : ℕ → Host → ℕ
in_cooldown cooldown_until h = cooldown_until - h.now

unfoldable pub slice_used_gb : Config → Host → Option ℕ
slice_used_gb cfg h = if is_empty cfg.memory_slice then none else Cgroups.used_gb h cfg.memory_slice

unfoldable pub slice_cap_gb : Config → Host → Option ℕ
slice_cap_gb cfg h = if is_empty cfg.memory_slice then none else Cgroups.max_gb h cfg.memory_slice

-- `_free_ram_gb`
unfoldable pub free_ram_gb : Host → Option ℕ
free_ram_gb h = read_meminfo h (codes "MemAvailable:")

-- `safe_cap` is `cap - cfg.ram_safety_gb`, which may be negative: the margin is added to the other
-- side instead.
unfoldable pub check_ram : Config → Host → Job → List Job → Decision
check_ram cfg h job running = elim (slice_used_gb cfg h) [
  | some used ↦
      let cap : ℕ = elim (slice_cap_gb cfg h) [ none ↦ cfg.ram_budget_gb | some c ↦ c ] in
      if ltb cap (used + job.ram_gb + cfg.ram_safety_gb)
      then refuse (slice_ram used job.ram_gb cap)
      else allow ready
  | none ↦
      let declared = sum_by (λ j. j.ram_gb) running in
      if ltb cfg.ram_budget_gb (declared + job.ram_gb)
      then refuse (declared_ram job.ram_gb declared cfg.ram_budget_gb)
      else elim (free_ram_gb h) [
        | none ↦ allow ready
        | some free ↦
            if ltb free (job.ram_gb + cfg.ram_safety_gb)
            then refuse (live_ram free job.ram_gb cfg.ram_safety_gb)
            else allow ready
      ]
]

-- `next(j.id for j in running if j.exclusive)`
first_exclusive : List Job → Option Text
first_exclusive [] = none
first_exclusive (j ∷ js) = let rest = first_exclusive js in if j.exclusive then some j.id else rest

is_none : List Job → Bool
is_none [] = true
is_none (j ∷ js) = false

-- The checks 4 to 7 of `can_launch`.
check_budgets : Config → Host → Job → List Job → Decision
check_budgets cfg h job running =
    let cores_used = sum_by (λ j. j.cores) running in
    if leb cfg.max_concurrent (length running)
    then refuse (concurrency_cap (length running) cfg.max_concurrent)
    else if ltb cfg.core_budget (cores_used + job.cores)
    then refuse (core_budget job.cores cores_used cfg.core_budget)
    else let ram = check_ram cfg h job running in
      if not ram.ok
      then ram
      else if maxcore_sane job
      then allow ready
      else allow (maxcore_warning job.ram_gb job.maxcore (effective_nprocs job))

unfoldable pub can_launch : Config → (cooldown_until : ℕ) → Host → Job → List Job → Decision
unfolding check_budgets first_exclusive is_none
can_launch cfg cooldown_until h job jobs =
    let remaining = in_cooldown cooldown_until h in
    let running = running_jobs jobs in
    if not (is_empty cfg.pause_file) && h.exists cfg.pause_file
    then refuse (paused cfg.pause_file)
    else if ltb 0 remaining
    then refuse (cooldown remaining)
    else if any_of (λ j. j.exclusive) running
    then refuse (exclusive_running (first_exclusive running))
    else if job.exclusive && not (is_none running)
    then refuse others_running
    else check_budgets cfg h job running
