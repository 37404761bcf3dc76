-- ===== src/Config.antt =====
-- nodepilot/config.py: the job and its status, the scheduler's tunables, and the check of ids.
mod Document
pub mod Ids
pub use Document.*
use nodepilot.Common.{
  ℕ, zero, ◌-◌, ◌≡◌, Bool, true, false, ◌||◌, List, [], ◌∷◌, Option, none, ltb, ◌==◌, if◌then◌else◌,
  Result, ok, err, value_error, ℤ, pos, negsuc, any_of,
}
use nodepilot.Common.Text.{Text, codes, text_eq, is_empty}

-- The constants of `JobStatus`. `other` is any other text that a state file may hold.
pub data JobStatus : Type 0 where
  pending running done failed skipped dormant : JobStatus
  other : Text → JobStatus

-- `status == JobStatus.X`
unfoldable pub is_pending : JobStatus → Bool
is_pending pending = true
is_pending _ = false

unfoldable pub is_running : JobStatus → Bool
is_running running = true
is_running _ = false

unfoldable pub is_done : JobStatus → Bool
is_done done = true
is_done _ = false

-- `status in (FAILED, SKIPPED)`
unfoldable pub is_dead : JobStatus → Bool
is_dead failed = true
is_dead skipped = true
is_dead _ = false

-- Amounts of RAM are whole bytes (a GiB is 2 ^ 30), and times are whole microseconds.
pub record Job : Type 0 where
  pub id : Text
  pub command : Text
  pub cores : ℕ
  pub ram_gb : ℕ
  pub maxcore : ℕ
  pub nprocs : ℕ
  pub depends_on : List Text
  pub priority : ℤ
  pub exclusive : Bool
  pub workdir : Text
  pub env : List (Text × Text)
  pub status : JobStatus
  pub session : Text
  pub cpu_list : Text
  pub numa_node : ℤ
  pub start_time : ℕ
  pub end_time : ℕ
  pub failure_reason : Text
  pub exit_code : Option ℤ
  pub metadata : Fields

abbrev pub gib : ℕ
gib = 1073741824

-- A job with its two required fields; the others have their defaults.
abbrev pub new_job : Text → Text → Job
new_job id command = record {
  id = id;
  command = command;
  cores = 1;
  ram_gb = 4294967296;
  maxcore = 0;
  nprocs = 0;
  depends_on = [];
  priority = pos 100;
  exclusive = false;
  workdir = [];
  env = [];
  status = pending;
  session = [];
  cpu_list = [];
  numa_node = negsuc 0;
  start_time = 0;
  end_time = 0;
  failure_reason = [];
  exit_code = none;
  metadata = end;
}

unfoldable pub effective_nprocs : Job → ℕ
effective_nprocs job = if ltb 0 job.nprocs then job.nprocs else job.cores

unfoldable pub is_active : Job → Bool
unfolding is_running
is_active job = is_running job.status

unfoldable pub is_terminal : Job → Bool
unfolding is_done is_dead
is_terminal job = is_done job.status || is_dead job.status

-- The hours as a count of microseconds.
unfoldable pub runtime_hours : Job → ℤ
runtime_hours job =
    if job.start_time == 0 || job.end_time == 0
    then pos 0
    else if ltb job.end_time job.start_time
    then negsuc (job.start_time - job.end_time - 1)
    else pos (job.end_time - job.start_time)

pub record Config : Type 0 where
  pub max_concurrent : ℕ
  pub ram_budget_gb : ℕ
  pub core_budget : ℕ
  pub ram_safety_gb : ℕ
  pub numa_nodes : List (ℕ × Text)
  pub reserved_cores : Text
  pub interleave_threshold_gb : ℕ
  pub memory_slice : Text
  pub orchestrator_oom_score_adj : ℤ
  pub job_oom_score_adj : ℤ
  pub oom_cooldown_seconds : ℕ
  pub runner : Text
  pub poll_interval : ℕ
  pub state_path : Text
  pub log_path : Text
  pub pause_file : Text

-- The budgets of the host stand in for those left at 0.
unfoldable pub post_init : (host_cores host_ram : ℕ) → Config → Config
post_init host_cores host_ram cfg = record cfg {
  core_budget = if cfg.core_budget == 0 then host_cores else cfg.core_budget;
  ram_budget_gb = if cfg.ram_budget_gb == 0 then host_ram else cfg.ram_budget_gb;
}

-- `detected` is what `numa.detect()` returns.
unfoldable pub numa_nodes_resolved : (detected : List (ℕ × Text)) → Config → List (ℕ × Text)
numa_nodes_resolved detected cfg = elim cfg.numa_nodes [ [] ↦ detected | n ∷ ns ↦ n ∷ ns ]

-- The loop of `_validate_unique_ids`.
unique_from : List Text → List Job → Result (Unit {0})
unique_from seen [] = ok tt
unique_from seen (job ∷ jobs) =
    let rest = unique_from (job.id ∷ seen) jobs in
    if any_of (text_eq job.id) seen then err value_error else rest

unfoldable pub validate_unique_ids : List Job → Result (Unit {0})
unfolding unique_from
validate_unique_ids jobs = unique_from [] jobs
