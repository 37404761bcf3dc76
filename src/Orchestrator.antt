-- ===== src/Orchestrator.antt =====
-- nodepilot/orchestrator.py: the job list and the passes of one tick.
pub mod Dependents
pub mod Loop
pub mod Run
pub mod Startup
pub mod Steps
pub mod Order
pub mod Induction
pub mod Phases
pub mod Lifecycle
pub mod Settled
pub mod Course
pub mod Progress
pub mod Drained
pub mod Explained
pub mod Unlimited
pub mod Report
pub mod Knots
pub mod Kills
pub mod Saved
pub mod Total
pub mod Cooldown
pub mod Safety
use nodepilot.Common.{
  ℕ, zero, suc, ◌+◌, ◌*◌, Bool, true, false, not, ◌||◌, ◌&&◌, List, [], ◌∷◌, ◌++◌, Option, none,
  some, ltb, ◌==◌, if◌then◌else◌, Result, ok, err, Error, value_error, os_error, runtime_error,
  subprocess_error, ◌>>=◌, ◌>>◌, ℤ, pos, ltb_ℤ, get_elem?, set, length, any_of,
}
use nodepilot.Common.Text.{Text, codes, text_eq, is_empty}
use nodepilot.Common.Sort.{sort_by}
use nodepilot.Config.{
  Job, JobStatus, pending, running, done, failed, skipped, Config, is_pending, is_running, is_done,
  is_dead,
}
use nodepilot.Numa.Cores.{CoreSet, update}
use nodepilot.Numa.CpuList.{parse_cpu_list}
use nodepilot.Numa.Allocate.{Placement, Request, allocate}
use nodepilot.Admission.{can_launch}
use nodepilot.Runner.{Procs, Outcome, is_alive, reap, start, build_command}
use nodepilot.Runner.Pins.{enforce_pin}
use nodepilot.Host.{Host, World}
use Dependents.{by_id}

-- What an orchestrator is built with, and does not change.
pub record Setup : Type 0 where
  pub config : Config
  pub numa_nodes : List (ℕ × Text)
  pub reserved : CoreSet
  pub smt_secondary : CoreSet
  pub format_g : ℕ → Text
  pub world : World

-- The state beside the job list: the end of the cooldown, the kept process handles, and how many
-- observations of the world have been made.
pub record Aux : Type 0 where
  pub cooldown_until : ℕ
  pub procs : Procs
  pub reads : ℕ

pub record State : Type 0 where
  pub jobs : List Job
  pub aux : Aux

abbrev pub seconds : ℕ → ℕ
seconds n = n * 1000000

module _ (setup : Setup) where
  open setup use {config, world}

  -- The next observation of the world.
  abbrev pub look : Aux → Host
  look a = world a.reads

  abbrev pub next : Aux → Aux
  next a = record a { reads = suc a.reads }

  -- `_reap_finished` for a job whose process is gone: three observations, the last by
  -- `trigger_oom_cooldown`.
  unfoldable pub finish : Aux → Job → Result (Job × Aux)
  finish a job = do
    (outcome, procs) ← reap (look a) a.procs job
    let a' = record a { procs = procs; reads = suc a.reads }
    let job' = record job {
      status = outcome.status;
      failure_reason = outcome.reason;
      exit_code = outcome.exit_code;
      end_time = (look a').now;
    }
    let a'' = next a'
    let armed = record a'' {
      cooldown_until = (look a'').now + seconds config.oom_cooldown_seconds;
      reads = suc a''.reads;
    }
    ok (
      job',
      if not (is_done outcome.status) && text_eq outcome.reason (codes "oom_killed")
          then armed
          else a'',
    )

  -- One round of the loop of `_reap_finished`; the flag is `changed`.
  unfoldable pub reap_job : Aux → Job → Result (Job × Aux × Bool)
  unfolding finish
  reap_job a job = if not (is_running job.status) then ok (job, a, false) else (do
    alive ← is_alive (look a) a.procs job
    if alive
        then ok (job, next a, false)
        else (do (job', a') ← finish (next a) job; ok (job', a', true)))

  unfoldable pub reap_finished : Aux → List Job → Result (List Job × Aux × Bool)
  reap_finished a [] = ok ([], a, false)
  reap_finished a (job ∷ jobs) = do
    (job', a', changed) ← reap_job a job
    (jobs', a'', more) ← reap_finished a' jobs
    ok (job' ∷ jobs', a'', changed || more)

  -- `_enforce_pins` changes no state of the scheduler. An OSError is passed over, any other
  -- exception leaves the loop.
  unfoldable pub enforce_pins : Aux → List Job → Result Aux
  enforce_pins a [] = ok a
  enforce_pins a (job ∷ jobs) =
      if is_running job.status && not (is_empty job.cpu_list)
      then elim (enforce_pin (look a) job) [
        | ok pids ↦ enforce_pins (next a) jobs
        | err os_error ↦ enforce_pins (next a) jobs
        | err e ↦ err e
      ]
      else enforce_pins a jobs

  -- `_occupied_cores`
  occupied_from : CoreSet → List Job → Result CoreSet
  occupied_from occ [] = ok occ
  occupied_from occ (j ∷ js) = do
    occ' ←
        (if is_running j.status && not (is_empty j.cpu_list)
          then (do cores ← parse_cpu_list j.cpu_list; ok (update cores occ))
          else ok occ)
    occupied_from occ' js

  unfoldable pub occupied_cores : List Job → Result CoreSet
  unfolding occupied_from
  occupied_cores jobs = occupied_from setup.reserved jobs

  -- `_deps_satisfied`
  unfoldable pub deps_satisfied : List Job → List Text → Bool
  deps_satisfied jobs [] = true
  deps_satisfied jobs (dep ∷ deps) = elim (by_id jobs dep) [
    | none ↦ false
    | some upstream ↦ is_done upstream.status && deps_satisfied jobs deps
  ]

  unfoldable pub request : Job → CoreSet → Request
  request job occupied = record {
    n_cores = job.cores;
    occupied = occupied;
    numa_nodes = setup.numa_nodes;
    ram_gb = job.ram_gb;
    interleave_threshold_gb = config.interleave_threshold_gb;
    node_ram_cap_gb = 0;
    node_ram_safety_gb = 0;
    smt_secondary = setup.smt_secondary;
    node_memory = λ _. none;
  }

  abbrev place : Job → Placement → Job
  place job p = record job { cpu_list = p.cpu_list; numa_node = pos p.node }

  failed_launch : Aux → Job → Job × Aux
  failed_launch a job = (
    record job {
      status = failed;
      failure_reason = codes "launch_error: ";
      end_time = (look a).now;
    },
    next a,
  )

  -- `except (OSError, RuntimeError)`: the job fails. (The text of the exception is left out of
  -- the reason.) Any other exception leaves the tick.
  launch_failed : Aux → Job → Error → Result (Job × Aux)
  unfolding failed_launch
  launch_failed a job os_error = ok (failed_launch a job)
  launch_failed a job runtime_error = ok (failed_launch a job)
  launch_failed a job e = err e

  launched : Aux → Job → Text → Procs → Job × Aux
  launched a job session procs = (
    record job { session = session; status = running; start_time = (look a).now },
    record a { procs = procs; reads = suc a.reads },
  )

  start_placed : Aux → Job → Placement → Result (Job × Aux)
  unfolding launch_failed launched
  start_placed a job p =
      let argv = build_command setup.format_g (look a) job p config in
      elim (start config (look (next a)) a.procs job argv) [
        | ok (session, procs) ↦ ok (launched (next (next a)) job session procs)
        | err e ↦ launch_failed (next (next a)) job e
      ]

  -- `_launch`; `none` if no placement is free and nothing changes.
  unfoldable pub launch : Aux → List Job → Job → Result (Option (Job × Aux))
  unfolding start_placed request
  launch a jobs job = do
    occupied ← occupied_cores jobs
    found ← allocate (request job occupied)
    elim found [ none ↦ ok none | some p ↦ (do r ← start_placed a (place job p) p; ok (some r)) ]

  -- The body of the loop of `_launch_pending`, for the job at index `i`.
  unfoldable pub try_launch : State → ℕ → Job → Result (State × Bool)
  try_launch st i job =
      let a = next st.aux in
      if not (deps_satisfied st.jobs job.depends_on)
      then ok (st, false)
      else if not (can_launch config st.aux.cooldown_until (look st.aux) job st.jobs).ok
      then ok (record st { aux = a }, false)
      else (do
        r ← launch a st.jobs job
        elim r [
          | none ↦ ok (record st { aux = a }, false)
          | some (job', a') ↦ ok (record { jobs = set st.jobs i job'; aux = a' }, true)
        ])
