-- ===== src/Orchestrator/Startup.antt =====
-- __init__, from_queue and reset of nodepilot/orchestrator.py. (The warning about an edited queue only
-- logs.)
pub mod Resume
use nodepilot.Common.{
  ℕ, Bool, true, false, List, [], Option, none, some, if◌then◌else◌, Result, ok, err, runtime_error,
  not, ◌&&◌, ◌>>=◌,
}
use nodepilot.Common.Text.{Text, codes, text_eq}
use nodepilot.Config.{Job, Config, numa_nodes_resolved}
use nodepilot.Host.{World}
use nodepilot.Numa.CpuList.{parse_cpu_list}
use nodepilot.Numa.Topology.{detect, detect_smt_secondary}
use nodepilot.Queue.{Loader, load_queue}
use nodepilot.StateFile.{Disk, Json, load_state, state_exists, unlink}
use nodepilot.Orchestrator.{Setup, State}

-- What the program is started with.
pub record Start : Type 0 where
  pub loader : Loader
  pub json : Json
  pub format_g : ℕ → Text
  pub world : World

module _ (start : Start) where
  open start use {loader, json, format_g, world}

  -- `Runner(config)`
  unfoldable pub check_runner : Config → Result (Unit {0})
  check_runner config =
      if text_eq config.runner (codes "tmux") && not (loader.host.which (codes "tmux"))
      then err runtime_error
      else ok tt

  -- `Orchestrator(config, jobs)`
  unfoldable pub init : Config → List Job → Result (Setup × State)
  init config jobs = do
    _ ← check_runner config
    reserved ← parse_cpu_list config.reserved_cores
    ok (
      record {
        config = config;
        numa_nodes = numa_nodes_resolved (detect loader.host) config;
        reserved = reserved;
        smt_secondary = detect_smt_secondary loader.host;
        format_g = format_g;
        world = world;
      },
      record { jobs = jobs; aux = record { cooldown_until = 0; procs = []; reads = 0 } },
    )

  -- The saved jobs if there are any, and those of the queue otherwise.
  unfoldable pub jobs_of : Disk → Config → List Job → Result (Option (List Job))
  jobs_of disk config queue_jobs =
      if state_exists disk config.state_path
      then load_state json disk config.state_path
      else ok (some queue_jobs)

  unfoldable pub init_with : Config → Option (List Job) → Result (Option (Setup × State))
  init_with config none = ok none
  init_with config (some jobs) = do r ← init config jobs; ok (some r)

  unfoldable pub from_loaded : Disk → Option (Config × List Job) → Result (Option (Setup × State))
  from_loaded disk none = ok none
  from_loaded disk (some (config, queue_jobs)) = do
    jobs ← jobs_of disk config queue_jobs
    init_with config jobs

  -- `from_queue`; `none` for a document that is not followed, as in `load_queue`.
  unfoldable pub from_queue : Disk → Text → Result (Option (Setup × State))
  from_queue disk path = load_queue loader path >>= from_loaded disk

-- `reset`
unfoldable pub reset : Config → Disk → Disk
reset config disk =
    if state_exists disk config.state_path then unlink config.state_path disk else disk
