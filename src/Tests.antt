-- ===== src/Tests.antt =====
-- Data for the tests: a host of two NUMA nodes, a queue of two jobs, and a world in which a started
-- process gets the pid 7.
mod Placement
mod Schedule
mod Topology
mod Loading
mod Courses
mod Draining
mod Reports
mod Commands
mod Shown
mod Processes
use nodepilot.Common.{
  ℕ, Bool, true, false, List, [], ◌∷◌, Option, none, some, Result, ok, err, ℤ, pos, negsuc,
}
use nodepilot.Common.Text.{Text, codes}
use nodepilot.Config.{Job, Config, new_job}
use nodepilot.Host.{Host, World, no_process}
use nodepilot.Orchestrator.{Setup, State}
use nodepilot.Orchestrator.Run.{Run}

abbrev pub quiet_host : Host
quiet_host = record {
  now = 1000;
  uid = 1000;
  runtime_dir = none;
  exists = λ _. false;
  is_dir = λ _. false;
  read_text = λ _. none;
  which = λ _. false;
  poll = λ _. none;
  kill_zero = λ _. no_process;
  getpgid = λ _. none;
  glob = λ _ _. [];
  affinity = none;
  cpu_count = none;
  proc = [];
  has_session = λ _. false;
  journal = none;
  pgrep = λ _. [];
  popen = λ _. ok 7;
  write_state = ok tt;
  new_session = λ _ _. ok tt;
}

abbrev pub nodes : List (ℕ × Text)
nodes = (0, codes "0-3") ∷ (1, codes "4-7") ∷ []

abbrev pub config : Config
config = record {
  max_concurrent = 2;
  ram_budget_gb = 68719476736;
  core_budget = 6;
  ram_safety_gb = 0;
  numa_nodes = nodes;
  reserved_cores = codes "0";
  interleave_threshold_gb = 0;
  memory_slice = [];
  orchestrator_oom_score_adj = pos 0;
  job_oom_score_adj = pos 0;
  oom_cooldown_seconds = 60;
  runner = codes "subprocess";
  poll_interval = 1;
  state_path = codes "state";
  log_path = codes "log";
  pause_file = [];
}

abbrev pub setup : Setup
setup = record {
  config = config;
  numa_nodes = nodes;
  reserved = 0 ∷ [];
  smt_secondary = [];
  format_g = λ _. [];
  world = λ _. quiet_host;
}

abbrev pub first_job : Job
first_job = record (new_job (codes "a") (codes "true")) { cores = 3 }

abbrev pub second_job : Job
second_job = record (new_job (codes "b") (codes "true")) { depends_on = codes "a" ∷ [] }

abbrev pub queue : List Job
queue = second_job ∷ first_job ∷ []

abbrev pub initial : State
initial = record { jobs = queue; aux = record { cooldown_until = 0; procs = []; reads = 0 } }

abbrev pub initial_run : Run
initial_run = record { state = initial; saved = some queue }
