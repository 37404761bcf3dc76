-- ===== src/Tests/Commands.antt =====
-- The theorems on the commands, the log and the table, at concrete inputs.
use nodepilot.Common.{◌≡◌, refl, true, false, List, [], ◌∷◌, none, some, ok, ◌⊎◌, All}
use nodepilot.Common.Text.{codes, text_eq, starts_with, strip, is_empty, join}
use nodepilot.Common.Sort.{sort_by}
use nodepilot.Config.{Job, is_running}
use nodepilot.StateFile.{Disk, save_state}
use nodepilot.Logs.{stderr, get_logger, Logger, kv}
use nodepilot.Orchestrator.{Setup, State}
use nodepilot.Orchestrator.Run.{save_if, Run, kill, kill_from, end_job}
use nodepilot.Orchestrator.Kills.{is_target, Killed, kill_lem}
use nodepilot.Orchestrator.Startup.{from_queue, init, init_with, check_runner}
use nodepilot.Orchestrator.Startup.Resume.{from_queue-save_state}
use nodepilot.Common.{◌∙◌, map, if◌then◌else◌}
use nodepilot.Config.{numa_nodes_resolved}
use nodepilot.Numa.Topology.{detect, sysfs_nodes, or_one_node, count_or_one, detect_smt_secondary}
use nodepilot.Numa.Cores.{range, update}
use nodepilot.Common.Decimal.{decimal, int}
use nodepilot.Numa.CpuList.{parse_cpu_list, format_cpu_list}
use nodepilot.Runner
use nodepilot.Runner.{is_tmux, is_pid, pid_of}
use nodepilot.Cli.{Exit, kill_job, main, tally, stored}
use nodepilot.Cli.Counts.{count_of, jobs_with, tally-sort_by}
use nodepilot.Cli.Commands.{KillExit, main-kill_job}
use nodepilot.Tests.{queue, quiet_host}
use nodepilot.Tests.Schedule.{after_tick}
use nodepilot.Tests.Loading.{
  start, json, loaded_job, load_sample, canonical, no_files, state_path, loaded_config,
}

abbrev fresh_logger : Logger
fresh_logger = record {
  configured = false;
  level = 0;
  handlers = [];
  propagate = true;
  warnings = [];
}

-- A log file that cannot be opened leaves a warning.
get_logger_sample : get_logger (λ p. false) (some (codes "log")) 20 fresh_logger ≡ record {
  configured = true;
  level = 20;
  handlers = stderr ∷ [];
  propagate = false;
  warnings = codes "could not open log file log" ∷ [];
}
unfolding get_logger is_empty
get_logger_sample = refl

kv_sample :
    kv (
      (codes "job", some (codes "a"))
      ∷ (codes "node", none)
      ∷ (codes "cores", some (codes "4"))
      ∷ [])
    ≡ codes "job=a cores=4"
unfolding kv join
kv_sample = refl

tally-sort_by_example :
    count_of (codes "pending") (tally (sort_by (λ a b. false) queue) [])
    ≡ jobs_with (codes "pending") queue
tally-sort_by_example = tally-sort_by (codes "pending") (λ a b. false) queue

-- A disk with the saved jobs, of which the second runs.
abbrev disk : Disk
disk = save_state json 5 state_path after_tick.jobs no_files

abbrev resumed_setup : Setup
resumed_setup = record {
  config = loaded_config;
  numa_nodes = (0, codes "0") ∷ [];
  reserved = [];
  smt_secondary = [];
  format_g = λ n. [];
  world = λ n. quiet_host;
}

abbrev resumed : State
resumed = record {
  jobs = after_tick.jobs;
  aux = record { cooldown_until = 0; procs = []; reads = 0 };
}

init_sample :
    init_with start loaded_config (some after_tick.jobs) ≡ ok (some (resumed_setup, resumed))
unfolding init_with init numa_nodes_resolved detect sysfs_nodes or_one_node count_or_one range
    detect_smt_secondary parse_cpu_list format_cpu_list strip is_empty update join decimal
    check_runner text_eq
init_sample = refl

resumed_sample : from_queue start disk (codes "q") ≡ ok (some (resumed_setup, resumed))
resumed_sample =
    from_queue-save_state start (codes "q") loaded_config (loaded_job ∷ []) load_sample 5
      after_tick.jobs no_files refl canonical
    ∙ init_sample

abbrev killed_jobs : List Job
killed_jobs =
    map (λ j. if text_eq j.id (codes "a") then end_job (codes "killed_by_user") 1000 j else j)
      after_tick.jobs

abbrev killed_exit : Exit
killed_exit = record { code = 0; out = []; disk = save_state json 9 state_path killed_jobs disk }

kill_sample : main start 9 disk (kill_job (codes "q") (codes "a")) ≡ ok (some killed_exit)
unfolding save_if main kill kill_from text_eq is_running stored Runner.kill is_tmux starts_with
    is_pid pid_of int
kill_sample = rw (main, resumed_sample) refl

main-kill_job_example : KillExit start 9 disk (codes "a") resumed_setup resumed killed_exit
main-kill_job_example =
    main-kill_job start 9 disk (codes "a") (codes "q") resumed_setup resumed killed_exit
      resumed_sample kill_sample

abbrev killed_run : Run
killed_run = record {
  state = record { jobs = killed_jobs; aux = record { cooldown_until = 0; procs = []; reads = 1 } };
  saved = some killed_jobs;
}

kill_run_sample :
    kill resumed_setup (codes "a") (record { state = resumed; saved = none })
    ≡ ok (killed_run, true)
unfolding save_if kill kill_from text_eq is_running Runner.kill is_tmux starts_with is_pid pid_of
    int Runner.pop
kill_run_sample = refl

kill_lem_example :
    (true ≡ false)
      × (killed_run ≡ record { state = resumed; saved = none })
      × All (λ j. is_target (codes "a") j ≡ false) after_tick.jobs
    ⊎ (true ≡ true)
      × Killed (codes "a") after_tick.jobs killed_run.state.jobs
      × (killed_run.saved ≡ some killed_run.state.jobs)
kill_lem_example =
    kill_lem resumed_setup (codes "a") (record { state = resumed; saved = none }) killed_run true
      kill_run_sample
