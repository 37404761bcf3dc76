-- ===== src/Tests/Shown.antt =====
-- The commands `run` and `status` one after the other: a saved job whose process is gone is a zombie,
-- and the job that depends on it is skipped.
use nodepilot.Common.{◌≡◌, refl, true, List, [], ◌∷◌, some, ok, if◌then◌else◌, ◌∙◌}
use nodepilot.Common.Text.{Text, codes, text_eq, starts_with, strip, is_empty, join}
use nodepilot.Common.Sort.{sort_by}
use nodepilot.Common.Decimal.{decimal, int}
use nodepilot.Config.{
  Job, Value, real, obj, field, failed, skipped, is_running, is_pending, is_dead,
  numa_nodes_resolved,
}
use nodepilot.Cgroups.{scope_is_active, cgroup_dir, slice_dir_candidates}
use nodepilot.Numa.Topology.{detect, sysfs_nodes, or_one_node, count_or_one, detect_smt_secondary}
use nodepilot.Numa.Cores.{range, update}
use nodepilot.Numa.CpuList.{parse_cpu_list, format_cpu_list}
use nodepilot.Queue.Dict.{status_of, status_text}
use nodepilot.Runner.{is_alive, is_tmux, is_pid, pid_of, has_handle, pid_alive}
use nodepilot.StateFile.{Disk, Json, payload, save_state}
use nodepilot.StateFile.Atomic.{AllCanonical}
use nodepilot.Orchestrator.{Setup, State, reap_finished, reap_job, enforce_pins}
use nodepilot.Orchestrator.Dependents.{
  by_id, blocker, mark_job, mark_pass, mark_loop, mark_dead_dependents,
}
use nodepilot.Orchestrator.Loop.{tick, launch_pending, launch_each, pending_from}
use nodepilot.Orchestrator.Run.{
  save_if, Run, run, run_loop, run_tick, reconcile_zombies, reconcile_from, reconcile_job,
  is_drained,
}
use nodepilot.Orchestrator.Startup.{Start, from_queue, init, init_with, check_runner}
use nodepilot.Orchestrator.Startup.Resume.{from_queue-save_state}
use nodepilot.Cli.{Exit, run_queue, show_status, main, table, fresh_run}
use nodepilot.Cli.Shown.{main-run_queue}
use nodepilot.Tests.{quiet_host, second_job}
use nodepilot.Tests.Schedule.{after_tick, launched_job}
use nodepilot.Tests.Loading.{
  loader, loaded_job, load_sample, canonical, no_files, state_path, loaded_config,
}

abbrev ended_jobs : List Job
ended_jobs =
    record second_job {
      status = skipped;
      failure_reason = codes "dependency_failed: a";
      end_time = 1000;
    }
    ∷ record launched_job {
      status = failed;
      failure_reason = codes "zombie_at_restart";
      end_time = 1000;
      cpu_list = [];
    }
    ∷ []

-- A JSON library that knows two documents by their time stamps.
stamp : Value → Text
stamp (obj (field k (real n) fields)) = n ∷ []
stamp v = []

abbrev json : Json
json = record {
  dumps = stamp;
  loads = λ text. ok (
      if text_eq text (stamp (payload 5 []))
      then payload 5 after_tick.jobs
      else payload 9 ended_jobs);
}

abbrev start : Start
start = record { loader = loader; json = json; format_g = λ n. []; world = λ n. quiet_host }

abbrev disk : Disk
disk = save_state json 5 state_path after_tick.jobs no_files

abbrev resumed_setup : Setup
resumed_setup = record {
  config = loaded_config;
  numa_nodes = (0, codes "0") ∷ [];
  reserved = [];
  smt_secondary = [];
  format_g = λ n. [];
  world = λ n. quiet_host;
}

abbrev resumed : State
resumed = record {
  jobs = after_tick.jobs;
  aux = record { cooldown_until = 0; procs = []; reads = 0 };
}

init_sample :
    init_with start loaded_config (some after_tick.jobs) ≡ ok (some (resumed_setup, resumed))
unfolding init_with init numa_nodes_resolved detect sysfs_nodes or_one_node count_or_one range
    detect_smt_secondary parse_cpu_list format_cpu_list strip is_empty update join decimal
    check_runner text_eq
init_sample = refl

resumed_sample : from_queue start disk (codes "q") ≡ ok (some (resumed_setup, resumed))
unfolding text_eq payload stamp
resumed_sample =
    from_queue-save_state start (codes "q") loaded_config (loaded_job ∷ []) load_sample 5
      after_tick.jobs no_files refl canonical
    ∙ init_sample

abbrev ended_run : Run
ended_run = record {
  state = record { jobs = ended_jobs; aux = record { cooldown_until = 0; procs = []; reads = 11 } };
  saved = some ended_jobs;
}

run_sample : run resumed_setup 1 (fresh_run resumed) ≡ ok (ended_run, true)
unfolding save_if run run_loop run_tick is_drained tick reconcile_zombies reconcile_from
    reconcile_job reap_finished reap_job mark_dead_dependents mark_loop mark_pass mark_job blocker
    by_id enforce_pins launch_pending pending_from launch_each text_eq is_pending is_running is_dead
    sort_by is_alive is_tmux is_pid pid_of has_handle pid_alive starts_with int is_empty
    scope_is_active cgroup_dir slice_dir_candidates
run_sample = refl

ended_canonical : AllCanonical ended_jobs
unfolding status_of status_text text_eq
ended_canonical = (refl, (refl, tt))

main-run_queue_example :
    (exit : Exit) × (main start 9 disk (run_queue (codes "q") 1) ≡ ok (some exit))
    × (exit.code ≡ 0)
    × (main start 11 exit.disk (show_status (codes "q"))
        ≡ ok (some (record { code = 0; out = table start.format_g ended_jobs; disk = exit.disk })))
unfolding text_eq payload stamp
main-run_queue_example =
    main-run_queue start 9 11 disk (codes "q") loaded_config (loaded_job ∷ []) resumed_setup resumed
      1 ended_run true load_sample resumed_sample run_sample refl ended_canonical
