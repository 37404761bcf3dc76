-- ===== src/Tests/Draining.antt =====
-- The theorems on the end of a run, on the queue of two jobs in a world where processes run for some
-- time and exit with 0.
use nodepilot.Common.{
  ltb, none, ℕ, ◌≡◌, ◌≤◌, refl, inl, inr, true, List, [], ◌∷◌, some, ok, pos, arith, All,
  if◌then◌else◌,
}
use nodepilot.Common.Text.{Text, codes, text_eq, is_empty, strip, split_on, split_once}
use nodepilot.Common.Decimal.{int}
use nodepilot.Config.{Job}
use nodepilot.Host.{read_ascii, Host}
use nodepilot.Cgroups.{journal_reports_oom}
use nodepilot.Runner.{pid_alive, tmux_alive}
use nodepilot.Runner.Pins.{cpus_allowed}
use nodepilot.Numa.Cores.{update, add, range, contains}
use nodepilot.Numa.CpuList.{parse_cpu_list}
use nodepilot.Admission.{running_ram_gb, sum_by, slice_used_gb, free_ram_gb}
use nodepilot.Proc.{read_meminfo}
use nodepilot.Orchestrator.{Setup, request}
use nodepilot.Orchestrator.Run.{save_if, Run, run}
use nodepilot.Orchestrator.Total.{IsUsable}
use nodepilot.Orchestrator.Explained.{IsExplained}
use nodepilot.Orchestrator.Explained.Runs.{run-IsExplained}
use nodepilot.Orchestrator.Drained.{IsOver}
use nodepilot.Orchestrator.Unlimited.{RunsTo}
use nodepilot.Orchestrator.Progress.{IsFair, IsFeasible, IsDoable}
use nodepilot.Orchestrator.Progress.Drains.{run-drains}
use nodepilot.Runner
use nodepilot.Runner.{
  build_command, placement_prefix, pop, classify, reap, returncode, forget, is_pid, is_tmux,
  is_alive, pid_of, has_handle, normalise,
}
use nodepilot.Runner.Pins.{enforce_pin, pids_for_job}
use nodepilot.Config.{is_pending, is_running, is_done, is_dead, done}
use nodepilot.Common.{none}
use nodepilot.Common.Sort.{insert_by, sort_by}
use nodepilot.Common.Decimal.{decimal}
use nodepilot.Common.Text.{join, text_less, starts_with}
use nodepilot.Numa.CpuList.{format_cpu_list}
use nodepilot.Numa.Allocate.{
  allocate, candidates, consider, gate_node, will_interleave, choose, largest_contiguous_run,
  candidate_less, best, first_node,
}
use nodepilot.Admission.{can_launch, in_cooldown, check_ram, maxcore_sane}
use nodepilot.Orchestrator.{
  reap_finished, reap_job, enforce_pins, try_launch, deps_satisfied, launch, occupied_cores, finish,
}
use nodepilot.Orchestrator.Dependents.{
  by_id, blocker, mark_job, mark_pass, mark_loop, mark_dead_dependents,
}
use nodepilot.Orchestrator.Loop.{tick, launch_pending, launch_each, launch_less, pending_from}
use nodepilot.Orchestrator.Run.{
  run_loop, run_tick, reconcile_zombies, reconcile_from, reconcile_job, is_drained,
}
use nodepilot.Common.{◌+◌}
use nodepilot.Orchestrator.Report.{count}
use nodepilot.Orchestrator.Report.Totals.{run-count}
use nodepilot.Tests.{quiet_host, setup, first_job, second_job, queue, initial_run}

-- The clock counts the observations, and a process is seen to run in the first twenty of them.
abbrev slow_host : ℕ → Host
slow_host n = record quiet_host { now = n; poll = λ _. if ltb n 20 then none else some (pos 0) }

abbrev pub slow_setup : Setup
slow_setup = record setup { world = slow_host }

slow_setup-IsUsable : IsUsable slow_setup
unfolding read_ascii parse_cpu_list strip split_on split_once is_empty int update add range
slow_setup-IsUsable = record {
  nodes = ((_, refl), ((_, refl), tt));
  kernel = λ n pid. (none, unfold cpus_allowed in refl);
  popen = λ n argv. inl (7, refl);
  new_session = λ n session argv. inl (tt, refl);
  stat = λ n pid. (_, refl);
  comm = λ n pid. (_, refl);
  writes = λ n. (_, refl);
}

slow_setup-IsFair : IsFair slow_setup
unfolding pid_alive tmux_alive is_empty
slow_setup-IsFair = record {
  polled = λ pid. (20, λ n le e. ground (arith, le));
  probed = λ pid. (0, λ n le. refl);
  session = λ name. (0, λ n le. refl);
  clock = λ time. (time, λ n le. le);
  unpaused = (0, λ n le. inl refl);
  slot = omega arith;
}

-- Three of the cores of the first node are not reserved.
feasible : (job : Job) → job.cores ≤ 3 → job.ram_gb ≤ 68719476736 → IsFeasible slow_setup job
unfolding parse_cpu_list strip split_on split_once is_empty int update add range contains request
    running_ram_gb sum_by slice_used_gb
feasible job few small = record {
  cores = omega (arith, few);
  ram =
      (0, λ n le. inr (refl, omega (arith, small), inl (unfold free_ram_gb read_meminfo in refl)));
  node = inr (λ full. let less = full.0 (0 ∷ 1 ∷ 2 ∷ 3 ∷ []) refl in omega (arith, few, less));
}

abbrev rank : Text → ℕ
rank id = if text_eq id (codes "a") then 0 else 1

queue-IsDoable : All (IsDoable slow_setup rank) queue
unfolding text_eq
queue-IsDoable = (
  record {
    usual = tt;
    feasible = λ e. feasible second_job (omega arith) (omega arith);
    ranked = (omega arith, tt);
  },
  (
    record {
      usual = tt;
      feasible = λ e. feasible first_job (omega arith) (omega arith);
      ranked = tt;
    },
    tt,
  ),
)

run-drains_example :
    (r' : Run) × ((n : ℕ) × ((m : ℕ) → n ≤ m → run slow_setup m initial_run ≡ ok (r', true)))
    × RunsTo slow_setup initial_run r'
    × All IsOver r'.state.jobs
run-drains_example =
    run-drains slow_setup rank slow_setup-IsUsable slow_setup-IsFair initial_run
      ((λ e. absurd (ground arith)), ((λ e. absurd (ground arith)), tt)) queue-IsDoable

abbrev ended : Job → Text → ℕ → ℕ → Job
ended job cpus start_time end_time = record job {
  status = done;
  session = codes "pid:7";
  cpu_list = cpus;
  numa_node = pos 1;
  start_time = start_time;
  end_time = end_time;
  exit_code = some (pos 0);
}

abbrev pub ended_queue : List Job
ended_queue = ended second_job (codes "4") 36 39 ∷ ended first_job (codes "4-6") 11 24 ∷ []

abbrev drained_run : Run
drained_run = record {
  state = record {
    jobs = ended_queue;
    aux = record { cooldown_until = 0; procs = []; reads = 48 };
  };
  saved = some ended_queue;
}

drained_sample : run slow_setup 4 initial_run ≡ ok (drained_run, true)
unfolding save_if run run_loop run_tick is_drained tick reconcile_zombies reconcile_from
    reconcile_job reap_finished reap_job mark_dead_dependents mark_loop mark_pass mark_job blocker
    by_id enforce_pins launch_pending pending_from launch_less launch_each try_launch deps_satisfied
    can_launch in_cooldown sum_by check_ram free_ram_gb read_meminfo slice_used_gb maxcore_sane
    launch occupied_cores request allocate candidates consider parse_cpu_list is_empty strip
    split_on split_once int update add range contains gate_node will_interleave choose
    largest_contiguous_run candidate_less best format_cpu_list join decimal insert_by sort_by
    first_node build_command placement_prefix pop Runner.start text_eq text_less starts_with
    is_pending is_running is_done is_dead finish is_alive is_tmux is_pid pid_of has_handle reap
    returncode forget classify normalise journal_reports_oom enforce_pin pids_for_job
drained_sample = refl

run-IsExplained_example : All IsExplained ended_queue
unfolding is_dead
run-IsExplained_example =
    run-IsExplained slow_setup 4 initial_run drained_run true
      ((λ e. cc, λ e. cc), ((λ e. cc, λ e. cc), tt)) drained_sample

-- Both jobs are done.
run-count_example :
    count (codes "done") ended_queue
      + count (codes "failed") ended_queue
      + count (codes "skipped") ended_queue
    ≡ 2
run-count_example = run-count slow_setup 4 initial_run drained_run (tt, (tt, tt)) drained_sample
