-- ===== src/Tests/Schedule.antt =====
-- The theorems on the scheduler, on the queue of two jobs.
use nodepilot.Common.{
  ◌⊎◌, none, negsuc, false, Bool, ◌≡◌, refl, ◌↔◌, inl, arith, true, [], ◌∷◌, some, ok, pos, All,
  All2,
}
use nodepilot.Common.Text.{
  codes, is_empty, strip, split_on, split_once, join, text_eq, text_less, starts_with,
}
use nodepilot.Common.Decimal.{int, decimal}
use nodepilot.Common.Sort.{insert_by, sort_by}
use nodepilot.Host.{read_ascii}
use nodepilot.Numa.Cores.{update, add, range, contains}
use nodepilot.Numa.CpuList.{parse_cpu_list, format_cpu_list}
use nodepilot.Numa.Allocate.{
  allocate, candidates, consider, gate_node, will_interleave, choose, largest_contiguous_run,
  candidate_less, best, first_node,
}
use nodepilot.Runner
use nodepilot.Runner.{build_command, placement_prefix, pop}
use nodepilot.Config.{Job, running, is_pending, is_running, is_done, is_dead}
use nodepilot.Admission.{
  free_ram_gb, can_launch, running_count, running_cores, sum_by, in_cooldown, check_ram,
  slice_used_gb, maxcore_sane,
}
use nodepilot.Admission.Gate.{Admits, can_launch_iff}
use nodepilot.Orchestrator.{
  State, reap_finished, reap_job, enforce_pins, try_launch, deps_satisfied, launch, occupied_cores,
  request,
}
use nodepilot.Orchestrator.Dependents.{
  by_id, blocker, mark_job, mark_pass, mark_loop, mark_dead_dependents,
}
use nodepilot.Orchestrator.Settled.{IsSettled, mark_dead_dependents-IsSettled}
use nodepilot.Orchestrator.Lifecycle.{Moves}
use nodepilot.Orchestrator.Lifecycle.Ticks.{tick-Moves}
use nodepilot.Orchestrator.Loop.{tick, launch_pending, launch_each, launch_less, pending_from}
use nodepilot.Orchestrator.Run.{
  save_if, Run, run, run_loop, run_tick, reconcile_zombies, reconcile_from, reconcile_job,
  is_drained,
}
use nodepilot.Orchestrator.Safety.{IsSafe, held}
use nodepilot.Orchestrator.Safety.Ticks.{run-IsSafe}
use nodepilot.Orchestrator.Saved.{IsSaved, run-IsSaved}
use nodepilot.Orchestrator.Total.{IsUsable, IsTracked}
use nodepilot.Orchestrator.Total.Runs.{run-IsTracked}
use nodepilot.Config.{done, failed}
use nodepilot.Runner.{classify, reap, returncode, forget, is_pid, pid_of, has_handle, normalise}
use nodepilot.Runner.Outcomes.{classify_lem}
use nodepilot.Orchestrator.{Setup, Aux, finish}
use nodepilot.Orchestrator.Cooldown.{finish-can_launch}
use nodepilot.Cgroups.{journal_reports_oom}
use nodepilot.Runner.Pins.{cpus_allowed}
use nodepilot.Common.Text.{has_part, lower}
use nodepilot.Proc.{read_meminfo}
use nodepilot.Tests.{quiet_host, config, setup, first_job, second_job, queue, initial, initial_run}

can_launch_iff_example :
    ((can_launch config 0 quiet_host first_job queue).ok ≡ true)
    ↔ Admits config 0 quiet_host first_job queue
can_launch_iff_example = can_launch_iff config 0 quiet_host first_job queue

mark_dead_dependents-IsSettled_example :
    All
      (IsSettled (mark_dead_dependents (λ _ _. 5) queue).0)
      (mark_dead_dependents (λ _ _. 5) queue).0
mark_dead_dependents-IsSettled_example = mark_dead_dependents-IsSettled (λ _ _. 5) queue

-- The tick starts the first job on the cores 4-6, and leaves the second waiting.
abbrev pub launched_job : Job
launched_job = record first_job {
  status = running;
  session = codes "pid:7";
  cpu_list = codes "4-6";
  numa_node = pos 1;
  start_time = 1000;
}

abbrev pub after_tick : State
after_tick = record {
  jobs = second_job ∷ launched_job ∷ [];
  aux = record { cooldown_until = 0; procs = 7 ∷ []; reads = 12 };
}

tick_sample : tick setup initial ≡ ok (after_tick, true)
unfolding tick reap_finished reap_job mark_dead_dependents mark_loop mark_pass mark_job blocker
    by_id enforce_pins launch_pending pending_from launch_less launch_each try_launch deps_satisfied
    can_launch in_cooldown sum_by check_ram free_ram_gb read_meminfo slice_used_gb maxcore_sane
    launch occupied_cores request allocate candidates consider parse_cpu_list is_empty strip
    split_on split_once int update add range contains gate_node will_interleave choose
    largest_contiguous_run candidate_less best format_cpu_list join decimal insert_by sort_by
    first_node build_command placement_prefix pop Runner.start text_eq text_less starts_with
    is_pending is_running is_done is_dead
tick_sample = refl

queue-IsSafe : IsSafe setup queue
unfolding running_count running_cores sum_by is_running contains held
queue-IsSafe = record {
  count = omega arith;
  cores = omega arith;
  mutex = inl refl;
  apart = λ c. ground arith;
}

tick-Moves_example : All2 (Moves after_tick.jobs) queue after_tick.jobs
tick-Moves_example = tick-Moves setup initial after_tick true tick_sample

abbrev pub after_run : Run
after_run = record { state = after_tick; saved = some after_tick.jobs }

pub run_sample : run setup 1 initial_run ≡ ok (after_run, false)
unfolding save_if run run_loop run_tick reconcile_zombies reconcile_from reconcile_job is_drained
    tick reap_finished reap_job mark_dead_dependents mark_loop mark_pass mark_job blocker by_id
    enforce_pins launch_pending pending_from launch_less launch_each try_launch deps_satisfied
    can_launch in_cooldown sum_by check_ram free_ram_gb read_meminfo slice_used_gb maxcore_sane
    launch occupied_cores request allocate candidates consider parse_cpu_list is_empty strip
    split_on split_once int update add range contains gate_node will_interleave choose
    largest_contiguous_run candidate_less best format_cpu_list join decimal insert_by sort_by
    first_node build_command placement_prefix pop Runner.start text_eq text_less starts_with
    is_pending is_running is_done is_dead
run_sample = refl

run-IsSafe_example : IsSafe setup after_tick.jobs
run-IsSafe_example = run-IsSafe setup 1 initial_run after_run false queue-IsSafe run_sample

run-IsSaved_example : IsSaved after_run
run-IsSaved_example = run-IsSaved setup 1 initial_run after_run false refl run_sample

setup-IsUsable : IsUsable setup
unfolding read_ascii parse_cpu_list strip split_on split_once is_empty int update add range
setup-IsUsable = record {
  nodes = ((_, refl), ((_, refl), tt));
  kernel = λ n pid. (none, unfold cpus_allowed in refl);
  popen = λ n argv. inl (7, refl);
  new_session = λ n session argv. inl (tt, refl);
  stat = λ n pid. (_, refl);
  comm = λ n pid. (_, refl);
  writes = λ n. (_, refl);
}

run-IsTracked_example :
    (x : Run × Bool) × (run setup 5 initial_run ≡ ok x) × All IsTracked x.0.state.jobs
run-IsTracked_example =
    run-IsTracked setup setup-IsUsable 5 initial_run
      ((λ e. absurd (ground arith)), ((λ e. absurd (ground arith)), tt))

-- A death by signal 9, with an OOM kill in the log.
classify_lem_example :
    (((classify true (some (pos 137))).status ≡ done)
      ↔ ((some (pos 137) ≡ some (pos 0)) ⊎ (some (pos 137) ≡ none) × (true ≡ false)))
    × (((classify true (some (pos 137))).reason ≡ codes "oom_killed")
        ↔ ((true ≡ true) × ((some (pos 137) ≡ none) ⊎ (some (pos 137) ≡ some (pos 137)))))
    × (((classify true (some (pos 137))).status ≡ done)
        ⊎ ((classify true (some (pos 137))).status ≡ failed))
classify_lem_example = classify_lem true (some (pos 137))

-- A set-up in which the process 7 dies by signal 9, and the log names an OOM kill.
abbrev oom_setup : Setup
oom_setup = record setup {
  world = λ _. record quiet_host {
    poll = λ _. some (negsuc 8);
    which = λ _. true;
    journal = some (codes "kernel: Out of memory: Killed process 7");
  };
}

abbrev oom_job : Job
oom_job = record launched_job {
  status = failed;
  failure_reason = codes "oom_killed";
  exit_code = some (pos 137);
  end_time = 1000;
}

abbrev after_oom : Aux
after_oom = record { cooldown_until = 60001000; procs = []; reads = 15 }

oom_sample : finish oom_setup after_tick.aux launched_job ≡ ok (oom_job, after_oom)
unfolding finish reap returncode forget classify is_pid pid_of has_handle pop normalise starts_with
    int text_eq is_done strip journal_reports_oom has_part lower
oom_sample = refl

finish-can_launch_example : (can_launch config 60001000 quiet_host second_job queue).ok ≡ false
finish-can_launch_example =
    finish-can_launch oom_setup after_tick.aux after_oom launched_job oom_job oom_sample refl refl
      quiet_host second_job queue (omega arith)
