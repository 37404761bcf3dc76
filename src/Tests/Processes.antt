-- ===== src/Tests/Processes.antt =====
-- The theorems on processes and on the reading of CPU lists, at concrete inputs.
use nodepilot.Common.{
  ◌≡◌, refl, true, [], ◌∷◌, some, ok, pos, RaisesValueError, Returns, ◌↔◌, if◌then◌else◌,
}
use nodepilot.Common.Text.{
  codes, text_eq, is_empty, starts_with, words, strip, split_on, split_once,
}
use nodepilot.Common.Decimal.{decimal, int, show}
use nodepilot.Config.{Job}
use nodepilot.Host.{Host, read_ascii}
use nodepilot.Numa.Cores.{contains, add, update, range}
use nodepilot.Numa.CpuList.{parse_cpu_list}
use nodepilot.Numa.CpuList.Errors.{IsCpuList, parse_cpu_list-Returns_iff}
use nodepilot.Runner
use nodepilot.Runner.{is_pid, pid_of, proc_file}
use nodepilot.Runner.Pins.{
  enforce_pin, pids_for_job, cpus_allowed, is_drifted, check_pid, repin, is_number,
}
use nodepilot.Runner.Pins.Repinned.{IsMoved, enforce_pin-IsMoved}
use nodepilot.Tests.{quiet_host, first_job}

parse_cpu_list-Returns_iff_example :
    (Returns (parse_cpu_list (codes "0-3,x")) ↔ IsCpuList (codes "0-3,x"))
    × RaisesValueError (parse_cpu_list (codes "0-3,x"))
parse_cpu_list-Returns_iff_example = parse_cpu_list-Returns_iff (codes "0-3,x")

-- A process 7 that may run on the cores 0 to 3.
abbrev busy_host : Host
busy_host = record quiet_host {
  which = λ name. true;
  getpgid = λ pid. some (pos 7);
  proc = codes "7" ∷ codes "net" ∷ [];
  read_text = λ p.
      if text_eq p (codes "/proc/7/stat")
      then some (codes "7 (orca) S 1 7 7")
      else if text_eq p (codes "/proc/7/comm")
      then some (codes "orca\n")
      else some (codes "Cpus_allowed_list:\t0-3\n");
}

abbrev pinned_job : Job
pinned_job = record first_job { session = codes "pid:7"; cpu_list = codes "1-3" }

pin_sample : enforce_pin busy_host pinned_job ≡ ok (7 ∷ [])
unfolding read_ascii enforce_pin pids_for_job cpus_allowed is_drifted check_pid repin is_number
    is_pid pid_of proc_file parse_cpu_list is_empty strip split_on split_once int update add range
    contains text_eq starts_with words decimal show
pin_sample = refl

enforce_pin-IsMoved_example : (contains 7 (7 ∷ []) ≡ true) ↔ IsMoved busy_host pinned_job 7
enforce_pin-IsMoved_example = enforce_pin-IsMoved busy_host pinned_job (7 ∷ []) pin_sample 7
