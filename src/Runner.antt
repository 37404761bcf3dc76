-- ===== src/Runner.antt =====
-- nodepilot/runner.py: the command of a job, the tracking of its process, and its outcome.
pub mod Pins
pub mod Outcomes
pub mod Handles
use nodepilot.Common.{
  ℕ, zero, suc, ◌+◌, ◌-◌, Bool, true, false, not, ◌||◌, ◌&&◌, List, [], ◌∷◌, ◌++◌, Option, none,
  some, ltb, leb, ◌==◌, if◌then◌else◌, Result, ok, err, ◌>>=◌, ◌>>◌, ℤ, pos, negsuc, ltb_ℤ, eqb_ℤ,
  drop, keep, get_elem?,
}
use nodepilot.Common.Text.{Text, codes, text_eq, is_empty, starts_with, words}
use nodepilot.Common.Decimal.{int, decimal, show}
use nodepilot.Config.{Job, JobStatus, done, failed, Config}
use nodepilot.Numa.Allocate.{Placement}
use nodepilot.Cgroups.{journal_reports_oom, systemd_run_available, wrap_scope_command}
use nodepilot.Host.{read_ascii, Host, Probe, delivered, no_process, not_permitted}

-- `placement_prefix` of nodepilot/numa.py, with its default `prefer_numactl=True`.
unfoldable pub placement_prefix : Host → Placement → List Text
placement_prefix h p =
    if is_empty p.cpu_list
    then []
    else if h.which (codes "numactl")
    then codes "numactl"
      ∷ (codes "--physcpubind=" ++ p.cpu_list)
      ∷ (if p.interleave then codes "--interleave=all" else codes "--membind=" ++ decimal p.node)
      ∷ []
    else if h.which (codes "taskset")
    then codes "taskset" ∷ codes "-c" ∷ p.cpu_list ∷ []
    else []

unfoldable pub build_command : (format_g : ℕ → Text) → Host → Job → Placement → Config → List Text
build_command format_g h job placement cfg =
    let inner = codes "bash" ∷ codes "-lc" ∷ job.command ∷ [] in
    let placed = placement_prefix h placement ++ inner in
    if not (is_empty cfg.memory_slice) && systemd_run_available h
    then wrap_scope_command format_g placed job.id job.ram_gb cfg.memory_slice
    else placed

-- `job.session` after `start`, and the pids whose handles are kept.
abbrev pub Procs : Type 0
Procs = List ℕ

unfoldable pub is_tmux : Job → Bool
is_tmux job = starts_with job.session (codes "tmux:")

unfoldable pub is_pid : Job → Bool
is_pid job = starts_with job.session (codes "pid:")

-- `int(job.session[len("pid:"):])`
unfoldable pub pid_of : Job → Result ℤ
pid_of job = int (drop 4 job.session)

-- `pid in self._procs`
unfoldable pub has_handle : Procs → ℤ → Bool
has_handle [] pid = false
has_handle (p ∷ ps) pid = eqb_ℤ (pos p) pid || has_handle ps pid

-- `self._procs.pop(pid, None)`
unfoldable pub pop : ℤ → Procs → Procs
pop pid procs = keep (λ p. not (eqb_ℤ (pos p) pid)) procs

-- Runner.start: the session, the handles, or the exception of the launch. The working directory
-- and the environment are part of the call that `popen` or `new_session` answers.
unfoldable pub start : Config → Host → Procs → Job → List Text → Result (Text × Procs)
start cfg h procs job argv =
    if text_eq cfg.runner (codes "tmux")
    then (let session = codes "nodepilot_" ++ job.id in
        do h.new_session session argv; ok (codes "tmux:" ++ session, procs))
    else (do pid ← h.popen argv; ok (codes "pid:" ++ decimal pid, pid ∷ pop (pos pid) procs))

-- /proc/<pid>/<name>
unfoldable pub proc_file : ℤ → Text → Text
proc_file pid name = codes "/proc/" ++ show pid ++ b'/' ∷ name

-- The state in the third field of the stat file; a missing one is an IndexError, which is caught.
pub is_no_zombie : Option Text → Bool
is_no_zombie none = true
is_no_zombie (some stat) = elim (get_elem? (words stat) 2) [
  | none ↦ true
  | some s ↦ not (text_eq s (codes "Z"))
]

-- `_pid_alive`; UnicodeDecodeError is not caught.
unfoldable pub pid_alive : Host → ℤ → Result Bool
unfolding is_no_zombie
pid_alive h pid = elim (h.kill_zero pid) [
  | no_process ↦ ok false
  | not_permitted ↦ ok true
  | delivered ↦ (do stat ← read_ascii h (proc_file pid (codes "stat")); ok (is_no_zombie stat))
]

-- `_tmux_alive`
unfoldable pub tmux_alive : Host → Text → Bool
tmux_alive h session = h.which (codes "tmux") && h.has_session session

unfoldable pub is_none : Option ℤ → Bool
is_none none = true
is_none (some rc) = false

-- Runner.is_alive
unfoldable pub is_alive : Host → Procs → Job → Result Bool
unfolding is_none
is_alive h procs job =
    if is_tmux job
    then ok (tmux_alive h (drop 5 job.session))
    else if is_pid job
    then (do
      pid ← pid_of job
      (if has_handle procs pid then ok (is_none (h.poll pid)) else pid_alive h pid))
    else ok false

-- A signal's death, reported as -signo, becomes 128 + signo.
unfoldable pub normalise : ℤ → ℤ
normalise (pos n) = pos n
normalise (negsuc n) = pos (128 + suc n)

-- Runner.returncode
unfoldable pub returncode : Host → Procs → Job → Result (Option ℤ)
returncode h procs job = if not (is_pid job) then ok none else (do
  pid ← pid_of job
  ok (
      if has_handle procs pid
      then elim (h.poll pid) [ none ↦ none | some rc ↦ some (normalise rc) ]
      else none))

-- Runner._forget
unfoldable pub forget : Procs → Job → Result Procs
forget procs job = if is_pid job then (do pid ← pid_of job; ok (pop pid procs)) else ok procs

-- Runner.kill: what it does to the handles. The signals go to the outside.
unfoldable pub kill : Procs → Job → Result Procs
kill procs job =
    if is_tmux job
    then ok procs
    else if is_pid job
    then (do pid ← pid_of job; ok (pop pid procs))
    else ok procs

pub record Outcome : Type 0 where
  pub status : JobStatus
  pub reason : Text
  pub exit_code : Option ℤ

abbrev success : Option ℤ → Outcome
success code = record { status = done; reason = []; exit_code = code }

abbrev failure : Text → Option ℤ → Outcome
failure reason code = record { status = failed; reason = reason; exit_code = code }

-- The classification of an exit status in `reap`, after the two reads.
unfoldable pub classify : Bool → Option ℤ → Outcome
classify oom_hint none = if oom_hint then failure (codes "oom_killed") none else success none
classify oom_hint (some code) =
    if eqb_ℤ code (pos 137)
    then failure (if oom_hint then codes "oom_killed" else codes "killed_signal") (some code)
    else if eqb_ℤ code (pos 0)
    then success (some code)
    else if ltb_ℤ (pos 128) code
    then failure
        (codes "signal_" ++ show (elim code [ pos n ↦ pos (n - 128) | negsuc n ↦ negsuc n ]))
        (some code)
    else failure (codes "exit_" ++ show code) (some code)

-- `reap`: the outcome, and the handles without that of the job.
unfoldable pub reap : Host → Procs → Job → Result (Outcome × Procs)
reap h procs job = do
  exit_code ← returncode h procs job
  procs' ← forget procs job
  ok (classify (journal_reports_oom h) exit_code, procs')
