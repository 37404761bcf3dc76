-- ===== src/Orchestrator/Total.antt =====
-- Exceptions in the scheduler: what its set-up and its jobs must be like to raise none.
pub mod Reaps
pub mod Launches
pub mod Runs
use nodepilot.Common.{
  ℤ, pos, ℕ, ◌≡◌, refl, ◌⊎◌, inl, inr, Bool, true, List, Option, some, Result, Returns, ok, err,
  os_error, runtime_error, ◌>>=◌, All, set, [], ◌∷◌, zero, suc,
}
use nodepilot.Common.Text.{Text, codes}
use nodepilot.Config.{Job, running}
use nodepilot.Numa.CpuList.{parse_cpu_list}
use nodepilot.Runner.{is_pid, pid_of, proc_file}
use nodepilot.Host.{read_ascii}
use nodepilot.Runner.Pins.{cpus_allowed}
use nodepilot.Orchestrator.{Setup}

-- The call returns, or raises what `_launch` catches.
abbrev pub IsCaught {ℓ} : {A : Type ℓ} → Result A → Type ℓ
IsCaught r = Returns r ⊎ (r ≡ err os_error) ⊎ (r ≡ err runtime_error)

-- The CPU lists of the nodes are well formed, and so are those that the kernel gives; what is read of a
-- process is ASCII; the state can be saved; and to start a process raises only what is caught.
pub record IsUsable (setup : Setup) : Type 0 where
  pub nodes : All (λ node. Returns (parse_cpu_list node.1)) setup.numa_nodes
  pub kernel : (n pid : ℕ) → Returns (cpus_allowed (setup.world n) pid)
  -- The names and the stat files of processes are ASCII.
  pub stat : (n : ℕ) (pid : ℤ) → Returns (read_ascii (setup.world n) (proc_file pid (codes "stat")))
  pub comm : (n pid : ℕ) → Returns (read_ascii (setup.world n) (proc_file (pos pid) (codes "comm")))
  -- The state file can be written, and its text can be made.
  pub writes : (n : ℕ) → Returns (setup.world n).write_state
  pub popen : (n : ℕ) (argv : List Text) → IsCaught ((setup.world n).popen argv)
  pub new_session :
      (n : ℕ) (session : Text) (argv : List Text)
      → IsCaught ((setup.world n).new_session session argv)

-- What a running job holds can be read: its CPU list, and its pid if it has one.
abbrev pub IsTracked : Job → Type 0
IsTracked job =
    job.status ≡ running
    → (is_pid job ≡ true → Returns (pid_of job)) × Returns (parse_cpu_list job.cpu_list)

pub All-set :
    (P : Job → Type 0) (jobs : List Job) (i : ℕ) (job : Job)
    → P job
    → All P jobs
    → All P (set jobs i job)
All-set P [] i job p h = tt
All-set P (j ∷ js) zero job p h = (p, h.1)
All-set P (j ∷ js) (suc i) job p h = (h.0, All-set P js i job p h.1)
