-- ===== src/Orchestrator/Total/Reaps.antt =====
-- The exceptions of the passes over the running jobs.
use nodepilot.Common.{
  ℤ, ok, false, ℕ, ◌≡◌, refl, inl, inr, true, false, not, ◌&&◌, ◌||◌, List, [], ◌∷◌, none, arith,
  Returns, All, Bool-cases, Option-cases, ◌>>=◌,
}
use nodepilot.Common.Text.{is_empty, codes, starts_with, strip}
use nodepilot.Config.{Job, running, is_running}
use nodepilot.Numa.Cores.{CoreSet}
use nodepilot.Runner.{
  Procs, proc_file, pid_alive, is_no_zombie, has_handle, is_pid, is_tmux, pid_of, is_alive,
  returncode, forget, reap,
}
use nodepilot.Runner.Pins.{pids_for_job, check_pid, repin, enforce_pin}
use nodepilot.Host.{Host, Probe, no_process, not_permitted, delivered, read_ascii}
use nodepilot.Orchestrator.{Setup, Aux, look, next, finish, reap_job, reap_finished, enforce_pins}
use nodepilot.Orchestrator.Safety.Sums.{Stops, AllStop}
use nodepilot.Orchestrator.Total.{IsUsable, IsTracked}

pub is_running-eq : (job : Job) → is_running job.status ≡ true → job.status ≡ running
unfolding is_running
is_running-eq job h = ground arith

Stops-IsTracked : (j j' : Job) → Stops j j' → IsTracked j → IsTracked j'
Stops-IsTracked j j' (inl same) h = rw same h
Stops-IsTracked j j' (inr (_, _, ends)) h = λ runs. absurd (ground arith)

pub AllStop-IsTracked : (js js' : List Job) → AllStop js js' → All IsTracked js → All IsTracked js'
AllStop-IsTracked [] [] h k = tt
AllStop-IsTracked [] (j' ∷ js') h k = absurd h
AllStop-IsTracked (j ∷ js) [] h k = absurd h
AllStop-IsTracked (j ∷ js) (j' ∷ js') h k =
    (Stops-IsTracked j j' h.0 k.0, AllStop-IsTracked js js' h.1 k.1)

pid_alive-Returns :
    (h : Host) (pid : ℤ)
    → Returns (read_ascii h (proc_file pid (codes "stat")))
    → Returns (pid_alive h pid)
unfolding pid_alive
pid_alive-Returns h pid (stat, e) = go (h.kill_zero pid)
  where
    go :
        (p : Probe)
        → Returns (elim p [
          | no_process ↦ ok false
          | not_permitted ↦ ok true
          | delivered ↦ (do
            stat ← read_ascii h (proc_file pid (codes "stat"))
            ok (is_no_zombie stat))
        ])
    go no_process = (_, refl)
    go not_permitted = (_, refl)
    go delivered = rw e (_, refl)

module _ (h : Host) (procs : Procs) (job : Job)
    (pid : is_pid job ≡ true → Returns (pid_of job)) where
  pub is_alive-Returns :
      ((p : ℤ) → Returns (read_ascii h (proc_file p (codes "stat"))))
      → Returns (is_alive h procs job)
  unfolding is_alive
  is_alive-Returns stat = elim (Bool-cases (is_tmux job)) [
    | inl tmux ↦ rw tmux (_, refl)
    | inr other ↦ elim (Bool-cases (is_pid job)) [
      | inr unknown ↦ (false, rw (other, unknown) refl)
      | inl here ↦
          let (p, e) = pid here in
          elim (Bool-cases (has_handle procs p)) [
            | inl kept ↦ rw (other, here, e, kept) (_, refl)
            | inr unknown ↦
                let (alive, e') = pid_alive-Returns h p (stat p) in
                rw (other, here, e, unknown, e') (_, refl)
          ]
    ]
  ]

  returncode-Returns : Returns (returncode h procs job)
  unfolding returncode
  returncode-Returns = elim (Bool-cases (is_pid job)) [
    | inr unknown ↦ (none, rw unknown refl)
    | inl here ↦ let (p, e) = pid here in rw (here, e) (_, refl)
  ]

  forget-Returns : Returns (forget procs job)
  unfolding forget
  forget-Returns = elim (Bool-cases (is_pid job)) [
    | inr unknown ↦ (procs, rw unknown refl)
    | inl here ↦ let (p, e) = pid here in rw (here, e) (_, refl)
  ]

  pub reap-Returns : Returns (reap h procs job)
  unfolding reap
  reap-Returns =
      let (code, e) = returncode-Returns in let (kept, e') = forget-Returns in rw (e, e') (_, refl)

  pids_for_job-Returns : Returns (pids_for_job h job)
  unfolding pids_for_job
  pids_for_job-Returns = elim (Bool-cases (is_pid job)) [
    | inl here ↦
        let (p, e) = pid here in
        elim (Option-cases (h.getpgid p)) [
          | inl gone ↦ rw (here, e, gone) ([], refl)
          | inr (pgid, found) ↦ rw (here, e, found) (_, refl)
        ]
    | inr unknown ↦ elim (Bool-cases (h.which (codes "pgrep"))) [
      | inl found ↦ rw (unknown, found) (_, refl)
      | inr missing ↦ rw (unknown, missing) (_, refl)
    ]
  ]

module _ (setup : Setup) (usable : IsUsable setup) where
  check_pid-Returns :
      (n : ℕ) (expected : CoreSet) (pid : ℕ) → Returns (check_pid (setup.world n) expected pid)
  unfolding check_pid
  check_pid-Returns n expected pid =
      let h = setup.world n in
      let (cores, e) = usable.kernel n pid in
      let (name, read) = usable.comm n pid in
      elim (Option-cases name) [
        | inl gone ↦ rw (check_pid, read, gone) (_, refl)
        | inr (comm, named) ↦ elim (Bool-cases (starts_with (strip comm) (codes "tmux"))) [
          | inl server ↦ rw (check_pid, read, named, server) (_, refl)
          | inr process ↦ rw (check_pid, read, named, process, e) (_, refl)
        ]
      ]

  repin-Returns :
      (n : ℕ) (expected : CoreSet) (pids : List ℕ) → Returns (repin (setup.world n) expected pids)
  unfolding repin
  repin-Returns n expected [] = ([], refl)
  repin-Returns n expected (pid ∷ pids) =
      let (drifted, e) = check_pid-Returns n expected pid in
      let (rest, e') = repin-Returns n expected pids in rw (e, e') (_, refl)

  enforce_pin-Returns :
      (n : ℕ) (job : Job)
      → job.status ≡ running
      → IsTracked job
      → Returns (enforce_pin (setup.world n) job)
  unfolding enforce_pin
  enforce_pin-Returns n job runs tracked =
      let h = setup.world n in
      let (s, parsed) = (tracked runs).1 in
      let (pids, found) = pids_for_job-Returns h [] job (tracked runs).0 in
      let (drifted, e) = repin-Returns n s pids in
      elim (Bool-cases (is_empty job.cpu_list || is_empty job.id)) [
        | inl nothing ↦ rw nothing (_, refl)
        | inr some_cores ↦ elim (Bool-cases (h.which (codes "taskset"))) [
          | inr missing ↦ rw (some_cores, missing) (_, refl)
          | inl there ↦ rw (some_cores, there, parsed, found, e) (_, refl)
        ]
      ]

  pub enforce_pins-Returns :
      (a : Aux) (jobs : List Job) → All IsTracked jobs → Returns (enforce_pins setup a jobs)
  unfolding enforce_pins
  enforce_pins-Returns a [] tracked = (a, refl)
  enforce_pins-Returns a (job ∷ jobs) tracked =
      elim (Bool-cases (is_running job.status && not (is_empty job.cpu_list))) [
        | inr idle ↦ rw idle (enforce_pins-Returns a jobs tracked.1)
        | inl runs ↦
            let (pids, e) =
              enforce_pin-Returns a.reads job (is_running-eq job (ground arith)) tracked.0 in
            rw (runs, e) (enforce_pins-Returns (next setup a) jobs tracked.1)
      ]

module _ (setup : Setup) where
  finish-Returns :
      (a : Aux) (job : Job)
      → (is_pid job ≡ true → Returns (pid_of job))
      → Returns (finish setup a job)
  unfolding finish
  finish-Returns a job pid =
      let (r, e) = reap-Returns (look setup a) a.procs job pid in rw e (_, refl)

module _ (setup : Setup) (usable : IsUsable setup) where
  reap_job-Returns : (a : Aux) (job : Job) → IsTracked job → Returns (reap_job setup a job)
  unfolding reap_job
  reap_job-Returns a job tracked = elim (Bool-cases (is_running job.status)) [
    | inr idle ↦ rw idle (_, refl)
    | inl runs ↦
        let pid = (tracked (is_running-eq job runs)).0 in
        let (alive, e) = is_alive-Returns (look setup a) a.procs job pid (usable.stat a.reads) in
        let (r, e') = finish-Returns setup (next setup a) job pid in
        elim (Bool-cases alive) [
          | inl lives ↦ rw (runs, e, lives) (_, refl)
          | inr gone ↦ rw (runs, e, gone, e') (_, refl)
        ]
  ]

  pub reap_finished-Returns :
      (a : Aux) (jobs : List Job) → All IsTracked jobs → Returns (reap_finished setup a jobs)
  unfolding reap_finished
  reap_finished-Returns a [] tracked = (_, refl)
  reap_finished-Returns a (job ∷ jobs) tracked =
      let ((job', a', c), e) = reap_job-Returns a job tracked.0 in
      let (r, e') = reap_finished-Returns a' jobs tracked.1 in rw (e, e') (_, refl)
