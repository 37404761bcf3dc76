-- ===== src/Orchestrator/Progress/Ripe.antt =====
-- In a fair world, the time comes at which a run of nodepilot/orchestrator.py need not wait longer.
use nodepilot.Common.{
  sym, ap, subst, ◌∙◌, ◌⊎◌, All2-All, ℕ, ◌+◌, ◌≤◌, ◌≡◌, refl, inl, inr, true, false, List, [], ◌∷◌,
  arith, Result, err, ok, Bool-cases, Option-cases, All, All-imp, drop, ℤ,
}
use nodepilot.Config.{JobStatus, Job, pending, running, is_pending}
use nodepilot.Runner.{is_alive, is_tmux, is_pid, pid_of, is_none, has_handle}
use nodepilot.Admission.Gate.{FitsRam}
use nodepilot.Orchestrator.{Setup}
use nodepilot.Orchestrator.Safety.Sums.{Stops, AllStop}
use nodepilot.Orchestrator.Progress.{IsFair, IsFeasible, IsGone, IsRipe}

All-each : (P : Job → Type 0) → ((j : Job) → P j) → (js : List Job) → All P js
All-each P h [] = tt
All-each P h (j ∷ js) = (h j, All-each P h js)

module _ (P : ℕ → Job → Type 0) where
  -- What comes for each job comes for all.
  all_eventually :
      (jobs : List Job)
      → All (λ j. (since : ℕ) × ((n : ℕ) → since ≤ n → P n j)) jobs
      → (since : ℕ) × ((n : ℕ) → since ≤ n → All (P n) jobs)
  all_eventually [] h = (0, λ n le. tt)
  all_eventually (j ∷ js) ((first, here), h) =
      let (rest, there) = all_eventually js h in
      (first + rest, λ n le. (here n (omega (arith, le)), there n (omega (arith, le))))

module _ (setup : Setup) (fair : IsFair setup) where
  -- Every job is gone at last.
  gone : (job : Job) → (since : ℕ) × ((n : ℕ) → since ≤ n → IsGone setup n job)
  unfolding is_alive is_none
  gone job = elim (Bool-cases (is_tmux job)) [
    | inl tmux ↦
        let (since, ends) = fair.session (drop 5 job.session) in
        (since, λ n le procs alive e. let over = ends n le in ground arith)
    | inr other ↦ elim (Bool-cases (is_pid job)) [
      | inr unknown ↦ (0, λ n le procs alive e. ground arith)
      | inl here ↦ with_pid other here (pid_of job) refl
    ]
  ]
    where
      with_pid :
          is_tmux job ≡ false
          → is_pid job ≡ true
          → (r : Result ℤ) → pid_of job ≡ r
          → (since : ℕ) × ((n : ℕ) → since ≤ n → IsGone setup n job)
      with_pid other here (err error) e = (
        0,
        λ n le procs alive found.
            absurd
              (let broken : err error ≡ ok alive = rw (other, here, e) at found in ground arith),
      )
      with_pid other here (ok pid) e =
          let (s1, polls) = fair.polled pid in
          let (s2, probes) = fair.probed pid in
          (
            s1 + s2,
            λ n le procs alive found.
                let over = probes n (omega (arith, le)) in
                elim (Option-cases ((setup.world n).poll pid)) [
                  | inl nothing ↦ absurd (polls n (omega (arith, le)) nothing)
                  | inr (rc, ended) ↦ elim (Bool-cases (has_handle procs pid)) [
                    | inl kept ↦ let found' = rw (other, here, e, kept) at found in ground arith
                    | inr unknown ↦
                        let found' = rw (other, here, e, unknown) at found in ground arith
                  ]
                ],
          )

  gone_when_running :
      (job : Job) → (since : ℕ) × ((n : ℕ) → since ≤ n → job.status ≡ running → IsGone setup n job)
  gone_when_running job = let (since, ends) = gone job in (since, λ n le _. ends n le)

  fits :
      (job : Job)
      → (job.status ≡ pending → IsFeasible setup job)
      → (since : ℕ) × ((n : ℕ)
          → since ≤ n
          → job.status ≡ pending
          → FitsRam setup.config (setup.world n) job [])
  unfolding is_pending
  fits job feasible = elim (Bool-cases (is_pending job.status)) [
    | inr other ↦ (0, λ n le waits. absurd (ground arith))
    | inl waits ↦ let (since, ram) = (feasible (ground arith)).ram in (since, λ n le _. ram n le)
  ]

  -- For a list of doable jobs the time comes.
  pub ripens :
      (cooldown_until : ℕ) (jobs : List Job)
      → All (λ j. j.status ≡ pending → IsFeasible setup j) jobs
      → (since : ℕ) × IsRipe setup since cooldown_until jobs
  ripens cooldown_until jobs feasible =
      let (s1, ended) =
        all_eventually (λ n j. j.status ≡ running → IsGone setup n j) jobs
          (All-each _ gone_when_running jobs) in
      let (s2, cooled) = fair.clock cooldown_until in
      let (s3, unpaused) = fair.unpaused in
      let (s4, ram) =
        all_eventually (λ n j. j.status ≡ pending → FitsRam setup.config (setup.world n) j []) jobs
          (All-imp _ _ fits jobs feasible) in
      (
        s1 + s2 + s3 + s4,
        record {
          ended = λ n le. ended n (omega (arith, le));
          cooled = λ n le. cooled n (omega (arith, le));
          unpaused = λ n le. unpaused n (omega (arith, le));
          ram = λ n le. ram n (omega (arith, le));
        },
      )

-- What is ripe stays so.
pub IsRipe-later :
    (setup : Setup) (since later cooldown_until : ℕ) (jobs : List Job)
    → since ≤ later
    → IsRipe setup since cooldown_until jobs
    → IsRipe setup later cooldown_until jobs
IsRipe-later setup since later cooldown_until jobs le ripe = record {
  ended = λ n h. ripe.ended n (omega (arith, le, h));
  cooled = λ n h. ripe.cooled n (omega (arith, le, h));
  unpaused = λ n h. ripe.unpaused n (omega (arith, le, h));
  ram = λ n h. ripe.ram n (omega (arith, le, h));
}

Stops-settles :
    (P : Job → Type 0) (s : JobStatus)
    → (s ≡ pending) ⊎ (s ≡ running)
    → (j j' : Job) → (j.status ≡ s → P j)
    → Stops j j'
    → j'.status ≡ s
    → P j'
Stops-settles P s active j j' h (inl same) e =
    subst P (sym same) (h (ap (λ x. x.status) (sym same) ∙ e))
Stops-settles P s active j j' h (inr (_, _, how)) e = absurd (ground arith)

-- Jobs that only stop stay ripe.
pub IsRipe-AllStop :
    (setup : Setup) (since cooldown_until : ℕ) (jobs jobs' : List Job)
    → AllStop jobs jobs'
    → IsRipe setup since cooldown_until jobs
    → IsRipe setup since cooldown_until jobs'
IsRipe-AllStop setup since cooldown_until jobs jobs' stops ripe = record {
  ended = λ n h.
      All2-All _ _ Stops (Stops-settles (IsGone setup n) running (inr refl)) jobs jobs'
        (ripe.ended n h) stops;
  cooled = ripe.cooled;
  unpaused = ripe.unpaused;
  ram = λ n h.
      All2-All _ _ Stops
        (Stops-settles (λ j. FitsRam setup.config (setup.world n) j []) pending (inl refl)) jobs
        jobs' (ripe.ram n h) stops;
}
