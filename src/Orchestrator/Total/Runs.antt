-- ===== src/Orchestrator/Total/Runs.antt =====
-- The exceptions of a tick and of a run.
use nodepilot.Common.{
  subst, true, false, ℕ, zero, suc, ◌+◌, ◌*◌, ◌≡◌, refl, inl, inr, Bool, not, ◌&&◌, ◌||◌, List, [],
  ◌∷◌, Returns, ok, All, length, Bool-cases,
}
use nodepilot.Common.Text.{is_empty}
use nodepilot.Config.{Job, is_running}
use nodepilot.Cgroups.{scope_is_active}
use nodepilot.Orchestrator.{Setup, Aux, State, look, next}
use nodepilot.Orchestrator.Dependents.{mark_dead_dependents}
use nodepilot.Orchestrator.Loop.{tick}
use nodepilot.Orchestrator.Induction.{save_if-state}
use nodepilot.Orchestrator.Run.{
  save_if, Run, reconcile_job, reconcile_from, reconcile_zombies, run_tick, run_loop, run,
  is_drained,
}
use nodepilot.Orchestrator.Safety.Passes.{
  mark_dead-AllStop, reap_finished-AllStop, reconcile_from-AllStop,
}
use nodepilot.Orchestrator.Total.{IsUsable, IsTracked}
use nodepilot.Orchestrator.Total.Reaps.{
  AllStop-IsTracked, is_running-eq, is_alive-Returns, reap_finished-Returns, enforce_pins-Returns,
}
use nodepilot.Orchestrator.Total.Launches.{launch_pending-IsTracked}

module _ (setup : Setup) (usable : IsUsable setup) where
  reconcile_job-Returns :
      (a : Aux) (job : Job) → IsTracked job → Returns (reconcile_job setup a job)
  unfolding reconcile_job
  reconcile_job-Returns a job tracked = elim (Bool-cases (is_running job.status)) [
    | inr idle ↦ rw idle (_, refl)
    | inl runs ↦
        let (alive, e) =
          is_alive-Returns (look setup a) a.procs job (tracked (is_running-eq job runs)).0
            (usable.stat a.reads) in
        let slice =
          not (is_empty setup.config.memory_slice)
          && scope_is_active (look setup (next setup a)) job.id setup.config.memory_slice in
        elim (Bool-cases (alive || slice)) [
          | inl lives ↦ rw (runs, e, lives) (_, refl)
          | inr dead ↦ rw (runs, e, dead) (_, refl)
        ]
  ]

  reconcile_from-Returns :
      (a : Aux) (jobs : List Job) → All IsTracked jobs → Returns (reconcile_from setup a jobs)
  unfolding reconcile_from
  reconcile_from-Returns a [] tracked = (_, refl)
  reconcile_from-Returns a (job ∷ jobs) tracked =
      let ((job', a', zombie), e) = reconcile_job-Returns a job tracked.0 in
      let (r, e') = reconcile_from-Returns a' jobs tracked.1 in rw (e, e') (_, refl)

  save_if-Returns : (changed : Bool) (r : Run) → Returns (save_if setup changed r)
  unfolding save_if
  save_if-Returns true r = let (_, e) = usable.writes r.state.aux.reads in rw e (_, refl)
  save_if-Returns false r = (r, refl)

  pub reconcile_zombies-IsTracked :
      (r : Run)
      → All IsTracked r.state.jobs
      → (r' : Run) × (reconcile_zombies setup r ≡ ok r') × All IsTracked r'.state.jobs
  unfolding reconcile_zombies
  reconcile_zombies-IsTracked r tracked =
      let ((jobs, a, zombies), e) = reconcile_from-Returns r.state.aux r.state.jobs tracked in
      let kept =
        AllStop-IsTracked r.state.jobs jobs
          (reconcile_from-AllStop setup r.state.aux a r.state.jobs jobs zombies e) tracked in
      let r1 : Run = record r { state = record { jobs = jobs; aux = a } } in
      let (r', saved) = save_if-Returns zombies r1 in
      (
        r',
        rw (e, saved) refl,
        subst (λ s. All IsTracked s.jobs) (save_if-state setup zombies r1 r' saved) kept,
      )

  tick-IsTracked :
      (st : State)
      → All IsTracked st.jobs
      → (r : State × Bool) × (tick setup st ≡ ok r) × All IsTracked r.0.jobs
  unfolding tick
  tick-IsTracked st tracked =
      let ((jobs, a, reaped), e) = reap_finished-Returns setup usable st.aux st.jobs tracked in
      let n = length jobs in
      let clock : ℕ → ℕ → ℕ = λ pass i. (setup.world (a.reads + pass * n + i)).now in
      let jobs' = (mark_dead_dependents clock jobs).0 in
      let kept =
        AllStop-IsTracked st.jobs jobs (reap_finished-AllStop setup st.aux a st.jobs jobs reaped e)
          tracked in
      let kept' = AllStop-IsTracked jobs jobs' (mark_dead-AllStop clock jobs) kept in
      let (a', e') =
        enforce_pins-Returns setup usable (record a { reads = a.reads + suc n * n + n }) jobs'
          kept' in
      let (r, e'', t) =
        launch_pending-IsTracked setup usable (record { jobs = jobs'; aux = a' }) kept' in
      rw (e, e', e'') (_, refl, t)

  pub run_tick-IsTracked :
      (r : Run)
      → All IsTracked r.state.jobs
      → (r' : Run) × (run_tick setup r ≡ ok r') × All IsTracked r'.state.jobs
  unfolding run_tick
  run_tick-IsTracked r tracked =
      let ((st, changed), e, t) = tick-IsTracked r.state tracked in
      let r1 : Run = record r { state = st } in
      let (r', saved) = save_if-Returns changed r1 in
      (
        r',
        rw (e, saved) refl,
        subst (λ s. All IsTracked s.jobs) (save_if-state setup changed r1 r' saved) t,
      )

  run_loop-IsTracked :
      (n : ℕ) (r : Run)
      → All IsTracked r.state.jobs
      → (x : Run × Bool) × (run_loop setup n r ≡ ok x) × All IsTracked x.0.state.jobs
  unfolding run_loop
  run_loop-IsTracked zero r tracked = (_, refl, tracked)
  run_loop-IsTracked (suc n) r tracked =
      let (r', e, t) = run_tick-IsTracked r tracked in
      elim (Bool-cases (is_drained r'.state.jobs)) [
        | inl drained ↦ rw (e, drained) (_, refl, t)
        | inr more ↦ let (x, e', t') = run_loop-IsTracked n r' t in rw (e, more, e') (_, refl, t')
      ]

  -- No exception leaves a run, of any length, that begins with jobs that can be tracked, if the set-up
  -- is usable: the CPU lists of the nodes and of the kernel are well formed, what is read of a process
  -- is ASCII, every save of the state succeeds, and starting a process raises only OSError or
  -- RuntimeError; and its jobs can be tracked at its end.
  pub run-IsTracked :
      (max_ticks : ℕ) (r : Run)
      → All IsTracked r.state.jobs
      → (x : Run × Bool) × (run setup max_ticks r ≡ ok x) × All IsTracked x.0.state.jobs
  unfolding run
  run-IsTracked max_ticks r tracked =
      let (r', e, t) = reconcile_zombies-IsTracked r tracked in
      let (x, e', t') = run_loop-IsTracked (elim max_ticks [ zero ↦ 1 | suc n ↦ suc n ]) r' t in
      rw (e, e') (_, refl, t')
