-- ===== src/Orchestrator/Safety/Ticks.antt =====
-- The safety of the schedule across ticks and runs.
use nodepilot.Common.{ℕ, ◌≡◌, ◌≢◌, subst, inl, inr, Bool, List, [], ◌∷◌, arith, ok, >>=-eq-ok, All}
use nodepilot.Common.Sort.{AllPairs}
use nodepilot.Config.{Job, is_running}
use nodepilot.Orchestrator.{Setup, Aux, State, try_launch}
use nodepilot.Orchestrator.Dependents.{mark_dead_dependents}
use nodepilot.Orchestrator.Loop.{launch_order, launch_each, launch_pending, tick}
use nodepilot.Orchestrator.Run.{Run, reconcile_from, run}
use nodepilot.Orchestrator.Steps.{try_launch-cases}
use nodepilot.Orchestrator.Induction.{run-keeps_jobs}
use nodepilot.Orchestrator.Phases.{tick-Tick}
use nodepilot.Orchestrator.Order.{
  PendingAt, PendingAt-set, launch_order-PendingAt, launch_order-AllPairs,
}
use nodepilot.Admission.{running_count, running_cores}
use nodepilot.Numa.Cores.{contains}
use nodepilot.Orchestrator.Safety.{IsSafe, held, one_if}
use nodepilot.Orchestrator.Safety.Sums.{AllStop, running_sum-AllStop}
use nodepilot.Orchestrator.Safety.Passes.{
  mark_dead-AllStop, reap_finished-AllStop, reconcile_from-AllStop,
}
use nodepilot.Orchestrator.Safety.Launches.{try_launch-IsSafe}

module _ (setup : Setup) where
  AllStop-IsSafe : (js js' : List Job) → AllStop js js' → IsSafe setup js → IsSafe setup js'
  unfolding running_count running_cores
  AllStop-IsSafe js js' h safe =
      let fewer = running_sum-AllStop (λ _. 1) js js' h in
      let lower = running_sum-AllStop (λ j. one_if j.exclusive) js js' h in
      record {
        count = omega (arith, fewer, safe.count);
        cores = omega (arith, running_sum-AllStop (λ j. j.cores) js js' h, safe.cores);
        mutex = omega (arith, fewer, lower, safe.mutex);
        apart = λ c.
            omega (
              arith,
              running_sum-AllStop (λ j. one_if (contains c (held j))) js js' h,
              safe.apart c,
            );
      }

  launch_each-IsSafe :
      (is : List ℕ) (st st' : State) (changed : Bool)
      → All (PendingAt st.jobs) is
      → AllPairs (◌≢◌ {A = ℕ}) is
      → IsSafe setup st.jobs
      → launch_each setup is st ≡ ok (st', changed)
      → IsSafe setup st'.jobs
  unfolding launch_each is_running
  launch_each-IsSafe [] st st' changed at d safe e =
      let same : st ≡ st' = ground arith in subst (λ s. IsSafe setup s.jobs) same safe
  launch_each-IsSafe (i ∷ is) st st' changed ((job, here, waits), at) d safe e =
      let ((st1, c1), first, e') = >>=-eq-ok (try_launch setup st i job) _ (rw here at e) in
      let ((st2, c2), others, e'') = >>=-eq-ok (launch_each setup is st1) _ e' in
      let safe1 = try_launch-IsSafe setup st st1 i job c1 here (rw waits) safe first in
      let at1 : All (PendingAt st1.jobs) is = elim (try_launch-cases setup st st1 i job c1 first) [
        | inl (_, same) ↦ rw same at
        | inr (_, l) ↦ rw l.jobs (PendingAt-set st.jobs i l.job' is d.0 at)
      ] in
      let same : st2 ≡ st' = ground arith in
      subst (λ s. IsSafe setup s.jobs) same (launch_each-IsSafe is st1 st2 c2 at1 d.1 safe1 others)

  launch_pending-IsSafe :
      (st st' : State) (changed : Bool)
      → IsSafe setup st.jobs
      → launch_pending setup st ≡ ok (st', changed)
      → IsSafe setup st'.jobs
  unfolding launch_pending
  launch_pending-IsSafe st st' changed =
      launch_each-IsSafe (launch_order st.jobs) st st' changed (launch_order-PendingAt st.jobs)
        (launch_order-AllPairs st.jobs)

  -- A tick that returns, from a safe job list, leaves a safe job list, whatever the world answers.
  tick-IsSafe :
      (st st' : State) (changed : Bool)
      → IsSafe setup st.jobs
      → tick setup st ≡ ok (st', changed)
      → IsSafe setup st'.jobs
  tick-IsSafe st st' changed safe e =
      let t = tick-Tick setup st st' changed e in
      let reaped =
        AllStop-IsSafe st.jobs t.jobs
          (reap_finished-AllStop setup st.aux t.aux st.jobs t.jobs t.reaped t.reaping) safe in
      let marked =
        AllStop-IsSafe t.jobs (mark_dead_dependents t.clock t.jobs).0
          (mark_dead-AllStop t.clock t.jobs) reaped in
      launch_pending-IsSafe t.middle st' t.launched (rw t.middle_jobs marked) t.launching

  reconcile_from-IsSafe :
      (a a' : Aux) (jobs jobs' : List Job) (found : Bool)
      → IsSafe setup jobs
      → reconcile_from setup a jobs ≡ ok (jobs', a', found)
      → IsSafe setup jobs'
  reconcile_from-IsSafe a a' jobs jobs' found safe e =
      AllStop-IsSafe jobs jobs' (reconcile_from-AllStop setup a a' jobs jobs' found e) safe

  -- A run that returns, from a safe job list, leaves a safe job list, however many ticks it makes and
  -- whatever the world answers: the running jobs do not exceed the cap, nor their cores the budget;
  -- an exclusive job runs alone; and no core is held by two running jobs, or held and reserved.
  pub run-IsSafe :
      (max_ticks : ℕ) (r r' : Run) (drained : Bool)
      → IsSafe setup r.state.jobs
      → run setup max_ticks r ≡ ok (r', drained)
      → IsSafe setup r'.state.jobs
  run-IsSafe = run-keeps_jobs setup (IsSafe setup) reconcile_from-IsSafe tick-IsSafe
