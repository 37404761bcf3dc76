-- ===== src/Orchestrator/Lifecycle/Ticks.antt =====
-- A tick of nodepilot/orchestrator.py, job by job, from its launches.
use nodepilot.Common.{
  ℕ, ◌≡◌, ◌≢◌, refl, sym, ap, ◌∙◌, subst, inl, inr, Bool, true, List, [], ◌∷◌, some, arith, ok,
  >>=-eq-ok, Option-cases, set, All, All2, All2-refl, All2-set, All2-trans,
}
use nodepilot.Common.Sort.{AllPairs}
use nodepilot.Common.Text.{Text}
use nodepilot.Config.{Job, pending, done, is_done}
use nodepilot.Orchestrator.{Setup, State, deps_satisfied, try_launch}
use nodepilot.Orchestrator.Dependents.{by_id}
use nodepilot.Orchestrator.Loop.{launch_each, launch_pending, launch_order, tick}
use nodepilot.Orchestrator.Steps.{Launched, try_launch-cases}
use nodepilot.Orchestrator.Order.{
  PendingAt, PendingAt-set, launch_order-PendingAt, launch_order-AllPairs,
}
use nodepilot.Orchestrator.Phases.{tick-Tick}
use nodepilot.Orchestrator.Safety.Sums.{Stops, Stops-trans}
use nodepilot.Orchestrator.Safety.Passes.{mark_dead-AllStop, reap_finished-AllStop}
use nodepilot.Orchestrator.Lifecycle.{Starts, Moves, Waits}
use nodepilot.Orchestrator.Lifecycle.Kept.{Starts-Waits, DepsDone-Waits}

Starts-trans : (jobs : List Job) (a b c : Job) → Starts jobs a b → Starts jobs b c → Starts jobs a c
Starts-trans jobs a b c h (inl same) = rw same h
Starts-trans jobs a b c (inl same) (inr k) = inr (rw same at k)
Starts-trans jobs a b c (inr h) (inr k) = absurd (ground arith)

Waits-trans : (a b c : Job) → Waits a b → Waits b c → Waits a c
Waits-trans a b c h (inl same) = rw same h
Waits-trans a b c (inl same) (inr k) = inr (rw same at k)
Waits-trans a b c (inr h) (inr k) = inr ((k.0.0 ∙ h.0.0, k.0.1 ∙ h.0.1), h.1)

All2-Waits : (jobs js js' : List Job) → All2 (Starts jobs) js js' → All2 Waits js js'
All2-Waits jobs [] [] h = tt
All2-Waits jobs [] (j' ∷ js') h = absurd h
All2-Waits jobs (j ∷ js) [] h = absurd h
All2-Waits jobs (j ∷ js) (j' ∷ js') h = (Starts-Waits jobs j j' h.0, All2-Waits jobs js js' h.1)

-- A job that was reaped or skipped, and then perhaps launched.
Moves-trans : (jobs : List Job) (a b c : Job) → Stops a b → Starts jobs b c → Moves jobs a c
Moves-trans jobs a b c (inl same) (inl same') = inl (same' ∙ same)
Moves-trans jobs a b c (inl same) (inr (id, waits, k, deps)) =
    subst (λ x. Moves jobs x c) same (inr (id, inr (waits, inr (k, deps))))
Moves-trans jobs a b c (inr (id, deps, h)) (inl same) =
    let ends : Moves jobs a b =
      inr
        ((id, deps), elim h [ inl ran ↦ inl ran | inr (waits, skips) ↦ inr (waits, inl skips) ]) in
    rw same ends
Moves-trans jobs a b c (inr h) (inr k) = absurd (ground arith)

module _ (setup : Setup) where
  deps_satisfied-DepsDone :
      (jobs : List Job) (deps : List Text)
      → deps_satisfied setup jobs deps ≡ true
      → All (λ dep. (u : Job) × (by_id jobs dep ≡ some u) × (u.status ≡ done)) deps
  unfolding deps_satisfied is_done
  deps_satisfied-DepsDone jobs [] e = tt
  deps_satisfied-DepsDone jobs (dep ∷ deps) e = elim (Option-cases (by_id jobs dep)) [
    | inl missing ↦ absurd (ground arith)
    | inr (u, found) ↦ ((u, found, ground arith), deps_satisfied-DepsDone jobs deps (ground arith))
  ]

  -- The launch of a ready job, seen with the job list after the whole pass.
  launched-Starts :
      (js js' : List Job) (job job' : Job)
      → All2 Waits js js'
      → job.status ≡ pending
      → deps_satisfied setup js job.depends_on ≡ true
      → Launched setup js job job'
      → Starts js' job job'
  launched-Starts js js' job job' kept waits ready l =
      let deps = DepsDone-Waits js js' job kept (deps_satisfied-DepsDone js job.depends_on ready) in
      let (id, depends_on, how) = l.started in
      inr (
        (id, depends_on),
        waits,
        elim how [ inl fails ↦ inl fails.0 | inr runs ↦ inr runs.0 ],
        deps,
      )

  pub launch_each-Starts :
      (is : List ℕ) (st st' : State) (changed : Bool)
      → All (PendingAt st.jobs) is
      → AllPairs (◌≢◌ {A = ℕ}) is
      → launch_each setup is st ≡ ok (st', changed)
      → All2 (Starts st'.jobs) st.jobs st'.jobs
  unfolding launch_each
  launch_each-Starts [] st st' changed at d e =
      let same : st ≡ st' = ground arith in
      subst (λ s. All2 (Starts s.jobs) st.jobs s.jobs) same
        (All2-refl (Starts st.jobs) (λ j. inl refl) st.jobs)
  launch_each-Starts (i ∷ is) st st' changed ((job, here, waits), at) d e =
      let ((st1, c1), first, e') = >>=-eq-ok (try_launch setup st i job) _ (rw here at e) in
      let ((st2, c2), others, e'') = >>=-eq-ok (launch_each setup is st1) _ e' in
      let same : st2 ≡ st' = ground arith in
      let others' : launch_each setup is st1 ≡ ok (st', c2) = others ∙ ap (λ s. ok (s, c2)) same in
      elim (try_launch-cases setup st st1 i job c1 first) [
        | inl (_, still) ↦
            let rest = launch_each-Starts is st1 st' c2 (rw still at) d.1 others' in
            subst (λ js. All2 (Starts st'.jobs) js st'.jobs) still rest
        | inr (_, l) ↦
            let after = set st.jobs i l.job' in
            let at' =
              subst (λ js. All (PendingAt js) is) (sym l.jobs)
                (PendingAt-set st.jobs i l.job' is d.0 at) in
            let rest : All2 (Starts st'.jobs) after st'.jobs =
              subst (λ js. All2 (Starts st'.jobs) js st'.jobs) l.jobs
                (launch_each-Starts is st1 st' c2 at' d.1 others') in
            let (id, depends_on, _) = l.launched.started in
            let step_waits =
              All2-set Waits (λ j. inl refl) st.jobs i job l.job' here
                (inr ((id, depends_on), waits)) in
            let kept =
              All2-trans Waits Waits Waits Waits-trans st.jobs after st'.jobs step_waits
                (All2-Waits st'.jobs after st'.jobs rest) in
            let step =
              All2-set (Starts st'.jobs) (λ j. inl refl) st.jobs i job l.job' here
                (launched-Starts st.jobs st'.jobs job l.job' kept waits l.ready l.launched) in
            All2-trans (Starts st'.jobs) (Starts st'.jobs) (Starts st'.jobs) (Starts-trans st'.jobs)
              st.jobs after st'.jobs step rest
      ]

  -- A tick that returns leaves every job as it is, or changes its status, and of its id and its
  -- dependencies nothing: a running job becomes done or failed; a pending job becomes skipped, or
  -- failed or running, and these two only if each of its dependencies names a job that is done in
  -- the list after the tick. The list keeps its length and its order.
  pub tick-Moves :
      (st st' : State) (changed : Bool)
      → tick setup st ≡ ok (st', changed)
      → All2 (Moves st'.jobs) st.jobs st'.jobs
  unfolding launch_pending
  tick-Moves st st' changed e =
      let t = tick-Tick setup st st' changed e in
      let stops =
        All2-trans Stops Stops Stops Stops-trans st.jobs t.jobs _
          (reap_finished-AllStop setup st.aux t.aux st.jobs t.jobs t.reaped t.reaping)
          (mark_dead-AllStop t.clock t.jobs) in
      let starts =
        launch_each-Starts (launch_order t.middle.jobs) t.middle st' t.launched
          (launch_order-PendingAt t.middle.jobs) (launch_order-AllPairs t.middle.jobs)
          t.launching in
      All2-trans Stops (Starts st'.jobs) (Moves st'.jobs) (Moves-trans st'.jobs) st.jobs
        t.middle.jobs st'.jobs (subst (All2 Stops st.jobs) (sym t.middle_jobs) stops) starts
