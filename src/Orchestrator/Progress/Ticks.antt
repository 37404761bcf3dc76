-- ===== src/Orchestrator/Progress/Ticks.antt =====
-- A tick of nodepilot/orchestrator.py takes some work, or leaves the jobs and the cooldown and makes
-- observations; where all that the jobs wait for has come, it takes some work.
use nodepilot.Common.{
  ℕ, ◌+◌, ◌≤◌, ◌<◌, ◌≡◌, ◌≢◌, ap, ◌∙◌, subst, ◌⊎◌, inl, inr, Bool, List, some, arith, ok, All,
  All-imp, All-and, All2-All, All2-imp, All-get_elem?, get_elem?, length,
}
use nodepilot.Common.Text.{Text}
use nodepilot.Config.{Job, pending, running}
use nodepilot.Orchestrator.{Setup, State}
use nodepilot.Orchestrator.Settled.{IsUnblocked, mark_dead_dependents-IsUnblocked}
use nodepilot.Orchestrator.Lifecycle.Ticks.{tick-Moves}
use nodepilot.Orchestrator.Course.{Follows, Stops-Follows}
use nodepilot.Orchestrator.Loop.{launch_order, launch_pending, tick}
use nodepilot.Orchestrator.Order.{PendingAt, launch_order-PendingAt, launch_order-AllPairs}
use nodepilot.Orchestrator.Phases.{Tick, tick-Tick}
use nodepilot.Orchestrator.Safety.Sums.{Stops, AllStop}
use nodepilot.Orchestrator.Safety.Passes.{mark_dead-AllStop}
use nodepilot.Orchestrator.Total.{IsUsable}
use nodepilot.Orchestrator.Progress.{work, IsUsual, IsRipe, IsFeasible, IsDoable}
use nodepilot.Orchestrator.Progress.Work.{work_le, work_zero, work-Moves}
use nodepilot.Orchestrator.Progress.Ripe.{IsRipe-later, IsRipe-AllStop}
use nodepilot.Orchestrator.Progress.Reaped.{
  Goes, NoneRuns, reap_finished-work, reap_finished-gone, enforce_pins-Goes,
}
use nodepilot.Orchestrator.Progress.Going.{launch_each-Goes}
use nodepilot.Orchestrator.Progress.Stuck.{
  Lacks, launch_each-work, launch_each-stuck, launch_order-at,
}
use nodepilot.Orchestrator.Progress.Ranked.{none_waits}
use nodepilot.Orchestrator.Progress.Doable.{AllDoable, AllStop-AllDoable}

module _ (setup : Setup) (rank : Text → ℕ) where
  AllStop-work : (js js' : List Job) → AllStop js js' → work js' ≤ work js
  AllStop-work js js' h = work_le js js' (All2-imp Stops Follows Stops-Follows js js' h)

  -- The launches, where no job runs, take some work, or none is left.
  launch_pending-work :
      (usable : IsUsable setup) (st st' : State) (changed : Bool)
      → 0 < setup.config.max_concurrent
      → IsRipe setup st.aux.reads st.aux.cooldown_until st.jobs
      → NoneRuns st.jobs
      → All (IsUnblocked st.jobs) st.jobs
      → AllDoable setup rank st.jobs
      → launch_pending setup st ≡ ok (st', changed)
      → (work st'.jobs < work st.jobs) ⊎ (work st'.jobs ≡ 0)
  unfolding launch_pending
  launch_pending-work usable st st' changed slot ripe idle settled k e =
      let order = launch_order st.jobs in
      let at = launch_order-PendingAt st.jobs in
      let pairs = launch_order-AllPairs st.jobs in
      let feasible =
        All-imp (PendingAt st.jobs)
          (λ i.
            (j : Job) × (get_elem? st.jobs i ≡ some j) × (j.status ≡ pending) × IsFeasible setup j)
          (λ i (j, here, waits).
            (j, here, waits, (All-get_elem? _ st.jobs k i j here).feasible waits))
          order at in
      elim (launch_each-stuck setup usable order st st' changed slot ripe idle feasible pairs e) [
        | inl fewer ↦ inl fewer
        | inr lacks ↦
            let waits =
              none_waits setup rank st.jobs
                (All-imp (IsDoable setup rank) (λ j. IsUsual j.status) (λ j d. d.usual) st.jobs k)
                idle settled
                (All-imp (IsDoable setup rank) (λ j. All (λ dep. rank dep < rank j.id) j.depends_on)
                  (λ j d. d.ranked) st.jobs k)
                (launch_order-at (Lacks setup st.jobs) st.jobs lacks) in
            let none_left =
              work_zero st.jobs
                (All-and (λ j. j.status ≢ running) (λ j. j.status ≢ pending) st.jobs idle waits) in
            let no_more = launch_each-work setup order st st' changed at pairs e in
            inr (omega arith)
      ]

  module _ (st st' : State) (changed : Bool) (t : Tick setup st st' changed) where
    -- What the phases after the reaping do.
    middle_stops : AllStop t.jobs t.middle.jobs
    middle_stops = rw t.middle_jobs (mark_dead-AllStop t.clock t.jobs)

    launches_work : work st'.jobs ≤ work t.middle.jobs
    unfolding launch_pending
    launches_work =
        launch_each-work setup (launch_order t.middle.jobs) t.middle st' t.launched
          (launch_order-PendingAt t.middle.jobs) (launch_order-AllPairs t.middle.jobs) t.launching

    after_reaping : work st'.jobs ≤ work t.jobs
    after_reaping = omega (arith, launches_work, AllStop-work t.jobs t.middle.jobs middle_stops)

    middle_Goes :
        (t.middle.aux.cooldown_until ≡ t.aux.cooldown_until)
        × (t.aux.reads + length t.jobs ≤ t.middle.aux.reads)
    middle_Goes =
        let (cooldown, le) =
          enforce_pins-Goes setup (record t.aux { reads = t.reads }) t.middle.aux t.middle.jobs
            t.pinning in
        (cooldown, omega (arith, le, t.later))

    launches_Goes : Goes t.middle.aux st'.aux
    unfolding launch_pending
    launches_Goes =
        launch_each-Goes setup (launch_order t.middle.jobs) t.middle st' t.launched t.launching

  -- A tick takes some work, or leaves the jobs and the cooldown, and makes an observation for each job.
  pub tick-work :
      (st st' : State) (changed : Bool)
      → tick setup st ≡ ok (st', changed)
      → (work st'.jobs < work st.jobs)
        ⊎ (st'.jobs ≡ st.jobs)
          × (st'.aux.cooldown_until ≡ st.aux.cooldown_until)
          × (st.aux.reads + length st.jobs ≤ st'.aux.reads)
  tick-work st st' changed e =
      let t = tick-Tick setup st st' changed e in
      let less = after_reaping st st' changed t in
      elim (reap_finished-work setup st.aux t.aux st.jobs t.jobs t.reaped t.reaping) [
        | inr fewer ↦ inl (omega (arith, less, fewer))
        | inl (kept, (cooldown, le)) ↦
            elim (work-Moves st'.jobs st.jobs st'.jobs (tick-Moves setup st st' changed e)) [
              | inr fewer ↦ inl fewer
              | inl same ↦
                  let (cooldown', le') = middle_Goes st st' changed t in
                  let (cooldown'', le'') = launches_Goes st st' changed t in
                  let count : length t.jobs ≡ length st.jobs = ap length kept in
                  inr (same, cooldown'' ∙ cooldown' ∙ cooldown, omega (arith, le, le', le'', count))
            ]
      ]

  -- Where all that the jobs wait for has come, a tick takes some work, or none is left.
  pub tick-IsRipe :
      (usable : IsUsable setup) (st st' : State) (changed : Bool)
      → 0 < setup.config.max_concurrent
      → IsRipe setup st.aux.reads st.aux.cooldown_until st.jobs
      → AllDoable setup rank st.jobs
      → tick setup st ≡ ok (st', changed)
      → (work st'.jobs < work st.jobs) ⊎ (work st'.jobs ≡ 0)
  tick-IsRipe usable st st' changed slot ripe k e =
      let t = tick-Tick setup st st' changed e in
      let less = after_reaping st st' changed t in
      let now : st.aux.reads ≤ st.aux.reads = omega arith in
      elim (reap_finished-gone setup st.aux t.aux st.jobs t.jobs t.reaped
        (ripe.ended st.aux.reads now) t.reaping) [
          | inr fewer ↦ inl (omega (arith, less, fewer))
          | inl idle ↦
              elim (reap_finished-work setup st.aux t.aux st.jobs t.jobs t.reaped t.reaping) [
                | inr fewer ↦ inl (omega (arith, less, fewer))
                | inl (kept, (cooldown, le)) ↦
                    let stops : AllStop st.jobs t.middle.jobs =
                      subst (λ js. AllStop js t.middle.jobs) kept (middle_stops st st' changed t) in
                    let (cooldown', le') = middle_Goes st st' changed t in
                    let still : t.middle.aux.cooldown_until ≡ st.aux.cooldown_until =
                      cooldown' ∙ cooldown in
                    let ripe' =
                      IsRipe-AllStop setup t.middle.aux.reads st.aux.cooldown_until st.jobs
                        t.middle.jobs stops
                        (IsRipe-later setup st.aux.reads t.middle.aux.reads st.aux.cooldown_until
                          st.jobs (omega (arith, le, le')) ripe) in
                    let settled : All (IsUnblocked t.middle.jobs) t.middle.jobs =
                      rw t.middle_jobs (mark_dead_dependents-IsUnblocked t.clock t.jobs) in
                    let idle' = All2-All _ _ Stops Stops-idle st.jobs t.middle.jobs idle stops in
                    let fewer =
                      launch_pending-work usable t.middle st' t.launched slot (rw still ripe') idle'
                        settled (AllStop-AllDoable setup rank st.jobs t.middle.jobs stops k)
                        t.launching in
                    let no_more = AllStop-work st.jobs t.middle.jobs stops in ground arith
              ]
        ]
    where
      Stops-idle : (j j' : Job) → j.status ≢ running → Stops j j' → j'.status ≢ running
      Stops-idle j j' h (inl same) = rw same h
      Stops-idle j j' h (inr (_, _, how)) = λ runs. ground arith
