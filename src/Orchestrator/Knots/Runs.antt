-- ===== src/Orchestrator/Knots/Runs.antt =====
-- A knot of jobs that wait for each other, through a run of nodepilot/orchestrator.py.
use nodepilot.Common.{
  ℕ, ◌≡◌, sym, ap, ◌∙◌, subst, inl, inr, Bool, true, false, List, [], ◌∷◌, arith, ok, Bool-cases,
  All, All2, All2-trans, All2-with, All2-All,
}
use nodepilot.Common.Text.{Text, text_eq, text_eq_iff}
use nodepilot.Config.{Job}
use nodepilot.Orchestrator.{Setup, Aux, State}
use nodepilot.Orchestrator.Drained.{IsOver, run-IsOver}
use nodepilot.Orchestrator.Induction.{run-keeps_jobs}
use nodepilot.Orchestrator.Lifecycle.{Starts}
use nodepilot.Orchestrator.Lifecycle.Ticks.{launch_each-Starts}
use nodepilot.Orchestrator.Loop.{tick, launch_order, launch_pending}
use nodepilot.Orchestrator.Order.{launch_order-PendingAt, launch_order-AllPairs}
use nodepilot.Orchestrator.Phases.{tick-Tick}
use nodepilot.Orchestrator.Run.{Run, reconcile_from, run}
use nodepilot.Orchestrator.Safety.Passes.{Ends, reap_finished-AllEnd, reconcile_from-AllEnd}
use nodepilot.Orchestrator.Knots.{
  has_id, has_id-Leaves, Waits, Ties, IsKnot, IsKnotted, IsKnot-Leaves, Leaves, Leaves-trans,
  Ends-Leaves, mark_dead-Leaves, NotDone, Starts-NotDone, Starts-Leaves,
}

-- A list with a waiting job has a job that is not over.
IsOver-Waits :
    (tied : Text → Bool) (jobs : List Job) (d : Text)
    → tied d ≡ true
    → has_id jobs d ≡ true
    → All (Waits tied) jobs
    → ¬ All IsOver jobs
IsOver-Waits tied [] d t h w over = absurd (ground arith)
IsOver-Waits tied (j ∷ js) d t h w over = elim (Bool-cases (text_eq j.id d)) [
  | inl named ↦ over.0.0 (w.0 (ap tied ((text_eq_iff j.id d).0 named) ∙ t))
  | inr other ↦ IsOver-Waits tied js d t (rw other at h) w.1 over.1
]

module _ (setup : Setup) (tied : Text → Bool) where
  abbrev AllLeave : List Job → List Job → Type 0
  AllLeave = All2 (Leaves tied)

  AllLeave-trans : (xs ys zs : List Job) → AllLeave xs ys → AllLeave ys zs → AllLeave xs zs
  AllLeave-trans = All2-trans (Leaves tied) (Leaves tied) (Leaves tied) (Leaves-trans tied)

  AllEnd-AllLeave : (js js' : List Job) → IsKnot tied js → All2 Ends js js' → AllLeave js js'
  AllEnd-AllLeave js js' knot ends =
      All2-with (Waits tied) Ends (Leaves tied) (Ends-Leaves tied) js js' knot.0 ends

  AllStart-AllLeave :
      (js js' : List Job) → IsKnot tied js → All2 (Starts js') js js' → AllLeave js js'
  AllStart-AllLeave js js' knot starts =
      let fresh : All (NotDone tied) js' =
        All2-All (Waits tied) (NotDone tied) (Starts js') (Starts-NotDone tied js') js js' knot.0
          starts in
      All2-with (Ties tied js) (Starts js') (Leaves tied)
        (λ j j' ties s. Starts-Leaves tied js' js j j' fresh ties s) js js' knot.1 starts

  tick-AllLeave :
      (st st' : State) (changed : Bool)
      → IsKnot tied st.jobs
      → tick setup st ≡ ok (st', changed)
      → AllLeave st.jobs st'.jobs
  unfolding launch_pending
  tick-AllLeave st st' changed knot e =
      let t = tick-Tick setup st st' changed e in
      let reaps =
        AllEnd-AllLeave st.jobs t.jobs knot
          (reap_finished-AllEnd setup st.aux t.aux st.jobs t.jobs t.reaped t.reaping) in
      let marks =
        mark_dead-Leaves tied t.clock t.jobs (IsKnot-Leaves tied st.jobs t.jobs reaps knot) in
      let middle : AllLeave st.jobs t.middle.jobs =
        subst (AllLeave st.jobs) (sym t.middle_jobs) (AllLeave-trans _ _ _ reaps marks) in
      let starts =
        launch_each-Starts setup (launch_order t.middle.jobs) t.middle st' t.launched
          (launch_order-PendingAt t.middle.jobs) (launch_order-AllPairs t.middle.jobs)
          t.launching in
      AllLeave-trans _ _ _ middle
        (AllStart-AllLeave t.middle.jobs st'.jobs (IsKnot-Leaves tied _ _ middle knot) starts)

  IsKnotted-AllLeave :
      (js js' : List Job) → AllLeave js js' → IsKnotted tied js → IsKnotted tied js'
  IsKnotted-AllLeave js js' h (knot, d, t, here) =
      (IsKnot-Leaves tied js js' h knot, d, t, has_id-Leaves tied js js' d h ∙ here)

  reconcile_from-IsKnotted :
      (a a' : Aux) (jobs jobs' : List Job) (found : Bool)
      → IsKnotted tied jobs
      → reconcile_from setup a jobs ≡ ok (jobs', a', found)
      → IsKnotted tied jobs'
  reconcile_from-IsKnotted a a' jobs jobs' found knot e =
      IsKnotted-AllLeave jobs jobs'
        (AllEnd-AllLeave jobs jobs' knot.0 (reconcile_from-AllEnd setup a a' jobs jobs' found e))
        knot

  tick-IsKnotted :
      (st st' : State) (changed : Bool)
      → IsKnotted tied st.jobs
      → tick setup st ≡ ok (st', changed)
      → IsKnotted tied st'.jobs
  tick-IsKnotted st st' changed knot e =
      IsKnotted-AllLeave st.jobs st'.jobs (tick-AllLeave st st' changed knot.0 e) knot

  -- If some jobs of the list are pending and depend, each on at least one job, and only on jobs among
  -- themselves, then no run ends by a drained queue, however many ticks it is given: a run that returns
  -- was cut off by its limit, and these jobs are still pending.
  pub run-IsKnotted :
      (max_ticks : ℕ) (r r' : Run) (ended : Bool)
      → IsKnotted tied r.state.jobs
      → run setup max_ticks r ≡ ok (r', ended)
      → (ended ≡ false) × IsKnotted tied r'.state.jobs
  run-IsKnotted max_ticks r r' ended knot e =
      let knot' =
        run-keeps_jobs setup (IsKnotted tied) reconcile_from-IsKnotted tick-IsKnotted max_ticks r r'
          ended knot e in
      let (waits, d, t, here) = knot' in
      (
        elim (Bool-cases ended) [
          | inr cut ↦ cut
          | inl drained ↦
              let over = run-IsOver setup max_ticks r r' (rw drained at e) in
              absurd (IsOver-Waits tied r'.state.jobs d t here waits.0 over)
        ],
        knot',
      )
