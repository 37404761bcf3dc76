-- ===== src/Orchestrator/Drained.antt =====
-- How a run of nodepilot/orchestrator.py ends.
use nodepilot.Common.{
  ℕ, zero, suc, ◌≡◌, ◌≢◌, subst, inl, inr, true, List, [], ◌∷◌, arith, ok, >>=-eq-ok, Bool-cases,
  All,
}
use nodepilot.Config.{Job, pending, running, is_pending, is_running}
use nodepilot.Orchestrator.{Setup}
use nodepilot.Orchestrator.Run.{Run, reconcile_zombies, run_tick, run_loop, run, is_drained}

-- The job is neither waiting nor running.
abbrev pub IsOver : Job → Type 0
IsOver j = (j.status ≢ pending) × (j.status ≢ running)

is_drained-IsOver : (jobs : List Job) → is_drained jobs ≡ true → All IsOver jobs
unfolding is_drained is_pending is_running
is_drained-IsOver [] h = tt
is_drained-IsOver (j ∷ js) h =
    ((λ e. ground arith, λ e. ground arith), is_drained-IsOver js (ground arith))

module _ (setup : Setup) where
  run_loop-IsOver :
      (n : ℕ) (r r' : Run) → run_loop setup n r ≡ ok (r', true) → All IsOver r'.state.jobs
  unfolding run_loop
  run_loop-IsOver zero r r' e = absurd (ground arith)
  run_loop-IsOver (suc n) r r' e =
      let (r1, first, e') = >>=-eq-ok (run_tick setup r) _ e in
      elim (Bool-cases (is_drained r1.state.jobs)) [
        | inl drained ↦
            let same : r1 ≡ r' = ground arith in
            subst (λ x. All IsOver x.state.jobs) same (is_drained-IsOver r1.state.jobs drained)
        | inr more ↦ run_loop-IsOver n r1 r' (rw more at e')
      ]

  -- A run that ends by a drained queue, and not by its limit, leaves no job that waits or runs.
  pub run-IsOver :
      (max_ticks : ℕ) (r r' : Run)
      → run setup max_ticks r ≡ ok (r', true)
      → All IsOver r'.state.jobs
  unfolding run
  run-IsOver max_ticks r r' e =
      let (r1, first, e') = >>=-eq-ok (reconcile_zombies setup r) _ e in run_loop-IsOver _ r1 r' e'
