-- ===== src/Orchestrator/Explained/Runs.antt =====
-- The passes and runs of nodepilot/orchestrator.py leave no end of a job unexplained.
use nodepilot.Common.{
  ℕ, suc, ◌≡◌, subst, ◌⊎◌, inl, inr, Bool, List, [], ◌∷◌, arith, ok, >>=-eq-ok, Bool-cases,
  Option-cases, All, get_elem?, length,
}
use nodepilot.Common.Text.{codes}
use nodepilot.Config.{Job, failed, is_running, is_dead}
use nodepilot.Cgroups.{journal_reports_oom}
use nodepilot.Runner.{classify, reap, returncode, forget, is_alive}
use nodepilot.Orchestrator.{
  Setup, Aux, State, look, next, finish, reap_job, reap_finished, try_launch,
}
use nodepilot.Orchestrator.Dependents.{mark_dead_dependents}
use nodepilot.Orchestrator.Induction.{run-keeps_jobs}
use nodepilot.Orchestrator.Loop.{launch_each, launch_pending, launch_order, tick}
use nodepilot.Orchestrator.Phases.{tick-Tick}
use nodepilot.Orchestrator.Run.{Run, reconcile_job, reconcile_from, run}
use nodepilot.Orchestrator.Steps.{try_launch-cases}
use nodepilot.Orchestrator.Total.{All-set}
use nodepilot.Orchestrator.Explained.{
  IsExplained, AllExplained, classify_explains, mark_loop-AllExplained,
}

module _ (setup : Setup) where
  finish-IsExplained :
      (a a' : Aux) (job job' : Job) → finish setup a job ≡ ok (job', a') → IsExplained job'
  unfolding finish reap
  finish-IsExplained a a' job job' e =
      let (r, reaped, e') = >>=-eq-ok (reap (look setup a) a.procs job) _ e in
      let (code, _, e'') = >>=-eq-ok (returncode (look setup a) a.procs job) _ reaped in
      let (procs, _, e3) = >>=-eq-ok (forget a.procs job) _ e'' in
      let hint = journal_reports_oom (look setup a) in
      let (good, bad) = classify_explains hint code in
      let status : (classify hint code).status ≡ job'.status = ground arith in
      let reason : (classify hint code).reason ≡ job'.failure_reason = ground arith in
      let exit_code : (classify hint code).exit_code ≡ job'.exit_code = ground arith in
      (rw (← status, ← reason, ← exit_code) good, rw (← status, ← reason) bad)

  reap_job-IsExplained :
      (a a' : Aux) (job job' : Job) (changed : Bool)
      → IsExplained job
      → reap_job setup a job ≡ ok (job', a', changed)
      → IsExplained job'
  unfolding reap_job
  reap_job-IsExplained a a' job job' changed h e = elim (Bool-cases (is_running job.status)) [
    | inr idle ↦ let same : job ≡ job' = ground arith in subst IsExplained same h
    | inl runs ↦
        let (alive, _, e') = >>=-eq-ok (is_alive (look setup a) a.procs job) _ (rw runs at e) in
        elim (Bool-cases alive) [
          | inl lives ↦ let same : job ≡ job' = ground arith in subst IsExplained same h
          | inr gone ↦
              let (r, ended, e'') = >>=-eq-ok (finish setup (next setup a) job) _ (rw gone at e') in
              finish-IsExplained (next setup a) a' job job' (ground arith)
        ]
  ]

  reap_finished-AllExplained :
      (a a' : Aux) (jobs jobs' : List Job) (changed : Bool)
      → AllExplained jobs
      → reap_finished setup a jobs ≡ ok (jobs', a', changed)
      → AllExplained jobs'
  unfolding reap_finished
  reap_finished-AllExplained a a' [] jobs' changed h e =
      let same : [] ≡ jobs' = ground arith in subst AllExplained same tt
  reap_finished-AllExplained a a' (job ∷ jobs) jobs' changed h e =
      let ((job', a1, c1), first, e') = >>=-eq-ok (reap_job setup a job) _ e in
      let ((rest, a2, c2), others, e'') = >>=-eq-ok (reap_finished setup a1 jobs) _ e' in
      let same : job' ∷ rest ≡ jobs' = ground arith in
      subst AllExplained same (
        reap_job-IsExplained a a1 job job' c1 h.0 first,
        reap_finished-AllExplained a1 a2 jobs rest c2 h.1 others,
      )

  reconcile_job-IsExplained :
      (a a' : Aux) (job job' : Job) (zombie : Bool)
      → IsExplained job
      → reconcile_job setup a job ≡ ok (job', a', zombie)
      → IsExplained job'
  unfolding reconcile_job is_dead
  reconcile_job-IsExplained a a' job job' zombie h e = elim (Bool-cases (is_running job.status)) [
    | inr idle ↦ let same : job ≡ job' = ground arith in subst IsExplained same h
    | inl runs ↦
        let (alive, _, e') = >>=-eq-ok (is_alive (look setup a) a.procs job) _ (rw runs at e) in
        let ends : (job ≡ job')
            ⊎ (job'.status ≡ failed) × (job'.failure_reason ≡ codes "zombie_at_restart") =
          ground arith in
        elim ends [
          | inl same ↦ subst IsExplained same h
          | inr (fails, why) ↦ (λ d. absurd (ground arith), λ d r. ground arith)
        ]
  ]

  reconcile_from-AllExplained :
      (a a' : Aux) (jobs jobs' : List Job) (zombies : Bool)
      → AllExplained jobs
      → reconcile_from setup a jobs ≡ ok (jobs', a', zombies)
      → AllExplained jobs'
  unfolding reconcile_from
  reconcile_from-AllExplained a a' [] jobs' zombies h e =
      let same : [] ≡ jobs' = ground arith in subst AllExplained same tt
  reconcile_from-AllExplained a a' (job ∷ jobs) jobs' zombies h e =
      let ((job', a1, z1), first, e') = >>=-eq-ok (reconcile_job setup a job) _ e in
      let ((rest, a2, z2), others, e'') = >>=-eq-ok (reconcile_from setup a1 jobs) _ e' in
      let same : job' ∷ rest ≡ jobs' = ground arith in
      subst AllExplained same (
        reconcile_job-IsExplained a a1 job job' z1 h.0 first,
        reconcile_from-AllExplained a1 a2 jobs rest z2 h.1 others,
      )

  try_launch-AllExplained :
      (st st' : State) (i : ℕ) (job : Job) (changed : Bool)
      → AllExplained st.jobs
      → try_launch setup st i job ≡ ok (st', changed)
      → AllExplained st'.jobs
  unfolding is_dead
  try_launch-AllExplained st st' i job changed h e =
      elim (try_launch-cases setup st st' i job changed e) [
        | inl (_, same) ↦ rw same h
        | inr (_, l) ↦
            let (_, _, how) = l.launched.started in
            let explained : IsExplained l.job' = elim how [
              | inl (fails, why) ↦ (λ d. absurd (ground arith), λ d r. ground arith)
              | inr (runs, _, _, _) ↦ (λ d. absurd (ground arith), λ d r. ground arith)
            ] in
            rw l.jobs (All-set IsExplained st.jobs i l.job' explained h)
      ]

  launch_each-AllExplained :
      (is : List ℕ) (st st' : State) (changed : Bool)
      → AllExplained st.jobs
      → launch_each setup is st ≡ ok (st', changed)
      → AllExplained st'.jobs
  unfolding launch_each
  launch_each-AllExplained [] st st' changed h e =
      let same : st ≡ st' = ground arith in subst (λ s. AllExplained s.jobs) same h
  launch_each-AllExplained (i ∷ is) st st' changed h e = elim (Option-cases (get_elem? st.jobs i)) [
    | inl missing ↦
        let ((st2, c2), others, e') = >>=-eq-ok (launch_each setup is st) _ (rw missing at e) in
        launch_each-AllExplained is st st' c2 h (ground arith)
    | inr (job, here) ↦
        let ((st1, c1), first, e') = >>=-eq-ok (try_launch setup st i job) _ (rw here at e) in
        let ((st2, c2), others, e'') = >>=-eq-ok (launch_each setup is st1) _ e' in
        launch_each-AllExplained is st1 st' c2 (try_launch-AllExplained st st1 i job c1 h first)
          (ground arith)
  ]

  tick-AllExplained :
      (st st' : State) (changed : Bool)
      → AllExplained st.jobs
      → tick setup st ≡ ok (st', changed)
      → AllExplained st'.jobs
  unfolding launch_pending mark_dead_dependents
  tick-AllExplained st st' changed h e =
      let t = tick-Tick setup st st' changed e in
      let reaped = reap_finished-AllExplained st.aux t.aux st.jobs t.jobs t.reaped h t.reaping in
      let marked = mark_loop-AllExplained (suc (length t.jobs)) 0 t.clock t.jobs reaped in
      launch_each-AllExplained (launch_order t.middle.jobs) t.middle st' t.launched
        (rw t.middle_jobs marked) t.launching

  -- A run that returns, of any length, leaves no end unexplained: if it holds of the jobs at the begin,
  -- then at the end, too, a job that is done gives no reason and has the exit code 0 or an unknown one,
  -- and a job that failed or was skipped gives a reason that is not empty.
  pub run-IsExplained :
      (max_ticks : ℕ) (r r' : Run) (ended : Bool)
      → All IsExplained r.state.jobs
      → run setup max_ticks r ≡ ok (r', ended)
      → All IsExplained r'.state.jobs
  run-IsExplained = run-keeps_jobs setup AllExplained reconcile_from-AllExplained tick-AllExplained
