-- ===== src/Orchestrator/Saved.antt =====
-- The state file of nodepilot/orchestrator.py: when it holds the job list of the scheduler.
use nodepilot.Common.{
  ℕ, ◌≡◌, sym, ap, subst, ◌∙◌, ◌⊎◌, inl, inr, Bool, false, not, List, [], ◌∷◌, none, some, arith,
  ok, >>=-eq-ok, Bool-cases, Option-cases, get_elem?,
}
use nodepilot.Config.{Job, is_running}
use nodepilot.Runner.{is_alive}
use nodepilot.Orchestrator.{
  Setup, Aux, State, look, next, finish, reap_job, reap_finished, try_launch,
}
use nodepilot.Orchestrator.Dependents.{mark_pass, mark_loop, mark_dead_dependents}
use nodepilot.Orchestrator.Settled.{mark_pass-stuck}
use nodepilot.Orchestrator.Loop.{launch_each, launch_pending, launch_order, tick}
use nodepilot.Orchestrator.Steps.{try_launch-cases}
use nodepilot.Orchestrator.Induction.{run-keeps, save_if-cases}
use nodepilot.Orchestrator.Phases.{tick-Tick}
use nodepilot.Orchestrator.Run.{
  Run, save_if, reconcile_job, reconcile_from, reconcile_zombies, run_tick, run,
}

-- The file holds the job list as it is.
abbrev pub IsSaved : Run → Type 0
IsSaved r = r.saved ≡ some r.state.jobs

mark_dead-unchanged :
    (clock : ℕ → ℕ → ℕ) (jobs : List Job)
    → (mark_dead_dependents clock jobs).1 ≡ false
    → (mark_dead_dependents clock jobs).0 ≡ jobs
unfolding mark_dead_dependents mark_loop
mark_dead-unchanged clock jobs e = elim (Bool-cases (mark_pass (clock 0) [] jobs).1) [
  | inl more ↦ absurd (ground arith)
  | inr stuck ↦ rw stuck (mark_pass-stuck (clock 0) [] jobs stuck).0
]

module _ (setup : Setup) where
  reap_job-unchanged :
      (a a' : Aux) (job job' : Job) (c : Bool)
      → c ≡ false
      → reap_job setup a job ≡ ok (job', a', c)
      → job' ≡ job
  unfolding reap_job
  reap_job-unchanged a a' job job' c quiet e = elim (Bool-cases (not (is_running job.status))) [
    | inl idle ↦ ground arith
    | inr runs ↦
        let (alive, _, e') = >>=-eq-ok (is_alive (look setup a) a.procs job) _ (rw runs at e) in
        elim (Bool-cases alive) [
          | inl lives ↦ ground arith
          | inr gone ↦
              let (r, _, e'') = >>=-eq-ok (finish setup (next setup a) job) _ (rw gone at e') in
              absurd (ground arith)
        ]
  ]

  reap_finished-unchanged :
      (a a' : Aux) (jobs jobs' : List Job) (c : Bool)
      → c ≡ false
      → reap_finished setup a jobs ≡ ok (jobs', a', c)
      → jobs' ≡ jobs
  unfolding reap_finished
  reap_finished-unchanged a a' [] jobs' c quiet e = ground arith
  reap_finished-unchanged a a' (job ∷ jobs) jobs' c quiet e =
      let ((job', a1, c1), first, e') = >>=-eq-ok (reap_job setup a job) _ e in
      let ((rest, a2, c2), others, e'') = >>=-eq-ok (reap_finished setup a1 jobs) _ e' in
      let c1_false : c1 ≡ false = ground arith in
      let c2_false : c2 ≡ false = ground arith in
      let same = reap_job-unchanged a a1 job job' c1 c1_false first in
      let same_rest = reap_finished-unchanged a1 a2 jobs rest c2 c2_false others in ground arith

  launch_each-unchanged :
      (is : List ℕ) (st st' : State) (c : Bool)
      → c ≡ false
      → launch_each setup is st ≡ ok (st', c)
      → st'.jobs ≡ st.jobs
  unfolding launch_each
  launch_each-unchanged [] st st' c quiet e = ground arith
  launch_each-unchanged (i ∷ is) st st' c quiet e = elim (Option-cases (get_elem? st.jobs i)) [
    | inl missing ↦
        let ((st2, c2), others, e'') = >>=-eq-ok (launch_each setup is st) _ (rw missing at e) in
        let c2_false : c2 ≡ false = ground arith in
        let rest = launch_each-unchanged is st st2 c2 c2_false others in ground arith
    | inr (job, here) ↦
        let ((st1, c1), first, e') = >>=-eq-ok (try_launch setup st i job) _ (rw here at e) in
        let ((st2, c2), others, e'') = >>=-eq-ok (launch_each setup is st1) _ e' in
        let c1_false : c1 ≡ false = ground arith in
        let c2_false : c2 ≡ false = ground arith in
        let rest = launch_each-unchanged is st1 st2 c2 c2_false others in
        elim (try_launch-cases setup st st1 i job c1 first) [
          | inl (_, still) ↦ ground arith
          | inr (changes, _) ↦ absurd (ground arith)
        ]
  ]

  tick-unchanged :
      (st st' : State) (c : Bool) → c ≡ false → tick setup st ≡ ok (st', c) → st'.jobs ≡ st.jobs
  unfolding launch_pending
  tick-unchanged st st' c quiet e =
      let t = tick-Tick setup st st' c e in
      let reaped_false : t.reaped ≡ false = ground (arith, t.flags) in
      let marked_false : (mark_dead_dependents t.clock t.jobs).1 ≡ false =
        ground (arith, t.flags) in
      let launched_false : t.launched ≡ false = ground (arith, t.flags) in
      let s1 =
        launch_each-unchanged (launch_order t.middle.jobs) t.middle st' t.launched launched_false
          t.launching in
      let s2 = mark_dead-unchanged t.clock t.jobs marked_false in
      let s3 =
        reap_finished-unchanged st.aux t.aux st.jobs t.jobs t.reaped reaped_false t.reaping in
      s1 ∙ t.middle_jobs ∙ s2 ∙ s3

  reconcile_job-unchanged :
      (a a' : Aux) (job job' : Job) (c : Bool)
      → c ≡ false
      → reconcile_job setup a job ≡ ok (job', a', c)
      → job' ≡ job
  unfolding reconcile_job
  reconcile_job-unchanged a a' job job' c quiet e =
      elim (Bool-cases (not (is_running job.status))) [
        | inl idle ↦ ground arith
        | inr runs ↦
            let (alive, _, e') = >>=-eq-ok (is_alive (look setup a) a.procs job) _ (rw runs at e) in
            ground arith
      ]

  reconcile_from-unchanged :
      (a a' : Aux) (jobs jobs' : List Job) (c : Bool)
      → c ≡ false
      → reconcile_from setup a jobs ≡ ok (jobs', a', c)
      → jobs' ≡ jobs
  unfolding reconcile_from
  reconcile_from-unchanged a a' [] jobs' c quiet e = ground arith
  reconcile_from-unchanged a a' (job ∷ jobs) jobs' c quiet e =
      let ((job', a1, c1), first, e') = >>=-eq-ok (reconcile_job setup a job) _ e in
      let ((rest, a2, c2), others, e'') = >>=-eq-ok (reconcile_from setup a1 jobs) _ e' in
      let c1_false : c1 ≡ false = ground arith in
      let c2_false : c2 ≡ false = ground arith in
      let same = reconcile_job-unchanged a a1 job job' c1 c1_false first in
      let same_rest = reconcile_from-unchanged a1 a2 jobs rest c2 c2_false others in ground arith

-- What a save gives, and an equal job list keeps, a run keeps.
module _ (setup : Setup) (P : Run → Type 0) (after_save : (r : Run) → IsSaved r → P r)
    (unchanged : (r : Run) (st : State)
      → st.jobs ≡ r.state.jobs
      → P r
      → P (record r { state = st })) where
  save_if-keeps :
      (r : Run) (st : State) (changed : Bool) (r' : Run)
      → P r
      → (changed ≡ false → st.jobs ≡ r.state.jobs)
      → save_if setup changed (record r { state = st }) ≡ ok r'
      → P r'
  save_if-keeps r st changed r' p h e =
      elim (save_if-cases setup changed (record r { state = st }) r' e) [
        | inl (_, same) ↦ after_save r' (ground arith)
        | inr (quiet, same) ↦ subst P (sym same) (unchanged r st (h quiet) p)
      ]

  reconcile_zombies-saved : (r r' : Run) → P r → reconcile_zombies setup r ≡ ok r' → P r'
  unfolding reconcile_zombies
  reconcile_zombies-saved r r' p e =
      let ((jobs, a, zombies), found, e') =
        >>=-eq-ok (reconcile_from setup r.state.aux r.state.jobs) _ e in
      save_if-keeps r (record { jobs = jobs; aux = a }) zombies r' p
        (λ quiet.
          reconcile_from-unchanged setup r.state.aux a r.state.jobs jobs zombies quiet found)
        e'

  run_tick-saved : (r r' : Run) → P r → run_tick setup r ≡ ok r' → P r'
  unfolding run_tick
  run_tick-saved r r' p e =
      let ((st, changed), ticked, e') = >>=-eq-ok (tick setup r.state) _ e in
      save_if-keeps r st changed r' p
        (λ quiet. tick-unchanged setup r.state st changed quiet ticked) e'

  run-saved :
      (max_ticks : ℕ) (r r' : Run) (ended : Bool)
      → P r
      → run setup max_ticks r ≡ ok (r', ended)
      → P r'
  run-saved = run-keeps setup P reconcile_zombies-saved run_tick-saved

module _ (setup : Setup) where
  -- If the state file holds the job list when `run` begins, it holds the job list when `run` returns,
  -- after the check for zombies and any number of ticks: no change is left unsaved.
  pub run-IsSaved :
      (max_ticks : ℕ) (r r' : Run) (ended : Bool)
      → IsSaved r
      → run setup max_ticks r ≡ ok (r', ended)
      → IsSaved r'
  run-IsSaved =
      run-saved setup IsSaved (λ r saved. saved) (λ r st same saved. saved ∙ ap some (sym same))

  -- A run that begins with nothing saved changes no job, or ends with its job list saved.
  abbrev pub IsStored : List Job → Run → Type 0
  IsStored begun r = IsSaved r ⊎ (r.saved ≡ none) × (r.state.jobs ≡ begun)

  pub run-IsStored :
      (begun : List Job) (max_ticks : ℕ) (r r' : Run) (ended : Bool)
      → IsStored begun r
      → run setup max_ticks r ≡ ok (r', ended)
      → IsStored begun r'
  run-IsStored begun =
      run-saved setup (IsStored begun) (λ r saved. inl saved)
        (λ r st same h. elim h [
          | inl saved ↦ inl (saved ∙ ap some (sym same))
          | inr (nothing, kept) ↦ inr (nothing, same ∙ kept)
        ])
