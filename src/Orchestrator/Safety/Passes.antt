-- ===== src/Orchestrator/Safety/Passes.antt =====
-- The passes that only end jobs: reaping, skipping dependents, and reconciling zombies.
use nodepilot.Common.{
  ℕ, zero, suc, ◌≡◌, subst, ◌⊎◌, inl, inr, Bool, true, List, [], ◌∷◌, ◌++◌, Option, none, some,
  arith, ok, >>=-eq-ok, Bool-cases, append-nil, length, ℤ, All2-refl, All2-trans, All2-at, All2,
  All2-imp,
}
use nodepilot.Config.{Job, JobStatus, running, done, failed, is_running, is_pending}
use nodepilot.Cgroups.{journal_reports_oom}
use nodepilot.Runner.{classify, reap, returncode, forget, is_alive}
use nodepilot.Orchestrator.{Setup, Aux, finish, reap_job, reap_finished, look, next}
use nodepilot.Orchestrator.Dependents.{mark_job, mark_pass, mark_loop, mark_dead_dependents}
use nodepilot.Orchestrator.Run.{reconcile_job, reconcile_from}
use nodepilot.Orchestrator.Safety.Sums.{Stops, Stops-refl, Stops-trans, AllStop}

is_running-eq : (s : JobStatus) → is_running s ≡ true → s ≡ running
unfolding is_running
is_running-eq s h = ground arith

classify_stops :
    (hint : Bool) (code : Option ℤ)
    → ((classify hint code).status ≡ done) ⊎ ((classify hint code).status ≡ failed)
unfolding classify
classify_stops hint none = ground arith
classify_stops hint (some code) = ground arith

mark_job-Stops : (now : ℕ) (jobs : List Job) (job : Job) → Stops job (mark_job now jobs job).0
unfolding mark_job is_running is_pending
mark_job-Stops now jobs job = ground arith

mark_pass-AllStop :
    (clock : ℕ → ℕ) (before after : List Job)
    → AllStop (before ++ after) (mark_pass clock before after).0
unfolding mark_pass
mark_pass-AllStop clock before [] = rw append-nil (All2-refl Stops Stops-refl before)
mark_pass-AllStop clock before (job ∷ after) =
    let now = clock (length before) in
    let job' = (mark_job now (before ++ job ∷ after) job).0 in
    All2-trans Stops Stops Stops Stops-trans (before ++ job ∷ after)
      ((before ++ job' ∷ []) ++ after) _
      (All2-at Stops Stops-refl before job job' after
        (mark_job-Stops now (before ++ job ∷ after) job))
      (mark_pass-AllStop clock (before ++ job' ∷ []) after)

mark_loop-AllStop :
    (fuel pass : ℕ) (clock : ℕ → ℕ → ℕ) (jobs : List Job)
    → AllStop jobs (mark_loop fuel pass clock jobs).0
unfolding mark_loop
mark_loop-AllStop zero pass clock jobs = All2-refl Stops Stops-refl jobs
mark_loop-AllStop (suc fuel) pass clock jobs =
    let first = mark_pass-AllStop (clock pass) [] jobs in
    elim (Bool-cases (mark_pass (clock pass) [] jobs).1) [
      | inl more ↦ rw more (
          All2-trans Stops Stops Stops Stops-trans jobs (mark_pass (clock pass) [] jobs).0 _ first
            (mark_loop-AllStop fuel (suc pass) clock (mark_pass (clock pass) [] jobs).0))
      | inr fixed ↦ rw fixed first
    ]

pub mark_dead-AllStop :
    (clock : ℕ → ℕ → ℕ) (jobs : List Job) → AllStop jobs (mark_dead_dependents clock jobs).0
unfolding mark_dead_dependents
mark_dead-AllStop clock jobs = mark_loop-AllStop (suc (length jobs)) 0 clock jobs

-- The job stays as it is, or was running and ends.
abbrev pub Ends : Job → Job → Type 0
Ends j j' =
    (j' ≡ j)
    ⊎ (j'.id ≡ j.id)
      × (j'.depends_on ≡ j.depends_on)
      × (j.status ≡ running)
      × ((j'.status ≡ done) ⊎ (j'.status ≡ failed))

abbrev pub AllEnd : List Job → List Job → Type 0
AllEnd = All2 Ends

Ends-Stops : (j j' : Job) → Ends j j' → Stops j j'
Ends-Stops j j' (inl same) = inl same
Ends-Stops j j' (inr (i, d, runs, ends)) = inr (i, d, inl (runs, ends))

module _ (setup : Setup) where
  finish-Ends :
      (a a' : Aux) (job job' : Job)
      → job.status ≡ running
      → finish setup a job ≡ ok (job', a')
      → Ends job job'
  unfolding finish reap
  finish-Ends a a' job job' runs e =
      let (r, reaped, e') = >>=-eq-ok (reap (look setup a) a.procs job) _ e in
      let (code, _, e'') = >>=-eq-ok (returncode (look setup a) a.procs job) _ reaped in
      let (procs, _, e3) = >>=-eq-ok (forget a.procs job) _ e'' in
      inr (
        ground arith,
        ground arith,
        runs,
        ground (arith, classify_stops (journal_reports_oom (look setup a)) code),
      )

  reap_job-Ends :
      (a a' : Aux) (job job' : Job) (changed : Bool)
      → reap_job setup a job ≡ ok (job', a', changed)
      → Ends job job'
  unfolding reap_job
  reap_job-Ends a a' job job' changed e = elim (Bool-cases (is_running job.status)) [
    | inr idle ↦ inl (ground arith)
    | inl runs ↦
        let (alive, _, e') = >>=-eq-ok (is_alive (look setup a) a.procs job) _ (rw runs at e) in
        elim (Bool-cases alive) [
          | inl yes_alive ↦ inl (ground arith)
          | inr gone ↦
              let (r, ended, e'') = >>=-eq-ok (finish setup (next setup a) job) _ (rw gone at e') in
              finish-Ends (next setup a) a' job job' (is_running-eq job.status runs) (ground arith)
        ]
  ]

  pub reap_finished-AllEnd :
      (a a' : Aux) (jobs jobs' : List Job) (changed : Bool)
      → reap_finished setup a jobs ≡ ok (jobs', a', changed)
      → AllEnd jobs jobs'
  unfolding reap_finished
  reap_finished-AllEnd a a' [] jobs' changed e =
      let same : [] ≡ jobs' = ground arith in subst (AllEnd []) same tt
  reap_finished-AllEnd a a' (job ∷ jobs) jobs' changed e =
      let ((job', a1, c1), first, e') = >>=-eq-ok (reap_job setup a job) _ e in
      let ((rest, a2, c2), others, e'') = >>=-eq-ok (reap_finished setup a1 jobs) _ e' in
      let same : job' ∷ rest ≡ jobs' = ground arith in
      subst (AllEnd (job ∷ jobs)) same
        (reap_job-Ends a a1 job job' c1 first, reap_finished-AllEnd a1 a2 jobs rest c2 others)

  reconcile_job-Ends :
      (a a' : Aux) (job job' : Job) (zombie : Bool)
      → reconcile_job setup a job ≡ ok (job', a', zombie)
      → Ends job job'
  unfolding reconcile_job is_running
  reconcile_job-Ends a a' job job' zombie e = elim (Bool-cases (is_running job.status)) [
    | inr idle ↦ inl (ground arith)
    | inl runs ↦
        let (alive, _, e') = >>=-eq-ok (is_alive (look setup a) a.procs job) _ (rw runs at e) in
        ground arith
  ]

  pub reconcile_from-AllEnd :
      (a a' : Aux) (jobs jobs' : List Job) (zombies : Bool)
      → reconcile_from setup a jobs ≡ ok (jobs', a', zombies)
      → AllEnd jobs jobs'
  unfolding reconcile_from
  reconcile_from-AllEnd a a' [] jobs' zombies e =
      let same : [] ≡ jobs' = ground arith in subst (AllEnd []) same tt
  reconcile_from-AllEnd a a' (job ∷ jobs) jobs' zombies e =
      let ((job', a1, z1), first, e') = >>=-eq-ok (reconcile_job setup a job) _ e in
      let ((rest, a2, z2), others, e'') = >>=-eq-ok (reconcile_from setup a1 jobs) _ e' in
      let same : job' ∷ rest ≡ jobs' = ground arith in
      subst (AllEnd (job ∷ jobs)) same
        (reconcile_job-Ends a a1 job job' z1 first, reconcile_from-AllEnd a1 a2 jobs rest z2 others)

  pub reap_finished-AllStop :
      (a a' : Aux) (jobs jobs' : List Job) (changed : Bool)
      → reap_finished setup a jobs ≡ ok (jobs', a', changed)
      → AllStop jobs jobs'
  reap_finished-AllStop a a' jobs jobs' changed e =
      All2-imp Ends Stops Ends-Stops jobs jobs' (reap_finished-AllEnd a a' jobs jobs' changed e)

  pub reconcile_from-AllStop :
      (a a' : Aux) (jobs jobs' : List Job) (zombies : Bool)
      → reconcile_from setup a jobs ≡ ok (jobs', a', zombies)
      → AllStop jobs jobs'
  reconcile_from-AllStop a a' jobs jobs' zombies e =
      All2-imp Ends Stops Ends-Stops jobs jobs' (reconcile_from-AllEnd a a' jobs jobs' zombies e)
