-- ===== src/Orchestrator/Progress/Reaped.antt =====
-- What _reap_finished of nodepilot/orchestrator.py does to the work, the cooldown and the observations.
use nodepilot.Common.{
  ℕ, ◌≤◌, ◌<◌, ◌≡◌, ◌≢◌, refl, ◌∙◌, subst, ◌⊎◌, inl, inr, Bool, true, false, not, ◌&&◌, List, [],
  ◌∷◌, arith, Result, ok, err, os_error, value_error, runtime_error, subprocess_error,
  attribute_error, type_error, >>=-eq-ok, Bool-cases, All, All2, All2-imp,
}
use nodepilot.Common.Text.{is_empty}
use nodepilot.Config.{Job, running, done, failed, is_running}
use nodepilot.Cgroups.{journal_reports_oom}
use nodepilot.Runner.{is_alive, reap, returncode, forget}
use nodepilot.Runner.Outcomes.{classify_lem}
use nodepilot.Runner.Pins.{enforce_pin}
use nodepilot.Orchestrator.{Setup, Aux, look, next, finish, reap_job, reap_finished, enforce_pins}
use nodepilot.Orchestrator.Course.{Follows, Stops-Follows}
use nodepilot.Orchestrator.Safety.Passes.{reap_finished-AllStop}
use nodepilot.Orchestrator.Safety.Sums.{Stops, AllStop}
use nodepilot.Orchestrator.Progress.{weight, work, IsGone}
use nodepilot.Orchestrator.Progress.Work.{work_le}

-- The cooldown ends when it did before, and no observation is made again.
abbrev pub Goes : Aux → Aux → Type 0
Goes a a' = (a'.cooldown_until ≡ a.cooldown_until) × (a.reads ≤ a'.reads)

pub Goes-refl : (a : Aux) → Goes a a
Goes-refl a = (refl, omega arith)

pub Goes-trans : (a b c : Aux) → Goes a b → Goes b c → Goes a c
Goes-trans a b c (cd, le) (cd', le') = (cd' ∙ cd, omega (arith, le, le'))

-- No job of the list runs.
abbrev pub NoneRuns : List Job → Type 0
NoneRuns = All (λ j. j.status ≢ running)

AllStop-Follows : (js js' : List Job) → AllStop js js' → All2 Follows js js'
AllStop-Follows = All2-imp Stops Follows Stops-Follows

module _ (setup : Setup) where
  finish-stops :
      (a a' : Aux) (job job' : Job)
      → finish setup a job ≡ ok (job', a')
      → (job'.status ≡ done) ⊎ (job'.status ≡ failed)
  unfolding finish reap
  finish-stops a a' job job' e =
      let (r, reaped, e') = >>=-eq-ok (reap (look setup a) a.procs job) _ e in
      let (code, _, e'') = >>=-eq-ok (returncode (look setup a) a.procs job) _ reaped in
      let (procs, _, e3) = >>=-eq-ok (forget a.procs job) _ e'' in
      let stops = (classify_lem (journal_reports_oom (look setup a)) code).2 in ground arith

  finish-weight :
      (a a' : Aux) (job job' : Job) → finish setup a job ≡ ok (job', a') → weight job'.status < 1
  finish-weight a a' job job' e = elim (finish-stops a a' job job' e) [
    | inl good ↦ rw good (omega arith)
    | inr bad ↦ rw bad (omega arith)
  ]

  -- A job is left, or takes some work; a running job that is gone takes some.
  reap_job-weight :
      (a a' : Aux) (job job' : Job) (changed : Bool)
      → reap_job setup a job ≡ ok (job', a', changed)
      → ((job' ≡ job) × Goes a a') ⊎ (weight job'.status < weight job.status)
  unfolding reap_job
  reap_job-weight a a' job job' changed e = elim (Bool-cases (is_running job.status)) [
    | inr idle ↦
        let same : a ≡ a' = ground arith in inl (ground arith, subst (Goes a) same (Goes-refl a))
    | inl runs ↦
        let (alive, found, e') = >>=-eq-ok (is_alive (look setup a) a.procs job) _ (rw runs at e) in
        elim (Bool-cases alive) [
          | inl lives ↦
              let same : next setup a ≡ a' = ground arith in
              inl (ground arith, subst (Goes a) same (refl, omega arith))
          | inr gone ↦
              let (r, ended, e'') = >>=-eq-ok (finish setup (next setup a) job) _ (rw gone at e') in
              let lighter = finish-weight (next setup a) a' job job' (ground arith) in
              let ran : job.status ≡ running = unfold is_running in ground arith in
              inr (rw ran lighter)
        ]
  ]

  reap_job-gone :
      (a a' : Aux) (job job' : Job) (changed : Bool)
      → job.status ≡ running
      → IsGone setup a.reads job
      → reap_job setup a job ≡ ok (job', a', changed)
      → weight job'.status < weight job.status
  unfolding reap_job is_running
  reap_job-gone a a' job job' changed ran gone e =
      let runs : is_running job.status ≡ true = rw ran refl in
      let (alive, found, e') = >>=-eq-ok (is_alive (look setup a) a.procs job) _ (rw runs at e) in
      let over = gone a.procs alive found in
      let (r, ended, e'') = >>=-eq-ok (finish setup (next setup a) job) _ (rw over at e') in
      let lighter = finish-weight (next setup a) a' job job' (ground arith) in rw ran lighter

  reap_job-idle :
      (a a' : Aux) (job job' : Job) (changed : Bool)
      → is_running job.status ≡ false
      → reap_job setup a job ≡ ok (job', a', changed)
      → (job' ≡ job) × (a'.reads ≡ a.reads)
  unfolding reap_job
  reap_job-idle a a' job job' changed idle e = (ground arith, ground arith)

  -- The pass leaves the jobs, or takes some work.
  pub reap_finished-work :
      (a a' : Aux) (jobs jobs' : List Job) (changed : Bool)
      → reap_finished setup a jobs ≡ ok (jobs', a', changed)
      → ((jobs' ≡ jobs) × Goes a a') ⊎ (work jobs' < work jobs)
  unfolding reap_finished work
  reap_finished-work a a' [] jobs' changed e =
      let same : a ≡ a' = ground arith in inl (ground arith, subst (Goes a) same (Goes-refl a))
  reap_finished-work a a' (job ∷ jobs) jobs' changed e =
      let ((job', a1, c1), first, e') = >>=-eq-ok (reap_job setup a job) _ e in
      let ((rest, a2, c2), others, e'') = >>=-eq-ok (reap_finished setup a1 jobs) _ e' in
      let same : job' ∷ rest ≡ jobs' = ground arith in
      let same_a : a2 ≡ a' = ground arith in
      let fewer =
        work_le jobs rest
          (AllStop-Follows jobs rest (reap_finished-AllStop setup a1 a2 jobs rest c2 others)) in
      subst (λ js. ((js ≡ job ∷ jobs) × Goes a a') ⊎ (work js < work (job ∷ jobs))) same
        (elim (reap_job-weight a a1 job job' c1 first) [
          | inr lighter ↦ inr (omega arith)
          | inl (kept, goes) ↦ elim (reap_finished-work a1 a2 jobs rest c2 others) [
            | inr lighter ↦ inr (rw kept (omega arith))
            | inl (kept', goes') ↦
                inl (rw (kept, kept') refl, subst (Goes a) same_a (Goes-trans a a1 a2 goes goes'))
          ]
        ])

  -- When the running jobs are gone, the pass takes some work, or there are none.
  pub reap_finished-gone :
      (a a' : Aux) (jobs jobs' : List Job) (changed : Bool)
      → All (λ j. j.status ≡ running → IsGone setup a.reads j) jobs
      → reap_finished setup a jobs ≡ ok (jobs', a', changed)
      → NoneRuns jobs ⊎ (work jobs' < work jobs)
  unfolding reap_finished work is_running
  reap_finished-gone a a' [] jobs' changed gone e = inl tt
  reap_finished-gone a a' (job ∷ jobs) jobs' changed gone e =
      let ((job', a1, c1), first, e') = >>=-eq-ok (reap_job setup a job) _ e in
      let ((rest, a2, c2), others, e'') = >>=-eq-ok (reap_finished setup a1 jobs) _ e' in
      let same : job' ∷ rest ≡ jobs' = ground arith in
      let fewer =
        work_le jobs rest
          (AllStop-Follows jobs rest (reap_finished-AllStop setup a1 a2 jobs rest c2 others)) in
      elim (Bool-cases (is_running job.status)) [
        | inl runs ↦
            let lighter =
              reap_job-gone a a1 job job' c1 (ground arith) (gone.0 (ground arith)) first in
            inr (subst (λ js. work js < work (job ∷ jobs)) same (omega arith))
        | inr idle ↦
            let not_running : job.status ≢ running = λ ran. ground arith in
            let (kept, still) = reap_job-idle a a1 job job' c1 idle first in
            elim (reap_finished-gone a1 a2 jobs rest c2 (rw still gone.1) others) [
              | inl none_run ↦ inl (not_running, none_run)
              | inr lighter ↦
                  inr (subst (λ js. work js < work (job ∷ jobs)) same (rw kept (omega arith)))
            ]
      ]

  -- A round of the loop that does not raise goes on to the rest of the jobs.
  abbrev Pinned : Aux → List Job → Result (List ℕ) → Result Aux
  Pinned a jobs r = elim r [
    | ok pids ↦ enforce_pins setup (next setup a) jobs
    | err os_error ↦ enforce_pins setup (next setup a) jobs
    | err e ↦ err e
  ]

  pinned-rest :
      (a a' : Aux) (jobs : List Job) (r : Result (List ℕ))
      → Pinned a jobs r ≡ ok a'
      → enforce_pins setup (next setup a) jobs ≡ ok a'
  pinned-rest a a' jobs (ok pids) e = e
  pinned-rest a a' jobs (err os_error) e = e
  pinned-rest a a' jobs (err value_error) e = absurd (ground arith)
  pinned-rest a a' jobs (err runtime_error) e = absurd (ground arith)
  pinned-rest a a' jobs (err subprocess_error) e = absurd (ground arith)
  pinned-rest a a' jobs (err attribute_error) e = absurd (ground arith)
  pinned-rest a a' jobs (err type_error) e = absurd (ground arith)

  pub enforce_pins-Goes :
      (a a' : Aux) (jobs : List Job) → enforce_pins setup a jobs ≡ ok a' → Goes a a'
  unfolding enforce_pins
  enforce_pins-Goes a a' [] e =
      let same : a ≡ a' = ground arith in subst (Goes a) same (Goes-refl a)
  enforce_pins-Goes a a' (job ∷ jobs) e =
      elim (Bool-cases (is_running job.status && not (is_empty job.cpu_list))) [
        | inr idle ↦ enforce_pins-Goes a a' jobs (rw idle at e)
        | inl runs ↦
            let (cd, le) =
              enforce_pins-Goes (next setup a) a' jobs
                (pinned-rest a a' jobs (enforce_pin (look setup a) job) (rw runs at e)) in
            (cd, omega (arith, le))
      ]
