-- ===== src/Orchestrator/Kills.antt =====
-- kill of nodepilot/orchestrator.py: which job it ends, and what it saves.
use nodepilot.Common.{
  ℕ, suc, ◌≡◌, refl, sym, subst, ap, ◌⊎◌, inl, inr, Bool, true, false, ◌&&◌, List, [], ◌∷◌, ◌++◌,
  Option, none, some, arith, ok, >>=-eq-ok, Bool-cases, All,
}
use nodepilot.Common.Text.{Text, codes, text_eq}
use nodepilot.Config.{Job, is_running}
use nodepilot.Runner
use nodepilot.Orchestrator.{Setup, Aux, look}
use nodepilot.Orchestrator.Run.{Run, end_job, kill_from, kill, save_if}
use nodepilot.Orchestrator.Induction.{save_if-state, save_if-saved}

-- The job is running and has the id.
abbrev pub is_target : Text → Job → Bool
is_target job_id job = text_eq job.id job_id && is_running job.status

-- The list with its first running job of that id ended, and all others as they were.
pub record Killed (job_id : Text) (jobs jobs' : List Job) : Type 0 where
  pub before : List Job
  pub job : Job
  pub after : List Job
  pub now : ℕ
  pub found : jobs ≡ before ++ job ∷ after
  pub ended : jobs' ≡ before ++ end_job (codes "killed_by_user") now job ∷ after
  pub first : All (λ j. is_target job_id j ≡ false) before
  pub target : is_target job_id job ≡ true

module _ (setup : Setup) (job_id : Text) where
  kill_from-Killed :
      (a : Aux) (jobs : List Job) (found : Option (List Job × Aux))
      → kill_from setup a job_id jobs ≡ ok found
      → (found ≡ none) × All (λ j. is_target job_id j ≡ false) jobs
        ⊎ (jobs' : List Job) × (a' : Aux) × (found ≡ some (jobs', a')) × Killed job_id jobs jobs'
  unfolding kill_from
  kill_from-Killed a [] found e = inl (ground arith, tt)
  kill_from-Killed a (job ∷ jobs) found e = elim (Bool-cases (is_target job_id job)) [
    | inl here ↦
        let (procs, killed, e') = >>=-eq-ok (Runner.kill a.procs job) _ (rw here at e) in
        inr (
          end_job (codes "killed_by_user") (look setup a).now job ∷ jobs,
          record a { procs = procs; reads = suc a.reads },
          ground arith,
          record {
            before = [];
            job = job;
            after = jobs;
            now = (look setup a).now;
            found = refl;
            ended = refl;
            first = tt;
            target = here;
          },
        )
    | inr not_here ↦
        let (later, searched, e') =
          >>=-eq-ok (kill_from setup a job_id jobs) _ (rw not_here at e) in
        elim (kill_from-Killed a jobs later searched) [
          | inl (nothing, none_here) ↦ inl (ground arith, (not_here, none_here))
          | inr (jobs', a', some_lem, k) ↦ inr (
            job ∷ jobs',
            a',
            ground arith,
            record {
              before = job ∷ k.before;
              job = k.job;
              after = k.after;
              now = k.now;
              found = ap (◌∷◌ job) k.found;
              ended = ap (◌∷◌ job) k.ended;
              first = (not_here, k.first);
              target = k.target;
            },
          )
        ]
  ]

  -- A kill that returns either finds no running job with the id, and changes nothing; or ends the first
  -- such job as failed, leaves every other job as it was, and saves the list.
  pub kill_lem :
      (r r' : Run) (killed : Bool)
      → kill setup job_id r ≡ ok (r', killed)
      → (killed ≡ false) × (r' ≡ r) × All (λ j. is_target job_id j ≡ false) r.state.jobs
        ⊎ (killed ≡ true)
          × Killed job_id r.state.jobs r'.state.jobs
          × (r'.saved ≡ some r'.state.jobs)
  unfolding kill
  kill_lem r r' killed e =
      let (found, searched, e') = >>=-eq-ok (kill_from setup r.state.aux job_id r.state.jobs) _ e in
      elim (kill_from-Killed r.state.aux r.state.jobs found searched) [
        | inl (nothing, none_here) ↦ inl (ground arith, ground arith, none_here)
        | inr (jobs', a', some_lem, k) ↦
            let ended : Run = record r { state = record { jobs = jobs'; aux = a' } } in
            let (last, written, e'') = >>=-eq-ok (save_if setup true ended) _ (rw some_lem at e') in
            let state : last.state ≡ ended.state =
              sym (save_if-state setup true ended last written) in
            let same : jobs' ≡ r'.state.jobs = ground arith in
            let kept : last.saved ≡ some last.state.jobs = save_if-saved setup ended last written in
            inr (ground arith, subst (Killed job_id r.state.jobs) same k, ground arith)
      ]
