-- ===== src/Orchestrator/Progress/Alone.antt =====
-- The launch of a job by nodepilot/orchestrator.py when no job runs: it is admitted and placed.
use nodepilot.Common.{
  ◌<◌, ◌≤◌, ℕ, ◌≡◌, ◌≢◌, refl, inl, inr, Bool, true, false, ◌==◌, List, [], ◌∷◌, Option, none,
  arith, ok, >>=-eq-ok, Bool-cases, Option-cases,
}
use nodepilot.Config.{Job, is_running}
use nodepilot.Numa.Cores.{CoreSet}
use nodepilot.Numa.Allocate.{allocate}
use nodepilot.Numa.Allocate.Complete.{allocate-none_iff}
use nodepilot.Admission.{running_jobs, running_cores, running_ram_gb, sum_by, can_launch}
use nodepilot.Admission.Gate.{can_launch_iff, FitsRam}
use nodepilot.Orchestrator.{
  Setup, Aux, State, look, next, occupied_from, occupied_cores, request, place, start_placed,
  launch, try_launch, deps_satisfied, launched,
}
use nodepilot.Orchestrator.Total.{IsUsable}
use nodepilot.Orchestrator.Progress.{IsRipe, IsFeasible}
use nodepilot.Orchestrator.Progress.Reaped.{NoneRuns}

running_jobs-NoneRuns : (jobs : List Job) → NoneRuns jobs → running_jobs jobs ≡ []
unfolding is_running
running_jobs-NoneRuns [] h = refl
running_jobs-NoneRuns (j ∷ js) h = ground (arith, h.0, running_jobs-NoneRuns js h.1)

occupied_from-NoneRuns :
    (setup : Setup) (occ : CoreSet) (jobs : List Job)
    → NoneRuns jobs
    → occupied_from setup occ jobs ≡ ok occ
unfolding occupied_from is_running
occupied_from-NoneRuns setup occ [] h = refl
occupied_from-NoneRuns setup occ (j ∷ js) h =
    let idle : is_running j.status ≡ false = ground (arith, h.0) in
    rw idle (occupied_from-NoneRuns setup occ js h.1)

module _ (setup : Setup) where
  can_launch-alone :
      (since cooldown_until n : ℕ) (job : Job) (jobs : List Job)
      → 0 < setup.config.max_concurrent
      → IsRipe setup since cooldown_until jobs
      → since ≤ n
      → IsFeasible setup job
      → FitsRam setup.config (setup.world n) job []
      → NoneRuns jobs
      → (can_launch setup.config cooldown_until (setup.world n) job jobs).ok ≡ true
  unfolding running_cores running_ram_gb sum_by
  can_launch-alone since cooldown_until n job jobs slot ripe le feasible fits idle =
      let none_run = running_jobs-NoneRuns jobs idle in
      (can_launch_iff setup.config cooldown_until (setup.world n) job jobs).1 (record {
        unpaused = ripe.unpaused n le;
        cooled = ripe.cooled n le;
        unblocked = rw none_run tt;
        alone = inr none_run;
        slot = rw none_run slot;
        cores = rw none_run (omega (arith, feasible.cores));
        ram = rw none_run fits;
      })

  launch-alone :
      (usable : IsUsable setup) (a : Aux) (jobs : List Job) (job : Job) (r : Option (Job × Aux))
      → IsFeasible setup job
      → NoneRuns jobs
      → launch setup a jobs job ≡ ok r
      → r ≢ none
  unfolding launch occupied_cores
  launch-alone usable a jobs job r feasible idle e nothing =
      let counted = occupied_from-NoneRuns setup setup.reserved jobs idle in
      let asked = request setup job setup.reserved in
      let (found, allocated, e') = >>=-eq-ok (allocate asked) _ (rw counted at e) in
      elim (Option-cases found) [
        | inr (p, granted) ↦
            let (s, _, e'') =
              >>=-eq-ok (start_placed setup a (place setup job p) p) _ (rw granted at e') in
            ground arith
        | inl deferred ↦ elim (Bool-cases (job.cores == 0)) [
          | inl free ↦ absurd (unfold allocate request in ground arith)
          | inr some_cores ↦
              let (found', allocated', full) =
                allocate-none_iff asked (unfold request in ground arith) (unfold request in refl)
                  (unfold request in usable.nodes) in
              let same : found ≡ found' = ground arith in
              let all_full = full.0 (ground arith) in
              elim feasible.node [
                | inl free ↦ absurd (ground arith)
                | inr room ↦ absurd (room (unfold request in all_full))
              ]
        ]
      ]

  -- A feasible job whose dependencies are done is launched.
  pub try_launch-alone :
      (usable : IsUsable setup) (since : ℕ) (st st' : State) (i : ℕ) (job : Job) (changed : Bool)
      → 0 < setup.config.max_concurrent
      → IsRipe setup since st.aux.cooldown_until st.jobs
      → since ≤ st.aux.reads
      → IsFeasible setup job
      → FitsRam setup.config (look setup st.aux) job []
      → NoneRuns st.jobs
      → try_launch setup st i job ≡ ok (st', changed)
      → deps_satisfied setup st.jobs job.depends_on ≡ true
      → changed ≡ true
  unfolding try_launch
  try_launch-alone usable since st st' i job changed slot ripe le feasible fits idle e ready =
      let admitted =
        can_launch-alone since st.aux.cooldown_until st.aux.reads job st.jobs slot ripe le feasible
          fits idle in
      let (r, launched, e') =
        >>=-eq-ok (launch setup (next setup st.aux) st.jobs job) _ (rw (ready, admitted) at e) in
      elim (Option-cases r) [
        | inl nothing ↦
            absurd
              (launch-alone usable (next setup st.aux) st.jobs job r feasible idle launched nothing)
        | inr (pair, some_lem) ↦ ground arith
      ]
