-- ===== src/Orchestrator/Progress/Drains.antt =====
-- A run of nodepilot/orchestrator.py in a fair world drains its queue.
use nodepilot.Common.{
  ℕ, zero, suc, ◌+◌, ◌≤◌, ◌<◌, ◌≡◌, refl, ap, ◌∙◌, subst, inl, inr, Bool, true, false, List, [],
  ◌∷◌, arith, ok, >>=-eq-ok, Bool-cases, All, All-imp, length,
}
use nodepilot.Common.Text.{Text}
use nodepilot.Config.{Job}
use nodepilot.Orchestrator.{Setup}
use nodepilot.Orchestrator.Drained.{IsOver, run-IsOver}
use nodepilot.Orchestrator.Loop.{tick}
use nodepilot.Orchestrator.Induction.{save_if-state}
use nodepilot.Orchestrator.Run.{Run, reconcile_from, reconcile_zombies, run_tick, run, is_drained}
use nodepilot.Orchestrator.Safety.Passes.{reconcile_from-AllStop}
use nodepilot.Orchestrator.Total.{IsUsable, IsTracked}
use nodepilot.Orchestrator.Total.Runs.{run_tick-IsTracked, reconcile_zombies-IsTracked}
use nodepilot.Orchestrator.Unlimited.{Loops, last, again, RunsTo, RunsTo-iff}
use nodepilot.Orchestrator.Progress.{work, IsFair, IsRipe, IsDoable}
use nodepilot.Orchestrator.Progress.Work.{is_drained-work}
use nodepilot.Orchestrator.Progress.Ripe.{ripens, IsRipe-later}
use nodepilot.Orchestrator.Progress.Doable.{AllDoable, AllStop-AllDoable, tick-AllDoable}
use nodepilot.Orchestrator.Progress.Ticks.{tick-work, tick-IsRipe}

is_drained-length : (jobs : List Job) → is_drained jobs ≡ false → 0 < length jobs
unfolding is_drained
is_drained-length [] h = absurd (ground arith)
is_drained-length (j ∷ js) h = omega arith

module _ (setup : Setup) (rank : Text → ℕ) where
  abbrev jobs_of : Run → List Job
  jobs_of r = r.state.jobs

  -- What holds before each tick.
  abbrev IsReady : Run → Type 0
  IsReady r = All IsTracked (jobs_of r) × AllDoable setup rank (jobs_of r)

  -- The loop ends.
  abbrev Ends : Run → Type 0
  Ends r = (r' : Run) × Loops setup r r'

  run_tick-state :
      (r r' : Run)
      → run_tick setup r ≡ ok r'
      → (changed : Bool) × (tick setup r.state ≡ ok (r'.state, changed))
  unfolding run_tick
  run_tick-state r r' e =
      let ((st, changed), ticked, e') = >>=-eq-ok (tick setup r.state) _ e in
      let same = save_if-state setup changed (record r { state = st }) r' e' in
      (changed, ticked ∙ ap (λ s. ok (s, changed)) same)

  module _ (usable : IsUsable setup) (fair : IsFair setup) where
    run_tick-IsReady : (r : Run) → IsReady r → (r' : Run) × (run_tick setup r ≡ ok r') × IsReady r'
    run_tick-IsReady r (tracked, k) =
        let (r', e, tracked') = run_tick-IsTracked setup usable r tracked in
        let (changed, ticked) = run_tick-state r r' e in
        (r', e, (tracked', tick-AllDoable setup rank r.state r'.state changed k ticked))

    module _ (since cooldown_until : ℕ) (jobs : List Job)
        (ripe : IsRipe setup since cooldown_until jobs)
        (rest : (r : Run) → IsReady r → work (jobs_of r) < work jobs → Ends r) where
      -- The loop waits until all that the jobs wait for has come, in `d` observations at most, and
      -- ends if it ends once some work is taken.
      wait :
          (d : ℕ) (r : Run)
          → IsReady r
          → jobs_of r ≡ jobs
          → r.state.aux.cooldown_until ≡ cooldown_until
          → since ≤ r.state.aux.reads + d
          → Ends r
      wait zero r ready same cooldown le =
          let (r1, first, ready1) = run_tick-IsReady r ready in
          let (changed, ticked) = run_tick-state r r1 first in
          let now : since ≤ r.state.aux.reads = omega (arith, le) in
          let ripe' = IsRipe-later setup since r.state.aux.reads cooldown_until jobs now ripe in
          elim (Bool-cases (is_drained (jobs_of r1))) [
            | inl drained ↦ (r1, last first drained)
            | inr more ↦
                elim (tick-IsRipe setup rank usable r.state r1.state changed fair.slot
                  (rw (same, cooldown) ripe') ready.1 ticked) [
                    | inl fewer ↦
                        let (r', loops) = rest r1 ready1 (rw same at fewer) in
                        (r', again first more loops)
                    | inr none_left ↦
                        absurd (let over = is_drained-work (jobs_of r1) none_left in ground arith)
                  ]
          ]
      wait (suc d) r ready same cooldown le =
          let (r1, first, ready1) = run_tick-IsReady r ready in
          let (changed, ticked) = run_tick-state r r1 first in
          elim (Bool-cases (is_drained (jobs_of r1))) [
            | inl drained ↦ (r1, last first drained)
            | inr more ↦ elim (tick-work setup rank r.state r1.state changed ticked) [
              | inl fewer ↦
                  let (r', loops) = rest r1 ready1 (rw same at fewer) in
                  (r', again first more loops)
              | inr (kept, cooldown', later) ↦
                  let some_jobs = is_drained-length (jobs_of r1) more in
                  let count : length (jobs_of r1) ≡ length (jobs_of r) = ap length kept in
                  let (r', loops) =
                    wait d r1 ready1 (kept ∙ same) (cooldown' ∙ cooldown)
                      (omega (arith, le, later, some_jobs, count)) in
                  (r', again first more loops)
            ]
          ]

    loop-Ends : (n : ℕ) (r : Run) → IsReady r → work (jobs_of r) ≤ n → Ends r
    loop-Ends zero r ready le =
        let (since, ripe) =
          ripens setup fair r.state.aux.cooldown_until (jobs_of r)
            (All-imp (IsDoable setup rank) _ (λ j d. d.feasible) (jobs_of r) ready.1) in
        wait since r.state.aux.cooldown_until (jobs_of r) ripe
          (λ r1 ready1 fewer. absurd (omega (arith, le, fewer))) since r ready refl refl
          (omega arith)
    loop-Ends (suc n) r ready le =
        let (since, ripe) =
          ripens setup fair r.state.aux.cooldown_until (jobs_of r)
            (All-imp (IsDoable setup rank) _ (λ j d. d.feasible) (jobs_of r) ready.1) in
        wait since r.state.aux.cooldown_until (jobs_of r) ripe
          (λ r1 ready1 fewer. loop-Ends n r1 ready1 (omega (arith, le, fewer))) since r ready refl
          refl (omega arith)

    reconcile_zombies-IsReady :
        (r : Run) → IsReady r → (r' : Run) × (reconcile_zombies setup r ≡ ok r') × IsReady r'
    unfolding reconcile_zombies
    reconcile_zombies-IsReady r (tracked, k) =
        let (r', e, tracked') = reconcile_zombies-IsTracked setup usable r tracked in
        let ((jobs, a, found), swept, e') =
          >>=-eq-ok (reconcile_from setup r.state.aux r.state.jobs) _ e in
        let ends = reconcile_from-AllStop setup r.state.aux a r.state.jobs jobs found swept in
        let same : jobs ≡ r'.state.jobs =
          ap (λ s. s.jobs)
            (save_if-state setup found (record r { state = record { jobs = jobs; aux = a } }) r'
              e') in
        let k' = AllStop-AllDoable setup rank r.state.jobs jobs ends k in
        (r', e, (tracked', subst (AllDoable setup rank) same k'))

    -- A run drains its queue: there is a number of ticks from which on every limit is enough for it,
    -- and the run without a limit ends in the same state, in which no job waits or runs. It does so
    -- from jobs that can be tracked, if the set-up is usable, so that the CPU lists are well formed,
    -- what is read of a process is ASCII, every save succeeds and a start raises only what is caught;
    -- if every process and every session ends at last and the clock passes every time at last, both for
    -- good; if launches are not paused for ever, and some job may run; and if each job has one of the
    -- five usual statuses, depends only on ids of less rank, so that no dependencies are circular, and,
    -- if it waits, fits the core budget, some node and at last the RAM when it is alone. Jobs may run
    -- for any time, fail, be killed for lack of memory, or depend on what is unknown.
    pub run-drains :
        (r : Run)
        → All IsTracked r.state.jobs
        → All (IsDoable setup rank) r.state.jobs
        → (r' : Run) × ((n : ℕ) × ((m : ℕ) → n ≤ m → run setup m r ≡ ok (r', true)))
          × RunsTo setup r r'
          × All IsOver r'.state.jobs
    run-drains r tracked k =
        let (r1, reconciled, ready1) = reconcile_zombies-IsReady r (tracked, k) in
        let (r', loops) = loop-Ends (work (jobs_of r1)) r1 ready1 (omega arith) in
        let runs : RunsTo setup r r' = record {
          start = r1;
          reconciled = reconciled;
          loops = loops;
        } in
        let (n, enough) = (RunsTo-iff setup r r').1 runs in
        (r', (n, enough), runs, run-IsOver setup n r r' (enough n (omega arith)))
