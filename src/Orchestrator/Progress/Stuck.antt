-- ===== src/Orchestrator/Progress/Stuck.antt =====
-- A launch pass of nodepilot/orchestrator.py that takes no work: every job that waits, waits for one
-- that is not done, which without circular dependencies leaves none that waits.
use nodepilot.Common.{
  All-get_elem?, ◌≤◌, ℕ, zero, suc, ◌+◌, ◌≤◌, ◌<◌, ◌≡◌, ◌≢◌, ap, ◌∙◌, subst, ◌⊎◌, inl, inr, Bool,
  true, false, List, [], ◌∷◌, map, some, arith, ok, >>=-eq-ok, Bool-cases, All, All-imp, get_elem?,
  All2-imp,
}
use nodepilot.Common.Sort.{AllPairs, sort_by, sort_by-All}
use nodepilot.Config.{Job, pending, is_pending}
use nodepilot.Orchestrator.{Setup, State, deps_satisfied, try_launch}
use nodepilot.Orchestrator.Course.{Follows, Starts-Follows}
use nodepilot.Orchestrator.Lifecycle.{Starts}
use nodepilot.Orchestrator.Lifecycle.Ticks.{launch_each-Starts}
use nodepilot.Orchestrator.Loop.{pending_from, launch_less, launch_order, launch_each}
use nodepilot.Orchestrator.Order.{PendingAt, PendingAt-set}
use nodepilot.Orchestrator.Steps.{try_launch-cases}
use nodepilot.Orchestrator.Total.{IsUsable}
use nodepilot.Orchestrator.Progress.{work, IsRipe, IsFeasible}
use nodepilot.Orchestrator.Progress.Work.{work_le, work-set}
use nodepilot.Orchestrator.Progress.Alone.{try_launch-alone}
use nodepilot.Orchestrator.Progress.Going.{try_launch-Goes}
use nodepilot.Orchestrator.Progress.Reaped.{NoneRuns}
use nodepilot.Orchestrator.Progress.Ripe.{IsRipe-later}

module _ (setup : Setup) where
  -- The job at the index waits for one that is not done.
  abbrev pub Lacks : List Job → ℕ → Type 0
  Lacks jobs i =
      (job : Job) × (get_elem? jobs i ≡ some job)
      × (deps_satisfied setup jobs job.depends_on ≡ false)

  pub launch_each-work :
      (is : List ℕ) (st st' : State) (changed : Bool)
      → All (PendingAt st.jobs) is
      → AllPairs (◌≢◌ {A = ℕ}) is
      → launch_each setup is st ≡ ok (st', changed)
      → work st'.jobs ≤ work st.jobs
  launch_each-work is st st' changed at d e = work_le st.jobs st'.jobs (
      All2-imp (Starts st'.jobs) Follows (Starts-Follows st'.jobs) st.jobs st'.jobs
        (launch_each-Starts setup is st st' changed at d e))

  -- The pass takes some work, or each job in its order lacks a dependency.
  pub launch_each-stuck :
      (usable : IsUsable setup) (is : List ℕ) (st st' : State) (changed : Bool)
      → 0 < setup.config.max_concurrent
      → IsRipe setup st.aux.reads st.aux.cooldown_until st.jobs
      → NoneRuns st.jobs
      → All
          (λ i.
            (j : Job) × (get_elem? st.jobs i ≡ some j) × (j.status ≡ pending) × IsFeasible setup j)
          is
      → AllPairs (◌≢◌ {A = ℕ}) is
      → launch_each setup is st ≡ ok (st', changed)
      → (work st'.jobs < work st.jobs) ⊎ All (Lacks st.jobs) is
  unfolding launch_each
  launch_each-stuck usable [] st st' changed slot ripe idle at d e = inr tt
  launch_each-stuck usable (i ∷ is) st st' changed slot ripe idle ((job, here, waits, feasible), at)
        d e =
      let ((st1, c1), first, e') = >>=-eq-ok (try_launch setup st i job) _ (rw here at e) in
      let ((st2, c2), others, e'') = >>=-eq-ok (launch_each setup is st1) _ e' in
      let same : st2 ≡ st' = ground arith in
      let others' : launch_each setup is st1 ≡ ok (st', c2) = others ∙ ap (λ s. ok (s, c2)) same in
      elim (try_launch-cases setup st st1 i job c1 first) [
        | inr (_, l) ↦
            let at' =
              PendingAt-set st.jobs i l.job' is d.0
                (All-imp _ (PendingAt st.jobs) (λ k (j, found, w, _). (j, found, w)) is at) in
            let rest = launch_each-work is st1 st' c2 (rw l.jobs at') d.1 others' in
            let (_, _, how) = l.launched.started in
            let fewer =
              work-set st.jobs i job l.job' here waits
                (elim how [ inl fails ↦ inl fails.0 | inr runs ↦ inr runs.0 ]) in
            let fewer' : work st1.jobs < work st.jobs = rw l.jobs fewer in inl (omega arith)
        | inl (idle_round, still) ↦
            let (cooldown, later) = try_launch-Goes setup st st1 i job c1 first in
            elim (Bool-cases (deps_satisfied setup st.jobs job.depends_on)) [
              | inl ready ↦
                  let le : st.aux.reads ≤ st.aux.reads = omega arith in
                  let fits = All-get_elem? _ st.jobs (ripe.ram st.aux.reads le) i job here waits in
                  let launched =
                    try_launch-alone setup usable st.aux.reads st st1 i job c1 slot ripe le feasible
                      fits idle first ready in
                  absurd (ground arith)
              | inr lacks ↦
                  let ripe' =
                    IsRipe-later setup st.aux.reads st1.aux.reads st.aux.cooldown_until st.jobs
                      later ripe in
                  elim (launch_each-stuck usable is st1 st' c2 slot (rw (still, cooldown) ripe')
                    (rw still idle) (rw still at) d.1 others') [
                      | inl fewer ↦ inl (rw still at fewer)
                      | inr rest ↦ inr ((job, here, lacks), rw still at rest)
                    ]
            ]
      ]

-- The order of the launches has every job that waits.
All-unmap : (P : ℕ → Type 0) (es : List (ℕ × Job)) → All P (map (λ e. e.0) es) → All (λ e. P e.0) es
All-unmap P [] h = tt
All-unmap P (e ∷ es) h = (h.0, All-unmap P es h.1)

pending_from-at :
    (P : ℕ → Type 0) (n : ℕ) (js : List Job)
    → All (λ e. P e.0) (pending_from n js)
    → (i : ℕ) (j : Job) → get_elem? js i ≡ some j
    → j.status ≡ pending
    → P (n + i)
unfolding pending_from is_pending
pending_from-at P n [] h i j e waits = absurd (ground arith)
pending_from-at P n (k ∷ js) h zero j e waits =
    let same : k ≡ j = ground arith in
    let waits' : is_pending k.status ≡ true = ground arith in
    let h' : All (λ e. P e.0) ((n, k) ∷ pending_from (suc n) js) = rw waits' at h in
    subst P (omega arith) h'.0
pending_from-at P n (k ∷ js) h (suc i) j e waits =
    let rest : All (λ e. P e.0) (pending_from (suc n) js) =
      elim (Bool-cases (is_pending k.status)) [
        | inl first ↦ (rw first at h).1
        | inr other ↦ rw other at h
      ] in
    subst P (omega arith) (pending_from-at P (suc n) js rest i j e waits)

pub launch_order-at :
    (P : ℕ → Type 0) (jobs : List Job)
    → All P (launch_order jobs)
    → (i : ℕ) (j : Job) → get_elem? jobs i ≡ some j
    → j.status ≡ pending
    → P i
unfolding launch_order
launch_order-at P jobs h i j e waits = subst P (omega arith) (
    pending_from-at P 0 jobs
      (sort_by-All launch_less (λ e. P e.0) (pending_from 0 jobs)
        (All-unmap P (sort_by launch_less (pending_from 0 jobs)) h))
      i j e waits)
