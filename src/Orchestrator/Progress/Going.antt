-- ===== src/Orchestrator/Progress/Going.antt =====
-- The launches of nodepilot/orchestrator.py leave the cooldown, and make no observation again.
use nodepilot.Common.{
  ℕ, ◌≡◌, inl, inr, Bool, List, [], ◌∷◌, some, arith, Result, ok, err, >>=-eq-ok, Bool-cases,
  Option-cases, Error, os_error, runtime_error, value_error, subprocess_error, attribute_error,
  type_error, get_elem?,
}
use nodepilot.Common.Text.{Text}
use nodepilot.Config.{Job}
use nodepilot.Numa.Allocate.{Placement, allocate}
use nodepilot.Admission.{can_launch}
use nodepilot.Orchestrator.{
  Setup, Aux, State, look, next, occupied_cores, request, place, start_placed, launch, try_launch,
  deps_satisfied, launched, launch_failed,
}
use nodepilot.Runner.{start}
use nodepilot.Orchestrator.Loop.{launch_each}
use nodepilot.Orchestrator.Progress.Reaped.{Goes, Goes-trans}

module _ (setup : Setup) where
  launch_failed-Goes :
      (a a' : Aux) (job job' : Job) (error : Error)
      → launch_failed setup a job error ≡ ok (job', a')
      → Goes a a'
  unfolding launch_failed
  launch_failed-Goes a a' job job' os_error e = ground arith
  launch_failed-Goes a a' job job' runtime_error e = ground arith
  launch_failed-Goes a a' job job' value_error e = absurd (ground arith)
  launch_failed-Goes a a' job job' subprocess_error e = absurd (ground arith)
  launch_failed-Goes a a' job job' attribute_error e = absurd (ground arith)
  launch_failed-Goes a a' job job' type_error e = absurd (ground arith)

  start_placed-Goes :
      (a a' : Aux) (job job' : Job) (p : Placement)
      → start_placed setup a job p ≡ ok (job', a')
      → Goes a a'
  unfolding start_placed
  start_placed-Goes a a' job job' p e = go (start setup.config _ a.procs _ _) e
    where
      go :
          (r : Result (Text × List ℕ))
          → (elim r [
            | ok (session, procs) ↦
                ok (launched setup (next setup (next setup a)) job session procs)
            | err e ↦ launch_failed setup (next setup (next setup a)) job e
          ])
            ≡ ok (job', a')
          → Goes a a'
      go (ok (session, procs)) e = ground arith
      go (err error) e =
          let (cd, le) = launch_failed-Goes (next setup (next setup a)) a' job job' error e in
          (cd, omega (arith, le))

  launch-Goes :
      (a a' : Aux) (jobs : List Job) (job job' : Job)
      → launch setup a jobs job ≡ ok (some (job', a'))
      → Goes a a'
  unfolding launch
  launch-Goes a a' jobs job job' e =
      let (occupied, counted, e') = >>=-eq-ok (occupied_cores setup jobs) _ e in
      let (found, allocated, e'') = >>=-eq-ok (allocate (request setup job occupied)) _ e' in
      elim (Option-cases found) [
        | inl nothing ↦ absurd (ground arith)
        | inr (p, granted) ↦
            let (r, started, e3) =
              >>=-eq-ok (start_placed setup a (place setup job p) p) _ (rw granted at e'') in
            start_placed-Goes a a' (place setup job p) job' p (ground arith)
      ]

  -- A round of the loop leaves the cooldown.
  pub try_launch-Goes :
      (st st' : State) (i : ℕ) (job : Job) (changed : Bool)
      → try_launch setup st i job ≡ ok (st', changed)
      → Goes st.aux st'.aux
  unfolding try_launch
  try_launch-Goes st st' i job changed e =
      elim (Bool-cases (deps_satisfied setup st.jobs job.depends_on)) [
        | inr waits ↦ ground arith
        | inl ready ↦
            elim (Bool-cases
              (can_launch setup.config st.aux.cooldown_until (look setup st.aux) job st.jobs).ok) [
                | inr refused ↦ ground arith
                | inl admitted ↦
                    let (r, launched, e') =
                      >>=-eq-ok (launch setup (next setup st.aux) st.jobs job) _
                        (rw (ready, admitted) at e) in
                    elim (Option-cases r) [
                      | inl nothing ↦ ground arith
                      | inr (pair, some_lem) ↦
                          let kept =
                            launch-Goes (next setup st.aux) pair.1 st.jobs job pair.0
                              (rw some_lem at launched) in
                          ground arith
                    ]
              ]
      ]

  pub launch_each-Goes :
      (is : List ℕ) (st st' : State) (changed : Bool)
      → launch_each setup is st ≡ ok (st', changed)
      → Goes st.aux st'.aux
  unfolding launch_each
  launch_each-Goes [] st st' changed e = ground arith
  launch_each-Goes (i ∷ is) st st' changed e = elim (Option-cases (get_elem? st.jobs i)) [
    | inl missing ↦
        let ((st2, c2), others, e') = >>=-eq-ok (launch_each setup is st) _ (rw missing at e) in
        launch_each-Goes is st st' c2 (ground arith)
    | inr (job, here) ↦
        let ((st1, c1), first, e') = >>=-eq-ok (try_launch setup st i job) _ (rw here at e) in
        let ((st2, c2), others, e'') = >>=-eq-ok (launch_each setup is st1) _ e' in
        let kept = try_launch-Goes st st1 i job c1 first in
        let kept' = launch_each-Goes is st1 st' c2 (ground arith) in
        Goes-trans st.aux st1.aux st'.aux kept kept'
  ]
