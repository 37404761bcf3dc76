-- ===== src/Orchestrator/Steps.antt =====
-- What a launch does to a job, taken apart for the proofs about it.
use nodepilot.Common.{
  ℕ, ◌≡◌, ◌⊎◌, inl, inr, Bool, true, false, List, some, arith, Result, ok, err, value_error,
  os_error, runtime_error, subprocess_error, attribute_error, type_error, ◌>>=◌, >>=-eq-ok,
  Bool-cases, Option-cases, set,
}
use nodepilot.Common.Text.{Text, codes}
use nodepilot.Config.{Job, running, failed}
use nodepilot.Numa.Cores.{CoreSet}
use nodepilot.Numa.Allocate.{Placement, allocate}
use nodepilot.Admission.{can_launch}
use nodepilot.Runner.{start}
use nodepilot.Orchestrator.{
  Setup, Aux, State, look, next, occupied_cores, request, place, start_placed, launch,
  launch_failed, launched, try_launch, deps_satisfied,
}

-- The job failed to start, or runs with its request on the placed cores.
abbrev pub Started : Job → Placement → Job → Type 0
Started job p job' =
    (job'.id ≡ job.id)
    × (job'.depends_on ≡ job.depends_on)
    × ((job'.status ≡ failed) × (job'.failure_reason ≡ codes "launch_error: ")
        ⊎ (job'.status ≡ running)
          × (job'.cores ≡ job.cores)
          × (job'.exclusive ≡ job.exclusive)
          × (job'.cpu_list ≡ p.cpu_list))

-- A launch that changed the job: from a placement on cores that were not occupied.
pub record Launched (setup : Setup) (jobs : List Job) (job job' : Job) : Type 0 where
  pub occupied : CoreSet
  pub placement : Placement
  pub counted : occupied_cores setup jobs ≡ ok occupied
  pub allocated : allocate (request setup job occupied) ≡ ok (some placement)
  pub started : Started job placement job'

module _ (setup : Setup) where
  start_placed-Started :
      (a a' : Aux) (job job' : Job) (p : Placement)
      → start_placed setup a (place setup job p) p ≡ ok (job', a')
      → Started job p job'
  unfolding start_placed
  start_placed-Started a a' job job' p e = go (start setup.config _ a.procs _ _) e
    where
      go :
          (r : Result (Text × List ℕ))
          → (elim r [
            | ok (session, procs) ↦
                ok (launched setup (next setup (next setup a)) (place setup job p) session procs)
            | err e ↦ launch_failed setup (next setup (next setup a)) (place setup job p) e
          ])
            ≡ ok (job', a')
          → Started job p job'
      go (ok (session, procs)) e =
          (ground arith, ground arith, inr (ground arith, ground arith, ground arith, ground arith))
      go (err subprocess_error) e = absurd (ground arith)
      go (err value_error) e = absurd (ground arith)
      go (err attribute_error) e = absurd (ground arith)
      go (err type_error) e = absurd (ground arith)
      go (err os_error) e = (ground arith, ground arith, inl (ground arith, ground arith))
      go (err runtime_error) e = (ground arith, ground arith, inl (ground arith, ground arith))

  launch-Launched :
      (a a' : Aux) (jobs : List Job) (job job' : Job)
      → launch setup a jobs job ≡ ok (some (job', a'))
      → Launched setup jobs job job'
  unfolding launch
  launch-Launched a a' jobs job job' e =
      let (occupied, counted, e') = >>=-eq-ok (occupied_cores setup jobs) _ e in
      let (found, allocated, e'') = >>=-eq-ok (allocate (request setup job occupied)) _ e' in
      elim (Option-cases found) [
        | inl nothing ↦ absurd (ground arith)
        | inr (p, granted) ↦
            let e3 : (start_placed setup a (place setup job p) p >>= λ r. ok (some r))
                ≡ ok (some (job', a')) =
              rw granted at e'' in
            let (r, run_lem, e4) = >>=-eq-ok (start_placed setup a (place setup job p) p) _ e3 in
            record {
              occupied = occupied;
              placement = p;
              counted = counted;
              allocated = rw granted at allocated;
              started = start_placed-Started a a' job job' p (ground arith);
            }
      ]

  -- A round of the loop either changes no job, or launches one that was ready and admitted.
  pub record Launch (st st' : State) (i : ℕ) (job : Job) : Type 0 where
    pub job' : Job
    pub ready : deps_satisfied setup st.jobs job.depends_on ≡ true
    pub admitted :
        (can_launch setup.config st.aux.cooldown_until (look setup st.aux) job st.jobs).ok ≡ true
    pub launched : Launched setup st.jobs job job'
    pub jobs : st'.jobs ≡ set st.jobs i job'

  pub try_launch-cases :
      (st st' : State) (i : ℕ) (job : Job) (changed : Bool)
      → try_launch setup st i job ≡ ok (st', changed)
      → ((changed ≡ false) × (st'.jobs ≡ st.jobs)) ⊎ ((changed ≡ true) × Launch st st' i job)
  unfolding try_launch
  try_launch-cases st st' i job changed e =
      elim (Bool-cases (deps_satisfied setup st.jobs job.depends_on)) [
        | inr waits ↦ inl (ground arith, ground arith)
        | inl ready ↦
            elim (Bool-cases
              (can_launch setup.config st.aux.cooldown_until (look setup st.aux) job st.jobs).ok) [
                | inr refused ↦ inl (ground arith, ground arith)
                | inl admitted ↦
                    let (r, run_lem, e') =
                      >>=-eq-ok (launch setup (next setup st.aux) st.jobs job) _
                        (rw (ready, admitted) at e) in
                    elim (Option-cases r) [
                      | inl nothing ↦ inl (ground arith, ground arith)
                      | inr (pair, some_lem) ↦ inr (
                        ground arith,
                        record {
                          job' = pair.0;
                          ready = ready;
                          admitted = admitted;
                          launched =
                              launch-Launched (next setup st.aux) pair.1 st.jobs job pair.0
                                (rw some_lem at run_lem);
                          jobs = ground arith;
                        },
                      )
                    ]
              ]
      ]
