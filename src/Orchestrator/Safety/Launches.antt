-- ===== src/Orchestrator/Safety/Launches.antt =====
-- The safety of the schedule across a launch.
use nodepilot.Common.{
  ℕ, ◌≡◌, refl, subst, inl, inr, Bool, true, false, List, [], ◌∷◌, some, arith, ok, Bool-cases,
  get_elem?, set, All, ◌==◌,
}
use nodepilot.Common.Text.{is_empty}
use nodepilot.Config.{Job, is_running}
use nodepilot.Numa.Cores.{CoreSet, contains}
use nodepilot.Numa.CpuList.{parse_cpu_list}
use nodepilot.Numa.Allocate.{Placement, allocate}
use nodepilot.Numa.Allocate.Sound.{allocate-IsPlacementFor}
use nodepilot.Admission.{sum_by, running_jobs, running_cores, running_count}
use nodepilot.Admission.Gate.{Admits, can_launch_iff}
use nodepilot.Orchestrator.{Setup, Aux, State, look, request, try_launch}
use nodepilot.Orchestrator.Steps.{Launch, try_launch-cases}
use nodepilot.Orchestrator.Safety.{held, holders, one_if, IsSafe}
use nodepilot.Orchestrator.Safety.Sums.{running_sum-set, length-sum_by}
use nodepilot.Orchestrator.Safety.Occupied.{occupied_cores-free, held_lem}

All-contains : (P : ℕ → Type 0) (c : ℕ) (xs : List ℕ) → All P xs → contains c xs ≡ true → P c
unfolding contains
All-contains P c [] h e = absurd (ground arith)
All-contains P c (x ∷ xs) h e = elim (Bool-cases (c == x)) [
  | inl same ↦ let eq : x ≡ c = ground arith in subst P eq h.0
  | inr other ↦ All-contains P c xs h.1 (ground arith)
]

no_exclusive :
    (js : List Job) → All (λ j. j.exclusive ≡ false) js → sum_by (λ j. one_if j.exclusive) js ≡ 0
unfolding sum_by
no_exclusive [] h = refl
no_exclusive (j ∷ js) h = ground (arith, no_exclusive js h.1)

sum_by-nil : (f : Job → ℕ) (js : List Job) → js ≡ [] → sum_by f js ≡ 0
unfolding sum_by
sum_by-nil f js e = rw e

module _ (setup : Setup) where
  -- A core of the placement was not occupied.
  placed-free :
      (job : Job) (occupied : CoreSet) (p : Placement) (c : ℕ) (job' : Job)
      → allocate (request setup job occupied) ≡ ok (some p)
      → job'.cpu_list ≡ p.cpu_list
      → contains c (held job') ≡ true
      → contains c occupied ≡ false
  placed-free job occupied p c job' e same m = elim (Bool-cases (job.cores == 0)) [
    | inl none_asked ↦ absurd (
        let no_text : [] ≡ p.cpu_list = unfold allocate request in ground arith in
        let nothing : parse_cpu_list job'.cpu_list ≡ ok [] =
          rw (same, ← no_text) (unfold parse_cpu_list is_empty in refl) in
        let no_core : contains c [] ≡ true = rw (held_lem job' [] nothing) at m in
        unfold contains in ground arith)
    | inr asked ↦
        let found =
          allocate-IsPlacementFor (request setup job occupied) p (unfold request in ground arith)
            e in
        let parsed : parse_cpu_list job'.cpu_list ≡ ok found.cores = rw same found.taken in
        let m' : contains c found.cores ≡ true = rw (held_lem job' found.cores parsed) at m in
        unfold request in (All-contains _ c found.cores found.free m').1
  ]

  module _ (jobs : List Job) (i : ℕ) (job : Job) (here : get_elem? jobs i ≡ some job)
      (idle : is_running job.status ≡ false) (safe : IsSafe setup jobs) where
    stopped-IsSafe : (job' : Job) → is_running job'.status ≡ false → IsSafe setup (set jobs i job')
    unfolding running_count running_cores
    stopped-IsSafe job' h = record {
      count =
          rw (running_sum-set (λ _. 1) jobs i job job' here idle, h) (omega (arith, safe.count));
      cores =
          rw (running_sum-set (λ j. j.cores) jobs i job job' here idle, h)
            (omega (arith, safe.cores));
      mutex =
          rw
            (
              running_sum-set (λ _. 1) jobs i job job' here idle,
              running_sum-set (λ j. one_if j.exclusive) jobs i job job' here idle,
              h,
            )
            (omega (arith, safe.mutex));
      apart = λ c.
          rw (running_sum-set (λ j. one_if (contains c (held j))) jobs i job job' here idle, h)
            (omega (arith, safe.apart c));
    }

    started-IsSafe :
        (until : ℕ) (a : Aux) (job' : Job)
        → Admits setup.config until (look setup a) job jobs
        → is_running job'.status ≡ true
        → job'.cores ≡ job.cores
        → job'.exclusive ≡ job.exclusive
        → ((c : ℕ)
            → contains c (held job') ≡ true
            → (contains c setup.reserved ≡ false) × (holders c jobs ≡ 0))
        → IsSafe setup (set jobs i job')
    unfolding running_count running_cores
    started-IsSafe until a job' admitted runs cores excl free =
        let count_lem = running_sum-set (λ _. 1) jobs i job job' here idle in
        let cores_lem = running_sum-set (λ j. j.cores) jobs i job job' here idle in
        let excl_lem = running_sum-set (λ j. one_if j.exclusive) jobs i job job' here idle in
        let none_before = no_exclusive (running_jobs jobs) admitted.unblocked in
        record {
          count =
              rw (count_lem, runs)
                (omega (arith, admitted.slot, length-sum_by (running_jobs jobs)));
          cores = rw (cores_lem, runs, cores) admitted.cores;
          mutex = elim admitted.alone [
            | inl shared ↦ inl (rw (excl_lem, runs, excl, shared) (omega (arith, none_before)))
            | inr empty ↦ inr (
                rw (count_lem, runs) (omega (arith, sum_by-nil (λ _. 1) (running_jobs jobs) empty)))
          ];
          apart = λ c. elim (Bool-cases (contains c (held job'))) [
            | inl m ↦
                rw
                  (
                    running_sum-set (λ j. one_if (contains c (held j))) jobs i job job' here idle,
                    runs,
                    m,
                    (free c m).0,
                  )
                  (omega (arith, (free c m).1))
            | inr out ↦
                rw
                  (
                    running_sum-set (λ j. one_if (contains c (held j))) jobs i job job' here idle,
                    runs,
                    out,
                  )
                  (omega (arith, safe.apart c))
          ];
        }

  launched-IsSafe :
      (st st' : State) (i : ℕ) (job : Job)
      → get_elem? st.jobs i ≡ some job
      → is_running job.status ≡ false
      → IsSafe setup st.jobs
      → (l : Launch setup st st' i job) → IsSafe setup (set st.jobs i l.job')
  unfolding is_running
  launched-IsSafe st st' i job here idle safe l = elim l.launched.started.2 [
    | inl broken ↦ stopped-IsSafe st.jobs i job here idle safe l.job' (rw broken.0)
    | inr (runs, cores, excl, cpus) ↦
        started-IsSafe st.jobs i job here idle safe st.aux.cooldown_until st.aux l.job'
          ((can_launch_iff setup.config st.aux.cooldown_until (look setup st.aux) job st.jobs).0
            l.admitted)
          (rw runs) cores excl
          (λ c m. occupied_cores-free setup c st.jobs l.launched.occupied l.launched.counted (
            placed-free job l.launched.occupied l.launched.placement c l.job' l.launched.allocated
              cpus m))
  ]

  -- The job at the index starts, fails or waits, and the schedule stays safe.
  pub try_launch-IsSafe :
      (st st' : State) (i : ℕ) (job : Job) (changed : Bool)
      → get_elem? st.jobs i ≡ some job
      → is_running job.status ≡ false
      → IsSafe setup st.jobs
      → try_launch setup st i job ≡ ok (st', changed)
      → IsSafe setup st'.jobs
  try_launch-IsSafe st st' i job changed here idle safe e =
      elim (try_launch-cases setup st st' i job changed e) [
        | inl (_, same) ↦ rw same safe
        | inr (_, l) ↦ rw l.jobs (launched-IsSafe st st' i job here idle safe l)
      ]
