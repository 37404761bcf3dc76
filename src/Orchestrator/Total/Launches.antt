-- ===== src/Orchestrator/Total/Launches.antt =====
-- The exceptions of the launches, and the tracking of what they start.
use nodepilot.Common.{
  ℕ, suc, ◌≡◌, refl, inl, inr, ◌⊎◌, Bool, true, not, ◌&&◌, ◌==◌, List, [], ◌∷◌, ◌++◌, none, some,
  arith, Returns, ok, err, os_error, runtime_error, All, pos, drop, get_elem?, Bool-cases,
  Option-cases,
}
use nodepilot.Common.Text.{Text, is_empty, codes, starts_with, text_eq}
use nodepilot.Common.Decimal.{int, decimal, int-decimal}
use nodepilot.Config.{Job, is_running}
use nodepilot.Numa.Cores.{CoreSet, update}
use nodepilot.Numa.CpuList.{parse_cpu_list}
use nodepilot.Numa.Allocate.{Placement, Request, allocate}
use nodepilot.Numa.Allocate.Complete.{allocate-Returns}
use nodepilot.Numa.Allocate.Sound.{allocate-IsPlacementFor}
use nodepilot.Admission.{can_launch}
use nodepilot.Runner
use nodepilot.Runner.{Procs, is_pid, pid_of, build_command}
use nodepilot.Orchestrator.{
  Setup, Aux, State, look, next, occupied_from, occupied_cores, request, place, start_placed,
  launch, launched, launch_failed, try_launch, deps_satisfied,
}
use nodepilot.Orchestrator.Loop.{launch_each, launch_pending, launch_order}
use nodepilot.Orchestrator.Total.{IsUsable, IsTracked, All-set}

-- The session that a start leaves can be read.
abbrev HasPid : Text → Type 0
HasPid session = starts_with session (codes "pid:") ≡ true → Returns (int (drop 4 session))

start-HasPid :
    (setup : Setup) (usable : IsUsable setup) (n : ℕ) (procs : Procs) (job : Job) (argv : List Text)
    → ((r : Text × Procs) × (Runner.start setup.config (setup.world n) procs job argv ≡ ok r)
        × HasPid r.0)
      ⊎ (Runner.start setup.config (setup.world n) procs job argv ≡ err os_error)
      ⊎ (Runner.start setup.config (setup.world n) procs job argv ≡ err runtime_error)
unfolding Runner.start starts_with
start-HasPid setup usable n procs job argv =
    elim (Bool-cases (text_eq setup.config.runner (codes "tmux"))) [
      | inl tmux ↦ elim (usable.new_session n (codes "nodepilot_" ++ job.id) argv) [
        | inl (r, e) ↦ inl (
          (codes "tmux:" ++ (codes "nodepilot_" ++ job.id), procs),
          rw (tmux, e) refl,
          λ named. absurd (ground arith),
        )
        | inr (inl e) ↦ inr (inl (rw (tmux, e) refl))
        | inr (inr e) ↦ inr (inr (rw (tmux, e) refl))
      ]
      | inr direct ↦ elim (usable.popen n argv) [
        | inl (pid, e) ↦ inl (
          (codes "pid:" ++ decimal pid, pid ∷ Runner.pop (pos pid) procs),
          rw (direct, e) refl,
          λ named. (pos pid, int-decimal pid),
        )
        | inr (inl e) ↦ inr (inl (rw (direct, e) refl))
        | inr (inr e) ↦ inr (inr (rw (direct, e) refl))
      ]
    ]

-- The cores of a placement can be read.
placed-Returns :
    (r : Request) (p : Placement) → allocate r ≡ ok (some p) → Returns (parse_cpu_list p.cpu_list)
placed-Returns r p e = elim (Bool-cases (r.n_cores == 0)) [
  | inl none_asked ↦
      let no_text : [] ≡ p.cpu_list = unfold allocate in ground arith in
      rw (← no_text) ([], unfold parse_cpu_list is_empty in refl)
  | inr asked ↦
      let placement = allocate-IsPlacementFor r p (ground arith) e in
      (placement.cores, placement.taken)
]

occupied_from-Returns :
    (setup : Setup) (occ : CoreSet) (jobs : List Job)
    → All IsTracked jobs
    → Returns (occupied_from setup occ jobs)
unfolding occupied_from is_running
occupied_from-Returns setup occ [] h = (occ, refl)
occupied_from-Returns setup occ (j ∷ js) h =
    elim (Bool-cases (is_running j.status && not (is_empty j.cpu_list))) [
      | inr idle ↦ rw idle (occupied_from-Returns setup occ js h.1)
      | inl runs ↦
          let (cores, e) = (h.0 (ground arith)).1 in
          rw (runs, e) (occupied_from-Returns setup (update cores occ) js h.1)
    ]

module _ (setup : Setup) (usable : IsUsable setup) where
  start_placed-IsTracked :
      (a : Aux) (job : Job) (p : Placement)
      → job.cpu_list ≡ p.cpu_list
      → Returns (parse_cpu_list p.cpu_list)
      → (r : Job × Aux) × (start_placed setup a job p ≡ ok r) × IsTracked r.0
  unfolding start_placed launched launch_failed
  start_placed-IsTracked a job p placed cores =
      let argv = build_command setup.format_g (look setup a) job p setup.config in
      elim (start-HasPid setup usable (suc a.reads) a.procs job argv) [
        | inl ((session, procs), e, named) ↦
            rw (start_placed, e) (_, refl, λ _. (unfold is_pid pid_of in named, rw placed cores))
        | inr (inl e) ↦ rw (start_placed, e) (_, refl, λ runs. absurd (ground arith))
        | inr (inr e) ↦ rw (start_placed, e) (_, refl, λ runs. absurd (ground arith))
      ]

  launch-IsTracked :
      (a : Aux) (jobs : List Job) (job : Job)
      → All IsTracked jobs
      → (launch setup a jobs job ≡ ok none)
        ⊎ ((r : Job × Aux) × (launch setup a jobs job ≡ ok (some r)) × IsTracked r.0)
  unfolding launch occupied_cores
  launch-IsTracked a jobs job tracked =
      let (occupied, e) = occupied_from-Returns setup setup.reserved jobs tracked in
      let (found, e') =
        allocate-Returns (request setup job occupied) (unfold request in usable.nodes) in
      elim (Option-cases found) [
        | inl nothing ↦ inl (rw (e, e', nothing) refl)
        | inr (p, granted) ↦
            let cores = placed-Returns (request setup job occupied) p (rw granted at e') in
            let (r, e'', t) = start_placed-IsTracked a (place setup job p) p refl cores in
            inr (r, rw (e, e', granted, e'') refl, t)
      ]

  try_launch-IsTracked :
      (st : State) (i : ℕ) (job : Job)
      → All IsTracked st.jobs
      → (r : State × Bool) × (try_launch setup st i job ≡ ok r) × All IsTracked r.0.jobs
  unfolding try_launch
  try_launch-IsTracked st i job tracked =
      elim (Bool-cases (deps_satisfied setup st.jobs job.depends_on)) [
        | inr waits ↦ rw waits (_, refl, tracked)
        | inl ready ↦
            elim (Bool-cases
              (can_launch setup.config st.aux.cooldown_until (look setup st.aux) job st.jobs).ok) [
                | inr refused ↦ rw (ready, refused) (_, refl, tracked)
                | inl admitted ↦ elim (launch-IsTracked (next setup st.aux) st.jobs job tracked) [
                  | inl nothing ↦ rw (ready, admitted, nothing) (_, refl, tracked)
                  | inr (r, e, t) ↦
                      rw (ready, admitted, e) (_, refl, All-set IsTracked st.jobs i r.0 t tracked)
                ]
              ]
      ]

  launch_each-IsTracked :
      (is : List ℕ) (st : State)
      → All IsTracked st.jobs
      → (r : State × Bool) × (launch_each setup is st ≡ ok r) × All IsTracked r.0.jobs
  unfolding launch_each
  launch_each-IsTracked [] st tracked = (_, refl, tracked)
  launch_each-IsTracked (i ∷ is) st tracked = elim (Option-cases (get_elem? st.jobs i)) [
    | inl missing ↦
        let (r, e, t) = launch_each-IsTracked is st tracked in rw (missing, e) (_, refl, t)
    | inr (job, here) ↦
        let ((st1, c1), first, t1) = try_launch-IsTracked st i job tracked in
        let (r, e, t) = launch_each-IsTracked is st1 t1 in rw (here, first, e) (_, refl, t)
  ]

  pub launch_pending-IsTracked :
      (st : State)
      → All IsTracked st.jobs
      → (r : State × Bool) × (launch_pending setup st ≡ ok r) × All IsTracked r.0.jobs
  unfolding launch_pending
  launch_pending-IsTracked st tracked = launch_each-IsTracked (launch_order st.jobs) st tracked
