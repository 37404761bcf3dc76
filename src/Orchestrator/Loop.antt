-- ===== src/Orchestrator/Loop.antt =====
-- _launch_pending and _tick of nodepilot/orchestrator.py.
use nodepilot.Common.{
  ℕ, suc, ◌+◌, ◌*◌, Bool, false, ◌||◌, ◌&&◌, List, [], ◌∷◌, map, none, some, if◌then◌else◌, Result,
  ok, ◌>>=◌, ltb_ℤ, eqb_ℤ, get_elem?, length,
}
use nodepilot.Common.Text.{text_less}
use nodepilot.Common.Sort.{sort_by}
use nodepilot.Config.{Job, is_pending}
use nodepilot.Orchestrator.{Setup, State, reap_finished, enforce_pins, try_launch}
use nodepilot.Orchestrator.Dependents.{mark_dead_dependents}

-- The pending jobs, each with its index in the list.
unfoldable pub pending_from : ℕ → List Job → List (ℕ × Job)
pending_from i [] = []
pending_from i (j ∷ js) =
    let rest = pending_from (suc i) js in if is_pending j.status then (i, j) ∷ rest else rest

-- The order of the keys `(priority, id)`.
unfoldable pub launch_less : ℕ × Job → ℕ × Job → Bool
launch_less a b =
    ltb_ℤ a.1.priority b.1.priority || (eqb_ℤ a.1.priority b.1.priority && text_less a.1.id b.1.id)

unfoldable pub launch_order : List Job → List ℕ
launch_order jobs = map (λ e. e.0) (sort_by launch_less (pending_from 0 jobs))

module _ (setup : Setup) where
  open setup use {config, world}

  -- The loop of `_launch_pending`, over the indices of the jobs in their order.
  unfoldable pub launch_each : List ℕ → State → Result (State × Bool)
  launch_each [] st = ok (st, false)
  launch_each (i ∷ is) st = do
    (st', changed) ← elim (get_elem? st.jobs i) [
      | none ↦ ok (st, false)
      | some job ↦ try_launch setup st i job
    ]
    (st'', more) ← launch_each is st'
    ok (st'', changed || more)

  unfoldable pub launch_pending : State → Result (State × Bool)
  unfolding launch_order
  launch_pending st = launch_each (launch_order st.jobs) st

  -- `_tick`: the state after it, and whether it changed.
  unfoldable pub tick : State → Result (State × Bool)
  tick st = do
    (jobs, a, reaped) ← reap_finished setup st.aux st.jobs
    let n = length jobs
    let (jobs', marked) = mark_dead_dependents (λ pass i. (world (a.reads + pass * n + i)).now) jobs
    a' ← enforce_pins setup (record a { reads = a.reads + suc n * n + n }) jobs'
    (st', launched) ← launch_pending (record { jobs = jobs'; aux = a' })
    ok (st', reaped || marked || launched)
