-- ===== src/Orchestrator/Progress/Work.antt =====
-- The work that the passes of nodepilot/orchestrator.py leave, and the jobs that stay doable.
use nodepilot.Common.{
  inl, inr, refl, ℕ, zero, suc, ◌≤◌, ◌<◌, ◌≡◌, ◌≢◌, ◌⊎◌, true, List, [], ◌∷◌, some, arith, All,
  All2, get_elem?, set,
}
use nodepilot.Config.{Job, JobStatus, pending, running, failed, is_pending, is_running}
use nodepilot.Orchestrator.Course.{
  Follows, Edge, begin, not_begun, pass_over, succeed, break_off, Course, stay, go,
}
use nodepilot.Orchestrator.Lifecycle.{Moves}
use nodepilot.Orchestrator.Run.{is_drained}
use nodepilot.Orchestrator.Progress.{weight, work}

Edge-weight : {s t : JobStatus} → Edge s t → weight t ≤ weight s
Edge-weight begin = omega arith
Edge-weight not_begun = omega arith
Edge-weight pass_over = omega arith
Edge-weight succeed = omega arith
Edge-weight break_off = omega arith

Course-weight : {s t : JobStatus} → Course s t → weight t ≤ weight s
Course-weight stay = omega arith
Course-weight (go e c) = omega (arith, Edge-weight e, Course-weight c)

-- No work is added.
pub work_le : (js js' : List Job) → All2 Follows js js' → work js' ≤ work js
unfolding work
work_le [] [] h = omega arith
work_le [] (j' ∷ js') h = absurd h
work_le (j ∷ js) [] h = absurd h
work_le (j ∷ js) (j' ∷ js') h = omega (arith, Course-weight h.0.1, work_le js js' h.1)

-- A launch takes some.
pub work-set :
    (js : List Job) (i : ℕ) (j j' : Job)
    → get_elem? js i ≡ some j
    → j.status ≡ pending
    → (j'.status ≡ failed) ⊎ (j'.status ≡ running)
    → work (set js i j') < work js
unfolding work
work-set [] i j j' e h k = absurd (ground arith)
work-set (x ∷ js) zero j j' e h k = let same : x ≡ j = ground arith in rw same (ground arith)
work-set (x ∷ js) (suc i) j j' e h k = omega (arith, work-set js i j j' e h k)

pub is_drained-work : (js : List Job) → work js ≡ 0 → is_drained js ≡ true
unfolding is_drained work is_pending is_running
is_drained-work [] h = refl
is_drained-work (j ∷ js) h = let rest = is_drained-work js (omega arith) in ground arith

-- Where nothing runs or waits, no work is left.
pub work_zero :
    (js : List Job) → All (λ j. (j.status ≢ running) × (j.status ≢ pending)) js → work js ≡ 0
unfolding work
work_zero [] h = refl
work_zero (j ∷ js) h = let rest = work_zero js h.1 in ground (arith, h.0.0, h.0.1)

Moves-weight :
    (jobs : List Job) (j j' : Job)
    → Moves jobs j j'
    → (j' ≡ j) ⊎ (weight j'.status < weight j.status)
Moves-weight jobs j j' (inl same) = inl same
Moves-weight jobs j j' (inr (_, inl (p, inl q))) = inr (rw (p, q) (omega arith))
Moves-weight jobs j j' (inr (_, inl (p, inr q))) = inr (rw (p, q) (omega arith))
Moves-weight jobs j j' (inr (_, inr (p, inl q))) = inr (rw (p, q) (omega arith))
Moves-weight jobs j j' (inr (_, inr (p, inr (inl q, _)))) = inr (rw (p, q) (omega arith))
Moves-weight jobs j j' (inr (_, inr (p, inr (inr q, _)))) = inr (rw (p, q) (omega arith))

-- Any change of a job takes some work.
pub work-Moves :
    (jobs js js' : List Job) → All2 (Moves jobs) js js' → (js' ≡ js) ⊎ (work js' < work js)
unfolding work
work-Moves jobs [] [] h = inl refl
work-Moves jobs [] (j' ∷ js') h = absurd h
work-Moves jobs (j ∷ js) [] h = absurd h
work-Moves jobs (j ∷ js) (j' ∷ js') h = elim (Moves-weight jobs j j' h.0) [
  | inl same ↦ elim (work-Moves jobs js js' h.1) [
    | inl kept ↦ inl (rw (same, kept) refl)
    | inr fewer ↦ inr (rw same (omega (arith, fewer)))
  ]
  | inr lighter ↦ elim (work-Moves jobs js js' h.1) [
    | inl kept ↦ inr (rw kept (omega (arith, lighter)))
    | inr fewer ↦ inr (omega (arith, lighter, fewer))
  ]
]
