-- ===== src/Orchestrator/Order.antt =====
-- The indices of a launch pass: each once, and a pending job at each.
use nodepilot.Common.{
  ℕ, zero, suc, ◌+◌, ◌≡◌, ◌≢◌, refl, sym, inl, inr, true, List, [], ◌∷◌, map, some, arith,
  Bool-cases, get_elem?, set, get_elem?-set_ne, All, All-imp,
}
use nodepilot.Common.Sort.{sort_by, All-sort_by, AllPairs, sort_by-AllPairs}
use nodepilot.Config.{Job, JobStatus, pending, is_pending}
use nodepilot.Orchestrator.Loop.{pending_from, launch_less, launch_order}

abbrev pub PendingAt : List Job → ℕ → Type 0
PendingAt jobs i = (job : Job) × (get_elem? jobs i ≡ some job) × (job.status ≡ pending)

is_pending-eq : (s : JobStatus) → is_pending s ≡ true → s ≡ pending
unfolding is_pending
is_pending-eq s h = ground arith

abbrev From : ℕ → List Job → ℕ × Job → Type 0
From i js e = (k : ℕ) × (e.0 ≡ i + k) × PendingAt js k

From-cons : (i : ℕ) (j : Job) (js : List Job) (e : ℕ × Job) → From (suc i) js e → From i (j ∷ js) e
From-cons i j js e (k, at, (job, here, waits)) = (suc k, omega arith, (job, here, waits))

pending_from-From : (i : ℕ) (js : List Job) → All (From i js) (pending_from i js)
unfolding pending_from
pending_from-From i [] = tt
pending_from-From i (j ∷ js) =
    let rest =
      All-imp (From (suc i) js) (From i (j ∷ js)) (From-cons i j js) _
        (pending_from-From (suc i) js) in
    elim (Bool-cases (is_pending j.status)) [
      | inl waits ↦ rw waits ((zero, omega arith, (j, refl, is_pending-eq j.status waits)), rest)
      | inr other ↦ rw other rest
    ]

abbrev Differ : ℕ × Job → ℕ × Job → Type 0
Differ a b = a.0 ≢ b.0

pending_from-AllPairs : (i : ℕ) (js : List Job) → AllPairs Differ (pending_from i js)
unfolding pending_from
pending_from-AllPairs i [] = tt
pending_from-AllPairs i (j ∷ js) = elim (Bool-cases (is_pending j.status)) [
  | inl waits ↦ rw waits (
    All-imp (From (suc i) js) (Differ (i, j)) (λ e (k, at, _). omega arith) _
        (pending_from-From (suc i) js),
    pending_from-AllPairs (suc i) js,
  )
  | inr other ↦ rw other (pending_from-AllPairs (suc i) js)
]

All-map : (P : ℕ → Type 0) (es : List (ℕ × Job)) → All (λ e. P e.0) es → All P (map (λ e. e.0) es)
All-map P [] h = tt
All-map P (e ∷ es) h = (h.0, All-map P es h.1)

AllPairs-map :
    (es : List (ℕ × Job)) → AllPairs Differ es → AllPairs (◌≢◌ {A = ℕ}) (map (λ e. e.0) es)
AllPairs-map [] h = tt
AllPairs-map (e ∷ es) h = (All-map (λ i. e.0 ≢ i) es h.0, AllPairs-map es h.1)

pub launch_order-PendingAt : (jobs : List Job) → All (PendingAt jobs) (launch_order jobs)
unfolding launch_order
launch_order-PendingAt jobs = All-map (PendingAt jobs) (sort_by launch_less (pending_from 0 jobs)) (
    All-sort_by launch_less (λ e. PendingAt jobs e.0) (pending_from 0 jobs)
      (All-imp (From 0 jobs) (λ e. PendingAt jobs e.0) at_zero (pending_from 0 jobs)
        (pending_from-From 0 jobs)))
  where
    at_zero : (e : ℕ × Job) → From 0 jobs e → PendingAt jobs e.0
    at_zero e (k, at, p) = let same : e.0 ≡ k = omega arith in rw same p

pub launch_order-AllPairs : (jobs : List Job) → AllPairs (◌≢◌ {A = ℕ}) (launch_order jobs)
unfolding launch_order
launch_order-AllPairs jobs = AllPairs-map (sort_by launch_less (pending_from 0 jobs)) (
    sort_by-AllPairs launch_less Differ (λ a b h e. h (sym e)) (pending_from 0 jobs)
      (pending_from-AllPairs 0 jobs))

-- A launch at one index leaves the pending jobs at the others.
pub PendingAt-set :
    (jobs : List Job) (i : ℕ) (job' : Job) (is : List ℕ)
    → All (λ k. i ≢ k) is
    → All (PendingAt jobs) is
    → All (PendingAt (set jobs i job')) is
PendingAt-set jobs i job' [] d h = tt
PendingAt-set jobs i job' (k ∷ is) d ((job, here, waits), h) =
    ((job, rw (get_elem?-set_ne jobs i k job' d.0) here, waits), PendingAt-set jobs i job' is d.1 h)
