-- ===== src/Orchestrator/Safety/Sums.antt =====
-- Sums over the running jobs, when one job is replaced and when jobs only stop running.
use nodepilot.Common.{
  ℕ, zero, suc, ◌+◌, ◌≤◌, ◌≡◌, refl, ◌⊎◌, inl, inr, false, List, [], ◌∷◌, some, arith,
  if◌then◌else◌, get_elem?, set, length, All2,
}
use nodepilot.Config.{Job, pending, running, done, failed, skipped, is_running}
use nodepilot.Admission.{sum_by, running_jobs}

-- The job stays as it is, or ends: a running job is done or failed, a pending one is skipped.
abbrev pub Stops : Job → Job → Type 0
Stops j j' =
    (j' ≡ j)
    ⊎ (j'.id ≡ j.id)
      × (j'.depends_on ≡ j.depends_on)
      × (((j.status ≡ running) × ((j'.status ≡ done) ⊎ (j'.status ≡ failed)))
          ⊎ ((j.status ≡ pending) × (j'.status ≡ skipped)))

abbrev pub AllStop : List Job → List Job → Type 0
AllStop = All2 Stops

pub Stops-refl : (j : Job) → Stops j j
Stops-refl j = inl refl

pub Stops-trans : (a b c : Job) → Stops a b → Stops b c → Stops a c
Stops-trans a b c h (inl same) = rw same h
Stops-trans a b c (inl same) (inr k) = inr (rw same at k)
Stops-trans a b c (inr h) (inr k) = absurd (ground arith)

not_running : (j j' : Job) → Stops j j' → (j' ≡ j) ⊎ (is_running j'.status ≡ false)
unfolding is_running
not_running j j' (inl same) = inl same
not_running j j' (inr h) = inr (ground arith)

module _ (f : Job → ℕ) where
  abbrev pub running_sum : List Job → ℕ
  running_sum jobs = sum_by f (running_jobs jobs)

  pub running_sum-AllStop : (js js' : List Job) → AllStop js js' → running_sum js' ≤ running_sum js
  unfolding sum_by
  running_sum-AllStop [] [] h = omega arith
  running_sum-AllStop [] (j' ∷ js') h = absurd h
  running_sum-AllStop (j ∷ js) [] h = absurd h
  running_sum-AllStop (j ∷ js) (j' ∷ js') h = elim (not_running j j' h.0) [
    | inr stopped ↦ ground (arith, running_sum-AllStop js js' h.1)
    | inl same ↦ rw same (ground (arith, running_sum-AllStop js js' h.1))
  ]

  pub running_sum-set :
      (js : List Job) (i : ℕ) (j j' : Job)
      → get_elem? js i ≡ some j
      → is_running j.status ≡ false
      → running_sum (set js i j') ≡ running_sum js + (if is_running j'.status then f j' else 0)
  unfolding sum_by
  running_sum-set [] i j j' e h = absurd (ground arith)
  running_sum-set (k ∷ js) zero j j' e h = let same : k ≡ j = ground arith in rw same (ground arith)
  running_sum-set (k ∷ js) (suc i) j j' e h = ground (arith, running_sum-set js i j j' e h)

pub length-sum_by : (js : List Job) → length js ≡ sum_by (λ _. 1) js
unfolding sum_by
length-sum_by [] = refl
length-sum_by (j ∷ js) = omega (arith, length-sum_by js)
