-- ===== src/Orchestrator/Knots.antt =====
-- Jobs of nodepilot/orchestrator.py that wait for each other: they are never started or skipped, so
-- that the queue is never drained.
pub mod Runs
use nodepilot.Common.{
  ◌≢◌, All-imp, All-middle, All2-with, All2-All, ℕ, zero, suc, ◌≡◌, refl, sym, ap, ◌∙◌, subst, ◌⊎◌,
  inl, inr, Bool, true, false, not, List, [], ◌∷◌, ◌++◌, Option, none, some, arith, ok, >>=-eq-ok,
  Bool-cases, Option-cases, All, All2, All2-refl, All2-trans, All2-at, All2-imp, append-nil, length,
  any_of,
}
use nodepilot.Common.Text.{Text, text_eq, text_eq_iff}
use nodepilot.Config.{
  Job, pending, running, done, failed, skipped, is_pending, is_running, is_done, is_dead,
}
use nodepilot.Orchestrator.{Setup, State}
use nodepilot.Orchestrator.Dependents.Lookup.{has_id, has_id-by_id, by_id-All}
use nodepilot.Orchestrator.Dependents.{
  by_id, blocker, mark_job, mark_pass, mark_loop, mark_dead_dependents,
}
use nodepilot.Orchestrator.Lifecycle.{SameJob, DepsDone, Starts}
use nodepilot.Orchestrator.Safety.Passes.{Ends}

module _ (tied : Text → Bool) where
  -- A job with a tied id depends on something, and only on jobs of the list with tied ids.
  abbrev pub IsTied : List Job → Job → Type 0
  IsTied jobs j =
      (j.depends_on ≢ []) × All (λ d. (tied d ≡ true) × (has_id jobs d ≡ true)) j.depends_on

  abbrev pub Waits : Job → Type 0
  Waits j = tied j.id ≡ true → j.status ≡ pending

  abbrev Ties : List Job → Job → Type 0
  Ties jobs j = tied j.id ≡ true → IsTied jobs j

  -- Every job with a tied id waits, and for jobs with tied ids.
  abbrev pub IsKnot : List Job → Type 0
  IsKnot jobs = All Waits jobs × All (Ties jobs) jobs

  -- The list has a knot, and a job in it.
  abbrev pub IsKnotted : List Job → Type 0
  IsKnotted jobs = IsKnot jobs × (d : Text) × (tied d ≡ true) × (has_id jobs d ≡ true)

  -- A pass leaves the status of the jobs with tied ids.
  abbrev pub Leaves : Job → Job → Type 0
  Leaves j j' = SameJob j j' × (tied j.id ≡ true → j'.status ≡ j.status)

  Leaves-refl : (j : Job) → Leaves j j
  Leaves-refl j = ((refl, refl), λ t. refl)

  has_id-Leaves : (js js' : List Job) (d : Text) → All2 Leaves js js' → has_id js' d ≡ has_id js d
  has_id-Leaves [] [] d h = refl
  has_id-Leaves [] (j' ∷ js') d h = absurd h
  has_id-Leaves (j ∷ js) [] d h = absurd h
  has_id-Leaves (j ∷ js) (j' ∷ js') d (((i, deps), s), h) = rw (i, has_id-Leaves js js' d h) refl

  Leaves-Waits : (j j' : Job) → Leaves j j' → Waits j → Waits j'
  Leaves-Waits j j' ((i, d), s) w t = let t' : tied j.id ≡ true = ap tied (sym i) ∙ t in s t' ∙ w t'

  Leaves-Ties :
      (jobs jobs' : List Job)
      → ((d : Text) → has_id jobs' d ≡ has_id jobs d)
      → (j j' : Job) → Leaves j j'
      → Ties jobs j
      → Ties jobs' j'
  Leaves-Ties jobs jobs' same j j' ((i, d), s) k t =
      let (some_dep, all_tied) = k (ap tied (sym i) ∙ t) in
      subst (λ ds. (ds ≢ []) × All (λ x. (tied x ≡ true) × (has_id jobs' x ≡ true)) ds) (sym d)
        (some_dep, All-imp _ _ (λ x (t, here). (t, same x ∙ here)) j.depends_on all_tied)

  IsKnot-Leaves : (js js' : List Job) → All2 Leaves js js' → IsKnot js → IsKnot js'
  IsKnot-Leaves js js' h (waits, ties) = (
    All2-All Waits Waits Leaves (λ j j' w l. Leaves-Waits j j' l w) js js' waits h,
    All2-All (Ties js) (Ties js') Leaves
        (λ j j' k l. Leaves-Ties js js' (λ d. has_id-Leaves js js' d h) j j' l k) js js' ties h,
  )

  tied-blocker :
      (jobs : List Job) (deps : List Text)
      → All Waits jobs
      → All (λ d. (tied d ≡ true) × (has_id jobs d ≡ true)) deps
      → blocker jobs deps ≡ none
  unfolding blocker is_dead
  tied-blocker jobs [] w h = refl
  tied-blocker jobs (d ∷ deps) w ((t, here), h) =
      let (u, found) = has_id-by_id jobs d here in
      let (waits, named) = by_id-All Waits jobs d u w found in
      let idle : u.status ≡ pending = waits (ap tied named ∙ t) in
      rw (blocker, found, is_dead, idle) (tied-blocker jobs deps w h)

  Leaves-trans : (a b c : Job) → Leaves a b → Leaves b c → Leaves a c
  Leaves-trans a b c ((i, d), s) ((i', d'), s') = ((i' ∙ i, d' ∙ d), λ t. s' (ap tied i ∙ t) ∙ s t)

  mark_job-SameJob : (now : ℕ) (jobs : List Job) (job : Job) → SameJob job (mark_job now jobs job).0
  unfolding mark_job
  mark_job-SameJob now jobs job = ground arith

  mark_job-tied :
      (now : ℕ) (jobs : List Job) (job : Job)
      → blocker jobs job.depends_on ≡ none
      → (mark_job now jobs job).0 ≡ job
  unfolding mark_job
  mark_job-tied now jobs job free = ground arith

  mark_job-Leaves :
      (now : ℕ) (jobs : List Job) (job : Job)
      → All Waits jobs
      → Ties jobs job
      → Leaves job (mark_job now jobs job).0
  mark_job-Leaves now jobs job waits ties = (
    mark_job-SameJob now jobs job,
    λ t.
        ap (λ j. j.status)
          (mark_job-tied now jobs job (tied-blocker jobs job.depends_on waits (ties t).1)),
  )

  mark_pass-Leaves :
      (clock : ℕ → ℕ) (before after : List Job)
      → IsKnot (before ++ after)
      → All2 Leaves (before ++ after) (mark_pass clock before after).0
  unfolding mark_pass
  mark_pass-Leaves clock before [] knot = rw append-nil (All2-refl Leaves Leaves-refl before)
  mark_pass-Leaves clock before (job ∷ after) knot =
      let jobs = before ++ job ∷ after in
      let job' = (mark_job (clock (length before)) jobs job).0 in
      let step = All2-at Leaves Leaves-refl before job job' after (
        mark_job-Leaves (clock (length before)) jobs job knot.0
          (All-middle (Ties jobs) before job after knot.1)) in
      All2-trans Leaves Leaves Leaves Leaves-trans jobs ((before ++ job' ∷ []) ++ after) _ step
        (mark_pass-Leaves clock (before ++ job' ∷ []) after (IsKnot-Leaves _ _ step knot))

  mark_loop-Leaves :
      (fuel pass : ℕ) (clock : ℕ → ℕ → ℕ) (jobs : List Job)
      → IsKnot jobs
      → All2 Leaves jobs (mark_loop fuel pass clock jobs).0
  unfolding mark_loop
  mark_loop-Leaves zero pass clock jobs knot = All2-refl Leaves Leaves-refl jobs
  mark_loop-Leaves (suc fuel) pass clock jobs knot =
      let first = mark_pass-Leaves (clock pass) [] jobs knot in
      let jobs' = (mark_pass (clock pass) [] jobs).0 in
      elim (Bool-cases (mark_pass (clock pass) [] jobs).1) [
        | inl more ↦ rw more (
            All2-trans Leaves Leaves Leaves Leaves-trans jobs jobs' _ first
              (mark_loop-Leaves fuel (suc pass) clock jobs' (IsKnot-Leaves jobs jobs' first knot)))
        | inr fixed ↦ rw fixed first
      ]

  mark_dead-Leaves :
      (clock : ℕ → ℕ → ℕ) (jobs : List Job)
      → IsKnot jobs
      → All2 Leaves jobs (mark_dead_dependents clock jobs).0
  unfolding mark_dead_dependents
  mark_dead-Leaves clock jobs knot = mark_loop-Leaves (suc (length jobs)) 0 clock jobs knot

  Ends-Leaves : (j j' : Job) → Waits j → Ends j j' → Leaves j j'
  Ends-Leaves j j' w (inl same) = subst (Leaves j) (sym same) (Leaves-refl j)
  Ends-Leaves j j' w (inr (i, d, runs, ends)) =
      ((i, d), λ t. let idle = w t in absurd (ground arith))

  -- A job with a tied id is not done after launches.
  abbrev pub NotDone : Job → Type 0
  NotDone j = tied j.id ≡ true → j.status ≢ done

  Starts-NotDone : (jobs : List Job) (j j' : Job) → Waits j → Starts jobs j j' → NotDone j'
  Starts-NotDone jobs j j' w (inl same) t e =
      let t' : tied j.id ≡ true = ap (λ x. tied x.id) (sym same) ∙ t in
      let idle = w t' in ground arith
  Starts-NotDone jobs j j' w (inr (same, waits, inl fails, deps)) t e = ground arith
  Starts-NotDone jobs j j' w (inr (same, waits, inr runs, deps)) t e = ground arith

  DepsDone-absurd :
      (jobs' jobs : List Job) (j : Job) → All NotDone jobs' → IsTied jobs j → ¬ DepsDone jobs' j
  DepsDone-absurd jobs' jobs j fresh (some_dep, all_tied) = go j.depends_on some_dep all_tied
    where
      go :
          (ds : List Text)
          → ds ≢ []
          → All (λ d. (tied d ≡ true) × (has_id jobs d ≡ true)) ds
          → ¬ All (λ dep. (u : Job) × (by_id jobs' dep ≡ some u) × (u.status ≡ done)) ds
      go [] some_dep h k = some_dep refl
      go (d ∷ ds) some_dep ((t, here), h) ((u, found, finished), k) =
          let (fine, named) = by_id-All NotDone jobs' d u fresh found in
          fine (ap tied named ∙ t) finished

  Starts-Leaves :
      (jobs' jobs : List Job) (j j' : Job)
      → All NotDone jobs'
      → Ties jobs j
      → Starts jobs' j j'
      → Leaves j j'
  Starts-Leaves jobs' jobs j j' fresh ties (inl same) = subst (Leaves j) (sym same) (Leaves-refl j)
  Starts-Leaves jobs' jobs j j' fresh ties (inr (same, waits, how, deps)) =
      (same, λ t. absurd (DepsDone-absurd jobs' jobs j fresh (ties t) deps))
