-- ===== src/Orchestrator/Settled.antt =====
-- What the loop of _mark_dead_dependents of nodepilot/orchestrator.py leaves.
use nodepilot.Common.{
  ℕ, zero, suc, ◌+◌, ◌<◌, ◌≤◌, ◌≡◌, ◌≢◌, All-imp, sym, ap, ◌∙◌, inl, inr, false, List, [], ◌∷◌,
  ◌++◌, none, arith, if◌then◌else◌, length, All, Bool-cases, Option-cases, append_assoc, append-nil,
}
use nodepilot.Common.Text.{Text}
use nodepilot.Config.{Job, pending, failed, skipped, is_pending, is_dead}
use nodepilot.Orchestrator.Dependents.{
  by_id, blocker, mark_job, mark_pass, mark_loop, mark_dead_dependents,
}
use nodepilot.Orchestrator.Dependents.Lookup.{IsLast, by_id-IsLast}

-- A pending job of the list has no dependency that blocks it.
abbrev pub IsUnblocked : List Job → Job → Type 0
IsUnblocked jobs job = job.status ≡ pending → blocker jobs job.depends_on ≡ none

weight : Job → ℕ
weight job = if is_pending job.status then 1 else 0

waiting : List Job → ℕ
waiting [] = zero
waiting (j ∷ js) = weight j + waiting js

waiting-append : (js ks : List Job) → waiting (js ++ ks) ≡ waiting js + waiting ks
unfolding waiting
waiting-append [] ks = omega arith
waiting-append (j ∷ js) ks = omega (arith, waiting-append js ks)

waiting-length : (js : List Job) → waiting js ≤ length js
unfolding waiting weight
waiting-length [] = omega arith
waiting-length (j ∷ js) = ground (arith, waiting-length js)

mark_job-stuck :
    (now : ℕ) (jobs : List Job) (job : Job)
    → (mark_job now jobs job).1 ≡ false
    → ((mark_job now jobs job).0 ≡ job) × IsUnblocked jobs job
unfolding mark_job is_pending
mark_job-stuck now jobs job e = elim (Option-cases (blocker jobs job.depends_on)) [
  | inl free ↦ (ground arith, λ _. free)
  | inr (why, blocked) ↦ (ground arith, λ waits. absurd (ground arith))
]

mark_job-weight :
    (now : ℕ) (jobs : List Job) (job : Job)
    → weight (mark_job now jobs job).0 + (if (mark_job now jobs job).1 then 1 else 0) ≡ weight job
unfolding mark_job weight is_pending
mark_job-weight now jobs job = elim (Option-cases (blocker jobs job.depends_on)) [
  | inl free ↦ ground arith
  | inr (why, blocked) ↦ ground arith
]

pub mark_pass-stuck :
    (clock : ℕ → ℕ) (before after : List Job)
    → (mark_pass clock before after).1 ≡ false
    → ((mark_pass clock before after).0 ≡ before ++ after)
      × All (IsUnblocked (before ++ after)) after
unfolding mark_pass
mark_pass-stuck clock before [] e = (sym (append-nil before), tt)
mark_pass-stuck clock before (job ∷ after) e =
    let now = clock (length before) in
    let jobs = before ++ job ∷ after in
    let (same, settled) = mark_job-stuck now jobs job (ground arith) in
    let same_before : before ++ (mark_job now jobs job).0 ∷ [] ≡ before ++ job ∷ [] =
      ap (λ j. before ++ j ∷ []) same in
    let (same_rest, rest) = mark_pass-stuck clock (before ++ job ∷ []) after (ground arith) in
    let joined : (before ++ job ∷ []) ++ after ≡ jobs = append_assoc before (job ∷ []) after in
    (
      ap (λ bs. (mark_pass clock bs after).0) same_before ∙ same_rest ∙ joined,
      (settled, rw joined at rest),
    )

mark_pass-waiting :
    (clock : ℕ → ℕ) (before after : List Job)
    → waiting (mark_pass clock before after).0 + (if (mark_pass clock before after).1 then 1 else 0)
      ≤ waiting (before ++ after)
unfolding mark_pass waiting
mark_pass-waiting clock before [] = rw append-nil (omega arith)
mark_pass-waiting clock before (job ∷ after) =
    let now = clock (length before) in
    let job' = (mark_job now (before ++ job ∷ after) job).0 in
    let rest = mark_pass-waiting clock (before ++ job' ∷ []) after in
    let here = mark_job-weight now (before ++ job ∷ after) job in
    let s1 = waiting-append (before ++ job' ∷ []) after in
    let s2 = waiting-append before (job' ∷ []) in
    let s3 = waiting-append before (job ∷ after) in
    let s4 : waiting (before ++ job ∷ after) ≡ waiting before + (weight job + waiting after) = s3 in
    let s5 : waiting (before ++ job' ∷ []) ≡ waiting before + (weight job' + 0) = s2 in ground arith

mark_loop-IsUnblocked :
    (fuel pass : ℕ) (clock : ℕ → ℕ → ℕ) (jobs : List Job)
    → waiting jobs < fuel
    → All (IsUnblocked (mark_loop fuel pass clock jobs).0) (mark_loop fuel pass clock jobs).0
unfolding mark_loop
mark_loop-IsUnblocked zero pass clock jobs h = absurd (omega arith)
mark_loop-IsUnblocked (suc fuel) pass clock jobs h =
    let jobs' = (mark_pass (clock pass) [] jobs).0 in
    elim (Bool-cases (mark_pass (clock pass) [] jobs).1) [
      | inl more ↦
          let less = mark_pass-waiting (clock pass) [] jobs in
          rw more (mark_loop-IsUnblocked fuel (suc pass) clock jobs' (ground arith))
      | inr stuck ↦
          let (same, settled) = mark_pass-stuck (clock pass) [] jobs stuck in
          rw (stuck, same) settled
    ]

-- After the loop a further pass would find nothing to skip.
pub mark_dead_dependents-IsUnblocked :
    (clock : ℕ → ℕ → ℕ) (jobs : List Job)
    → All (IsUnblocked (mark_dead_dependents clock jobs).0) (mark_dead_dependents clock jobs).0
unfolding mark_dead_dependents
mark_dead_dependents-IsUnblocked clock jobs =
    mark_loop-IsUnblocked (suc (length jobs)) 0 clock jobs (omega (arith, waiting-length jobs))

-- The last job of the list that has the id has neither failed nor been skipped.
abbrev pub IsOpen : List Job → Text → Type 0
IsOpen jobs dep = (u : Job) × IsLast jobs dep u × (u.status ≢ failed) × (u.status ≢ skipped)

-- The job does not wait, or for such jobs only.
abbrev pub IsSettled : List Job → Job → Type 0
IsSettled jobs job = job.status ≡ pending → All (IsOpen jobs) job.depends_on

blocker-IsOpen :
    (jobs : List Job) (deps : List Text) → blocker jobs deps ≡ none → All (IsOpen jobs) deps
unfolding blocker is_dead
blocker-IsOpen jobs [] e = tt
blocker-IsOpen jobs (dep ∷ deps) e = elim (Option-cases (by_id jobs dep)) [
  | inl unknown ↦ absurd (ground arith)
  | inr (u, found) ↦ elim (Bool-cases (is_dead u.status)) [
    | inl dead ↦ absurd (ground arith)
    | inr lives ↦ (
      (u, by_id-IsLast jobs dep u found, λ s. absurd (ground arith), λ s. absurd (ground arith)),
      blocker-IsOpen jobs deps (rw (blocker, found, lives) at e),
    )
  ]
]

-- After the loop, whose fuel is one pass more than there are jobs, every dependency of a pending job is
-- the id of a job of the list, and the last job with this id is neither failed nor skipped.
pub mark_dead_dependents-IsSettled :
    (clock : ℕ → ℕ → ℕ) (jobs : List Job)
    → All (IsSettled (mark_dead_dependents clock jobs).0) (mark_dead_dependents clock jobs).0
mark_dead_dependents-IsSettled clock jobs =
    let after = (mark_dead_dependents clock jobs).0 in
    All-imp (IsUnblocked after) (IsSettled after)
      (λ job free waits. blocker-IsOpen after job.depends_on (free waits)) after
      (mark_dead_dependents-IsUnblocked clock jobs)
