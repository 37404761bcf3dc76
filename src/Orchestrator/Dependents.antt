-- ===== src/Orchestrator/Dependents.antt =====
-- _mark_dead_dependents: pending jobs that wait for what will never be done are skipped.
pub mod Lookup
use nodepilot.Common.{
  ℕ, zero, suc, Bool, true, false, ◌||◌, List, [], ◌∷◌, ◌++◌, Option, none, some, if◌then◌else◌,
  length,
}
use nodepilot.Common.Text.{Text, codes, text_eq}
use nodepilot.Config.{Job, skipped, is_pending, is_dead}

-- `{j.id: j for j in self.jobs}.get(id)`: of several jobs with the id, the last.
unfoldable pub by_id : List Job → Text → Option Job
by_id [] id = none
by_id (j ∷ js) id = elim (by_id js id) [
  | some u ↦ some u
  | none ↦ if text_eq j.id id then some j else none
]

-- The inner loop: the first dependency that blocks, as it is printed.
unfoldable pub blocker : List Job → List Text → Option Text
blocker jobs [] = none
blocker jobs (dep ∷ deps) = elim (by_id jobs dep) [
  | none ↦ some (dep ++ codes " (unknown)")
  | some upstream ↦ if is_dead upstream.status then some dep else blocker jobs deps
]

abbrev pub skip : ℕ → Text → Job → Job
skip now why job = record job {
  status = skipped;
  failure_reason = codes "dependency_failed: " ++ why;
  end_time = now;
}

-- One round of the `for` loop, on the whole list as it then is.
unfoldable pub mark_job : ℕ → List Job → Job → Job × Bool
mark_job now jobs job =
    if is_pending job.status
    then elim (blocker jobs job.depends_on) [
      | none ↦ (job, false)
      | some why ↦ (skip now why job, true)
    ]
    else (job, false)

-- The `for` loop: the jobs before the loop's position, and those from there on. `clock` is the
-- clock's answer when the job at an index is skipped in this pass.
unfoldable pub mark_pass : (clock : ℕ → ℕ) → List Job → List Job → List Job × Bool
mark_pass clock before [] = (before, false)
mark_pass clock before (job ∷ after) =
    let (job', progressed) = mark_job (clock (length before)) (before ++ job ∷ after) job in
    let (jobs, more) = mark_pass clock (before ++ job' ∷ []) after in (jobs, progressed || more)

-- The `while True` loop, on fuel: each pass that makes progress skips a pending job. `pass` counts
-- the passes for the clock.
unfoldable pub mark_loop : (fuel pass : ℕ) → (clock : ℕ → ℕ → ℕ) → List Job → List Job × Bool
mark_loop zero pass clock jobs = (jobs, false)
mark_loop (suc fuel) pass clock jobs =
    let (jobs', progressed) = mark_pass (clock pass) [] jobs in
    let (jobs'', more) = mark_loop fuel (suc pass) clock jobs' in
    if progressed then (jobs'', true) else (jobs', false)

-- One more pass than there are jobs.
unfoldable pub mark_dead_dependents : (clock : ℕ → ℕ → ℕ) → List Job → List Job × Bool
mark_dead_dependents clock jobs = mark_loop (suc (length jobs)) 0 clock jobs
