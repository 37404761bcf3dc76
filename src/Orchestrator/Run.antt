-- ===== src/Orchestrator/Run.antt =====
-- run, _reconcile_zombies and kill of nodepilot/orchestrator.py, with the state file, which is taken
-- to hold the job list that was saved last.
use nodepilot.Common.{
  ℕ, zero, suc, Bool, true, false, not, ◌||◌, ◌&&◌, List, [], ◌∷◌, Option, none, some,
  if◌then◌else◌, Result, ok, ◌>>=◌, any_of,
}
use nodepilot.Common.Text.{Text, codes, text_eq, is_empty}
use nodepilot.Config.{Job, failed, is_pending, is_running}
use nodepilot.Cgroups.{scope_is_active}
use nodepilot.Runner
use nodepilot.Runner.{is_alive}
use nodepilot.Orchestrator.{Setup, Aux, State, look, next}
use nodepilot.Orchestrator.Loop.{tick}

-- The scheduler with its state file: the job list that was saved last.
pub record Run : Type 0 where
  pub state : State
  pub saved : Option (List Job)

-- `save_state(cfg.state_path, self.jobs)`
abbrev pub save : Run → Run
save r = record r { saved = some r.state.jobs }

unfoldable pub is_drained : List Job → Bool
is_drained jobs = not (any_of (λ j. is_pending j.status || is_running j.status) jobs)

-- What a zombie and a killed job have in common.
abbrev pub end_job : Text → ℕ → Job → Job
end_job why now job = record job { status = failed; failure_reason = why; end_time = now }

module _ (setup : Setup) where
  open setup use {config}

  -- One round of the loop of `_reconcile_zombies`; the flag says that the job was a zombie.
  unfoldable pub reconcile_job : Aux → Job → Result (Job × Aux × Bool)
  reconcile_job a job = if not (is_running job.status) then ok (job, a, false) else (do
    alive_proc ← is_alive (look setup a) a.procs job
    let alive_scope =
        not (is_empty config.memory_slice)
        && scope_is_active (look setup (next setup a)) job.id config.memory_slice
    let a' = next setup (next setup a)
    (if alive_proc || alive_scope
        then ok (job, a', false)
        else ok (
          record (end_job (codes "zombie_at_restart") (look setup a').now job) { cpu_list = [] },
          next setup a',
          true,
        )))

  unfoldable pub reconcile_from : Aux → List Job → Result (List Job × Aux × Bool)
  reconcile_from a [] = ok ([], a, false)
  reconcile_from a (job ∷ jobs) = do
    (job', a', zombie) ← reconcile_job a job
    (jobs', a'', more) ← reconcile_from a' jobs
    ok (job' ∷ jobs', a'', zombie || more)

  -- The same, if something changed; what it raises leaves the call.
  unfoldable pub save_if : Bool → Run → Result Run
  save_if changed r =
      if changed then (do _ ← (look setup r.state.aux).write_state; ok (save r)) else ok r

  unfoldable pub reconcile_zombies : Run → Result Run
  reconcile_zombies r = do
    (jobs, a, zombies) ← reconcile_from r.state.aux r.state.jobs
    save_if zombies (record r { state = record { jobs = jobs; aux = a } })

  -- One round of the loop of `run` up to the test for the end.
  unfoldable pub run_tick : Run → Result Run
  run_tick r = do (st, changed) ← tick setup r.state; save_if changed (record r { state = st })

  -- The loop for at most `n` more ticks; the flag says that it ended by a drained queue.
  unfoldable pub run_loop : ℕ → Run → Result (Run × Bool)
  run_loop zero r = ok (r, false)
  run_loop (suc n) r = do
    r' ← run_tick r
    let rest = run_loop n r'
    (if is_drained r'.state.jobs then ok (r', true) else rest)

  -- `run(max_ticks=...)`: at least one tick is made.
  unfoldable pub run : ℕ → Run → Result (Run × Bool)
  run max_ticks r = do
    r' ← reconcile_zombies r
    run_loop (elim max_ticks [ zero ↦ 1 | suc n ↦ suc n ]) r'

  -- The loop of `kill`: the jobs and the handles after it, if the job was running.
  unfoldable pub kill_from : Aux → Text → List Job → Result (Option (List Job × Aux))
  kill_from a job_id [] = ok none
  kill_from a job_id (job ∷ jobs) =
      let here : Result (Option (List Job × Aux)) = (do
        procs ← Runner.kill a.procs job
        ok (
            some (
              end_job (codes "killed_by_user") (look setup a).now job ∷ jobs,
              record a { procs = procs; reads = suc a.reads },
            ))) in
      let there : Result (Option (List Job × Aux)) = (do
        found ← kill_from a job_id jobs
        ok (elim found [ none ↦ none | some (jobs', a') ↦ some (job ∷ jobs', a') ])) in
      if text_eq job.id job_id && is_running job.status then here else there

  unfoldable pub kill : Text → Run → Result (Run × Bool)
  kill job_id r = do
    found ← kill_from r.state.aux job_id r.state.jobs
    elim found [
      | none ↦ ok (r, false)
      | some (jobs, a) ↦ (do
        r' ← save_if true (record r { state = record { jobs = jobs; aux = a } })
        ok (r', true))
    ]
