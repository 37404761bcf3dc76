-- ===== src/Cli/Shown.antt =====
-- The commands of nodepilot/cli.py, one after the other: what `status` shows of a run.
use nodepilot.Common.{
  ℕ, ◌≡◌, refl, sym, ap, ◌∙◌, ◌⊎◌, inl, inr, Bool, List, [], none, some, arith, ok, >>=-eq-ok,
  Option-cases,
}
use nodepilot.Common.Text.{Text}
use nodepilot.Config.{Job, Config}
use nodepilot.Numa.CpuList.{parse_cpu_list}
use nodepilot.Queue.{load_queue}
use nodepilot.StateFile.{Disk}
use nodepilot.StateFile.Atomic.{ReadsBack, AllCanonical}
use nodepilot.Orchestrator.{Setup, State}
use nodepilot.Orchestrator.Run.{Run, run}
use nodepilot.Orchestrator.Saved.{run-IsStored}
use nodepilot.Orchestrator.Startup.{
  Start, init, init_with, check_runner, jobs_of, from_loaded, from_queue,
}
use nodepilot.Orchestrator.Startup.Resume.{jobs_of-save_state}
use nodepilot.Cli.{
  Exit, run_queue, show_status, main, run_with, cmd_status, stored, fresh_run, table,
}

module _ (start : Start) where
  -- What an orchestrator is built from, it has.
  init-eq :
      (config : Config) (jobs : List Job) (setup : Setup) (st : State)
      → init start config jobs ≡ ok (setup, st)
      → (setup.config ≡ config) × (st.jobs ≡ jobs)
  unfolding init
  init-eq config jobs setup st e =
      let (_, checked, e') = >>=-eq-ok (check_runner start config) _ e in
      let (reserved, parsed, e'') = >>=-eq-ok (parse_cpu_list config.reserved_cores) _ e' in
      (ground arith, ground arith)

  -- A start that succeeds has found the jobs of the state file or of the queue.
  from_queue-jobs_of :
      (disk : Disk) (queue : Text) (config : Config) (queue_jobs : List Job) (setup : Setup)
      (st : State)
      → load_queue start.loader queue ≡ ok (some (config, queue_jobs))
      → from_queue start disk queue ≡ ok (some (setup, st))
      → (setup.config ≡ config) × (jobs_of start disk config queue_jobs ≡ ok (some st.jobs))
  unfolding from_queue from_loaded init_with
  from_queue-jobs_of disk queue config queue_jobs setup st loaded e =
      let (jobs, found, e') = >>=-eq-ok (jobs_of start disk config queue_jobs) _ (rw loaded at e) in
      elim (Option-cases jobs) [
        | inl nothing ↦ absurd (ground arith)
        | inr (js, some_lem) ↦
            let (pair, built, e'') = >>=-eq-ok (init start config js) _ (rw some_lem at e') in
            let same : pair ≡ (setup, st) = ground arith in
            let (config_lem, jobs_lem) = init-eq config js setup st (built ∙ ap ok same) in
            (config_lem, found ∙ ap ok (some_lem ∙ ap some (sym jobs_lem)))
      ]

  cmd_status-jobs_of :
      (saved_at : ℕ) (disk : Disk) (queue : Text) (config : Config) (queue_jobs jobs : List Job)
      → load_queue start.loader queue ≡ ok (some (config, queue_jobs))
      → jobs_of start disk config queue_jobs ≡ ok (some jobs)
      → cmd_status start saved_at disk queue
        ≡ ok (some (record { code = 0; out = table start.format_g jobs; disk = disk }))
  unfolding cmd_status
  cmd_status-jobs_of saved_at disk queue config queue_jobs jobs loaded found =
      rw (loaded, found) refl

  -- The disk after a run has its jobs, saved or as they were.
  jobs_of-stored :
      (saved_at : ℕ) (disk : Disk) (config : Config) (queue_jobs begun : List Job) (r : Run)
      → jobs_of start disk config queue_jobs ≡ ok (some begun)
      → (r.saved ≡ some r.state.jobs) ⊎ (r.saved ≡ none) × (r.state.jobs ≡ begun)
      → ReadsBack start.json saved_at r.state.jobs
      → AllCanonical r.state.jobs
      → jobs_of start (stored start saved_at config r disk) config queue_jobs
        ≡ ok (some r.state.jobs)
  unfolding stored
  jobs_of-stored saved_at disk config queue_jobs begun r found (inl saved) back canonical =
      rw saved
        (jobs_of-save_state start saved_at disk config queue_jobs r.state.jobs back canonical)
  jobs_of-stored saved_at disk config queue_jobs begun r found (inr (nothing, kept)) back
        canonical =
      rw nothing (found ∙ ap (λ js. ok (some js)) (sym kept))

  -- The command `run` exits with 0 when its run returns, and `status`, called then, prints the table of
  -- the jobs that the run ended with: if both load the same queue, and under the conditions of the round
  -- trip of the state file.
  pub main-run_queue :
      (saved_at later : ℕ) (disk : Disk) (queue : Text) (config : Config) (queue_jobs : List Job)
      (setup : Setup) (st : State) (max_ticks : ℕ) (r : Run) (ended : Bool)
      → load_queue start.loader queue ≡ ok (some (config, queue_jobs))
      → from_queue start disk queue ≡ ok (some (setup, st))
      → run setup max_ticks (fresh_run st) ≡ ok (r, ended)
      → ReadsBack start.json saved_at r.state.jobs
      → AllCanonical r.state.jobs
      → (exit : Exit) × (main start saved_at disk (run_queue queue max_ticks) ≡ ok (some exit))
        × (exit.code ≡ 0)
        × (main start later exit.disk (show_status queue)
            ≡ ok (
                some
                  (record { code = 0; out = table start.format_g r.state.jobs; disk = exit.disk })))
  unfolding main run_with
  main-run_queue saved_at later disk queue config queue_jobs setup st max_ticks r ended loaded begun
        returned back canonical =
      let (config_lem, found) =
        from_queue-jobs_of disk queue config queue_jobs setup st loaded begun in
      let kept =
        run-IsStored setup st.jobs max_ticks (fresh_run st) r ended (inr (refl, refl)) returned in
      let exit : Exit = record {
        code = 0;
        out = [];
        disk = stored start saved_at setup.config r disk;
      } in
      let shown : jobs_of start exit.disk config queue_jobs ≡ ok (some r.state.jobs) =
        rw config_lem
          (jobs_of-stored saved_at disk config queue_jobs st.jobs r found kept back canonical) in
      (
        exit,
        rw (begun, returned) refl,
        refl,
        cmd_status-jobs_of later exit.disk queue config queue_jobs r.state.jobs loaded shown,
      )
