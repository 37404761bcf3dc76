-- ===== src/Cli/Commands.antt =====
-- The commands of nodepilot/cli.py: what `kill` leaves on the disk.
use nodepilot.Common.{ℕ, ◌≡◌, ap, ◌⊎◌, inl, inr, false, List, none, some, arith, ok, >>=-eq-ok, All}
use nodepilot.Common.Text.{Text}
use nodepilot.Config.{Job}
use nodepilot.StateFile.{Disk, save_state}
use nodepilot.Orchestrator.{Setup, State}
use nodepilot.Orchestrator.Run.{kill}
use nodepilot.Orchestrator.Kills.{is_target, Killed, kill_lem}
use nodepilot.Orchestrator.Startup.{Start, from_queue}
use nodepilot.Cli.{Exit, kill_job, main, kill_with, stored, fresh_run}

module _ (start : Start) (saved_at : ℕ) (disk : Disk) (job_id : Text) where
  -- The command found no such job, or killed one and saved the list.
  abbrev pub KillExit : Setup → State → Exit → Type 0
  KillExit setup st exit =
      (exit.code ≡ 1) × (exit.disk ≡ disk) × All (λ j. is_target job_id j ≡ false) st.jobs
      ⊎ (exit.code ≡ 0)
        × (jobs' : List Job) × Killed job_id st.jobs jobs'
        × (exit.disk ≡ save_state start.json saved_at setup.config.state_path jobs' disk)

  kill_with-KillExit :
      (setup : Setup) (st : State) (exit : Exit)
      → kill_with start saved_at disk job_id (some (setup, st)) ≡ ok (some exit)
      → KillExit setup st exit
  unfolding kill_with stored
  kill_with-KillExit setup st exit e =
      let ((r, killed), called, e') = >>=-eq-ok (kill setup job_id (fresh_run st)) _ e in
      elim (kill_lem setup job_id (fresh_run st) r killed called) [
        | inl (unchanged, same, missing) ↦
            let saved : r.saved ≡ none = ap (λ x. x.saved) same in
            inl (ground arith, ground arith, missing)
        | inr (ended, k, saved) ↦ inr (ground arith, r.state.jobs, k, ground arith)
      ]

  -- The command `kill`, when it returns, exits with 1 and leaves the disk, if no running job has the
  -- id; otherwise it exits with 0, and the state file is the saved list in which the first such job is
  -- failed and every other is as it was.
  pub main-kill_job :
      (queue : Text) (setup : Setup) (st : State) (exit : Exit)
      → from_queue start disk queue ≡ ok (some (setup, st))
      → main start saved_at disk (kill_job queue job_id) ≡ ok (some exit)
      → KillExit setup st exit
  unfolding main
  main-kill_job queue setup st exit begun e = kill_with-KillExit setup st exit (rw begun at e)
