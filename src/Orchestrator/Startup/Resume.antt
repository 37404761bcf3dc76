-- ===== src/Orchestrator/Startup/Resume.antt =====
-- from_queue of nodepilot/orchestrator.py after a save, after a run and after a reset.
use nodepilot.Common.{
  ℕ, ◌≡◌, refl, sym, ap, ◌∙◌, inl, inr, Bool, true, false, List, some, ok, ◌>>=◌, Bool-cases,
}
use nodepilot.Common.Text.{Text}
use nodepilot.Config.{Job, Config}
use nodepilot.Queue.{load_queue}
use nodepilot.StateFile.{Disk, save_state, load_state, state_exists, is_there, unlink}
use nodepilot.StateFile.Atomic.{
  ReadsBack, AllCanonical, new_text, load_state-save_state, text_eq_refl,
}
use nodepilot.Orchestrator.{Setup}
use nodepilot.Orchestrator.Run.{Run, run}
use nodepilot.Orchestrator.Saved.{IsSaved, run-IsSaved}
use nodepilot.Orchestrator.Startup.{Start, init_with, jobs_of, from_loaded, from_queue, reset}

reset_lem :
    (config : Config) (disk : Disk) → state_exists (reset config disk) config.state_path ≡ false
unfolding reset state_exists is_there unlink
reset_lem config disk = elim (Bool-cases (state_exists disk config.state_path)) [
  | inl there ↦ rw there (rw (text_eq_refl config.state_path) refl)
  | inr missing ↦ rw missing missing
]

module _ (start : Start) (disk : Disk) (config : Config) (queue_jobs : List Job) where
  jobs_of-there :
      state_exists disk config.state_path ≡ true
      → jobs_of start disk config queue_jobs ≡ load_state start.json disk config.state_path
  unfolding jobs_of
  jobs_of-there there = rw there refl

  jobs_of-missing :
      state_exists disk config.state_path ≡ false
      → jobs_of start disk config queue_jobs ≡ ok (some queue_jobs)
  unfolding jobs_of
  jobs_of-missing missing = rw missing refl

module _ (start : Start) where
  -- The state file after a save holds the saved jobs.
  pub jobs_of-save_state :
      (saved_at : ℕ) (disk : Disk) (config : Config) (queue_jobs jobs : List Job)
      → ReadsBack start.json saved_at jobs
      → AllCanonical jobs
      → jobs_of start (save_state start.json saved_at config.state_path jobs disk) config queue_jobs
        ≡ ok (some jobs)
  unfolding is_there
  jobs_of-save_state saved_at disk config queue_jobs jobs back canonical =
      let after = save_state start.json saved_at config.state_path jobs disk in
      let there : state_exists after config.state_path ≡ true =
        unfold state_exists in
        ap is_there (new_text start.json saved_at config.state_path jobs disk) in
      jobs_of-there start after config queue_jobs there
      ∙ load_state-save_state start.json saved_at config.state_path jobs disk back canonical

module _ (start : Start) (path : Text) (config : Config) (queue_jobs : List Job)
    (loaded : load_queue start.loader path ≡ ok (some (config, queue_jobs))) where
  from_queue-loaded :
      (disk : Disk)
      → from_queue start disk path
        ≡ (jobs_of start disk config queue_jobs >>= init_with start config)
  unfolding from_queue from_loaded
  from_queue-loaded disk = rw loaded refl

  -- A start after a save resumes with the jobs that were saved, and not with those of the queue.
  pub from_queue-save_state :
      (now : ℕ) (jobs : List Job) (disk : Disk)
      → ReadsBack start.json now jobs
      → AllCanonical jobs
      → from_queue start (save_state start.json now config.state_path jobs disk) path
        ≡ init_with start config (some jobs)
  unfolding is_there
  from_queue-save_state now jobs disk back canonical =
      from_queue-loaded (save_state start.json now config.state_path jobs disk)
      ∙ ap (λ o. o >>= init_with start config)
          (jobs_of-save_state start now disk config queue_jobs jobs back canonical)

  -- After a run that began with its jobs saved, and returned: a start from a disk that holds the list
  -- that was saved last resumes with the jobs that the run ended with.
  pub from_queue-run :
      (setup : Setup) (max_ticks : ℕ) (r r' : Run) (ended : Bool) (now : ℕ) (saved : List Job)
      (disk : Disk)
      → IsSaved r
      → run setup max_ticks r ≡ ok (r', ended)
      → r'.saved ≡ some saved
      → ReadsBack start.json now saved
      → AllCanonical saved
      → from_queue start (save_state start.json now config.state_path saved disk) path
        ≡ init_with start config (some r'.state.jobs)
  from_queue-run setup max_ticks r r' ended now saved disk begun returned last back canonical =
      from_queue-save_state now saved disk back canonical
      ∙ ap (init_with start config)
          (sym last ∙ run-IsSaved setup max_ticks r r' ended begun returned)

  -- A start after a reset begins with the jobs of the queue, whatever was saved before.
  pub from_queue-reset :
      (disk : Disk)
      → from_queue start (reset config disk) path ≡ init_with start config (some queue_jobs)
  from_queue-reset disk =
      from_queue-loaded (reset config disk)
      ∙ ap (λ o. o >>= init_with start config)
          (jobs_of-missing start (reset config disk) config queue_jobs (reset_lem config disk))
