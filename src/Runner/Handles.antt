-- ===== src/Runner/Handles.antt =====
-- A job that Runner of nodepilot/runner.py has started is followed by its own process or session.
use nodepilot.Common.{ℕ, ◌≡◌, ◌≢◌, ◌⊎◌, List, ◌++◌, Option, none, some, ok, ℤ, pos}
use nodepilot.Common.Text.{Text, codes}
use nodepilot.Common.Decimal.{decimal}
use nodepilot.Config.{Job, Config}
use nodepilot.Host.{Host}
use nodepilot.Runner.{Procs, is_alive, returncode, is_none, tmux_alive, normalise}

-- The exit status of a handle, with a signal's death as 128 + signo.
abbrev pub normalised : Option ℤ → Option ℤ
normalised none = none
normalised (some rc) = some (normalise rc)

module _ (h : Host) (job : Job) where
  abbrev with_pid : ℕ → Job
  with_pid pid = record job { session = codes "pid:" ++ decimal pid }

  abbrev with_tmux : Text → Job
  with_tmux name = record job { session = codes "tmux:" ++ name }

-- What is seen of the job after its start, at any later observation `h'`.
abbrev pub IsFollowed :
    (cfg : Config) → Host → Procs → Job → List Text → Host → Procs → Job → Type 0
IsFollowed cfg h procs job argv h' procs' job' =
    (cfg.runner ≢ codes "tmux")
      × ((pid : ℕ) × (h.popen argv ≡ ok pid)
          × (is_alive h' procs' job' ≡ ok (is_none (h'.poll (pos pid))))
          × (returncode h' procs' job' ≡ ok (normalised (h'.poll (pos pid)))))
    ⊎ (cfg.runner ≡ codes "tmux")
      × (h.new_session (codes "nodepilot_" ++ job.id) argv ≡ ok tt)
      × (procs' ≡ procs)
      × (is_alive h' procs' job' ≡ ok (tmux_alive h' (codes "nodepilot_" ++ job.id)))
      × (returncode h' procs' job' ≡ ok none)
