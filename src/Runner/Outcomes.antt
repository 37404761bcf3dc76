-- ===== src/Runner/Outcomes.antt =====
-- What `reap` of nodepilot/runner.py makes of an exit status.
use nodepilot.Common.{◌≡◌, ◌↔◌, ◌⊎◌, Bool, true, false, Option, none, some, arith, ℤ, pos, negsuc}
use nodepilot.Common.Text.{codes}
use nodepilot.Config.{done, failed}
use nodepilot.Runner.{classify}

-- A job counts as done exactly when its exit code is 0, or is unknown and the kernel log names no
-- OOM kill; it counts as killed for lack of memory exactly when the log names an OOM kill and the
-- exit code is 137 or unknown; and every job is done or failed.
pub classify_lem :
    (hint : Bool) (code : Option ℤ)
    → (((classify hint code).status ≡ done)
        ↔ ((code ≡ some (pos 0)) ⊎ (code ≡ none) × (hint ≡ false)))
      × (((classify hint code).reason ≡ codes "oom_killed")
          ↔ ((hint ≡ true) × ((code ≡ none) ⊎ (code ≡ some (pos 137)))))
      × (((classify hint code).status ≡ done) ⊎ ((classify hint code).status ≡ failed))
unfolding classify
classify_lem hint none = ground arith
classify_lem hint (some (pos n)) = ground arith
classify_lem hint (some (negsuc n)) = ground arith
