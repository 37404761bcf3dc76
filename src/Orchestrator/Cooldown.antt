-- ===== src/Orchestrator/Cooldown.antt =====
-- The cooldown after an OOM kill, in nodepilot/orchestrator.py and nodepilot/admission.py.
use nodepilot.Common.{suc, ◌+◌, ◌<◌, ◌≡◌, true, false, List, arith, ok, >>=-eq-ok}
use nodepilot.Common.Text.{codes, text_eq, text_eq_iff}
use nodepilot.Config.{Job, failed, is_done}
use nodepilot.Host.{Host}
use nodepilot.Runner.{reap}
use nodepilot.Admission.{can_launch, in_cooldown}
use nodepilot.Orchestrator.{Setup, Aux, look, seconds, finish}

module _ (setup : Setup) where
  -- When a job ends as killed for lack of memory, no job is let through by an admission check that
  -- reads a time before the clock of the third observation of its ending plus the cooldown.
  pub finish-can_launch :
      (a a' : Aux) (job job' : Job)
      → finish setup a job ≡ ok (job', a')
      → job'.status ≡ failed
      → job'.failure_reason ≡ codes "oom_killed"
      → (h : Host) (other : Job) (jobs : List Job)
      → h.now < (setup.world (suc (suc a.reads))).now + seconds setup.config.oom_cooldown_seconds
      → (can_launch setup.config a'.cooldown_until h other jobs).ok ≡ false
  unfolding finish can_launch in_cooldown
  finish-can_launch a a' job job' e dead why h other jobs soon =
      let ((outcome, procs), reaped, e') = >>=-eq-ok (reap (look setup a) a.procs job) _ e in
      let same : outcome.reason ≡ codes "oom_killed" = ground arith in
      let named : text_eq outcome.reason (codes "oom_killed") ≡ true =
        (text_eq_iff outcome.reason (codes "oom_killed")).1 same in
      let status : outcome.status ≡ failed = ground arith in
      let armed : a'.cooldown_until
          ≡ (setup.world (suc (suc a.reads))).now + seconds setup.config.oom_cooldown_seconds =
        unfold is_done in ground arith in
      ground arith
