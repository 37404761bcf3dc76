-- ===== src/Orchestrator/Report/Totals.antt =====
-- What the counts add up to that `run` of nodepilot/orchestrator.py logs at its end.
use nodepilot.Common.{
  ℕ, ◌+◌, ◌≡◌, ◌≢◌, refl, ◌∙◌, true, List, [], ◌∷◌, if◌then◌else◌, length, All, All2, All2-All,
  arith, ok,
}
use nodepilot.Common.Text.{Text, codes, text_eq}
use nodepilot.Config.{Job, JobStatus, pending, running, done, failed, skipped, dormant, other}
use nodepilot.Queue.Dict.{status_text}
use nodepilot.Orchestrator.{Setup}
use nodepilot.Orchestrator.Course.{
  Follows, Course, stay, go, Edge, begin, not_begun, pass_over, succeed, break_off, run-Follows,
}
use nodepilot.Orchestrator.Drained.{IsOver, run-IsOver}
use nodepilot.Orchestrator.Run.{Run, run}
use nodepilot.Orchestrator.Progress.{IsUsual}
use nodepilot.Orchestrator.Report.{count}

share : Text → JobStatus → ℕ
share status s = if text_eq (status_text s) status then 1 else 0

count-cons :
    (status : Text) (j : Job) (js : List Job)
    → count status (j ∷ js) ≡ share status j.status + count status js
unfolding count share
count-cons status j js = ground arith

-- A usual status of a job that is over is one of three.
shares :
    (s : JobStatus)
    → IsUsual s
    → s ≢ pending
    → s ≢ running
    → share (codes "done") s + share (codes "failed") s + share (codes "skipped") s ≡ 1
unfolding share text_eq status_text
shares pending u p r = absurd (p refl)
shares running u p r = absurd (r refl)
shares done u p r = refl
shares failed u p r = refl
shares skipped u p r = refl
shares dormant u p r = absurd u
shares (other s) u p r = absurd u

count-IsOver :
    (jobs : List Job)
    → All IsOver jobs
    → All (λ j. IsUsual j.status) jobs
    → count (codes "done") jobs + count (codes "failed") jobs + count (codes "skipped") jobs
      ≡ length jobs
unfolding count
count-IsOver [] over usual = omega arith
count-IsOver (j ∷ js) over usual = omega (
  arith,
  count-cons (codes "done") j js,
  count-cons (codes "failed") j js,
  count-cons (codes "skipped") j js,
  shares j.status usual.0 over.0.0 over.0.1,
  count-IsOver js over.1 usual.1,
)

Edge-IsUsual : {s t : JobStatus} → Edge s t → IsUsual t
Edge-IsUsual begin = tt
Edge-IsUsual not_begun = tt
Edge-IsUsual pass_over = tt
Edge-IsUsual succeed = tt
Edge-IsUsual break_off = tt

Course-IsUsual : {s t : JobStatus} → Course s t → IsUsual s → IsUsual t
Course-IsUsual stay u = u
Course-IsUsual (go e c) u = Course-IsUsual c (Edge-IsUsual e)

length-Follows : (js js' : List Job) → All2 Follows js js' → length js' ≡ length js
length-Follows [] [] h = refl
length-Follows [] (j' ∷ js') h = absurd h
length-Follows (j ∷ js) [] h = absurd h
length-Follows (j ∷ js) (j' ∷ js') h = omega (arith, length-Follows js js' h.1)

-- After a run that ends by a drained queue, from jobs with usual statuses, the numbers of the done and
-- the failed jobs, which the run logs, and the number of the skipped ones add up to the number of jobs
-- at its begin: no job is lost or counted twice.
pub run-count :
    (setup : Setup) (max_ticks : ℕ) (r r' : Run)
    → All (λ j. IsUsual j.status) r.state.jobs
    → run setup max_ticks r ≡ ok (r', true)
    → count (codes "done") r'.state.jobs
        + count (codes "failed") r'.state.jobs
        + count (codes "skipped") r'.state.jobs
      ≡ length r.state.jobs
run-count setup max_ticks r r' usual e =
    let follows = run-Follows setup max_ticks r r' true e in
    let usual' =
      All2-All (λ j. IsUsual j.status) (λ j. IsUsual j.status) Follows
        (λ j j' u f. Course-IsUsual f.1 u) r.state.jobs r'.state.jobs usual follows in
    count-IsOver r'.state.jobs (run-IsOver setup max_ticks r r' e) usual'
    ∙ length-Follows r.state.jobs r'.state.jobs follows
