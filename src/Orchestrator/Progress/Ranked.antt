-- ===== src/Orchestrator/Progress/Ranked.antt =====
-- Dependencies without circles in nodepilot/orchestrator.py: where every job that waits lacks a
-- dependency, though nothing runs and nothing blocks it, no job waits.
use nodepilot.Common.{
  All-at, All-get_elem?, ℕ, zero, suc, ◌<◌, ◌≡◌, ◌≢◌, refl, inl, inr, true, false, List, [], ◌∷◌,
  none, some, arith, Bool-cases, Option-cases, All, All-imp, All-and, get_elem?,
}
use nodepilot.Common.Text.{Text}
use nodepilot.Config.{
  Job, JobStatus, pending, running, done, failed, skipped, dormant, other, is_done, is_dead,
}
use nodepilot.Orchestrator.{Setup, deps_satisfied}
use nodepilot.Orchestrator.Dependents.{by_id, blocker}
use nodepilot.Orchestrator.Dependents.Lookup.{by_id-All}
use nodepilot.Orchestrator.Settled.{IsUnblocked}
use nodepilot.Orchestrator.Progress.{IsUsual}
use nodepilot.Orchestrator.Progress.Reaped.{NoneRuns}
use nodepilot.Orchestrator.Progress.Stuck.{Lacks}

-- A status that is neither of a job that waits or runs, nor of one that is dead.
is_done-usual :
    (s : JobStatus) → IsUsual s → s ≢ running → s ≢ pending → is_dead s ≡ false → is_done s ≡ true
unfolding is_done is_dead
is_done-usual pending u r p d = absurd (p refl)
is_done-usual running u r p d = absurd (r refl)
is_done-usual done u r p d = refl
is_done-usual failed u r p d = absurd (ground arith)
is_done-usual skipped u r p d = absurd (ground arith)
is_done-usual dormant u r p d = absurd u
is_done-usual (other s) u r p d = absurd u

module _ (setup : Setup) (rank : Text → ℕ) (jobs : List Job) where
  -- Dependencies that do not block, and of which those found are dead or done, are satisfied.
  deps_satisfied-free :
      (deps : List Text)
      → blocker jobs deps ≡ none
      → All
          (λ dep.
            (u : Job)
            → by_id jobs dep ≡ some u
            → is_dead u.status ≡ false
            → is_done u.status ≡ true)
          deps
      → deps_satisfied setup jobs deps ≡ true
  unfolding deps_satisfied blocker
  deps_satisfied-free [] free h = refl
  deps_satisfied-free (dep ∷ deps) free h = elim (Option-cases (by_id jobs dep)) [
    | inl missing ↦ absurd (ground arith)
    | inr (u, found) ↦ elim (Bool-cases (is_dead u.status)) [
      | inl dead ↦ absurd (ground arith)
      | inr lives ↦
          let is_done_lem = h.0 u found lives in
          let rest = deps_satisfied-free deps (ground arith) h.1 in ground arith
    ]
  ]

  module _ (usual : All (λ j. IsUsual j.status) jobs) (idle : NoneRuns jobs)
      (settled : All (IsUnblocked jobs) jobs)
      (ranked : All (λ j. All (λ dep. rank dep < rank j.id) j.depends_on) jobs)
      (stuck : (i : ℕ) (j : Job)
        → get_elem? jobs i ≡ some j
        → j.status ≡ pending
        → Lacks setup jobs i) where
    none_below : (n : ℕ) → All (λ j. rank j.id < n → j.status ≢ pending) jobs
    none_below zero = All-at _ jobs (λ i j e low. absurd (omega (arith, low)))
    none_below (suc n) = All-at _ jobs (λ i j e low waits.
        let lesser = none_below n in
        let (j', e', lacks) = stuck i j e waits in
        let same : j' ≡ j = ground arith in
        let free = All-get_elem? (IsUnblocked jobs) jobs settled i j e waits in
        let lower = All-get_elem? _ jobs ranked i j e in
        let ready = deps_satisfied-free j.depends_on free (
          All-imp _ _
            (λ dep below u found lives.
              let ((u_usual, (u_idle, u_waits)), id) =
                by_id-All
                  (λ u.
                    IsUsual u.status
                    × ((u.status ≢ running) × (rank u.id < n → u.status ≢ pending)))
                  jobs dep u (All-and _ _ jobs usual (All-and _ _ jobs idle lesser)) found in
              let less : rank u.id < n = rw id (omega (arith, below, low)) in
              is_done-usual u.status u_usual u_idle (u_waits less) lives)
            j.depends_on lower) in
        let lacks' : deps_satisfied setup jobs j.depends_on ≡ false = rw same at lacks in
        absurd (ground arith))

    pub none_waits : All (λ j. j.status ≢ pending) jobs
    none_waits =
        All-at _ jobs
          (λ i j e. All-get_elem? _ jobs (none_below (suc (rank j.id))) i j e (omega arith))
