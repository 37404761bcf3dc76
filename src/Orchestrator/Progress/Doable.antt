-- ===== src/Orchestrator/Progress/Doable.antt =====
-- The jobs that stay doable through the passes of nodepilot/orchestrator.py.
use nodepilot.Common.{ℕ, ◌≡◌, ◌≢◌, ◌⊎◌, inl, inr, Bool, List, arith, ok, All, All2-All}
use nodepilot.Common.Text.{Text}
use nodepilot.Config.{Job, JobStatus, pending, running, done, failed, skipped}
use nodepilot.Orchestrator.{Setup, State}
use nodepilot.Orchestrator.Lifecycle.{SameJob, Moves}
use nodepilot.Orchestrator.Lifecycle.Ticks.{tick-Moves}
use nodepilot.Orchestrator.Loop.{tick}
use nodepilot.Orchestrator.Safety.Sums.{Stops, AllStop}
use nodepilot.Orchestrator.Progress.{IsUsual, IsDoable}

-- The job stays, or takes a usual status in which it does not wait.
abbrev Settles : Job → Job → Type 0
Settles j j' = (j' ≡ j) ⊎ SameJob j j' × IsUsual j'.status × (j'.status ≢ pending)

IsUsual-after :
    (s : JobStatus)
    → (s ≡ done) ⊎ (s ≡ failed) ⊎ (s ≡ skipped) ⊎ (s ≡ running)
    → IsUsual s × (s ≢ pending)
IsUsual-after s (inl e) = rw e (tt, λ p. cc)
IsUsual-after s (inr (inl e)) = rw e (tt, λ p. cc)
IsUsual-after s (inr (inr (inl e))) = rw e (tt, λ p. cc)
IsUsual-after s (inr (inr (inr e))) = rw e (tt, λ p. cc)

Stops-Settles : (j j' : Job) → Stops j j' → Settles j j'
Stops-Settles j j' (inl same) = inl same
Stops-Settles j j' (inr (id, deps, how)) =
    let (usual, over) = IsUsual-after j'.status (ground arith) in inr ((id, deps), usual, over)

Moves-Settles : (jobs : List Job) (j j' : Job) → Moves jobs j j' → Settles j j'
Moves-Settles jobs j j' (inl same) = inl same
Moves-Settles jobs j j' (inr (same, how)) =
    let status : (j'.status ≡ done)
        ⊎ (j'.status ≡ failed)
        ⊎ (j'.status ≡ skipped)
        ⊎ (j'.status ≡ running) =
      elim how [
        | inl (_, inl e) ↦ inl e
        | inl (_, inr e) ↦ inr (inl e)
        | inr (_, inl e) ↦ inr (inr (inl e))
        | inr (_, inr (inl e, _)) ↦ inr (inl e)
        | inr (_, inr (inr e, _)) ↦ inr (inr (inr e))
      ] in
    let (usual, over) = IsUsual-after j'.status status in inr (same, usual, over)

module _ (setup : Setup) (rank : Text → ℕ) where
  Settles-IsDoable : (j j' : Job) → IsDoable setup rank j → Settles j j' → IsDoable setup rank j'
  Settles-IsDoable j j' h (inl same) = rw same h
  Settles-IsDoable j j' h (inr ((id, deps), usual, over)) = record {
    usual = usual;
    feasible = λ waits. absurd (over waits);
    ranked = rw (id, deps) h.ranked;
  }

  abbrev pub AllDoable : List Job → Type 0
  AllDoable = All (IsDoable setup rank)

  pub AllStop-AllDoable : (js js' : List Job) → AllStop js js' → AllDoable js → AllDoable js'
  AllStop-AllDoable js js' h k =
      All2-All _ _ Stops (λ j j' d s. Settles-IsDoable j j' d (Stops-Settles j j' s)) js js' k h

  pub tick-AllDoable :
      (st st' : State) (changed : Bool)
      → AllDoable st.jobs
      → tick setup st ≡ ok (st', changed)
      → AllDoable st'.jobs
  tick-AllDoable st st' changed k e =
      All2-All _ _ (Moves st'.jobs)
        (λ j j' d s. Settles-IsDoable j j' d (Moves-Settles st'.jobs j j' s)) st.jobs st'.jobs k
        (tick-Moves setup st st' changed e)
