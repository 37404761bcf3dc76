-- ===== src/Orchestrator/Course.antt =====
-- The life of a job as an abstract state machine, which a run of nodepilot/orchestrator.py refines.
use nodepilot.Common.{
  ℕ, ◌≡◌, refl, sym, ◌∙◌, subst, inl, inr, Bool, List, ok, All2, All2-refl, All2-trans, All2-imp,
}
use nodepilot.Config.{Job, JobStatus, pending, running, done, failed, skipped}
use nodepilot.Orchestrator.{Setup, Aux, State}
use nodepilot.Orchestrator.Induction.{run-keeps_jobs}
use nodepilot.Orchestrator.Lifecycle.{SameJob, Starts, Moves}
use nodepilot.Orchestrator.Lifecycle.Ticks.{tick-Moves}
use nodepilot.Orchestrator.Loop.{tick}
use nodepilot.Orchestrator.Run.{Run, reconcile_from, run}
use nodepilot.Orchestrator.Safety.Sums.{Stops}
use nodepilot.Orchestrator.Safety.Passes.{reconcile_from-AllStop}

-- The steps of the state machine. No step leads out of a terminal status, nor into or out of any
-- status but these five.
pub data Edge : JobStatus → JobStatus → Type 0 where
  begin : Edge pending running
  not_begun : Edge pending failed
  pass_over : Edge pending skipped
  succeed : Edge running done
  break_off : Edge running failed

-- Any number of steps.
pub data Course : JobStatus → JobStatus → Type 0 where
  stay : {s : JobStatus} → Course s s
  go : {s t u : JobStatus} → Edge s t → Course t u → Course s u

Course-trans : {s t u : JobStatus} → Course s t → Course t u → Course s u
Course-trans stay d = d
Course-trans (go e c) d = go e (Course-trans c d)

-- One job at two times: the same id and dependencies, and a status that steps lead to.
abbrev pub Follows : Job → Job → Type 0
Follows j j' = SameJob j j' × Course j.status j'.status

Follows-refl : (j : Job) → Follows j j
Follows-refl j = ((refl, refl), stay)

Follows-trans : (a b c : Job) → Follows a b → Follows b c → Follows a c
Follows-trans a b c ((i, d), s) ((i', d'), s') = ((i' ∙ i, d' ∙ d), Course-trans s s')

Course-Edge : {s t : JobStatus} (a b : JobStatus) → Edge s t → a ≡ s → b ≡ t → Course a b
Course-Edge {s = s} a b e p q =
    subst (λ x. Course x b) (sym p) (subst (λ y. Course s y) (sym q) (go e stay))

Same-Follows : (j j' : Job) → j' ≡ j → Follows j j'
Same-Follows j j' same = subst (Follows j) (sym same) (Follows-refl j)

pub Moves-Follows : (jobs : List Job) (j j' : Job) → Moves jobs j j' → Follows j j'
Moves-Follows jobs j j' (inl same) = Same-Follows j j' same
Moves-Follows jobs j j' (inr (same, inl (p, inl q))) = (same, Course-Edge _ _ succeed p q)
Moves-Follows jobs j j' (inr (same, inl (p, inr q))) = (same, Course-Edge _ _ break_off p q)
Moves-Follows jobs j j' (inr (same, inr (p, inl q))) = (same, Course-Edge _ _ pass_over p q)
Moves-Follows jobs j j' (inr (same, inr (p, inr (inl q, deps)))) =
    (same, Course-Edge _ _ not_begun p q)
Moves-Follows jobs j j' (inr (same, inr (p, inr (inr q, deps)))) = (same, Course-Edge _ _ begin p q)

pub Starts-Follows : (jobs : List Job) (j j' : Job) → Starts jobs j j' → Follows j j'
Starts-Follows jobs j j' (inl same) = Same-Follows j j' same
Starts-Follows jobs j j' (inr (same, waits, how, deps)) =
    Moves-Follows jobs j j' (inr (same, inr (waits, inr (how, deps))))

pub Stops-Follows : (j j' : Job) → Stops j j' → Follows j j'
Stops-Follows j j' (inl same) = Same-Follows j j' same
Stops-Follows j j' (inr (i, d, inl (p, inl q))) = ((i, d), Course-Edge _ _ succeed p q)
Stops-Follows j j' (inr (i, d, inl (p, inr q))) = ((i, d), Course-Edge _ _ break_off p q)
Stops-Follows j j' (inr (i, d, inr (p, q))) = ((i, d), Course-Edge _ _ pass_over p q)

abbrev AllFollow : List Job → List Job → Type 0
AllFollow = All2 Follows

AllFollow-trans : (xs ys zs : List Job) → AllFollow xs ys → AllFollow ys zs → AllFollow xs zs
AllFollow-trans = All2-trans Follows Follows Follows Follows-trans

module _ (setup : Setup) (begun : List Job) where
  reconcile_from-Follows :
      (a a' : Aux) (jobs jobs' : List Job) (found : Bool)
      → AllFollow begun jobs
      → reconcile_from setup a jobs ≡ ok (jobs', a', found)
      → AllFollow begun jobs'
  reconcile_from-Follows a a' jobs jobs' found h e = AllFollow-trans begun jobs jobs' h (
      All2-imp Stops Follows Stops-Follows jobs jobs'
        (reconcile_from-AllStop setup a a' jobs jobs' found e))

  tick-Follows :
      (st st' : State) (changed : Bool)
      → AllFollow begun st.jobs
      → tick setup st ≡ ok (st', changed)
      → AllFollow begun st'.jobs
  tick-Follows st st' changed h e = AllFollow-trans begun st.jobs st'.jobs h (
      All2-imp (Moves st'.jobs) Follows (Moves-Follows st'.jobs) st.jobs st'.jobs
        (tick-Moves setup st st' changed e))

module _ (setup : Setup) where
  -- A run that returns, of any length, refines the state machine: it keeps the list's length and order,
  -- and each job's id and dependencies, and each job's status at the end is one that steps of the
  -- machine lead to from its status at the begin.
  pub run-Follows :
      (max_ticks : ℕ) (r r' : Run) (ended : Bool)
      → run setup max_ticks r ≡ ok (r', ended)
      → All2 Follows r.state.jobs r'.state.jobs
  run-Follows max_ticks r r' ended =
      run-keeps_jobs setup (AllFollow begun) (reconcile_from-Follows setup begun)
        (tick-Follows setup begun) max_ticks r r' ended (All2-refl Follows Follows-refl begun)
    where
      begun : List Job
      begun = r.state.jobs
