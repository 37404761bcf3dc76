-- ===== src/Orchestrator/Induction.antt =====
-- What the passes of nodepilot/orchestrator.py keep, a run keeps: the induction over the loop of `run`.
use nodepilot.Common.{
  some, sym, ap, refl, ◌⊎◌, true, false, ℕ, zero, suc, ◌≡◌, subst, inl, inr, Bool, List, arith, ok,
  >>=-eq-ok, Bool-cases,
}
use nodepilot.Config.{Job}
use nodepilot.Orchestrator.{Setup, Aux, State, look}
use nodepilot.Orchestrator.Loop.{tick}
use nodepilot.Orchestrator.Run.{
  save, save_if, Run, reconcile_from, reconcile_zombies, run_tick, run_loop, run, is_drained,
}

-- A save changes nothing but what is saved.
pub save_if-cases :
    (setup : Setup) (changed : Bool) (r r' : Run)
    → save_if setup changed r ≡ ok r'
    → ((changed ≡ true) × (r' ≡ save r)) ⊎ ((changed ≡ false) × (r' ≡ r))
unfolding save_if
save_if-cases setup true r r' e =
    let (_, _, e') = >>=-eq-ok (look setup r.state.aux).write_state _ e in inl (refl, ground arith)
save_if-cases setup false r r' e = inr (refl, ground arith)

pub save_if-state :
    (setup : Setup) (changed : Bool) (r r' : Run)
    → save_if setup changed r ≡ ok r'
    → r.state ≡ r'.state
save_if-state setup changed r r' e = elim (save_if-cases setup changed r r' e) [
  | inl (_, same) ↦ ap (λ x. x.state) (sym same)
  | inr (_, same) ↦ ap (λ x. x.state) (sym same)
]

pub save_if-saved :
    (setup : Setup) (r r' : Run) → save_if setup true r ≡ ok r' → r'.saved ≡ some r'.state.jobs
save_if-saved setup r r' e = elim (save_if-cases setup true r r' e) [
  | inl (_, same) ↦ rw same refl
  | inr (off, _) ↦ absurd (ground arith)
]

module _ (setup : Setup) (P : Run → Type 0)
    (zombies : (r r' : Run) → P r → reconcile_zombies setup r ≡ ok r' → P r')
    (ticks : (r r' : Run) → P r → run_tick setup r ≡ ok r' → P r') where
  run_loop-keeps :
      (n : ℕ) (r r' : Run) (ended : Bool) → P r → run_loop setup n r ≡ ok (r', ended) → P r'
  unfolding run_loop
  run_loop-keeps zero r r' ended p e = let same : r ≡ r' = ground arith in subst P same p
  run_loop-keeps (suc n) r r' ended p e =
      let (r1, first, e') = >>=-eq-ok (run_tick setup r) _ e in
      let p1 = ticks r r1 p first in
      elim (Bool-cases (is_drained r1.state.jobs)) [
        | inl drained ↦ let same : r1 ≡ r' = ground arith in subst P same p1
        | inr more ↦ run_loop-keeps n r1 r' ended p1 (rw more at e')
      ]

  pub run-keeps :
      (max_ticks : ℕ) (r r' : Run) (ended : Bool)
      → P r
      → run setup max_ticks r ≡ ok (r', ended)
      → P r'
  unfolding run
  run-keeps max_ticks r r' ended p e =
      let (r1, first, e') = >>=-eq-ok (reconcile_zombies setup r) _ e in
      run_loop-keeps _ r1 r' ended (zombies r r1 p first) e'

-- The same for what is a property of the job list.
module _ (setup : Setup) (P : List Job → Type 0)
    (zombies : (a a' : Aux) (jobs jobs' : List Job) (found : Bool)
      → P jobs
      → reconcile_from setup a jobs ≡ ok (jobs', a', found)
      → P jobs')
    (ticks : (st st' : State) (changed : Bool)
      → P st.jobs
      → tick setup st ≡ ok (st', changed)
      → P st'.jobs) where
  abbrev Holds : Run → Type 0
  Holds r = P r.state.jobs

  zombies-Holds : (r r' : Run) → Holds r → reconcile_zombies setup r ≡ ok r' → Holds r'
  unfolding reconcile_zombies
  zombies-Holds r r' p e =
      let ((jobs, a, found), swept, e') =
        >>=-eq-ok (reconcile_from setup r.state.aux r.state.jobs) _ e in
      let same : jobs ≡ r'.state.jobs =
        ap (λ st. st.jobs)
          (save_if-state setup found (record r { state = record { jobs = jobs; aux = a } }) r'
            e') in
      subst P same (zombies r.state.aux a r.state.jobs jobs found p swept)

  run_tick-Holds : (r r' : Run) → Holds r → run_tick setup r ≡ ok r' → Holds r'
  unfolding run_tick
  run_tick-Holds r r' p e =
      let ((st, changed), ticked, e') = >>=-eq-ok (tick setup r.state) _ e in
      let same : st.jobs ≡ r'.state.jobs =
        ap (λ s. s.jobs) (save_if-state setup changed (record r { state = st }) r' e') in
      subst P same (ticks r.state st changed p ticked)

  pub run-keeps_jobs :
      (max_ticks : ℕ) (r r' : Run) (ended : Bool)
      → P r.state.jobs
      → run setup max_ticks r ≡ ok (r', ended)
      → P r'.state.jobs
  run-keeps_jobs = run-keeps setup Holds zombies-Holds run_tick-Holds
