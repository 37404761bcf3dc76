-- ===== src/Orchestrator/Phases.antt =====
-- A tick, taken apart into its phases for the proofs about it.
use nodepilot.Common.{
  ℕ, suc, ◌≤◌, ◌+◌, ◌*◌, ◌≡◌, refl, ap, ◌∙◌, Bool, ◌||◌, List, arith, ok, >>=-eq-ok, length,
}
use nodepilot.Config.{Job}
use nodepilot.Orchestrator.{Setup, Aux, State, reap_finished, enforce_pins}
use nodepilot.Orchestrator.Dependents.{mark_dead_dependents}
use nodepilot.Orchestrator.Loop.{launch_pending, tick}

pub record Tick (setup : Setup) (st st' : State) (changed : Bool) : Type 0 where
  pub jobs : List Job
  pub aux : Aux
  pub reaped : Bool
  pub reaping : reap_finished setup st.aux st.jobs ≡ ok (jobs, aux, reaped)
  pub clock : ℕ → ℕ → ℕ
  pub middle : State
  pub middle_jobs : middle.jobs ≡ (mark_dead_dependents clock jobs).0
  pub reads : ℕ
  pub later : aux.reads + length jobs ≤ reads
  pub pinning : enforce_pins setup (record aux { reads = reads }) middle.jobs ≡ ok middle.aux
  pub launched : Bool
  pub launching : launch_pending setup middle ≡ ok (st', launched)
  pub flags : changed ≡ (reaped || (mark_dead_dependents clock jobs).1 || launched)

pub tick-Tick :
    (setup : Setup) (st st' : State) (changed : Bool)
    → tick setup st ≡ ok (st', changed)
    → Tick setup st st' changed
unfolding tick
tick-Tick setup st st' changed e =
    let ((jobs, a, reaped), reaping, e1) = >>=-eq-ok (reap_finished setup st.aux st.jobs) _ e in
    let n = length jobs in
    let clock : ℕ → ℕ → ℕ = λ pass i. (setup.world (a.reads + pass * n + i)).now in
    let jobs' = (mark_dead_dependents clock jobs).0 in
    let (a', pinned, e2) = >>=-eq-ok (enforce_pins setup _ jobs') _ e1 in
    let middle : State = record { jobs = jobs'; aux = a' } in
    let ((st2, launched), launching, e3) = >>=-eq-ok (launch_pending setup middle) _ e2 in
    let same : st2 ≡ st' = ground arith in
    record {
      jobs = jobs;
      aux = a;
      reaped = reaped;
      reaping = reaping;
      clock = clock;
      middle = middle;
      middle_jobs = refl;
      reads = a.reads + suc n * n + n;
      later = omega arith;
      pinning = pinned;
      launched = launched;
      launching = launching ∙ ap (λ s. ok (s, launched)) same;
      flags = ground arith;
    }
