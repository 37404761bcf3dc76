-- ===== src/Orchestrator/Unlimited.antt =====
-- `run` of nodepilot/orchestrator.py without a limit on its ticks, as a step relation, against the
-- runs that have a limit.
use nodepilot.Common.{
  ℕ, zero, suc, ◌≤◌, ◌<◌, ◌≡◌, ◌↔◌, refl, subst, inl, inr, true, false, arith, ok, >>=-eq-ok,
  Bool-cases,
}
use nodepilot.Orchestrator.{Setup}
use nodepilot.Orchestrator.Run.{Run, reconcile_zombies, run_tick, run_loop, run, is_drained}

-- The loop of `run` with `max_ticks=None`, from before a tick: it ends by the break for a drained queue.
pub data Loops (setup : Setup) : Run → Run → Type 0 where
  last :
      {r r' : Run} → run_tick setup r ≡ ok r' → is_drained r'.state.jobs ≡ true → Loops setup r r'
  again :
      {r r1 r' : Run}
      → run_tick setup r ≡ ok r1
      → is_drained r1.state.jobs ≡ false
      → Loops setup r1 r'
      → Loops setup r r'

-- `run(max_ticks=None)` ends, and does so with `r'`.
pub record RunsTo (setup : Setup) (r r' : Run) : Type 0 where
  pub start : Run
  pub reconciled : reconcile_zombies setup r ≡ ok start
  pub loops : Loops setup start r'

module _ (setup : Setup) where
  run_loop-Loops : (n : ℕ) (r r' : Run) → run_loop setup n r ≡ ok (r', true) → Loops setup r r'
  unfolding run_loop
  run_loop-Loops zero r r' e = absurd (ground arith)
  run_loop-Loops (suc n) r r' e =
      let (r1, first, e') = >>=-eq-ok (run_tick setup r) _ e in
      elim (Bool-cases (is_drained r1.state.jobs)) [
        | inl drained ↦
            let same : r1 ≡ r' = ground arith in subst (Loops setup r) same (last first drained)
        | inr more ↦ again first more (run_loop-Loops n r1 r' (rw more at e'))
      ]

  -- The loop makes a number of ticks, and any limit from there on is enough.
  Loops-run_loop :
      {r r' : Run}
      → Loops setup r r'
      → (n : ℕ) × (0 < n) × ((m : ℕ) → n ≤ m → run_loop setup m r ≡ ok (r', true))
  unfolding run_loop
  Loops-run_loop {r = r} {r' = r'} (last first drained) = (1, omega arith, enough)
    where
      enough : (m : ℕ) → 1 ≤ m → run_loop setup m r ≡ ok (r', true)
      enough zero h = absurd (omega (arith, h))
      enough (suc m) h = rw (first, drained) refl
  Loops-run_loop {r = r} {r' = r'} (again {r1 = r1} first more loops) =
      let (n, some_ticks, rest) = Loops-run_loop loops in (suc n, omega arith, longer n rest)
    where
      longer :
          (n : ℕ)
          → ((m : ℕ) → n ≤ m → run_loop setup m r1 ≡ ok (r', true))
          → (m : ℕ) → suc n ≤ m
          → run_loop setup m r ≡ ok (r', true)
      longer n rest zero h = absurd (omega (arith, h))
      longer n rest (suc m) h = rw (first, more, rest m (omega (arith, h))) refl

  run-RunsTo : (n : ℕ) (r r' : Run) → run setup n r ≡ ok (r', true) → RunsTo setup r r'
  unfolding run
  run-RunsTo n r r' e =
      let (r1, first, e') = >>=-eq-ok (reconcile_zombies setup r) _ e in
      record { start = r1; reconciled = first; loops = run_loop-Loops _ r1 r' e' }

  RunsTo-run :
      (r r' : Run) → RunsTo setup r r' → (n : ℕ) × ((m : ℕ) → n ≤ m → run setup m r ≡ ok (r', true))
  unfolding run
  RunsTo-run r r' h =
      let (n, some_ticks, enough) = Loops-run_loop h.loops in (n, all_limits n some_ticks enough)
    where
      all_limits :
          (n : ℕ)
          → 0 < n
          → ((m : ℕ) → n ≤ m → run_loop setup m h.start ≡ ok (r', true))
          → (m : ℕ) → n ≤ m
          → run setup m r ≡ ok (r', true)
      all_limits n some_ticks enough zero le = absurd (omega (arith, some_ticks, le))
      all_limits n some_ticks enough (suc m) le = rw (h.reconciled, enough (suc m) le) refl

  -- A run without a limit ends with a state exactly when a run with some limit ends with it by a
  -- drained queue; and then so does the run with every greater limit.
  pub RunsTo-iff :
      (r r' : Run)
      → (RunsTo setup r r' ↔ ((n : ℕ) × (run setup n r ≡ ok (r', true))))
        × (RunsTo setup r r' → (n : ℕ) × ((m : ℕ) → n ≤ m → run setup m r ≡ ok (r', true)))
  RunsTo-iff r r' = (
    (
      λ h. let (n, enough) = RunsTo-run r r' h in (n, enough n (omega arith)),
      λ (n, e). run-RunsTo n r r' e,
    ),
    RunsTo-run r r',
  )
