-- ===== src/Orchestrator/Safety/Occupied.antt =====
-- _occupied_cores of nodepilot/orchestrator.py, against the cores that running jobs hold.
use nodepilot.Common.{
  ℕ, ◌+◌, ◌≡◌, refl, inl, inr, true, false, not, ◌&&◌, List, [], ◌∷◌, arith, if◌then◌else◌, Result,
  ok, ◌>>=◌, >>=-eq-ok, Bool-cases,
}
use nodepilot.Common.Text.{is_empty, Text}
use nodepilot.Config.{Job, is_running}
use nodepilot.Numa.Cores.{CoreSet, contains, update, contains-update}
use nodepilot.Numa.CpuList.{parse_cpu_list}
use nodepilot.Admission.{sum_by}
use nodepilot.Orchestrator.{Setup, occupied_from, occupied_cores}
use nodepilot.Orchestrator.Safety.{held, holders, one_if}

parse_cpu_list-empty : (t : Text) → is_empty t ≡ true → parse_cpu_list t ≡ ok []
unfolding parse_cpu_list
parse_cpu_list-empty t h = rw h

held-empty : (j : Job) → is_empty j.cpu_list ≡ true → held j ≡ []
unfolding held
held-empty j h = rw (parse_cpu_list-empty j.cpu_list h, held)

pub held_lem : (j : Job) (s : CoreSet) → parse_cpu_list j.cpu_list ≡ ok s → held j ≡ s
unfolding held
held_lem j s e = rw (e, held)

-- The share of one job in the number of holders.
abbrev share : ℕ → Job → ℕ
share c j = if is_running j.status then one_if (contains c (held j)) else 0

holders-cons : (c : ℕ) (j : Job) (js : List Job) → holders c (j ∷ js) ≡ share c j + holders c js
unfolding sum_by
holders-cons c j js = ground arith

-- One round of the loop.
abbrev occupy : CoreSet → Job → Result CoreSet
occupy occ j =
    if is_running j.status && not (is_empty j.cpu_list)
    then (do cores ← parse_cpu_list j.cpu_list; ok (update cores occ))
    else ok occ

occupy-free :
    (c : ℕ) (occ occ' : CoreSet) (j : Job)
    → occupy occ j ≡ ok occ'
    → contains c occ' ≡ false
    → (contains c occ ≡ false) × (share c j ≡ 0)
unfolding contains
occupy-free c occ occ' j e h = elim (Bool-cases (is_running j.status)) [
  | inr idle ↦ (ground arith, ground arith)
  | inl runs ↦ elim (Bool-cases (is_empty j.cpu_list)) [
    | inl empty ↦ (ground arith, ground (arith, held-empty j empty))
    | inr some_text ↦
        let (cores, parsed, e') =
          >>=-eq-ok (parse_cpu_list j.cpu_list) _ (rw (runs, some_text) at e) in
        let parts = contains-update c cores occ in
        (ground (arith, parts), ground (arith, parts, held_lem j cores parsed))
  ]
]

module _ (setup : Setup) (c : ℕ) where
  occupied_from-free :
      (occ s : CoreSet) (js : List Job)
      → occupied_from setup occ js ≡ ok s
      → contains c s ≡ false
      → (contains c occ ≡ false) × (holders c js ≡ 0)
  unfolding occupied_from
  occupied_from-free occ s [] e h = (ground arith, unfold sum_by in refl)
  occupied_from-free occ s (j ∷ js) e h =
      let (occ', step, e') = >>=-eq-ok (occupy occ j) (λ occ'. occupied_from setup occ' js) e in
      let rest = occupied_from-free occ' s js e' h in
      let first = occupy-free c occ occ' j step rest.0 in
      (first.0, omega (arith, holders-cons c j js, first.1, rest.1))

  -- A core that is not occupied is neither reserved nor held by a running job.
  pub occupied_cores-free :
      (jobs : List Job) (s : CoreSet)
      → occupied_cores setup jobs ≡ ok s
      → contains c s ≡ false
      → (contains c setup.reserved ≡ false) × (holders c jobs ≡ 0)
  unfolding occupied_cores
  occupied_cores-free jobs s e h = occupied_from-free setup.reserved s jobs e h
