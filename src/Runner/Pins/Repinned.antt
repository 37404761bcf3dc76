-- ===== src/Runner/Pins/Repinned.antt =====
-- Which processes enforce_pin of nodepilot/runner.py puts back on the cores of their job.
use nodepilot.Common.{
  ℕ, ◌≡◌, ◌↔◌, ◌⊎◌, subst, refl, ◌||◌, ◌==◌, inl, inr, true, false, List, [], ◌∷◌, some, ok,
  >>=-eq-ok, arith, pos, Bool-cases, Option-cases, all_of,
}
use nodepilot.Common.Text.{Text, codes, is_empty, starts_with, strip}
use nodepilot.Config.{Job}
use nodepilot.Host.{Host, read_ascii}
use nodepilot.Numa.Cores.{CoreSet, contains}
use nodepilot.Numa.CpuList.{parse_cpu_list}
use nodepilot.Runner.{proc_file}
use nodepilot.Runner.Pins.{check_pid, cpus_allowed, enforce_pin, is_drifted, pids_for_job, repin}

-- The kernel allows no core at all, or one outside of the expected ones.
abbrev pub Drifted : CoreSet → CoreSet → Type 0
Drifted expected cores =
    (cores ≡ []) ⊎ (c : ℕ) × (contains c cores ≡ true) × (contains c expected ≡ false)

-- The process has drifted, and its name is not that of tmux.
pub record IsStray (h : Host) (expected : CoreSet) (pid : ℕ) : Type 0 where
  pub comm : Text
  pub named : read_ascii h (proc_file (pos pid) (codes "comm")) ≡ ok (some comm)
  pub no_tmux : starts_with (strip comm) (codes "tmux") ≡ false
  pub cores : CoreSet
  pub allowed : cpus_allowed h pid ≡ ok (some cores)
  pub drifted : Drifted expected cores

outside :
    (expected cores : CoreSet)
    → all_of (λ x. contains x expected) cores ≡ false
    → (c : ℕ) × (contains c cores ≡ true) × (contains c expected ≡ false)
unfolding contains
outside expected [] e = absurd (ground arith)
outside expected (c ∷ cs) e = elim (Bool-cases (contains c expected)) [
  | inr out ↦ (c, ground arith, out)
  | inl here ↦ let (d, there, out) = outside expected cs (rw here at e) in (d, ground arith, out)
]

inside :
    (expected cores : CoreSet) (c : ℕ)
    → all_of (λ x. contains x expected) cores ≡ true
    → contains c cores ≡ true
    → contains c expected ≡ true
unfolding contains
inside expected [] c all_in member = absurd (ground arith)
inside expected (d ∷ ds) c all_in member = elim (Bool-cases (c == d)) [
  | inl same ↦ let eq : c ≡ d = ground arith in rw eq (ground arith)
  | inr other ↦ inside expected ds c (ground arith) (ground arith)
]

is_drifted_iff :
    (expected cores : CoreSet) → (is_drifted expected cores ≡ true) ↔ Drifted expected cores
unfolding is_drifted
is_drifted_iff expected [] = (λ _. inl refl, λ _. refl)
is_drifted_iff expected (c ∷ cs) = (
  λ e. inr (outside expected (c ∷ cs) (ground arith)),
  λ d. elim d [
    | inl nothing ↦ absurd (ground arith)
    | inr (x, there, out) ↦ elim (Bool-cases (all_of (λ y. contains y expected) (c ∷ cs))) [
      | inr some_out ↦ rw some_out refl
      | inl all_in ↦ absurd (let member = inside expected (c ∷ cs) x all_in there in ground arith)
    ]
  ],
)

module _ (h : Host) (expected : CoreSet) where
  check_pid-IsStray : (pid : ℕ) → check_pid h expected pid ≡ ok true → IsStray h expected pid
  unfolding check_pid
  check_pid-IsStray pid e =
      let (name, named, e') = >>=-eq-ok (read_ascii h (proc_file (pos pid) (codes "comm"))) _ e in
      elim (Option-cases name) [
        | inl gone ↦ absurd (ground arith)
        | inr (comm, here) ↦ elim (Bool-cases (starts_with (strip comm) (codes "tmux"))) [
          | inl tmux ↦ absurd (ground arith)
          | inr no_tmux ↦
              let (current, allowed, e'') =
                >>=-eq-ok (cpus_allowed h pid) _ (rw (here, no_tmux) at e') in
              elim (Option-cases current) [
                | inl nothing ↦ absurd (ground arith)
                | inr (cores, some_lem) ↦ record {
                  comm = comm;
                  named = rw here at named;
                  no_tmux = no_tmux;
                  cores = cores;
                  allowed = rw some_lem at allowed;
                  drifted = (is_drifted_iff expected cores).0 (ground arith);
                }
              ]
        ]
      ]

  IsStray-check_pid : (pid : ℕ) → IsStray h expected pid → check_pid h expected pid ≡ ok true
  unfolding check_pid
  IsStray-check_pid pid stray =
      let drifted = (is_drifted_iff expected stray.cores).1 stray.drifted in
      rw (check_pid, stray.named, stray.no_tmux, stray.allowed, drifted) refl

  -- What is re-pinned, of a list of processes.
  repin_iff :
      (pids moved : List ℕ)
      → repin h expected pids ≡ ok moved
      → (pid : ℕ)
      → (contains pid moved ≡ true) ↔ ((contains pid pids ≡ true) × IsStray h expected pid)
  unfolding repin contains
  repin_iff [] moved e pid =
      let same : [] ≡ moved = ground arith in
      rw⁻¹ same (λ member. absurd (ground arith), λ (member, _). absurd (ground arith))
  repin_iff (p ∷ pids) moved e pid =
      let (drifted, looked, e') = >>=-eq-ok (check_pid h expected p) _ e in
      let (rest, others, e'') = >>=-eq-ok (repin h expected pids) _ e' in
      let (to, from) = repin_iff pids rest others pid in
      elim (Bool-cases drifted) [
        | inl yes_drifted ↦
            let same : p ∷ rest ≡ moved = ground arith in
            let stray = check_pid-IsStray p (rw yes_drifted at looked) in
            rw⁻¹ same (
              λ member. elim (Bool-cases (pid == p)) [
                | inl here ↦
                    let eq : p ≡ pid = ground arith in
                    (ground arith, subst (IsStray h expected) eq stray)
                | inr other ↦ let (listed, strays) = to (ground arith) in (ground arith, strays)
              ],
              λ (member, strays). elim (Bool-cases (pid == p)) [
                | inl here ↦ ground arith
                | inr other ↦ let later = from (ground arith, strays) in ground arith
              ],
            )
        | inr stays ↦
            let same : rest ≡ moved = ground arith in
            rw⁻¹ same (
              λ member. let (listed, strays) = to member in (ground arith, strays),
              λ (member, strays). elim (Bool-cases (pid == p)) [
                | inl here ↦
                    let eq : pid ≡ p = ground arith in
                    let moves = IsStray-check_pid p (subst (IsStray h expected) eq strays) in
                    absurd (ground arith)
                | inr other ↦ from (ground arith, strays)
              ],
            )
      ]

-- The process is one of those of the job, which has an id and a CPU list, and is a stray of that list.
pub record IsMoved (h : Host) (job : Job) (pid : ℕ) : Type 0 where
  pub listed : is_empty job.cpu_list ≡ false
  pub has_id : is_empty job.id ≡ false
  pub taskset : h.which (codes "taskset") ≡ true
  pub expected : CoreSet
  pub parsed : parse_cpu_list job.cpu_list ≡ ok expected
  pub pids : List ℕ
  pub found : pids_for_job h job ≡ ok pids
  pub member : contains pid pids ≡ true
  pub stray : IsStray h expected pid

-- The processes that are put back on the cores of their job are exactly those, of the processes found
-- for the job, that are not tmux, whose server may hold other jobs, and that the kernel allows a core
-- outside of the cores of the job, or no core at all; none if the job has no id or no CPU list, or if
-- there is no taskset.
pub enforce_pin-IsMoved :
    (h : Host) (job : Job) (moved : List ℕ)
    → enforce_pin h job ≡ ok moved
    → (pid : ℕ) → (contains pid moved ≡ true) ↔ IsMoved h job pid
unfolding enforce_pin contains
enforce_pin-IsMoved h job moved e pid =
    elim (Bool-cases (is_empty job.cpu_list || is_empty job.id)) [
      | inl untracked ↦
          let same : [] ≡ moved = ground arith in
          (
            λ member. absurd (ground arith),
            λ m. absurd (let l = m.listed in let i = m.has_id in ground arith),
          )
      | inr tracked ↦ elim (Bool-cases (h.which (codes "taskset"))) [
        | inr no_taskset ↦
            let same : [] ≡ moved = ground arith in
            (λ member. absurd (ground arith), λ m. absurd (let t = m.taskset in ground arith))
        | inl there ↦
            let (expected, parsed, e') =
              >>=-eq-ok (parse_cpu_list job.cpu_list) _ (rw (enforce_pin, tracked, there) at e) in
            let (pids, found, e'') = >>=-eq-ok (pids_for_job h job) _ e' in
            let (to, from) = repin_iff h expected pids moved e'' pid in
            (
              λ member.
                  let (among, strays) = to member in
                  record {
                    listed = ground arith;
                    has_id = ground arith;
                    taskset = there;
                    expected = expected;
                    parsed = parsed;
                    pids = pids;
                    found = found;
                    member = among;
                    stray = strays;
                  },
              λ m.
                  let cores : m.expected ≡ expected = let p = m.parsed in ground arith in
                  let same : m.pids ≡ pids = let f = m.found in ground arith in
                  from (
                    subst (λ ps. contains pid ps ≡ true) same m.member,
                    subst (λ c. IsStray h c pid) cores m.stray,
                  ),
            )
      ]
    ]
