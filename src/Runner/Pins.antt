-- ===== src/Runner/Pins.antt =====
-- enforce_pin of nodepilot/runner.py: the processes of a job that are put back on its cores.
pub mod Repinned
use nodepilot.Common.{
  Option, err, ◌&&◌, ◌++◌, leb, ℤ, pos, negsuc, eqb_ℤ, get_elem?, keep, ℕ, Bool, true, false, not,
  ◌||◌, List, [], ◌∷◌, none, some, if◌then◌else◌, Result, ok, ◌>>=◌, all_of,
}
use nodepilot.Common.Text.{Text, codes, is_empty, starts_with, words, strip, lines, split_once}
use nodepilot.Common.Decimal.{int}
use nodepilot.Config.{Job}
use nodepilot.Numa.Cores.{CoreSet, contains}
use nodepilot.Numa.CpuList.{parse_cpu_list}
use nodepilot.Runner.{is_pid, pid_of, proc_file}
use nodepilot.Host.{Host, read_ascii}

-- `s.isdigit()` for the digits of ASCII
unfoldable pub is_number : Text → Bool
is_number s = not (is_empty s) && all_of (λ c. leb b'0' c && leb c b'9') s

-- `int(s)` for such a text
number : Text → Option ℕ
number s = elim (int s) [ ok n ↦ elim n [ pos k ↦ some k | negsuc k ↦ none ] | err e ↦ none ]

-- One round of the loop over /proc: the process, if it is in the group. A process that is gone, a
-- line that is too short, and a text or a field that raises ValueError, are passed over.
group_member : Host → ℤ → Text → Option ℕ
unfolding is_number number
group_member h pgid name =
    if not (is_number name)
    then none
    else elim (read_ascii h (codes "/proc/" ++ name ++ codes "/stat")) [
      | err e ↦ none
      | ok none ↦ none
      | ok (some stat) ↦ elim (get_elem? (words stat) 4) [
        | none ↦ none
        | some field ↦ elim (int field) [
          | err e ↦ none
          | ok group ↦ if eqb_ℤ group pgid then number name else none
        ]
      ]
    ]

-- The values that are there, in their order.
collect : (Text → Option ℕ) → List Text → List ℕ
collect f [] = []
collect f (x ∷ xs) = let rest = collect f xs in elim (f x) [ none ↦ rest | some n ↦ n ∷ rest ]

-- `_pids_for_job`
unfoldable pub pids_for_job : Host → Job → Result (List ℕ)
unfolding group_member collect number
pids_for_job h job =
    if is_pid job
    then (do
      root ← pid_of job
      elim (h.getpgid root) [
        | none ↦ ok []
        | some pgid ↦ ok (collect (group_member h pgid) h.proc)
      ])
    else if h.which (codes "pgrep")
    then ok (collect number (keep is_number (words (h.pgrep job.id))))
    else ok []

-- The loop of `_cpus_allowed`; a CPU list that is malformed raises.
cpus_of_lines : List Text → Result (Option CoreSet)
cpus_of_lines [] = ok none
cpus_of_lines (line ∷ rest) =
    let later = cpus_of_lines rest in
    if starts_with line (codes "Cpus_allowed_list:")
    then (do
      cores ←
          parse_cpu_list
            (strip (elim (split_once b':' line) [ none ↦ [] | some (key, value) ↦ value ]))
      ok (some cores))
    else later

unfoldable pub cpus_allowed : Host → ℕ → Result (Option CoreSet)
unfolding cpus_of_lines
cpus_allowed h pid = do
  status ← read_ascii h (proc_file (pos pid) (codes "status"))
  elim status [ none ↦ ok none | some text ↦ cpus_of_lines (lines text) ]

-- `not current or not current.issubset(expected)`
unfoldable pub is_drifted : CoreSet → CoreSet → Bool
is_drifted expected [] = true
is_drifted expected (c ∷ cs) = not (all_of (λ x. contains x expected) (c ∷ cs))

-- One round of the loop: whether the process is re-pinned.
unfoldable pub check_pid : Host → CoreSet → ℕ → Result Bool
check_pid h expected pid = do
  name ← read_ascii h (proc_file (pos pid) (codes "comm"))
  elim name [
    | none ↦ ok false
    | some comm ↦ if starts_with (strip comm) (codes "tmux") then ok false else (do
      current ← cpus_allowed h pid
      ok (elim current [ none ↦ false | some cores ↦ is_drifted expected cores ]))
  ]

unfoldable pub repin : Host → CoreSet → List ℕ → Result (List ℕ)
repin h expected [] = ok []
repin h expected (pid ∷ pids) = do
  drifted ← check_pid h expected pid
  rest ← repin h expected pids
  ok (if drifted then pid ∷ rest else rest)

-- The processes that are re-pinned; the source returns how many they are.
unfoldable pub enforce_pin : Host → Job → Result (List ℕ)
unfolding repin
enforce_pin h job =
    if is_empty job.cpu_list || is_empty job.id
    then ok []
    else if not (h.which (codes "taskset"))
    then ok []
    else (do
      expected ← parse_cpu_list job.cpu_list
      pids ← pids_for_job h job
      repin h expected pids)
