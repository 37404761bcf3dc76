-- ===== src/Numa/CpuList.antt =====
-- parse_cpu_list and format_cpu_list of nodepilot/numa.py.
mod Samples
pub mod RoundTrip
pub mod Sets
pub mod Errors
use nodepilot.Common.{
  ℕ, zero, suc, ◌+◌, ◌-◌, ◌≡◌, refl, Bool, true, false, ◌||◌, List, [], ◌∷◌, Option, none, some,
  arith, ltb, ◌==◌, if◌then◌else◌, Result, ok, err, value_error, ◌>>=◌, ℤ, pos, negsuc, ◌++◌,
}
use nodepilot.Common.Text.{Text, codes, strip, is_empty, split_on, split_once, join}
use nodepilot.Common.Decimal.{int, decimal}
use nodepilot.Numa.Cores.{CoreSet, add, update, range}

-- `out.update(range(lo, hi + 1))`, after the test for an inverted range. A text without a dash
-- is not read as a negative number, so `lo` is not one.
add_range : ℤ → ℤ → CoreSet → Result CoreSet
add_range (pos lo) (pos hi) out =
    if ltb hi lo then err value_error else ok (update (range lo (hi + 1 - lo)) out)
add_range (pos lo) (negsuc hi) out = err value_error
add_range (negsuc lo) hi out = err value_error

-- `out.add(c)`
add_core : ℤ → CoreSet → Result CoreSet
add_core (pos c) out = ok (add c out)
add_core (negsuc c) out = err value_error

-- One part, stripped and not empty.
parse_part : Text → CoreSet → Result CoreSet
unfolding add_range add_core
parse_part part out = elim (split_once b'-' part) [
  | some (lo_s, hi_s) ↦ do lo ← int lo_s; hi ← int hi_s; add_range lo hi out
  | none ↦ do c ← int part; add_core c out
]

-- The `for` loop. An empty part is skipped, and the first error leaves the loop.
parse_parts : List Text → CoreSet → Result CoreSet
unfolding parse_part
parse_parts [] out = ok out
parse_parts (p ∷ ps) out = do
  next ← (let part = strip p in if is_empty part then ok out else parse_part part out)
  parse_parts ps next

unfoldable pub parse_cpu_list : Text → Result CoreSet
unfolding parse_parts
parse_cpu_list spec =
    if is_empty spec || is_empty (strip spec) then ok [] else parse_parts (split_on b',' spec) []

-- `_run`
run : ℕ → ℕ → Text
run lo hi = if lo == hi then decimal lo else decimal lo ++ b'-' ∷ decimal hi

-- The `for` loop and the last `append`: the parts still to come.
format_runs : ℕ → ℕ → List ℕ → List Text
unfolding run
format_runs run_start prev [] = run run_start prev ∷ []
format_runs run_start prev (c ∷ cs) =
    let same = format_runs run_start c cs in
    let next = run run_start prev ∷ format_runs c c cs in if c == prev + 1 then same else next

format_ordered : List ℕ → Text
unfolding format_runs
format_ordered [] = []
format_ordered (c ∷ cs) = join b',' (format_runs c c cs)

-- `cores` is a list or a set; `sorted(set(cores))` is `update cores []`.
unfoldable pub format_cpu_list : List ℕ → Text
unfolding format_ordered
format_cpu_list cores = format_ordered (update cores [])
