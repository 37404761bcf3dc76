-- ===== src/Numa/Allocate.antt =====
-- allocate of nodepilot/numa.py: a block of free cores on one NUMA node.
mod Order
pub mod Preferred
mod Cores
pub mod Runs
mod Chosen
pub mod Complete
pub mod Sound
use nodepilot.Common.{
  ℕ, zero, suc, ◌+◌, ◌-◌, ◌≡◌, Bool, true, false, not, ◌&&◌, List, [], ◌∷◌, ◌++◌, Option, none,
  some, ltb, leb, ◌==◌, if◌then◌else◌, Result, ok, err, ◌>>=◌, length, take, keep,
}
use nodepilot.Common.Text.{Text}
use nodepilot.Common.Sort.{sort_by}
use nodepilot.Numa.Cores.{CoreSet, contains, range}
use nodepilot.Numa.CpuList.{parse_cpu_list, format_cpu_list}

pub record Placement : Type 0 where
  pub cpu_list : Text
  pub node : ℕ
  pub interleave : Bool
  pub contiguous : Bool
  pub smt_oversubscribed : Bool

-- The two nested loops of `_largest_contiguous_run`: `start` is `free_sorted[i]`, `prev` is
-- `free_sorted[j]`, `len` is `j - i + 1`, and the last argument is what follows `j`.
scan_run : (n start len prev : ℕ) → List ℕ → Option ℕ
scan_run n start len prev [] = if leb n len then some start else none
scan_run n start len prev (c ∷ cs) =
    let longer = scan_run n start (len + 1) c cs in
    let next = scan_run n c 1 c cs in
    if c == prev + 1 then longer else if leb n len then some start else next

unfoldable pub largest_contiguous_run : List ℕ → ℕ → Option ℕ
unfolding scan_run
largest_contiguous_run [] n = none
largest_contiguous_run (c ∷ cs) n = scan_run n c 1 c cs

-- The cores taken on a node, with the two flags.
pub record Choice : Type 0 where
  pub chosen : List ℕ
  pub contiguous : Bool
  pub oversub : Bool

unfoldable pub choose : ℕ → List ℕ → List ℕ → Choice
choose n_cores free secondary =
    let primaries = keep (λ c. not (contains c secondary)) free in
    let siblings = keep (λ c. contains c secondary) free in
    if ltb (length primaries) n_cores
    then record {
      chosen = primaries ++ take (n_cores - length primaries) siblings;
      contiguous = false;
      oversub = true;
    }
    else elim (largest_contiguous_run primaries n_cores) [
      | some start ↦ record { chosen = range start n_cores; contiguous = true; oversub = false }
      | none ↦ record { chosen = take n_cores primaries; contiguous = false; oversub = false }
    ]

pub record Candidate : Type 0 where
  pub free_count : ℕ
  pub used_gb : ℕ
  pub node : ℕ
  pub choice : Choice

-- The arguments of `allocate`; `node_memory` stands for the first part of `node_memory_gb`.
pub record Request : Type 0 where
  pub n_cores : ℕ
  pub occupied : CoreSet
  pub numa_nodes : List (ℕ × Text)
  pub ram_gb : ℕ
  pub interleave_threshold_gb : ℕ
  pub node_ram_cap_gb : ℕ
  pub node_ram_safety_gb : ℕ
  pub smt_secondary : CoreSet
  pub node_memory : ℕ → Option ℕ

unfoldable pub will_interleave : Request → Bool
will_interleave r = ltb 0 r.interleave_threshold_gb && leb r.interleave_threshold_gb r.ram_gb

-- The memory in use on a node, or `none` if the gate skips the node. The source compares with
-- `node_ram_cap_gb - node_ram_safety_gb`, which may be negative; here the margin is added instead.
unfoldable pub gate_node : Request → ℕ → Option ℕ
unfolding will_interleave
gate_node r node =
    if ltb 0 r.node_ram_cap_gb && not (will_interleave r)
    then elim (r.node_memory node) [
      | none ↦ some 0
      | some anon ↦
          if ltb r.node_ram_cap_gb (anon + r.ram_gb + r.node_ram_safety_gb) then none else some anon
    ]
    else some 0

-- The body of the loop over the nodes: a candidate, or `none` for `continue`.
unfoldable pub consider : Request → ℕ → Text → Result (Option Candidate)
consider r node spec = do
  node_cores ← parse_cpu_list spec
  let free = keep (λ c. not (contains c r.occupied)) node_cores
  if ltb (length free) r.n_cores then ok none else elim (gate_node r node) [
    | none ↦ ok none
    | some used ↦ ok (
        some (record {
          free_count = length free;
          used_gb = used;
          node = node;
          choice = choose r.n_cores free r.smt_secondary;
        }))
  ]

unfoldable pub candidates : Request → List (ℕ × Text) → Result (List Candidate)
candidates r [] = ok []
candidates r ((node, spec) ∷ nodes) = do
  found ← consider r node spec
  rest ← candidates r nodes
  elim found [ none ↦ ok rest | some c ↦ ok (c ∷ rest) ]

-- False stands before True.
rank : Bool → ℕ
rank true = 1
rank false = 0

-- The order of the tuples `(not contiguous, -free_count, used_gb, node)`.
unfoldable pub candidate_less : Candidate → Candidate → Bool
unfolding rank
candidate_less a b =
    let x = rank (not a.choice.contiguous) in
    let y = rank (not b.choice.contiguous) in
    if ltb x y
    then true
    else if ltb y x
    then false
    else if ltb b.free_count a.free_count
    then true
    else if ltb a.free_count b.free_count
    then false
    else if ltb a.used_gb b.used_gb
    then true
    else if ltb b.used_gb a.used_gb
    then false
    else ltb a.node b.node

unfoldable pub first_node : List (ℕ × Text) → ℕ
first_node [] = 0
first_node ((node, spec) ∷ nodes) = node

-- The placement of the first candidate after the sort.
unfoldable pub best : Request → List Candidate → Option Placement
best r [] = none
best r (c ∷ cs) = some (record {
  cpu_list = format_cpu_list c.choice.chosen;
  node = c.node;
  interleave = will_interleave r;
  contiguous = c.choice.contiguous;
  smt_oversubscribed = c.choice.oversub;
})

unfoldable pub allocate : Request → Result (Option Placement)
allocate r =
    if r.n_cores == 0
    then ok (
        some (record {
          cpu_list = [];
          node = first_node r.numa_nodes;
          interleave = false;
          contiguous = true;
          smt_oversubscribed = false;
        }))
    else (do found ← candidates r r.numa_nodes; ok (best r (sort_by candidate_less found)))
