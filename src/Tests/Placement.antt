-- ===== src/Tests/Placement.antt =====
-- The theorems on cores, placements and limits, at concrete inputs.
use nodepilot.Common.{
  length, ◌/◌, Option, All, Returns, ℕ, true, false, ◌+◌, ◌≤◌, ◌<◌, ◌≡◌, refl, ◌↔◌, ◌⊎◌, arith,
  List, [], ◌∷◌, none, some, ok,
}
use nodepilot.Common.Text.{codes, is_empty, strip, split_on, split_once, join}
use nodepilot.Common.Decimal.{int, decimal}
use nodepilot.Common.Sort.{insert_by, sort_by}
use nodepilot.Config.{gib, validate_unique_ids}
use nodepilot.Config.Ids.{HasUniqueIds, validate_unique_ids_iff}
use nodepilot.Numa.Cores.{CoreSet, contains, add, update, range, IsAscending}
use nodepilot.Numa.CpuList.{parse_cpu_list, format_cpu_list}
use nodepilot.Numa.CpuList.RoundTrip.{parse_cpu_list-format_cpu_list}
use nodepilot.Numa.Allocate.{
  Placement, Request, largest_contiguous_run, allocate, candidates, consider, gate_node,
  will_interleave, choose, candidate_less, best, first_node,
}
use nodepilot.Numa.Allocate.Complete.{IsFull, allocate-none_iff}
use nodepilot.Numa.Allocate.Runs.{IsBlock, largest_contiguous_run_lem}
use nodepilot.Numa.Allocate.Preferred.{IsPreferred, allocate-IsPreferred}
use nodepilot.Numa.Allocate.Sound.{IsPlacementFor, allocate-IsPlacementFor}
use nodepilot.Cgroups.{memory_high}
use nodepilot.Cgroups.Limits.{memory_high_lem}
use nodepilot.Mpi.{RankBinding, rank_binding_plan}
use nodepilot.Mpi.Layout.{all_cores, rank_binding_plan_lem}
use nodepilot.Tests.{queue, nodes}

validate_unique_ids_iff_example : (validate_unique_ids queue ≡ ok tt) ↔ HasUniqueIds queue
validate_unique_ids_iff_example = validate_unique_ids_iff queue

parse_cpu_list-format_cpu_list_example :
    (s : CoreSet) × (parse_cpu_list (format_cpu_list (8 ∷ 2 ∷ 0 ∷ 1 ∷ 2 ∷ [])) ≡ ok s)
    × IsAscending s
    × ((c : ℕ) → contains c s ≡ contains c (8 ∷ 2 ∷ 0 ∷ 1 ∷ 2 ∷ []))
parse_cpu_list-format_cpu_list_example = parse_cpu_list-format_cpu_list (8 ∷ 2 ∷ 0 ∷ 1 ∷ 2 ∷ [])

abbrev free_cores : List ℕ
free_cores = 1 ∷ 3 ∷ 4 ∷ 5 ∷ 7 ∷ []

largest_contiguous_run_lem_example :
    ((t : ℕ) × (largest_contiguous_run free_cores 2 ≡ some t)
      × IsBlock free_cores t 2
      × ((s : ℕ) → s < t → ¬ IsBlock free_cores s 2))
    ⊎ (largest_contiguous_run free_cores 2 ≡ none) × ((s : ℕ) → ¬ IsBlock free_cores s 2)
largest_contiguous_run_lem_example =
    largest_contiguous_run_lem free_cores 2 (ground arith) (omega arith)

abbrev three_cores : Request
three_cores = record {
  n_cores = 3;
  occupied = 0 ∷ [];
  numa_nodes = nodes;
  ram_gb = 4294967296;
  interleave_threshold_gb = 0;
  node_ram_cap_gb = 0;
  node_ram_safety_gb = 0;
  smt_secondary = [];
  node_memory = λ _. none;
}

abbrev granted : Placement
granted = record {
  cpu_list = codes "4-6";
  node = 1;
  interleave = false;
  contiguous = true;
  smt_oversubscribed = false;
}

allocate_sample : allocate three_cores ≡ ok (some granted)
unfolding allocate candidates consider parse_cpu_list is_empty strip split_on split_once int update
    range contains gate_node will_interleave choose largest_contiguous_run candidate_less best
    format_cpu_list join decimal insert_by first_node sort_by
allocate_sample = refl

allocate-IsPlacementFor_example : IsPlacementFor three_cores granted
allocate-IsPlacementFor_example =
    allocate-IsPlacementFor three_cores granted (omega arith) allocate_sample

memory_high_lem_example :
    ((memory_high 8589934592 < 8589934592) ↔ (gib < 8589934592))
    × (8589934592 ≤ memory_high 8589934592 + 4294967296)
memory_high_lem_example = memory_high_lem 8589934592

nodes-Returns : All (λ node. Returns (parse_cpu_list node.1)) three_cores.numa_nodes
unfolding parse_cpu_list strip split_on split_once is_empty int update add range
nodes-Returns = ((_, refl), ((_, refl), tt))

allocate-none_iff_example :
    (found : Option Placement) × (allocate three_cores ≡ ok found)
    × ((found ≡ none) ↔ All (IsFull three_cores) three_cores.numa_nodes)
allocate-none_iff_example = allocate-none_iff three_cores (omega arith) refl nodes-Returns

block_cores : parse_cpu_list (codes "0-6") ≡ ok (0 ∷ 1 ∷ 2 ∷ 3 ∷ 4 ∷ 5 ∷ 6 ∷ [])
unfolding parse_cpu_list strip split_on split_once is_empty int update add range
block_cores = refl

rank_binding_plan_lem_example :
    (plan : List RankBinding) × (rank_binding_plan (codes "0-6") 3 none ≡ ok plan)
    × (length plan ≡ 3)
    × All (λ b. 7 / 3 ≤ length b.cores) plan
    × (all_cores plan ≡ 0 ∷ 1 ∷ 2 ∷ 3 ∷ 4 ∷ 5 ∷ 6 ∷ [])
rank_binding_plan_lem_example =
    rank_binding_plan_lem (codes "0-6") 3 (0 ∷ 1 ∷ 2 ∷ 3 ∷ 4 ∷ 5 ∷ 6 ∷ []) block_cores (omega arith)
      (omega arith)

allocate-IsPreferred_example : IsPreferred three_cores granted
allocate-IsPreferred_example =
    allocate-IsPreferred three_cores granted (omega arith) allocate_sample
