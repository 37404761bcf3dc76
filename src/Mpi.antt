-- ===== src/Mpi.antt =====
-- nodepilot/mpi.py: the cores of a job laid out to its MPI ranks, and what Open MPI is told.
pub mod Layout
use nodepilot.Common.{
  ℕ, zero, suc, ◌+◌, ◌*◌, ◌/◌, Bool, true, false, List, [], ◌∷◌, ◌++◌, map, Option, none, some, ltb,
  ◌==◌, if◌then◌else◌, Result, ok, err, value_error, ◌>>=◌, length, take, drop, keep, not,
}
use nodepilot.Common.Text.{Text, codes, join, is_empty}
use nodepilot.Common.Decimal.{decimal}
use nodepilot.Numa.CpuList.{parse_cpu_list, format_cpu_list}

pub record RankBinding : Type 0 where
  pub rank : ℕ
  pub cores : List ℕ

abbrev pub cpu_list : RankBinding → Text
cpu_list b = format_cpu_list b.cores

-- The loop over the ranks, from rank `i` on with `left` ranks left; `last` says which rank is the
-- last.
unfoldable pub plan_ranks : (nprocs stride width left i : ℕ) → List ℕ → List RankBinding
plan_ranks nprocs stride width zero i cores = []
plan_ranks nprocs stride width (suc left) i cores =
    let rest = drop (i * stride) cores in
    record { rank = i; cores = if i + 1 == nprocs then rest else take width rest }
    ∷ plan_ranks nprocs stride width left (suc i) cores

unfoldable pub rank_binding_plan :
    Text → ℕ → (threads_per_rank : Option ℕ) → Result (List RankBinding)
rank_binding_plan spec nprocs threads_per_rank = if ltb nprocs 1 then err value_error else (do
  cores ← parse_cpu_list spec
  let stride = length cores / nprocs
  let width : ℕ = elim threads_per_rank [ none ↦ stride | some w ↦ w ]
  (if ltb (length cores) nprocs
      then err value_error
      else ok (plan_ranks nprocs stride (if ltb width 1 then 1 else width) nprocs 0 cores)))

unfoldable pub openmpi_no_bind_env : List (Text × Text)
openmpi_no_bind_env =
    (codes "OMPI_MCA_hwloc_base_binding_policy", codes "none")
    ∷ (codes "OMPI_MCA_rmaps_base_mapping_policy", codes "node")
    ∷ (codes "OMPI_MCA_rmaps_base_ranking_policy", codes "core")
    ∷ []

unfoldable pub openmpi_no_bind_flags : List Text
openmpi_no_bind_flags = codes "--bind-to" ∷ codes "none" ∷ codes "--map-by" ∷ codes "node" ∷ []

has_cores : RankBinding → Bool
has_cores b = elim b.cores [ [] ↦ false | c ∷ cs ↦ true ]

-- One line of the rankfile.
rankfile_line : RankBinding → Text
rankfile_line b = codes "rank " ++ decimal b.rank ++ codes "=localhost slot=" ++ cpu_list b

unfoldable pub openmpi_rankfile : List RankBinding → Text
unfolding has_cores rankfile_line
openmpi_rankfile plan =
    let lines = map rankfile_line (keep has_cores plan) in
    elim lines [ [] ↦ [] | l ∷ ls ↦ join 10 (l ∷ ls) ++ 10 ∷ [] ]

unfoldable pub omp_thread_env : ℕ → List (Text × Text)
omp_thread_env threads =
    (codes "OMP_NUM_THREADS", decimal (if ltb threads 1 then 1 else threads))
    ∷ (codes "OMP_PROC_BIND", codes "close")
    ∷ (codes "OMP_PLACES", codes "cores")
    ∷ []
