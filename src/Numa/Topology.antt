-- ===== src/Numa/Topology.antt =====
-- detect, detect_smt_secondary and node_memory_gb of nodepilot/numa.py, and the probes of the host
-- in nodepilot/config.py.
pub mod Siblings
pub mod Nodes
use nodepilot.Common.{
  ℕ, ◌+◌, ◌*◌, Bool, true, false, not, List, [], ◌∷◌, ◌++◌, Option, none, some, ltb, ◌==◌,
  if◌then◌else◌, Result, ok, err, ◌>>=◌, ℤ, pos, negsuc, pos_part, length, drop, get_elem?, keep,
}
use nodepilot.Common.Text.{
  Text, codes, strip, is_empty, under, words, lines, rstrip_char, text_eq, text_less,
}
use nodepilot.Common.Decimal.{int, decimal}
use nodepilot.Common.Sort.{sort_by}
use nodepilot.Host.{Host}
use nodepilot.Proc.{read_meminfo}
use nodepilot.Numa.Cores.{CoreSet, contains, update, range}
use nodepilot.Numa.CpuList.{parse_cpu_list, format_cpu_list}

abbrev pub sys_node : Text
sys_node = codes "/sys/devices/system/node"

abbrev pub sys_cpu : Text
sys_cpu = codes "/sys/devices/system/cpu"

-- `nodes[idx] = spec`: a key that is there keeps its place.
unfoldable pub put_node : ℕ → Text → List (ℕ × Text) → List (ℕ × Text)
put_node idx spec [] = (idx, spec) ∷ []
put_node idx spec ((k, s) ∷ nodes) =
    let rest = put_node idx spec nodes in if k == idx then (idx, spec) ∷ nodes else (k, s) ∷ rest

-- The index in the name of a node's directory. The glob lets no sign follow the word `node`.
node_index : Text → Option ℕ
node_index name = elim (int (drop 4 name)) [
  | err e ↦ none
  | ok n ↦ elim n [ pos k ↦ some k | negsuc k ↦ none ]
]

-- `child / "cpulist"`, stripped.
node_spec : Host → Text → Option Text
node_spec h name = elim (h.read_text (under (under sys_node name) (codes "cpulist"))) [
  | none ↦ none
  | some text ↦ let spec = strip text in if is_empty spec then none else some spec
]

-- The loop over the directories of the nodes.
unfoldable pub collect_nodes : Host → List Text → List (ℕ × Text) → List (ℕ × Text)
unfolding node_index node_spec
collect_nodes h [] nodes = nodes
collect_nodes h (name ∷ names) nodes = collect_nodes h names (elim (node_index name) [
  | none ↦ nodes
  | some idx ↦ elim (node_spec h name) [ none ↦ nodes | some spec ↦ put_node idx spec nodes ]
])

-- `os.cpu_count() or 1`
unfoldable pub count_or_one : Option ℕ → ℕ
count_or_one none = 1
count_or_one (some n) = if n == 0 then 1 else n

-- The nodes that sysfs names.
unfoldable pub sysfs_nodes : Host → List (ℕ × Text)
sysfs_nodes h =
    if h.is_dir sys_node
    then collect_nodes h (sort_by text_less (h.glob sys_node (codes "node"))) []
    else []

-- One node with every CPU, where sysfs names none.
unfoldable pub or_one_node : List (ℕ × Text) → List ℕ → List (ℕ × Text)
or_one_node [] cpus = (0, format_cpu_list cpus) ∷ []
or_one_node (n ∷ ns) cpus = n ∷ ns

unfoldable pub detect : Host → List (ℕ × Text)
detect h =
    or_one_node (sysfs_nodes h)
      (elim h.affinity [ some cpus ↦ cpus | none ↦ range 0 (count_or_one h.cpu_count) ])

-- `_host_physical_cores`
unfoldable pub host_physical_cores : Host → ℕ
host_physical_cores h = elim h.affinity [
  | some cpus ↦ length cpus
  | none ↦ count_or_one h.cpu_count
]

-- `_host_total_ram_gb`, in bytes
unfoldable pub host_total_ram_gb : Host → ℕ
host_total_ram_gb h = elim (read_meminfo h (codes "MemTotal:")) [ none ↦ 0 | some n ↦ n ]

-- The sibling group of one CPU, if its file is there and well formed.
unfoldable pub sibling_group : Host → Text → Option CoreSet
sibling_group h name =
    elim (h.read_text
      (under (under (under sys_cpu name) (codes "topology")) (codes "thread_siblings_list"))) [
        | none ↦ none
        | some text ↦ elim (parse_cpu_list (strip text)) [ ok group ↦ some group | err e ↦ none ]
      ]

-- The loop over the CPUs: `seen` and `secondary`. The least core of a group stands at its head.
unfoldable pub smt_step : CoreSet × CoreSet → CoreSet → CoreSet × CoreSet
smt_step (seen, secondary) [] = (seen, secondary)
smt_step (seen, secondary) (primary ∷ group) =
    if contains primary seen then (seen, secondary) else (
      update (primary ∷ group) seen,
      update (keep (λ c. not (c == primary)) (primary ∷ group)) secondary,
    )

unfoldable pub smt_loop : CoreSet × CoreSet → List CoreSet → CoreSet × CoreSet
unfolding smt_step
smt_loop s [] = s
smt_loop s (group ∷ groups) = smt_loop (smt_step s group) groups

-- The groups that are read; a CPU without one is passed over.
unfoldable pub sibling_groups : Host → List Text → List CoreSet
sibling_groups h [] = []
sibling_groups h (name ∷ names) =
    let rest = sibling_groups h names in
    elim (sibling_group h name) [ none ↦ rest | some g ↦ g ∷ rest ]

unfoldable pub detect_smt_secondary : Host → CoreSet
detect_smt_secondary h =
    if h.is_dir sys_cpu
    then (smt_loop ([], []) (sibling_groups h (h.glob sys_cpu (codes "cpu")))).1
    else []

-- What a node's meminfo has said so far, in KiB.
pub record NodeMemory : Type 0 where
  pub active_anon : ℤ
  pub inactive_anon : ℤ
  pub free : ℤ

note : Text → ℤ → NodeMemory → NodeMemory
note key val m =
    if text_eq key (codes "MemFree")
    then record m { free = val }
    else if text_eq key (codes "Active(anon)")
    then record m { active_anon = val }
    else if text_eq key (codes "Inactive(anon)")
    then record m { inactive_anon = val }
    else m

-- One line; one with fewer than four words is passed over.
note_line : Text → NodeMemory → Result NodeMemory
unfolding note
note_line line m = elim (words line) [
  | a ∷ b ∷ key ∷ val ∷ more ↦ (do n ← int val; ok (note (rstrip_char b':' key) n m))
  | _ ↦ ok m
]

note_lines : List Text → NodeMemory → Result NodeMemory
unfolding note_line
note_lines [] m = ok m
note_lines (line ∷ rest) m = do m' ← note_line line m; note_lines rest m'

-- `node_memory_gb`, before the division into GiB.
unfoldable pub node_memory : Host → ℕ → Option NodeMemory
unfolding note_lines
node_memory h node =
    elim (h.read_text (under (under sys_node (codes "node" ++ decimal node)) (codes "meminfo"))) [
      | none ↦ none
      | some text ↦
          elim (note_lines (lines text)
            (record { active_anon = pos 0; inactive_anon = pos 0; free = pos 0 })) [
              | err e ↦ none
              | ok m ↦ some m
            ]
    ]

-- Its two numbers, in bytes. (The kernel prints no negative number.)
unfoldable pub node_memory_gb : Host → ℕ → Option (ℕ × ℕ)
node_memory_gb h node = elim (node_memory h node) [
  | none ↦ none
  | some m ↦
      some ((pos_part m.active_anon + pos_part m.inactive_anon) * 1024, pos_part m.free * 1024)
]
