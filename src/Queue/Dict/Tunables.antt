-- ===== src/Queue/Dict/Tunables.antt =====
-- The `global:` block of a queue, nodepilot/config.py: the tunables as a mapping of a document.
use nodepilot.Common.{
  ℕ, ◌*◌, List, [], ◌∷◌, Option, none, some, ok, err, Result, type_error, ◌==◌, if◌then◌else◌, pos,
  negsuc,
}
use nodepilot.Common.Text.{Text, codes}
use nodepilot.Common.Decimal.{int, show}
use nodepilot.Config.{Value, Fields, num, str, obj, end, field, Config, gib}
use nodepilot.Queue.Dict.{◌>>=◌, get_or, as_text, as_nat, as_int, as_gb, has_only}

-- `d[i] = s`: a key that is there keeps its place.
set_node : ℕ → Text → List (ℕ × Text) → List (ℕ × Text)
set_node i s [] = (i, s) ∷ []
set_node i s ((j, t) ∷ ns) =
    let rest = set_node i s ns in if i == j then (j, s) ∷ ns else (j, t) ∷ rest

-- `{int(k): str(v) for k, v in items}`, as `numa_nodes_resolved` reads them: of several keys with the
-- same number, the last gives the value.
nodes_from : List (ℕ × Text) → Fields → Option (List (ℕ × Text))
unfolding set_node
nodes_from ns end = some ns
nodes_from ns (field k v rest) = do
  n ← elim (int k) [ err e ↦ none | ok z ↦ some z ]
  i ← elim n [ pos i ↦ some i | negsuc i ↦ none ]
  s ← elim v [ str s ↦ some s | num z ↦ some (show z) | _ ↦ none ]
  nodes_from (set_node i s ns) rest

nodes_of : Fields → Option (List (ℕ × Text))
unfolding nodes_from
nodes_of fs = nodes_from [] fs

as_nodes : Value → Option (List (ℕ × Text))
unfolding nodes_of
as_nodes (obj fs) = nodes_of fs
as_nodes _ = none

-- `{f.name for f in fields(Config)}`
abbrev pub config_keys : List Text
config_keys =
    codes "max_concurrent"
    ∷ codes "ram_budget_gb"
    ∷ codes "core_budget"
    ∷ codes "ram_safety_gb"
    ∷ codes "numa_nodes"
    ∷ codes "reserved_cores"
    ∷ codes "interleave_threshold_gb"
    ∷ codes "memory_slice"
    ∷ codes "orchestrator_oom_score_adj"
    ∷ codes "job_oom_score_adj"
    ∷ codes "oom_cooldown_seconds"
    ∷ codes "runner"
    ∷ codes "poll_interval"
    ∷ codes "state_path"
    ∷ codes "log_path"
    ∷ codes "pause_file"
    ∷ []

-- `Config(**filtered)`, before `__post_init__`
-- The values of the tunables.
unfoldable pub config_fields : Fields → Option Config
unfolding get_or as_text as_nat as_int as_gb as_nodes
config_fields fs = do
  max_concurrent ← get_or fs "max_concurrent" 4 as_nat
  ram_budget_gb ← get_or fs "ram_budget_gb" 0 as_gb
  core_budget ← get_or fs "core_budget" 0 as_nat
  ram_safety_gb ← get_or fs "ram_safety_gb" (20 * gib) as_gb
  numa_nodes ← get_or fs "numa_nodes" [] as_nodes
  reserved_cores ← get_or fs "reserved_cores" [] as_text
  interleave_threshold_gb ← get_or fs "interleave_threshold_gb" 0 as_gb
  memory_slice ← get_or fs "memory_slice" (codes "nodepilot.slice") as_text
  orchestrator_oom_score_adj ← get_or fs "orchestrator_oom_score_adj" (negsuc 799) as_int
  job_oom_score_adj ← get_or fs "job_oom_score_adj" (pos 500) as_int
  oom_cooldown_seconds ← get_or fs "oom_cooldown_seconds" 300 as_nat
  runner ← get_or fs "runner" (codes "subprocess") as_text
  poll_interval ← get_or fs "poll_interval" 10 as_nat
  state_path ← get_or fs "state_path" (codes "nodepilot_state.json") as_text
  log_path ← get_or fs "log_path" (codes "nodepilot.log") as_text
  pause_file ← get_or fs "pause_file" (codes ".nodepilot.pause") as_text
  some (record {
    max_concurrent = max_concurrent;
    ram_budget_gb = ram_budget_gb;
    core_budget = core_budget;
    ram_safety_gb = ram_safety_gb;
    numa_nodes = numa_nodes;
    reserved_cores = reserved_cores;
    interleave_threshold_gb = interleave_threshold_gb;
    memory_slice = memory_slice;
    orchestrator_oom_score_adj = orchestrator_oom_score_adj;
    job_oom_score_adj = job_oom_score_adj;
    oom_cooldown_seconds = oom_cooldown_seconds;
    runner = runner;
    poll_interval = poll_interval;
    state_path = state_path;
    log_path = log_path;
    pause_file = pause_file;
  })

-- `Config(**filtered)` before `__post_init__`: an unexpected keyword raises TypeError.
unfoldable pub make_config : Fields → Result (Option Config)
make_config fs = if has_only config_keys fs then ok (config_fields fs) else err type_error
