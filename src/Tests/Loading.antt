-- ===== src/Tests/Loading.antt =====
-- The theorems on loading, saving and resuming, at concrete inputs.
use nodepilot.Common.{
  ◌≢◌, type_error, err, ◌*◌, ◌≡◌, refl, ◌↔◌, ◌⊎◌, false, [], ◌∷◌, none, some, ok, err, value_error,
  pos, negsuc, any_of,
}
use nodepilot.Common.Text.{Text, codes, text_eq, is_empty, split_on, starts_with, words, strip}
use nodepilot.Common.Decimal.{int}
use nodepilot.Proc.{read_meminfo, meminfo_value}
use nodepilot.Numa.Topology.{host_total_ram_gb, host_physical_cores, count_or_one}
use nodepilot.Config.{
  Value, Fields, num, str, arr, obj, nil, cons, end, field, Job, Config, new_job, gib, post_init,
  validate_unique_ids,
}
use nodepilot.Config.Ids.{HasUniqueIds}
use nodepilot.Queue.{
  Loader, load_queue, queue_of, config_from_global, or_empty, is_falsy, jobs_from, job_from_dict,
  both,
}
use nodepilot.Queue.Dict.{
  lookup, keep_known, has_only, job_fields, job_keys, make_job, job_to_dict, status_of, status_text,
}
use nodepilot.Queue.Dict.Tunables.{config_fields, make_config}
use nodepilot.Queue.Dict.RoundTrip.{job_from_dict-job_to_dict}
use nodepilot.Queue.Dict.Tolerance.{splice, job_from_dict-err_iff, job_from_dict-splice}
use nodepilot.Queue.Loading.{load_queue-HasUniqueIds}
use nodepilot.StateFile.{Disk, Json, write, payload, save_state, load_state, tmp_of, writing}
use nodepilot.StateFile.Atomic.{AllCanonical, load_state-save_state, save_state-Midway}
use nodepilot.Orchestrator.Startup.{Start, from_queue, reset, init_with}
use nodepilot.Orchestrator.Startup.Resume.{from_queue-run, from_queue-reset}
use nodepilot.Tests.{quiet_host, setup, first_job, initial_run}
use nodepilot.Tests.Schedule.{after_run, after_tick, run_sample}

job_from_dict-job_to_dict_example :
    job_from_dict (obj (job_to_dict first_job)) ≡ ok (some first_job)
unfolding status_of status_text text_eq
job_from_dict-job_to_dict_example = job_from_dict-job_to_dict first_job refl

-- An entry without a command.
abbrev half_entry : Fields
half_entry = field (codes "id") (str (codes "a")) (field (codes "cores") (num (pos 2)) end)

job_from_dict-err_iff_example :
    (job_from_dict (obj half_entry) ≡ err value_error)
    ↔ ((lookup (codes "id") half_entry ≡ none) ⊎ (lookup (codes "command") half_entry ≡ none))
job_from_dict-err_iff_example = job_from_dict-err_iff half_entry

abbrev command_field : Fields
command_field = field (codes "command") (str (codes "true")) end

unknown_sample : any_of (text_eq (codes "notes")) job_keys ≡ false
unfolding text_eq
unknown_sample = refl

job_from_dict-splice_example :
    (job_from_dict (obj (splice half_entry (field (codes "notes") (num (pos 1)) command_field)))
      ≡ job_from_dict (obj (splice half_entry command_field)))
    × (job_from_dict (obj (splice half_entry (field (codes "notes") (num (pos 1)) command_field)))
        ≢ err type_error)
job_from_dict-splice_example =
    job_from_dict-splice half_entry command_field (codes "notes") (num (pos 1)) unknown_sample

-- A queue of one job.
abbrev document : Value
document = obj (
    field (codes "global") (obj (field (codes "core_budget") (num (pos 8)) end))
      (field (codes "jobs") (arr (cons (obj (splice half_entry command_field)) nil)) end))

abbrev pub loader : Loader
loader = record {
  safe_load = λ text. ok document;
  round_ram = λ n. n;
  host = record quiet_host { read_text = λ p. some (codes "MemTotal: 1024 kB") };
}

abbrev pub loaded_config : Config
loaded_config = record {
  max_concurrent = 4;
  ram_budget_gb = 1048576;
  core_budget = 8;
  ram_safety_gb = 20 * gib;
  numa_nodes = [];
  reserved_cores = [];
  interleave_threshold_gb = 0;
  memory_slice = codes "nodepilot.slice";
  orchestrator_oom_score_adj = negsuc 799;
  job_oom_score_adj = pos 500;
  oom_cooldown_seconds = 300;
  runner = codes "subprocess";
  poll_interval = 10;
  state_path = codes "nodepilot_state.json";
  log_path = codes "nodepilot.log";
  pause_file = codes ".nodepilot.pause";
}

abbrev pub loaded_job : Job
loaded_job = record (new_job (codes "a") (codes "true")) { cores = 2 }

pub load_sample : load_queue loader (codes "q") ≡ ok (some (loaded_config, loaded_job ∷ []))
unfolding load_queue queue_of config_from_global or_empty is_falsy lookup text_eq jobs_from
    job_from_dict keep_known has_only config_fields job_fields make_config make_job
    validate_unique_ids post_init host_total_ram_gb read_meminfo split_on starts_with words int
    strip is_empty host_physical_cores count_or_one status_of both meminfo_value
load_sample = refl

load_queue-HasUniqueIds_example : HasUniqueIds (loaded_job ∷ [])
load_queue-HasUniqueIds_example =
    load_queue-HasUniqueIds loader (codes "q") loaded_config (loaded_job ∷ []) load_sample

-- A JSON library that knows one document.
abbrev pub json : Json
json = record { dumps = λ v. codes "{}"; loads = λ text. ok (payload 5 after_tick.jobs) }

pub canonical : AllCanonical after_tick.jobs
unfolding status_of status_text text_eq
canonical = (refl, (refl, tt))

abbrev pub no_files : Disk
no_files path = none

abbrev pub state_path : Text
state_path = codes "nodepilot_state.json"

load_state-save_state_example :
    load_state json (save_state json 5 state_path after_tick.jobs no_files) state_path
    ≡ ok (some after_tick.jobs)
load_state-save_state_example =
    load_state-save_state json 5 state_path after_tick.jobs no_files refl canonical

abbrev half_written : Disk
half_written = write (tmp_of state_path) (codes "{") no_files

save_state-Midway_example :
    (load_state json half_written state_path ≡ load_state json no_files state_path)
    ⊎ (load_state json half_written state_path ≡ ok (some after_tick.jobs))
save_state-Midway_example =
    save_state-Midway json 5 state_path after_tick.jobs no_files half_written refl canonical
      (writing 1)

abbrev pub start : Start
start = record { loader = loader; json = json; format_g = λ n. []; world = λ n. quiet_host }

from_queue-run_example :
    from_queue start (save_state json 5 state_path after_tick.jobs no_files) (codes "q")
    ≡ init_with start loaded_config (some after_run.state.jobs)
from_queue-run_example =
    from_queue-run start (codes "q") loaded_config (loaded_job ∷ []) load_sample setup 1 initial_run
      after_run false 5 after_tick.jobs no_files refl run_sample refl refl canonical

from_queue-reset_example :
    from_queue start (reset loaded_config half_written) (codes "q")
    ≡ init_with start loaded_config (some (loaded_job ∷ []))
from_queue-reset_example =
    from_queue-reset start (codes "q") loaded_config (loaded_job ∷ []) load_sample half_written
