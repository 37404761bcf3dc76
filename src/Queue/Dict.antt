-- ===== src/Queue/Dict.antt =====
-- The dictionaries of nodepilot/config.py: a job and the tunables as mappings of a document. The
-- dataclasses take a value of any type; one that is not of its field's type is `none` here.
pub mod Tunables
pub mod RoundTrip
pub mod Tolerance
use nodepilot.Common.{
  ℕ, String, ◌*◌, ◌/◌, Bool, true, false, ◌&&◌, Result, type_error, List, [], ◌∷◌, Option, none,
  some, if◌then◌else◌, ok, err, ℤ, pos, negsuc, any_of,
}
use nodepilot.Common.Text.{Text, codes, text_eq}
use nodepilot.Common.Decimal.{int, show}
use nodepilot.Config.{
  Value, Items, Fields, null, bool, num, real, str, arr, obj, nil, cons, end, field, Job, Config,
  JobStatus, pending, running, done, failed, skipped, dormant, other, gib,
}

infixl 1 ◌>>=◌
abbrev ◌>>=◌ {ℓ κ} : {A : Type ℓ} {B : Type κ} → Option A → (A → Option B) → Option B
none >>= rest = none
some a >>= rest = rest a

-- `d[key]` of a dict, which has a key once
unfoldable pub lookup : Text → Fields → Option Value
lookup key end = none
lookup key (field k v rest) = let later = lookup key rest in if text_eq k key then some v else later

-- `{k: v for k, v in data.items() if k in known}`
unfoldable pub keep_known : List Text → Fields → Fields
keep_known known end = end
keep_known known (field k v rest) =
    let kept = keep_known known rest in if any_of (text_eq k) known then field k v kept else kept

as_text : Value → Option Text
as_text (str s) = some s
as_text _ = none

as_nat : Value → Option ℕ
as_nat (num (pos n)) = some n
as_nat _ = none

as_int : Value → Option ℤ
as_int (num n) = some n
as_int _ = none

as_bool : Value → Option Bool
as_bool (bool b) = some b
as_bool _ = none

-- Amounts of RAM in bytes, and times in microseconds.
as_gb : Value → Option ℕ
as_gb (num (pos n)) = some (n * gib)
as_gb (real n) = some (n / 1000000)
as_gb _ = none

as_time : Value → Option ℕ
as_time (num (pos n)) = some (n * 1000000)
as_time (real n) = some (n / 1073741824)
as_time _ = none

texts_of : Items → Option (List Text)
unfolding as_text
texts_of nil = some []
texts_of (cons v vs) = do t ← as_text v; ts ← texts_of vs; some (t ∷ ts)

as_texts : Value → Option (List Text)
unfolding texts_of
as_texts (arr vs) = texts_of vs
as_texts _ = none

env_of : Fields → Option (List (Text × Text))
unfolding as_text
env_of end = some []
env_of (field k v rest) = do t ← as_text v; ts ← env_of rest; some ((k, t) ∷ ts)

as_env : Value → Option (List (Text × Text))
unfolding env_of
as_env (obj fs) = env_of fs
as_env _ = none

as_exit_code : Value → Option (Option ℤ)
as_exit_code null = some none
as_exit_code (num n) = some (some n)
as_exit_code _ = none

as_fields : Value → Option Fields
as_fields (obj fs) = some fs
as_fields _ = none

-- The text of a status, and the status of a text.
unfoldable pub status_text : JobStatus → Text
status_text pending = codes "pending"
status_text running = codes "running"
status_text done = codes "done"
status_text failed = codes "failed"
status_text skipped = codes "skipped"
status_text dormant = codes "dormant"
status_text (other s) = s

unfoldable pub status_of : Text → JobStatus
status_of s =
    if text_eq s (codes "pending")
    then pending
    else if text_eq s (codes "running")
    then running
    else if text_eq s (codes "done")
    then done
    else if text_eq s (codes "failed")
    then failed
    else if text_eq s (codes "skipped")
    then skipped
    else if text_eq s (codes "dormant")
    then dormant
    else other s

as_status : Value → Option JobStatus
unfolding status_of
as_status (str s) = some (status_of s)
as_status _ = none

-- A field, or its default.
get_or {ℓ} : {A : Type ℓ} → Fields → String → A → (Value → Option A) → Option A
get_or fs key default read = elim (lookup (codes key) fs) [ none ↦ some default | some v ↦ read v ]

-- `{f.name for f in fields(Job)}`
abbrev pub job_keys : List Text
job_keys =
    codes "id"
    ∷ codes "command"
    ∷ codes "cores"
    ∷ codes "ram_gb"
    ∷ codes "maxcore"
    ∷ codes "nprocs"
    ∷ codes "depends_on"
    ∷ codes "priority"
    ∷ codes "exclusive"
    ∷ codes "workdir"
    ∷ codes "env"
    ∷ codes "status"
    ∷ codes "session"
    ∷ codes "cpu_list"
    ∷ codes "numa_node"
    ∷ codes "start_time"
    ∷ codes "end_time"
    ∷ codes "failure_reason"
    ∷ codes "exit_code"
    ∷ codes "metadata"
    ∷ []

-- The values of a job's fields.
unfoldable pub job_fields : Fields → Option Job
unfolding get_or as_text as_nat as_int as_bool as_gb as_time as_texts as_env as_exit_code as_fields
    as_status
job_fields fs = do
  id ← get_or fs "id" [] as_text
  command ← get_or fs "command" [] as_text
  cores ← get_or fs "cores" 1 as_nat
  ram_gb ← get_or fs "ram_gb" 4294967296 as_gb
  maxcore ← get_or fs "maxcore" 0 as_nat
  nprocs ← get_or fs "nprocs" 0 as_nat
  depends_on ← get_or fs "depends_on" [] as_texts
  priority ← get_or fs "priority" (pos 100) as_int
  exclusive ← get_or fs "exclusive" false as_bool
  workdir ← get_or fs "workdir" [] as_text
  env ← get_or fs "env" [] as_env
  status ← get_or fs "status" pending as_status
  session ← get_or fs "session" [] as_text
  cpu_list ← get_or fs "cpu_list" [] as_text
  numa_node ← get_or fs "numa_node" (negsuc 0) as_int
  start_time ← get_or fs "start_time" 0 as_time
  end_time ← get_or fs "end_time" 0 as_time
  failure_reason ← get_or fs "failure_reason" [] as_text
  exit_code ← get_or fs "exit_code" none as_exit_code
  metadata ← get_or fs "metadata" end as_fields
  some (record {
    id = id;
    command = command;
    cores = cores;
    ram_gb = ram_gb;
    maxcore = maxcore;
    nprocs = nprocs;
    depends_on = depends_on;
    priority = priority;
    exclusive = exclusive;
    workdir = workdir;
    env = env;
    status = status;
    session = session;
    cpu_list = cpu_list;
    numa_node = numa_node;
    start_time = start_time;
    end_time = end_time;
    failure_reason = failure_reason;
    exit_code = exit_code;
    metadata = metadata;
  })

-- Every key is the name of a field.
unfoldable pub has_only : List Text → Fields → Bool
has_only known end = true
has_only known (field k v rest) = any_of (text_eq k) known && has_only known rest

-- `Job(**filtered)`: an unexpected keyword raises TypeError.
unfoldable pub make_job : Fields → Result (Option Job)
make_job fs = if has_only job_keys fs then ok (job_fields fs) else err type_error

texts_items : List Text → Items
texts_items [] = nil
texts_items (t ∷ ts) = cons (str t) (texts_items ts)

env_fields : List (Text × Text) → Fields
env_fields [] = end
env_fields ((k, t) ∷ env) = field k (str t) (env_fields env)

exit_code_value : Option ℤ → Value
exit_code_value none = null
exit_code_value (some n) = num n

-- The fields that the orchestrator fills in.
job_run_dict : Job → Fields
unfolding status_text exit_code_value
job_run_dict job = field (codes "status") (str (status_text job.status)) (
    field (codes "session") (str job.session) (
      field (codes "cpu_list") (str job.cpu_list) (
        field (codes "numa_node") (num job.numa_node) (
          field (codes "start_time") (real (job.start_time * 1073741824)) (
            field (codes "end_time") (real (job.end_time * 1073741824)) (
              field (codes "failure_reason") (str job.failure_reason) (
                field (codes "exit_code") (exit_code_value job.exit_code)
                  (field (codes "metadata") (obj job.metadata) end))))))))

-- `asdict(job)`
unfoldable pub job_to_dict : Job → Fields
unfolding texts_items env_fields job_run_dict
job_to_dict job = field (codes "id") (str job.id) (
    field (codes "command") (str job.command) (
      field (codes "cores") (num (pos job.cores)) (
        field (codes "ram_gb") (real (job.ram_gb * 1000000)) (
          field (codes "maxcore") (num (pos job.maxcore)) (
            field (codes "nprocs") (num (pos job.nprocs)) (
              field (codes "depends_on") (arr (texts_items job.depends_on)) (
                field (codes "priority") (num job.priority) (
                  field (codes "exclusive") (bool job.exclusive) (
                    field (codes "workdir") (str job.workdir)
                      (field (codes "env") (obj (env_fields job.env)) (job_run_dict job)))))))))))
