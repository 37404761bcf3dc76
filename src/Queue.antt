-- ===== src/Queue.antt =====
-- Loading a queue, nodepilot/config.py: jobs and tunables from a document. The YAML parser, and the
-- rounding of the RAM budget that is derived from the host, are parameters.
pub mod Dict
pub mod Loading
use nodepilot.Common.{
  ℕ, Bool, true, false, ◌||◌, List, [], ◌∷◌, Option, none, some, ◌==◌, if◌then◌else◌, Result, ok,
  err, value_error, os_error, attribute_error, ◌>>=◌, ◌>>◌, ℤ, pos, negsuc,
}
use nodepilot.Common.Text.{Text, codes, is_empty}
use nodepilot.Config.{
  Value, Items, Fields, null, bool, num, real, str, arr, obj, nil, cons, end, field, Job, Config,
  post_init, validate_unique_ids,
}
use nodepilot.Host.{Host}
use nodepilot.Numa.Topology.{host_physical_cores, host_total_ram_gb}
use Dict.{lookup, keep_known, job_keys, make_job}
use Dict.Tunables.{config_keys, make_config}

-- `key in filtered`
has_key : Text → Fields → Bool
has_key key fs = elim (lookup key fs) [ none ↦ false | some v ↦ true ]

-- The part of `_job_from_dict` after the filter.
job_of_known : Fields → Result (Option Job)
unfolding has_key
job_of_known fs = elim (has_key (codes "id") fs) [
  | false ↦ err value_error
  | true ↦ elim (has_key (codes "command") fs) [ false ↦ err value_error | true ↦ make_job fs ]
]

-- `_job_from_dict`; an entry that is no dict has no `items`.
unfoldable pub job_from_dict : Value → Result (Option Job)
unfolding job_of_known
job_from_dict (obj entry) = job_of_known (keep_known job_keys entry)
job_from_dict _ = err attribute_error

unfoldable pub both {ℓ} : {A : Type ℓ} → Option A → Option (List A) → Option (List A)
both none xs = none
both (some x) none = none
both (some x) (some xs) = some (x ∷ xs)

-- `[_job_from_dict(j) for j in raw]`
unfoldable pub jobs_from : Items → Result (Option (List Job))
unfolding both
jobs_from nil = ok (some [])
jobs_from (cons v vs) = do job ← job_from_dict v; jobs ← jobs_from vs; ok (both job jobs)

-- `not value` of a document
unfoldable pub is_falsy : Value → Bool
is_falsy null = true
is_falsy (bool b) = elim b [ true ↦ false | false ↦ true ]
is_falsy (num n) = elim n [ pos k ↦ k == 0 | negsuc k ↦ false ]
is_falsy (real n) = n == 0
is_falsy (str s) = is_empty s
is_falsy (arr vs) = elim vs [ nil ↦ true | cons v more ↦ false ]
is_falsy (obj fs) = elim fs [ end ↦ true | field k v more ↦ false ]

-- `value or {}`
unfoldable pub or_empty : Value → Value
or_empty v = if is_falsy v then obj end else v

-- What a queue is loaded with.
pub record Loader : Type 0 where
  -- yaml.safe_load
  pub safe_load : Text → Result Value
  -- `round(n * 0.85, 1)` of an amount of RAM
  pub round_ram : ℕ → ℕ
  pub host : Host

module _ (loader : Loader) where
  -- `_config_from_global`
  unfoldable pub config_from_global : Value → Result (Option Config)
  config_from_global block = elim (or_empty block) [
    | obj entry ↦ (do
      made ← make_config (keep_known config_keys entry)
      ok (elim made [
        | none ↦ none
        | some cfg ↦ some (
            post_init (host_physical_cores loader.host)
              (loader.round_ram (host_total_ram_gb loader.host)) cfg)
      ]))
    | _ ↦ err attribute_error
  ]

  -- `doc.get("jobs", [])`, if it is a list
  jobs_raw : Fields → Result Items
  jobs_raw doc = elim (lookup (codes "jobs") doc) [
    | none ↦ ok nil
    | some v ↦ elim v [ arr vs ↦ ok vs | _ ↦ err value_error ]
  ]

  global_block : Fields → Value
  global_block doc = elim (lookup (codes "global") doc) [ none ↦ null | some v ↦ v ]

  -- The tunables and the entries of a document.
  parts : Value → Result (Option Config × Items)
  unfolding jobs_raw global_block
  parts (arr vs) = do config ← config_from_global null; ok (config, vs)
  parts (obj doc) = do
    config ← config_from_global (global_block doc)
    vs ← jobs_raw doc
    ok (config, vs)
  parts _ = err value_error

  -- The check of the ids; a queue with an ill-typed part is not followed further.
  checked : Option Config → Option (List Job) → Result (Option (Config × List Job))
  checked (some config) (some jobs) = validate_unique_ids jobs >> ok (some (config, jobs))
  checked _ _ = ok none

  unfoldable pub queue_of : Value → Result (Option (Config × List Job))
  unfolding parts checked
  queue_of doc = do (config, vs) ← parts (or_empty doc); jobs ← jobs_from vs; checked config jobs

  unfoldable pub load_queue : Text → Result (Option (Config × List Job))
  load_queue path = elim (loader.host.read_text path) [
    | none ↦ err os_error
    | some text ↦ loader.safe_load text >>= queue_of
  ]
