-- ===== src/Queue/Dict/RoundTrip.antt =====
-- _job_from_dict of nodepilot/config.py against job_to_dict.
use nodepilot.Common.{ℕ, ◌*◌, ◌/◌, ◌≡◌, refl, List, [], ◌∷◌, Option, none, some, ok, ℤ, arith}
use nodepilot.Common.Text.{Text, text_eq}
use nodepilot.Config.{obj, Job, JobStatus}
use nodepilot.Queue.{job_from_dict, job_of_known, has_key}
use nodepilot.Queue.Dict.{
  lookup, keep_known, has_only, job_fields, make_job, job_to_dict, job_run_dict, get_or, as_text,
  as_nat, as_int, as_bool, as_gb, as_time, as_texts, texts_of, as_env, env_of, as_exit_code,
  as_fields, as_status, status_of, status_text, texts_items, env_fields, exit_code_value,
}

texts_of-texts_items : (ts : List Text) → texts_of (texts_items ts) ≡ some ts
unfolding texts_of texts_items
texts_of-texts_items [] = refl
texts_of-texts_items (t ∷ ts) = rw (texts_of-texts_items ts)

env_of-env_fields : (env : List (Text × Text)) → env_of (env_fields env) ≡ some env
unfolding env_of env_fields
env_of-env_fields [] = refl
env_of-env_fields ((k, t) ∷ env) = rw (env_of-env_fields env)

as_exit_code-exit_code_value : (code : Option ℤ) → as_exit_code (exit_code_value code) ≡ some code
unfolding as_exit_code exit_code_value
as_exit_code-exit_code_value none = refl
as_exit_code-exit_code_value (some n) = refl

-- The status is one that its own text names: it is a constant of `JobStatus`, or no such text.
abbrev pub IsCanonical : JobStatus → Type 0
IsCanonical s = status_of (status_text s) ≡ s

gb_back : (n : ℕ) → n * 1000000 / 1000000 ≡ n
gb_back n = omega arith

time_back : (n : ℕ) → n * 1073741824 / 1073741824 ≡ n
time_back n = omega arith

-- A job whose status is a constant of `JobStatus`, or a text that is none of them, is read back from
-- its dictionary as it was, with every field.
pub job_from_dict-job_to_dict :
    (job : Job) → IsCanonical job.status → job_from_dict (obj (job_to_dict job)) ≡ ok (some job)
unfolding job_from_dict job_of_known has_key keep_known has_only job_fields make_job job_to_dict
    job_run_dict get_or lookup text_eq as_text as_nat as_int as_bool as_gb as_time as_texts as_env
    as_fields as_status
job_from_dict-job_to_dict job canonical =
    rw
      (
        texts_of-texts_items job.depends_on,
        env_of-env_fields job.env,
        canonical,
        as_exit_code-exit_code_value job.exit_code,
        gb_back job.ram_gb,
        time_back job.start_time,
        time_back job.end_time,
      )
      refl
