-- ===== src/Queue/Dict/Tolerance.antt =====
-- What _job_from_dict of nodepilot/config.py asks of an entry, and what it passes over.
use nodepilot.Common.{
  ◌≡◌, refl, sym, ap, ◌∙◌, ◌↔◌, ◌⊎◌, inl, inr, true, false, List, none, err, value_error,
  type_error, ◌≢◌, arith, any_of, Bool-cases, Option-cases,
}
use nodepilot.Common.Text.{Text, codes, text_eq, text_eq_iff}
use nodepilot.Config.{Value, Fields, obj, end, field}
use nodepilot.Queue.{job_from_dict, job_of_known, has_key}
use nodepilot.Queue.Dict.{lookup, keep_known, job_keys, has_only, make_job}

abbrev IsKnown : List Text → Text → Type 0
IsKnown known key = any_of (text_eq key) known ≡ true

lookup-keep_known :
    (known : List Text) (key : Text) (fs : Fields)
    → IsKnown known key
    → lookup key (keep_known known fs) ≡ lookup key fs
unfolding lookup keep_known
lookup-keep_known known key end h = refl
lookup-keep_known known key (field k v rest) h = elim (Bool-cases (text_eq k key)) [
  | inl here ↦
      let same : any_of (text_eq k) known ≡ true =
        ap (λ t. any_of (text_eq t) known) ((text_eq_iff k key).0 here) ∙ h in
      rw (same, here) refl
  | inr there ↦ elim (Bool-cases (any_of (text_eq k) known)) [
    | inl kept ↦ rw (kept, there) (lookup-keep_known known key rest h)
    | inr dropped ↦ rw (dropped, there) (lookup-keep_known known key rest h)
  ]
]

make_job-no_value_error : (fs : Fields) → make_job fs ≢ err value_error
unfolding make_job
make_job-no_value_error fs e = elim (Bool-cases (has_only job_keys fs)) [
  | inl expected ↦ absurd (ground arith)
  | inr unexpected ↦ absurd (ground arith)
]

-- The filter leaves no unexpected keyword.
has_only-keep_known :
    (known : List Text) (fs : Fields) → has_only known (keep_known known fs) ≡ true
unfolding has_only keep_known
has_only-keep_known known end = refl
has_only-keep_known known (field k v rest) = elim (Bool-cases (any_of (text_eq k) known)) [
  | inl kept ↦ rw (kept, has_only-keep_known known rest, kept) refl
  | inr dropped ↦ rw dropped (has_only-keep_known known rest)
]

job_of_known-no_type_error :
    (fs : Fields) → has_only job_keys fs ≡ true → job_of_known fs ≢ err type_error
unfolding job_of_known make_job
job_of_known-no_type_error fs expected e = elim (Bool-cases (has_key (codes "id") fs)) [
  | inr no_id ↦ absurd (ground arith)
  | inl has_id ↦ elim (Bool-cases (has_key (codes "command") fs)) [
    | inr no_command ↦ absurd (ground arith)
    | inl has_command ↦ absurd (ground arith)
  ]
]

missing_iff :
    (fs : Fields)
    → (job_of_known fs ≡ err value_error)
      ↔ ((lookup (codes "id") fs ≡ none) ⊎ (lookup (codes "command") fs ≡ none))
unfolding job_of_known has_key
missing_iff fs = elim (Option-cases (lookup (codes "id") fs)) [
  | inl no_id ↦ rw (job_of_known, has_key, no_id) (λ e. inl refl, λ m. refl)
  | inr (i, has_id) ↦ elim (Option-cases (lookup (codes "command") fs)) [
    | inl no_command ↦ rw (job_of_known, has_key, has_id, no_command) (λ e. inr refl, λ m. refl)
    | inr (c, has_command) ↦
        rw (job_of_known, has_key, has_id, has_command)
          (
            λ e. absurd (make_job-no_value_error fs e),
            λ m. elim m [ inl x ↦ absurd (ground arith) | inr x ↦ absurd (ground arith) ],
          )
  ]
]

-- A dictionary is refused with ValueError exactly when it lacks `id` or `command`.
pub job_from_dict-err_iff :
    (entry : Fields)
    → (job_from_dict (obj entry) ≡ err value_error)
      ↔ ((lookup (codes "id") entry ≡ none) ⊎ (lookup (codes "command") entry ≡ none))
unfolding job_from_dict text_eq
job_from_dict-err_iff entry =
    rw
      (
        sym (lookup-keep_known job_keys (codes "id") entry refl),
        sym (lookup-keep_known job_keys (codes "command") entry refl),
      )
      (missing_iff (keep_known job_keys entry))

-- One mapping after the other.
abbrev pub splice : Fields → Fields → Fields
splice end gs = gs
splice (field k v fs) gs = field k v (splice fs gs)

keep_known-splice :
    (known : List Text) (fs gs : Fields) (key : Text) (v : Value)
    → any_of (text_eq key) known ≡ false
    → keep_known known (splice fs (field key v gs)) ≡ keep_known known (splice fs gs)
unfolding keep_known
keep_known-splice known end gs key v h = rw h refl
keep_known-splice known (field k w fs) gs key v h = rw (keep_known-splice known fs gs key v h) refl

-- An entry with a key that no field of `Job` has, wherever it stands, gives the same job, or the same
-- exception, as the entry without it; and the exception is not a TypeError, which such a keyword of
-- `Job` raises.
pub job_from_dict-splice :
    (before after : Fields) (key : Text) (v : Value)
    → any_of (text_eq key) job_keys ≡ false
    → (job_from_dict (obj (splice before (field key v after)))
        ≡ job_from_dict (obj (splice before after)))
      × (job_from_dict (obj (splice before (field key v after))) ≢ err type_error)
unfolding job_from_dict
job_from_dict-splice before after key v h = (
  ap job_of_known (keep_known-splice job_keys before after key v h),
  job_of_known-no_type_error (keep_known job_keys (splice before (field key v after)))
      (has_only-keep_known job_keys (splice before (field key v after))),
)
