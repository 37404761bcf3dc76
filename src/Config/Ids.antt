-- ===== src/Config/Ids.antt =====
-- _validate_unique_ids of nodepilot/config.py, against the uniqueness of ids.
use nodepilot.Common.{
  ◌≡◌, refl, ◌≢◌, ◌↔◌, false, List, [], ◌∷◌, arith, ok, All, All-imp, All-and, any_of, inl, inr,
  Bool-cases,
}
use nodepilot.Common.Text.{Text, text_eq, text_eq_iff}
use nodepilot.Config.{Job, unique_from, validate_unique_ids}

-- No two jobs of the list have one id.
abbrev pub HasUniqueIds : List Job → Type 0
HasUniqueIds [] = Unit
HasUniqueIds (job ∷ jobs) = All (λ other. other.id ≢ job.id) jobs × HasUniqueIds jobs

abbrev IsFresh : List Text → Job → Type 0
IsFresh seen job = any_of (text_eq job.id) seen ≡ false

module _ (seen : List Text) (job : Job) where
  IsFresh-cons :
      (other : Job) → IsFresh seen other → other.id ≢ job.id → IsFresh (job.id ∷ seen) other
  IsFresh-cons other h d = ground (arith, text_eq_iff other.id job.id)

  IsFresh-parts :
      (other : Job) → IsFresh (job.id ∷ seen) other → IsFresh seen other × (other.id ≢ job.id)
  IsFresh-parts other h = (ground arith, ground (arith, text_eq_iff other.id job.id))

fresh-unique_from :
    (seen : List Text) (jobs : List Job)
    → All (IsFresh seen) jobs
    → HasUniqueIds jobs
    → unique_from seen jobs ≡ ok tt
unfolding unique_from
fresh-unique_from seen [] h u = refl
fresh-unique_from seen (job ∷ jobs) h u = rw h.0 (
    fresh-unique_from (job.id ∷ seen) jobs
      (All-imp _ (IsFresh (job.id ∷ seen)) (λ other k. IsFresh-cons seen job other k.0 k.1) jobs
        (All-and (IsFresh seen) (λ other. other.id ≢ job.id) jobs h.1 u.0))
      u.1)

unique_from-IsFresh :
    (seen : List Text) (jobs : List Job)
    → unique_from seen jobs ≡ ok tt
    → All (IsFresh seen) jobs × HasUniqueIds jobs
unfolding unique_from
unique_from-IsFresh seen [] e = (tt, tt)
unique_from-IsFresh seen (job ∷ jobs) e = elim (Bool-cases (any_of (text_eq job.id) seen)) [
  | inl old ↦ absurd (ground arith)
  | inr new ↦
      let (fresh, unique) = unique_from-IsFresh (job.id ∷ seen) jobs (ground arith) in
      (
        (new, All-imp _ (IsFresh seen) (λ other k. (IsFresh-parts seen job other k).0) jobs fresh),
        (
          All-imp _ (λ other. other.id ≢ job.id) (λ other k. (IsFresh-parts seen job other k).1)
              jobs fresh,
          unique,
        ),
      )
]

-- The check of a queue's ids passes exactly when no two jobs have one id.
pub validate_unique_ids_iff :
    (jobs : List Job) → (validate_unique_ids jobs ≡ ok tt) ↔ HasUniqueIds jobs
unfolding validate_unique_ids
validate_unique_ids_iff jobs =
    (λ e. (unique_from-IsFresh [] jobs e).1, λ u. fresh-unique_from [] jobs (all_fresh jobs) u)
  where
    all_fresh : (js : List Job) → All (IsFresh []) js
    all_fresh [] = tt
    all_fresh (j ∷ js) = (refl, all_fresh js)
