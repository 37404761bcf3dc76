-- ===== src/Cli/Counts.antt =====
-- The counts of the table of nodepilot/cli.py.
use nodepilot.Common.{
  sym, ℕ, ◌+◌, ◌≡◌, refl, ap, ◌∙◌, inl, inr, Bool, List, [], ◌∷◌, Bool-cases, if◌then◌else◌, arith,
}
use nodepilot.Common.Text.{Text, text_eq, text_eq_iff}
use nodepilot.Common.Sort.{insert_by, sort_by}
use nodepilot.Config.{Job}
use nodepilot.Queue.Dict.{status_text}
use nodepilot.Cli.{count_up, tally}

-- `counts.get(s, 0)`
abbrev pub count_of : Text → List (Text × ℕ) → ℕ
count_of s [] = 0
count_of s ((k, n) ∷ counts) = if text_eq k s then n else count_of s counts

-- The number of jobs with a status.
abbrev pub jobs_with : Text → List Job → ℕ
jobs_with s [] = 0
jobs_with s (job ∷ jobs) = (if text_eq (status_text job.status) s then 1 else 0) + jobs_with s jobs

count_of-count_up :
    (s t : Text) (counts : List (Text × ℕ))
    → count_of s (count_up t counts) ≡ (if text_eq t s then 1 else 0) + count_of s counts
unfolding count_up
count_of-count_up s t [] = ground arith
count_of-count_up s t ((k, n) ∷ counts) = elim (Bool-cases (text_eq k t)) [
  | inl here ↦
      let same : text_eq k s ≡ text_eq t s = ap (λ x. text_eq x s) ((text_eq_iff k t).0 here) in
      elim (Bool-cases (text_eq t s)) [ inl this ↦ ground arith | inr that ↦ ground arith ]
  | inr there ↦
      let rest = count_of-count_up s t counts in
      elim (Bool-cases (text_eq k s)) [
        | inr other ↦ ground arith
        | inl named ↦ elim (Bool-cases (text_eq t s)) [
          | inr that ↦ ground arith
          | inl this ↦
              let equal = (text_eq_iff k s).0 named ∙ sym ((text_eq_iff t s).0 this) in
              let clash = (text_eq_iff k t).1 equal in absurd (ground arith)
        ]
      ]
]

tally-count_of :
    (s : Text) (jobs : List Job) (counts : List (Text × ℕ))
    → count_of s (tally jobs counts) ≡ jobs_with s jobs + count_of s counts
unfolding tally
tally-count_of s [] counts = omega arith
tally-count_of s (job ∷ jobs) counts = omega (
  arith,
  tally-count_of s jobs (count_up (status_text job.status) counts),
  count_of-count_up s (status_text job.status) counts,
)

jobs_with-insert_by :
    (s : Text) (less : Job → Job → Bool) (x : Job) (ys : List Job)
    → jobs_with s (insert_by less x ys) ≡ jobs_with s (x ∷ ys)
unfolding insert_by
jobs_with-insert_by s less x [] = refl
jobs_with-insert_by s less x (y ∷ ys) = ground (arith, jobs_with-insert_by s less x ys)

jobs_with-sort_by :
    (s : Text) (less : Job → Job → Bool) (jobs : List Job)
    → jobs_with s (sort_by less jobs) ≡ jobs_with s jobs
unfolding sort_by
jobs_with-sort_by s less [] = refl
jobs_with-sort_by s less (x ∷ xs) =
    omega (arith, jobs_with-insert_by s less x (sort_by less xs), jobs_with-sort_by s less xs)

-- For every status, the counts under the table, which are made over the sorted jobs, name exactly the
-- number of jobs that have it.
pub tally-sort_by :
    (s : Text) (less : Job → Job → Bool) (jobs : List Job)
    → count_of s (tally (sort_by less jobs) []) ≡ jobs_with s jobs
tally-sort_by s less jobs =
    omega (arith, tally-count_of s (sort_by less jobs) [], jobs_with-sort_by s less jobs)
