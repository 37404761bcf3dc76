-- ===== src/Orchestrator/Dependents/Lookup.antt =====
-- The lookup of a job by its id in nodepilot/orchestrator.py.
use nodepilot.Common.{
  ◌≡◌, ◌≢◌, ◌++◌, none, ap, refl, subst, inl, inr, Bool, true, List, [], ◌∷◌, some, arith,
  Bool-cases, Option-cases, All, any_of,
}
use nodepilot.Common.Text.{Text, text_eq, text_eq_iff}
use nodepilot.Config.{Job}
use nodepilot.Orchestrator.Dependents.{by_id}

-- The job with this id is the last of the list that has it, as `by_id` finds it.
module _ (P : Job → Type 0) where
  pub by_id-All :
      (jobs : List Job) (d : Text) (u : Job) → All P jobs → by_id jobs d ≡ some u → P u × (u.id ≡ d)
  unfolding by_id
  by_id-All [] d u h e = absurd (ground arith)
  by_id-All (j ∷ js) d u h e = elim (Option-cases (by_id js d)) [
    | inr (v, found) ↦ let same : v ≡ u = ground arith in by_id-All js d u h.1 (rw same at found)
    | inl missing ↦ elim (Bool-cases (text_eq j.id d)) [
      | inr other ↦ absurd (ground arith)
      | inl named ↦
          let same : j ≡ u = ground arith in
          subst (λ x. P x × (x.id ≡ d)) same (h.0, (text_eq_iff j.id d).0 named)
    ]
  ]

-- The job is the last of the list that has the id.
pub record IsLast (jobs : List Job) (id : Text) (u : Job) : Type 0 where
  pub before : List Job
  pub after : List Job
  pub split : jobs ≡ before ++ u ∷ after
  pub named : u.id ≡ id
  pub last : All (λ j. j.id ≢ id) after

by_id-none : (jobs : List Job) (d : Text) → by_id jobs d ≡ none → All (λ j. j.id ≢ d) jobs
unfolding by_id
by_id-none [] d e = tt
by_id-none (j ∷ js) d e = elim (Option-cases (by_id js d)) [
  | inr (v, found) ↦ absurd (ground arith)
  | inl missing ↦ elim (Bool-cases (text_eq j.id d)) [
    | inl named ↦ absurd (ground arith)
    | inr other ↦ (
      λ same. absurd (let named = (text_eq_iff j.id d).1 same in ground arith),
      by_id-none js d missing,
    )
  ]
]

pub by_id-IsLast : (jobs : List Job) (d : Text) (u : Job) → by_id jobs d ≡ some u → IsLast jobs d u
unfolding by_id
by_id-IsLast [] d u e = absurd (ground arith)
by_id-IsLast (j ∷ js) d u e = elim (Option-cases (by_id js d)) [
  | inr (v, found) ↦
      let same : v ≡ u = ground arith in
      let last = by_id-IsLast js d u (rw same at found) in
      record {
        before = j ∷ last.before;
        after = last.after;
        split = ap (◌∷◌ j) last.split;
        named = last.named;
        last = last.last;
      }
  | inl missing ↦ elim (Bool-cases (text_eq j.id d)) [
    | inr other ↦ absurd (ground arith)
    | inl named ↦
        let same : j ≡ u = ground arith in
        record {
          before = [];
          after = js;
          split = ap (λ x. x ∷ js) same;
          named = subst (λ x. x.id ≡ d) same ((text_eq_iff j.id d).0 named);
          last = by_id-none js d missing;
        }
  ]
]

-- Some job of the list has the id.
abbrev pub has_id : List Job → Text → Bool
has_id jobs d = any_of (λ j. text_eq j.id d) jobs

pub has_id-by_id :
    (jobs : List Job) (d : Text) → has_id jobs d ≡ true → (u : Job) × (by_id jobs d ≡ some u)
unfolding by_id
has_id-by_id [] d h = absurd (ground arith)
has_id-by_id (j ∷ js) d h = elim (Option-cases (by_id js d)) [
  | inr (v, found) ↦ (v, rw found refl)
  | inl missing ↦ elim (Bool-cases (text_eq j.id d)) [
    | inl named ↦ (j, rw (missing, named) refl)
    | inr other ↦ let (v, found) = has_id-by_id js d (rw other at h) in absurd (ground arith)
  ]
]
