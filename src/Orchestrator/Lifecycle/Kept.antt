-- ===== src/Orchestrator/Lifecycle/Kept.antt =====
-- Jobs that are done stay so, and stay the ones that their ids name, while others are launched.
use nodepilot.Common.{
  ◌≡◌, refl, sym, subst, inl, inr, true, false, List, [], ◌∷◌, none, some, arith, Bool-cases,
  Option-cases, All-imp, All2,
}
use nodepilot.Common.Text.{Text, text_eq}
use nodepilot.Config.{Job, done}
use nodepilot.Orchestrator.Dependents.{by_id}
use nodepilot.Orchestrator.Lifecycle.{DepsDone, Starts, Waits}

pub Starts-Waits : (jobs : List Job) (j j' : Job) → Starts jobs j j' → Waits j j'
Starts-Waits jobs j j' (inl same) = inl same
Starts-Waits jobs j j' (inr (same, waits, _, _)) = inr (same, waits)

by_id-none :
    (js js' : List Job) (d : Text) → All2 Waits js js' → by_id js d ≡ none → by_id js' d ≡ none
unfolding by_id
by_id-none [] [] d h e = refl
by_id-none [] (j' ∷ js') d h e = absurd h
by_id-none (j ∷ js) [] d h e = absurd h
by_id-none (j ∷ js) (j' ∷ js') d h e = elim (Option-cases (by_id js d)) [
  | inr (u, found) ↦ absurd (ground arith)
  | inl missing ↦
      let same_id : j'.id ≡ j.id = ground (arith, h.0) in
      let rest = by_id-none js js' d h.1 missing in
      let unnamed : text_eq j.id d ≡ false = ground arith in
      let unnamed' : text_eq j'.id d ≡ false =
        subst (λ t. text_eq t d ≡ false) (sym same_id) unnamed in
      ground arith
]

by_id-done :
    (js js' : List Job) (d : Text) (u : Job)
    → All2 Waits js js'
    → u.status ≡ done
    → by_id js d ≡ some u
    → by_id js' d ≡ some u
unfolding by_id
by_id-done [] [] d u h k e = e
by_id-done [] (j' ∷ js') d u h k e = absurd h
by_id-done (j ∷ js) [] d u h k e = absurd h
by_id-done (j ∷ js) (j' ∷ js') d u h k e = elim (Option-cases (by_id js d)) [
  | inr (v, found) ↦
      let same : v ≡ u = ground arith in
      let rest = by_id-done js js' d u h.1 k (rw same at found) in rw rest
  | inl missing ↦
      let rest = by_id-none js js' d h.1 missing in
      elim (Bool-cases (text_eq j.id d)) [
        | inr other ↦ absurd (ground arith)
        | inl named ↦
            let same : j ≡ u = ground arith in
            let kept : j' ≡ j = elim h.0 [
              | inl k' ↦ k'
              | inr (_, waits) ↦ absurd (let e1 : j.status ≡ done = rw same k in ground arith)
            ] in
            let named' : text_eq j'.id d ≡ true =
              subst (λ (x : Job). text_eq x.id d ≡ true) (sym kept) named in
            ground arith
      ]
]

pub DepsDone-Waits :
    (js js' : List Job) (j : Job) → All2 Waits js js' → DepsDone js j → DepsDone js' j
DepsDone-Waits js js' j h k =
    All-imp _ _
      (λ dep (u, found, is_done_lem). (u, by_id-done js js' dep u h is_done_lem found, is_done_lem))
      j.depends_on k
