-- ===== src/Numa/Allocate/Complete.antt =====
-- When `allocate` defers a request.
use nodepilot.Common.{
  ℕ, ◌<◌, ◌≡◌, refl, ◌↔◌, inl, inr, Bool, false, not, ◌==◌, List, [], ◌∷◌, Option, none, some,
  arith, Returns, ok, >>=-eq-ok, All, length, keep, ltb, Bool-cases, Option-cases,
}
use nodepilot.Common.Text.{Text}
use nodepilot.Common.Sort.{sort_by, insert_by}
use nodepilot.Numa.Cores.{CoreSet, contains}
use nodepilot.Numa.CpuList.{parse_cpu_list}
use nodepilot.Numa.Allocate.{
  Placement, Request, Candidate, gate_node, consider, candidates, candidate_less, best, allocate,
}

-- The node has fewer free cores than are asked for.
abbrev pub IsFull : Request → ℕ × Text → Type 0
IsFull r node =
    (s : CoreSet)
    → parse_cpu_list node.1 ≡ ok s
    → length (keep (λ c. not (contains c r.occupied)) s) < r.n_cores

module _ (r : Request) where
  consider-none :
      (node : ℕ) (spec : Text)
      → r.node_ram_cap_gb ≡ 0
      → (consider r node spec ≡ ok none → IsFull r (node, spec))
  unfolding consider gate_node
  consider-none node spec off e s parsed =
      elim (Bool-cases (ltb (length (keep (λ c. not (contains c r.occupied)) s)) r.n_cores)) [
        | inl few ↦ ground arith
        | inr enough ↦ absurd (ground arith)
      ]

  consider-some :
      (node : ℕ) (spec : Text) (c : Candidate)
      → consider r node spec ≡ ok (some c)
      → ¬ IsFull r (node, spec)
  unfolding consider
  consider-some node spec c e full =
      let (s, parsed, e') = >>=-eq-ok (parse_cpu_list spec) _ e in
      let few = full s parsed in ground arith

  candidates_nil :
      (nodes : List (ℕ × Text)) (found : List Candidate)
      → r.node_ram_cap_gb ≡ 0
      → candidates r nodes ≡ ok found
      → (found ≡ []) ↔ All (IsFull r) nodes
  unfolding candidates
  candidates_nil [] found off e = (λ _. tt, λ _. ground arith)
  candidates_nil ((node, spec) ∷ nodes) found off e =
      let (first, e1, e') = >>=-eq-ok (consider r node spec) _ e in
      let (rest, e2, e'') = >>=-eq-ok (candidates r nodes) _ e' in
      let others = candidates_nil nodes rest off e2 in
      elim (Option-cases first) [
        | inl nothing ↦ (
          λ empty. (consider-none node spec off (rw nothing at e1), others.0 (ground arith)),
          λ full. let none_left = others.1 full.1 in ground arith,
        )
        | inr (c, one) ↦ (
          λ empty. absurd (ground arith),
          λ full. absurd (consider-some node spec c (rw one at e1) full.0),
        )
      ]

insert_by_cons :
    (less : Candidate → Candidate → Bool) (c : Candidate) (cs : List Candidate)
    → ¬ (insert_by less c cs ≡ [])
unfolding insert_by
insert_by_cons less c [] e = cc
insert_by_cons less c (d ∷ ds) e = ground arith

sort_by_nil :
    (less : Candidate → Candidate → Bool) (cs : List Candidate) → (sort_by less cs ≡ []) ↔ (cs ≡ [])
unfolding sort_by
sort_by_nil less [] = (λ _. refl, λ _. refl)
sort_by_nil less (c ∷ cs) = (λ e. absurd (insert_by_cons less c (sort_by less cs) e), λ e. cc)

best-none : (r : Request) (cs : List Candidate) → (best r cs ≡ none) ↔ (cs ≡ [])
unfolding best
best-none r [] = (λ _. refl, λ _. refl)
best-none r (c ∷ cs) = (λ e. cc, λ e. cc)

consider-Returns :
    (r : Request) (node : ℕ) (spec : Text)
    → Returns (parse_cpu_list spec)
    → Returns (consider r node spec)
unfolding consider
consider-Returns r node spec (cores, e) =
    let free = keep (λ c. not (contains c r.occupied)) cores in
    elim (Bool-cases (ltb (length free) r.n_cores)) [
      | inl few ↦ rw (e, few) (_, refl)
      | inr enough ↦ elim (Option-cases (gate_node r node)) [
        | inl shut ↦ rw (e, enough, shut) (_, refl)
        | inr (used, open_lem) ↦ rw (e, enough, open_lem) (_, refl)
      ]
    ]

candidates-Returns :
    (r : Request) (nodes : List (ℕ × Text))
    → All (λ node. Returns (parse_cpu_list node.1)) nodes
    → Returns (candidates r nodes)
unfolding candidates
candidates-Returns r [] h = (_, refl)
candidates-Returns r ((node, spec) ∷ nodes) h =
    let (found, e) = consider-Returns r node spec h.0 in
    let (rest, e') = candidates-Returns r nodes h.1 in
    elim (Option-cases found) [
      | inl nothing ↦ rw (e, e', nothing) (_, refl)
      | inr (c, one) ↦ rw (e, e', one) (_, refl)
    ]

pub allocate-Returns :
    (r : Request)
    → All (λ node. Returns (parse_cpu_list node.1)) r.numa_nodes
    → Returns (allocate r)
unfolding allocate
allocate-Returns r h = elim (Bool-cases (r.n_cores == 0)) [
  | inl none_asked ↦ rw none_asked (_, refl)
  | inr asked ↦ let (found, e) = candidates-Returns r r.numa_nodes h in rw (asked, e) (_, refl)
]

-- Without the RAM gate, and with well-formed CPU lists, a request for at least one core is deferred
-- exactly when every node has fewer free cores than it asks for; otherwise it is granted.
pub allocate-none_iff :
    (r : Request)
    → 0 < r.n_cores
    → r.node_ram_cap_gb ≡ 0
    → All (λ node. Returns (parse_cpu_list node.1)) r.numa_nodes
    → (found : Option Placement) × (allocate r ≡ ok found)
      × ((found ≡ none) ↔ All (IsFull r) r.numa_nodes)
unfolding allocate
allocate-none_iff r some_cores off parsed =
    let asked : (r.n_cores == 0) ≡ false = ground arith in
    let (found, e) = candidates-Returns r r.numa_nodes parsed in
    let full = candidates_nil r r.numa_nodes found off e in
    let sorted = sort_by_nil candidate_less found in
    let placed = best-none r (sort_by candidate_less found) in
    (
      best r (sort_by candidate_less found),
      rw (asked, e) refl,
      (λ nothing. full.0 (sorted.0 (placed.0 nothing)), λ h. placed.1 (sorted.1 (full.1 h))),
    )
