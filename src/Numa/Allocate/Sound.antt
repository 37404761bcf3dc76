-- ===== src/Numa/Allocate/Sound.antt =====
-- What `allocate` promises: a placement is local to a node, free, and of the size asked for.
use nodepilot.Common.{
  ℕ, ◌<◌, ◌≤◌, ◌≡◌, refl, ap, ◌∙◌, subst, ◌⊎◌, true, false, not, List, [], ◌∷◌, some, arith, ltb,
  ◌==◌, All, All-imp, All-keep, length, keep, Bool-cases, Option-cases, inl, inr, ok, >>=-eq-ok,
}
use nodepilot.Common.Text.{Text}
use nodepilot.Common.Sort.{sort_by, All-sort_by}
use mathlib.Core.List.{Memᴰ}
use nodepilot.Numa.Cores.{
  CoreSet, contains, range, update, IsAscending, update-IsAscending, update-nil, range-IsAscending,
}
use nodepilot.Numa.CpuList.{parse_cpu_list, format_cpu_list}
use nodepilot.Numa.CpuList.RoundTrip.{parse-format_lem}
use nodepilot.Numa.CpuList.Sets.{parse_cpu_list-IsAscending}
use nodepilot.Numa.Allocate.{
  choose, Placement, Candidate, Request, gate_node, consider, candidates, candidate_less, best,
  allocate, will_interleave,
}
use nodepilot.Numa.Allocate.Cores.{length-update, All-update, keep-IsAscending}
use nodepilot.Numa.Allocate.Runs.{contains_self}
use nodepilot.Numa.Allocate.Chosen.{IsChoice, choose-IsChoice}

-- A core of the node that is not occupied.
abbrev pub IsFree : CoreSet → CoreSet → ℕ → Type 0
IsFree node_cores occupied c = (contains c node_cores ≡ true) × (contains c occupied ≡ false)

record IsCandidate (r : Request) (nodes : List (ℕ × Text)) (c : Candidate) : Type 0 where
  spec : Text
  node_cores : CoreSet
  listed : Memᴰ (c.node, spec) nodes
  parsed : parse_cpu_list spec ≡ ok node_cores
  choice : IsChoice r.n_cores (IsFree node_cores r.occupied) r.smt_secondary c.choice

-- The placement is for the request: its CPU list reads back as exactly `n_cores` cores, which
-- belong to its node and are not occupied. Without the SMT flag none of them is a secondary
-- thread, and with the contiguous flag they are consecutive.
pub record IsPlacementFor (r : Request) (p : Placement) : Type 0 where
  pub spec : Text
  pub node_cores : CoreSet
  pub cores : CoreSet
  pub listed : Memᴰ (p.node, spec) r.numa_nodes
  pub parsed : parse_cpu_list spec ≡ ok node_cores
  pub taken : parse_cpu_list p.cpu_list ≡ ok cores
  pub ascending : IsAscending cores
  pub count : length cores ≡ r.n_cores
  pub free : All (IsFree node_cores r.occupied) cores
  pub physical : (p.smt_oversubscribed ≡ true) ⊎ All (λ c. contains c r.smt_secondary ≡ false) cores
  pub block : (p.contiguous ≡ false) ⊎ ((s : ℕ) × (cores ≡ range s r.n_cores))

module _ (r : Request) where
  abbrev free_cores : CoreSet → List ℕ
  free_cores node_cores = keep (λ c. not (contains c r.occupied)) node_cores

  abbrev candidate : ℕ → CoreSet → ℕ → Candidate
  candidate node node_cores used = record {
    free_count = length (free_cores node_cores);
    used_gb = used;
    node = node;
    choice = choose r.n_cores (free_cores node_cores) r.smt_secondary;
  }

  candidate-IsCandidate :
      (nodes : List (ℕ × Text)) (node : ℕ) (spec : Text) (node_cores : CoreSet) (used : ℕ)
      → Memᴰ (node, spec) nodes
      → parse_cpu_list spec ≡ ok node_cores
      → r.n_cores ≤ length (free_cores node_cores)
      → IsCandidate r nodes (candidate node node_cores used)
  candidate-IsCandidate nodes node spec node_cores used m parsed enough = record {
    spec = spec;
    node_cores = node_cores;
    listed = m;
    parsed = parsed;
    choice =
        choose-IsChoice r.n_cores (IsFree node_cores r.occupied) r.smt_secondary
          (free_cores node_cores)
          (keep-IsAscending _ node_cores (parse_cpu_list-IsAscending spec node_cores parsed)) enough
          (All-imp _ (IsFree node_cores r.occupied) (λ c h. (h.0, ground (arith, h.1)))
            (free_cores node_cores)
            (All-keep (λ c. contains c node_cores ≡ true) (λ c. not (contains c r.occupied))
              node_cores (contains_self node_cores)));
  }

  consider-IsCandidate :
      (nodes : List (ℕ × Text)) (node : ℕ) (spec : Text) (c : Candidate)
      → Memᴰ (node, spec) nodes
      → consider r node spec ≡ ok (some c)
      → IsCandidate r nodes c
  unfolding consider
  consider-IsCandidate nodes node spec c m e =
      let (node_cores, parsed, e') = >>=-eq-ok (parse_cpu_list spec) _ e in
      elim (Bool-cases (ltb (length (free_cores node_cores)) r.n_cores)) [
        | inl few ↦ absurd (ground arith)
        | inr enough ↦ elim (Option-cases (gate_node r node)) [
          | inl skipped ↦ absurd (ground arith)
          | inr (used, gated) ↦
              let same : candidate node node_cores used ≡ c = ground arith in
              subst (IsCandidate r nodes) same
                (candidate-IsCandidate nodes node spec node_cores used m parsed (ground arith))
        ]
      ]

  All-candidates :
      (all nodes : List (ℕ × Text)) (found : List Candidate)
      → ((x : ℕ × Text) → Memᴰ x nodes → Memᴰ x all)
      → candidates r nodes ≡ ok found
      → All (IsCandidate r all) found
  unfolding candidates
  All-candidates all [] found sub e =
      let none_found : [] ≡ found = ground arith in subst (All (IsCandidate r all)) none_found tt
  All-candidates all ((node, spec) ∷ nodes) found sub e =
      let (first, considered, e') = >>=-eq-ok (consider r node spec) _ e in
      let (rest, others, e'') = >>=-eq-ok (candidates r nodes) _ e' in
      let all_rest = All-candidates all nodes rest (λ x m. sub x (Memᴰ.tail m)) others in
      elim (Option-cases first) [
        | inl skipped ↦
            let same : rest ≡ found = ground arith in subst (All (IsCandidate r all)) same all_rest
        | inr (c, taken) ↦
            let same : c ∷ rest ≡ found = ground arith in
            subst (All (IsCandidate r all)) same (
              consider-IsCandidate all node spec c (sub (node, spec) (Memᴰ.head refl))
                  (considered ∙ ap ok taken),
              all_rest,
            )
      ]

  abbrev placed : Candidate → Placement
  placed c = record {
    cpu_list = format_cpu_list c.choice.chosen;
    node = c.node;
    interleave = will_interleave r;
    contiguous = c.choice.contiguous;
    smt_oversubscribed = c.choice.oversub;
  }

  placed-IsPlacementFor :
      (c : Candidate) → IsCandidate r r.numa_nodes c → IsPlacementFor r (placed c)
  placed-IsPlacementFor c h = record {
    spec = h.spec;
    node_cores = h.node_cores;
    cores = update c.choice.chosen [];
    listed = h.listed;
    parsed = h.parsed;
    taken = parse-format_lem c.choice.chosen;
    ascending = update-IsAscending c.choice.chosen [] tt;
    count = omega (
      arith,
      length-update c.choice.chosen [] h.choice.distinct (nothing c.choice.chosen),
      h.choice.count,
    );
    free = All-update (IsFree h.node_cores r.occupied) c.choice.chosen [] h.choice.free tt;
    physical = elim h.choice.physical [
      | inl over ↦ inl over
      | inr p ↦ inr (All-update (λ c. contains c r.smt_secondary ≡ false) c.choice.chosen [] p tt)
    ];
    block = elim h.choice.block [
      | inl apart ↦ inl apart
      | inr (s, e) ↦ inr (s, rw e (update-nil (range s r.n_cores) (range-IsAscending s r.n_cores)))
    ];
  }
    where
      nothing : (xs : List ℕ) → All (λ x. contains x [] ≡ false) xs
      nothing [] = tt
      nothing (x ∷ xs) = (unfold contains in refl, nothing xs)

  best-IsPlacementFor :
      (cs : List Candidate) (p : Placement)
      → All (IsCandidate r r.numa_nodes) cs
      → best r cs ≡ some p
      → IsPlacementFor r p
  unfolding best
  best-IsPlacementFor [] p h e = cc
  best-IsPlacementFor (c ∷ cs) p h e =
      let same : placed c ≡ p = ground arith in
      subst (IsPlacementFor r) same (placed-IsPlacementFor c h.0)

  -- A request for at least one core that is granted gets a placement of that many distinct cores,
  -- all on the node that it names and none of them occupied; without the SMT flag none is a
  -- secondary thread, and with the contiguous flag they are consecutive.
  pub allocate-IsPlacementFor :
      (p : Placement) → 0 < r.n_cores → allocate r ≡ ok (some p) → IsPlacementFor r p
  unfolding allocate
  allocate-IsPlacementFor p h e =
      let zero_test : (r.n_cores == 0) ≡ false = ground arith in
      let e' = (rw zero_test at e) in
      let (found, all_found, chosen) = >>=-eq-ok (candidates r r.numa_nodes) _ e' in
      best-IsPlacementFor (sort_by candidate_less found) p
        (All-sort_by candidate_less (IsCandidate r r.numa_nodes) found
          (All-candidates r.numa_nodes r.numa_nodes found (λ x m. m) all_found))
        (ground arith)
