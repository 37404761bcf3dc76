-- ===== src/Numa/Allocate/Preferred.antt =====
-- Which of the nodes with room allocate of nodepilot/numa.py takes.
use nodepilot.Common.{
  false, true, All-imp, ◌≤◌, ◌<◌, ◌≡◌, List, [], ◌∷◌, some, ok, ◌>>=◌, >>=-eq-ok, All, arith,
}
use mathlib.Core.List.{Perm}
use nodepilot.Common.Sort.{IsSorted, sort_by, sort_by-perm, sort_by-IsSorted}
use nodepilot.Numa.Allocate.{
  Placement, Request, Candidate, candidates, candidate_less, best, allocate,
}
use nodepilot.Numa.Allocate.Order.{candidate_less-StrictOrder}
use nodepilot.Numa.CpuList.{format_cpu_list}

-- The candidate is at least as good as the other: a run of consecutive cores where the other has none;
-- if they are alike in this, more free cores; if they have as many, less memory in use on the node; and
-- with as much in use, the number of the node is not greater.
pub record IsAsGood (c d : Candidate) : Type 0 where
  pub run : (d.choice.contiguous ≡ true) → c.choice.contiguous ≡ true
  pub cores : (c.choice.contiguous ≡ d.choice.contiguous) → d.free_count ≤ c.free_count
  pub memory :
      (c.choice.contiguous ≡ d.choice.contiguous)
      → (c.free_count ≡ d.free_count)
      → c.used_gb ≤ d.used_gb
  pub number :
      (c.choice.contiguous ≡ d.choice.contiguous)
      → (c.free_count ≡ d.free_count)
      → (c.used_gb ≡ d.used_gb)
      → c.node ≤ d.node

candidate_less-IsAsGood : (c d : Candidate) → candidate_less d c ≡ false → IsAsGood c d
unfolding candidate_less
candidate_less-IsAsGood c d e = record {
  run = λ h. ground arith;
  cores = λ h. ground arith;
  memory = λ h k. ground arith;
  number = λ h k l. ground arith;
}

-- The placement is that of one of the candidates, which is at least as good as every other.
pub record IsPreferred (r : Request) (p : Placement) : Type 0 where
  pub found : List Candidate
  pub chosen : Candidate
  pub others : List Candidate
  pub found_lem : candidates r r.numa_nodes ≡ ok found
  pub parts : Perm (chosen ∷ others) found
  pub first : All (IsAsGood chosen) others
  pub node : p.node ≡ chosen.node
  pub cpu_list : p.cpu_list ≡ format_cpu_list chosen.choice.chosen

best-IsPreferred :
    (r : Request) (p : Placement) (found sorted : List Candidate)
    → candidates r r.numa_nodes ≡ ok found
    → Perm sorted found
    → IsSorted candidate_less sorted
    → best r sorted ≡ some p
    → IsPreferred r p
unfolding best
best-IsPreferred r p found [] made perm order e = absurd (ground arith)
best-IsPreferred r p found (c ∷ cs) made perm order e = record {
  found = found;
  chosen = c;
  others = cs;
  found_lem = made;
  parts = perm;
  first = All-imp _ _ (candidate_less-IsAsGood c) cs order.0;
  node = ground arith;
  cpu_list = ground arith;
}

-- A request for at least one core that is granted takes, among the candidates of all nodes, one that is
-- at least as good as every other: a node with a run of consecutive cores comes before one without,
-- then one with more free cores, then one with less memory in use, then one with a lower number.
pub allocate-IsPreferred :
    (r : Request) (p : Placement) → 0 < r.n_cores → allocate r ≡ ok (some p) → IsPreferred r p
unfolding allocate
allocate-IsPreferred r p some_cores e =
    let e0 : (candidates r r.numa_nodes >>= λ found. ok (best r (sort_by candidate_less found)))
        ≡ ok (some p) =
      ground arith in
    let (found, made, e') = >>=-eq-ok (candidates r r.numa_nodes) _ e0 in
    best-IsPreferred r p found (sort_by candidate_less found) made
      (sort_by-perm candidate_less found)
      (sort_by-IsSorted candidate_less candidate_less-StrictOrder found) (ground arith)
