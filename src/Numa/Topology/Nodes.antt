-- ===== src/Numa/Topology/Nodes.antt =====
-- What detect of nodepilot/numa.py returns.
use nodepilot.Common.{
  ℕ, ◌≡◌, ◌≢◌, ◌∙◌, inl, inr, List, [], ◌∷◌, Option, none, some, arith, ◌==◌, All, All-imp,
  Bool-cases, length, ◌<◌,
}
use nodepilot.Common.Text.{Text}
use nodepilot.Common.Sort.{AllPairs}
use nodepilot.Host.{Host}
use nodepilot.Numa.Topology.{
  sys_node, put_node, collect_nodes, node_index, node_spec, sysfs_nodes, or_one_node, detect,
}

abbrev Apart : ℕ × Text → ℕ × Text → Type 0
Apart a b = a.0 ≢ b.0

put_node-All :
    (P : ℕ → Type 0) (idx : ℕ) (spec : Text) (nodes : List (ℕ × Text))
    → P idx
    → All (λ n. P n.0) nodes
    → All (λ n. P n.0) (put_node idx spec nodes)
unfolding put_node
put_node-All P idx spec [] p h = (p, tt)
put_node-All P idx spec ((k, s) ∷ nodes) p h = elim (Bool-cases (k == idx)) [
  | inl same ↦ rw same (p, h.1)
  | inr other ↦ rw other (h.0, put_node-All P idx spec nodes p h.1)
]

put_node-AllPairs :
    (idx : ℕ) (spec : Text) (nodes : List (ℕ × Text))
    → AllPairs Apart nodes
    → AllPairs Apart (put_node idx spec nodes)
unfolding put_node
put_node-AllPairs idx spec [] h = (tt, tt)
put_node-AllPairs idx spec ((k, s) ∷ nodes) h = elim (Bool-cases (k == idx)) [
  | inl same ↦
      let e : k ≡ idx = ground arith in
      rw same (All-imp (Apart (k, s)) (Apart (idx, spec)) (λ n ne e'. ne (e ∙ e')) nodes h.0, h.1)
  | inr other ↦ rw other (
    put_node-All (λ i. k ≢ i) idx spec nodes (λ e. ground arith) h.0,
    put_node-AllPairs idx spec nodes h.1,
  )
]

collect_nodes-AllPairs :
    (h : Host) (names : List Text) (nodes : List (ℕ × Text))
    → AllPairs Apart nodes
    → AllPairs Apart (collect_nodes h names nodes)
unfolding collect_nodes
collect_nodes-AllPairs h [] nodes p = p
collect_nodes-AllPairs h (name ∷ names) nodes p =
    collect_nodes-AllPairs h names _ (one (node_index name))
  where
    one :
        (i : Option ℕ)
        → AllPairs Apart (elim i [
          | none ↦ nodes
          | some idx ↦ elim (node_spec h name) [
            | none ↦ nodes
            | some spec ↦ put_node idx spec nodes
          ]
        ])
    one none = p
    one (some idx) = two idx (node_spec h name)
      where
        two :
            (idx : ℕ) (s : Option Text)
            → AllPairs Apart (elim s [ none ↦ nodes | some spec ↦ put_node idx spec nodes ])
        two idx none = p
        two idx (some spec) = put_node-AllPairs idx spec nodes p

or_one_node_lem :
    (nodes : List (ℕ × Text)) (cpus : List ℕ)
    → AllPairs Apart nodes
    → (0 < length (or_one_node nodes cpus)) × AllPairs Apart (or_one_node nodes cpus)
unfolding or_one_node
or_one_node_lem [] cpus p = (omega arith, (tt, tt))
or_one_node_lem (n ∷ ns) cpus p = (omega arith, p)

sysfs_nodes-AllPairs : (h : Host) → AllPairs Apart (sysfs_nodes h)
unfolding sysfs_nodes
sysfs_nodes-AllPairs h = elim (Bool-cases (h.is_dir sys_node)) [
  | inl there ↦ rw there (collect_nodes-AllPairs h _ [] tt)
  | inr missing ↦ rw missing tt
]

-- Whatever sysfs holds, the detected topology has at least one node, and no index twice.
pub detect_lem : (h : Host) → (0 < length (detect h)) × AllPairs (λ a b. a.0 ≢ b.0) (detect h)
unfolding detect
detect_lem h = or_one_node_lem (sysfs_nodes h) _ (sysfs_nodes-AllPairs h)
