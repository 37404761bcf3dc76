-- ===== src/Tests/Topology.antt =====
-- The theorems on what is read of the host, at concrete inputs.
use nodepilot.Common.{
  sym, subst, ◌↔◌, negsuc, pos_part, neg_part, ◌≢◌, ◌<◌, ◌≤◌, ◌≡◌, refl, true, ◌||◌, [], ◌∷◌,
  length, some, arith, any_of, if◌then◌else◌,
}
use nodepilot.Common.Text.{codes, text_eq, starts_with, is_empty, strip, split_on, split_once}
use nodepilot.Common.Decimal.{int}
use nodepilot.Numa.CpuList.{parse_cpu_list}
use nodepilot.Common.Sort.{AllPairs}
use nodepilot.Host.{Host}
use nodepilot.Numa.Cores.{CoreSet, contains, add}
use nodepilot.Numa.Topology.{detect, detect_smt_secondary, sibling_groups, sibling_group}
use nodepilot.Numa.Topology.Siblings.{Coherent, groups_of, is_secondary, detect_smt_secondary_lem}
use nodepilot.Numa.Topology.Nodes.{detect_lem}
use nodepilot.Cgroups.{clamp_score}
use nodepilot.Cgroups.Limits.{clamp_score_lem}
use nodepilot.Tests.{quiet_host}

-- A host with two nodes, whose four CPUs are the threads of two cores.
abbrev sysfs_host : Host
sysfs_host = record quiet_host {
  is_dir = λ p. true;
  glob = λ directory prefix.
      if text_eq prefix (codes "cpu")
      then codes "cpu0" ∷ codes "cpu1" ∷ codes "cpu2" ∷ codes "cpu3" ∷ []
      else codes "node1" ∷ codes "node0" ∷ [];
  read_text = λ p.
      if starts_with p (codes "/sys/devices/system/cpu/cpu0")
        || starts_with p (codes "/sys/devices/system/cpu/cpu2")
      then some (codes "0,2\n")
      else some (codes "1,3\n");
}

detect_lem_example :
    (0 < length (detect sysfs_host)) × AllPairs (λ a b. a.0 ≢ b.0) (detect sysfs_host)
detect_lem_example = detect_lem sysfs_host

abbrev even_threads : CoreSet
even_threads = 0 ∷ 2 ∷ []

abbrev odd_threads : CoreSet
odd_threads = 1 ∷ 3 ∷ []

groups : groups_of sysfs_host ≡ even_threads ∷ odd_threads ∷ even_threads ∷ odd_threads ∷ []
unfolding sibling_groups sibling_group text_eq starts_with parse_cpu_list is_empty strip split_on
    split_once int add
groups = refl

same : (g : CoreSet) → Coherent g g
same g c a b d = refl

even_odd : Coherent even_threads odd_threads
unfolding contains
even_odd c a b d = ground arith

odd_even : Coherent odd_threads even_threads
unfolding contains
odd_even c a b d = ground arith

coherent : AllPairs Coherent (even_threads ∷ odd_threads ∷ even_threads ∷ odd_threads ∷ [])
coherent = (
  (even_odd, (same even_threads, (even_odd, tt))),
  ((odd_even, (same odd_threads, tt)), ((even_odd, tt), (tt, tt))),
)

detect_smt_secondary_lem_example :
    contains 2 (detect_smt_secondary sysfs_host) ≡ any_of (is_secondary 2) (groups_of sysfs_host)
detect_smt_secondary_lem_example =
    detect_smt_secondary_lem sysfs_host refl (subst (AllPairs Coherent) (sym groups) coherent) 2

clamp_score_lem_example :
    (pos_part (clamp_score (negsuc 1999)) ≤ 1000)
    × (neg_part (clamp_score (negsuc 1999)) ≤ 1000)
    × ((clamp_score (negsuc 1999) ≡ negsuc 1999)
        ↔ ((pos_part (negsuc 1999) ≤ 1000) × (neg_part (negsuc 1999) ≤ 1000)))
clamp_score_lem_example = clamp_score_lem (negsuc 1999)
