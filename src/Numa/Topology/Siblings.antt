-- ===== src/Numa/Topology/Siblings.antt =====
-- detect_smt_secondary of nodepilot/numa.py, against the groups of sibling threads.
use nodepilot.Common.{
  ℕ, ◌<◌, ◌≤◌, ◌≡◌, refl, sym, ◌∙◌, inl, inr, Bool, true, false, not, ◌&&◌, ◌||◌, List, [], ◌∷◌,
  some, arith, ◌==◌, All, All-imp, All-and, any_of, keep, Bool-cases,
}
use nodepilot.Common.Sort.{AllPairs}
use nodepilot.Numa.Cores.{CoreSet, contains, contains-update, IsAscending}
use nodepilot.Common.{Option-cases}
use nodepilot.Common.Text.{Text, codes, strip, under}
use nodepilot.Host.{Host}
use nodepilot.Numa.CpuList.Sets.{parse_cpu_list-IsAscending}
use nodepilot.Numa.Topology.{
  sys_cpu, smt_step, smt_loop, sibling_group, sibling_groups, detect_smt_secondary,
}

-- Two groups with a common core have the same cores.
abbrev pub Coherent : CoreSet → CoreSet → Type 0
Coherent g g' =
    (c : ℕ) → contains c g ≡ true → contains c g' ≡ true → (d : ℕ) → contains d g ≡ contains d g'

-- The core is in the group, and is not the least of it.
unfoldable pub is_secondary : ℕ → CoreSet → Bool
is_secondary c [] = false
is_secondary c (primary ∷ group) = not (c == primary) && contains c (primary ∷ group)

Coherent-sym : (g g' : CoreSet) → Coherent g g' → Coherent g' g
Coherent-sym g g' h c a b d = sym (h c b a d)

contains-keep :
    (c p : ℕ) (xs : List ℕ)
    → contains c (keep (λ x. not (x == p)) xs) ≡ (not (c == p) && contains c xs)
unfolding contains
contains-keep c p [] = ground arith
contains-keep c p (x ∷ xs) = ground (arith, contains-keep c p xs)

contains_le : (c p : ℕ) (g : List ℕ) → All (λ y. p < y) g → contains c (p ∷ g) ≡ true → p ≤ c
unfolding contains
contains_le c p [] h e = ground arith
contains_le c p (y ∷ g) h e = elim (Bool-cases (c == y)) [
  | inl here ↦ ground arith
  | inr there ↦ contains_le c p g h.1 (ground arith)
]

contains_head : (p : ℕ) (g : List ℕ) → contains p (p ∷ g) ≡ true
unfolding contains
contains_head p g = ground arith

-- Groups with the same cores have the same secondary ones.
is_secondary-same :
    (c : ℕ) (g g' : CoreSet)
    → IsAscending g
    → IsAscending g'
    → ((d : ℕ) → contains d g ≡ contains d g')
    → is_secondary c g ≡ is_secondary c g'
unfolding is_secondary
is_secondary-same c [] [] a a' h = refl
is_secondary-same c [] (p' ∷ g') a a' h =
    absurd (let e = h p' ∙ contains_head p' g' in unfold contains in cc)
is_secondary-same c (p ∷ g) [] a a' h =
    absurd (let e = sym (h p) ∙ contains_head p g in unfold contains in cc)
is_secondary-same c (p ∷ g) (p' ∷ g') a a' h =
    let le = contains_le p p' g' a'.0 (sym (h p) ∙ contains_head p g) in
    let ge = contains_le p' p g a.0 (h p' ∙ contains_head p' g') in
    let same : p ≡ p' = omega arith in let at_c = h c in ground arith

any_of-same :
    (f p : CoreSet → Bool) (b : Bool) (gs : List CoreSet)
    → All (λ g. p g ≡ true → f g ≡ b) gs
    → any_of p gs ≡ true
    → (b || any_of f gs) ≡ any_of f gs
any_of-same f p b [] h e = absurd (ground arith)
any_of-same f p b (g ∷ gs) h e = elim (Bool-cases (p g)) [
  | inl here ↦ let same = h.0 here in ground arith
  | inr there ↦ let rest = any_of-same f p b gs h.1 (ground arith) in ground arith
]

-- What the loop knows after the groups `before`.
record Knows (s : CoreSet × CoreSet) (before : List CoreSet) : Type 0 where
  seen : (c : ℕ) → contains c s.0 ≡ any_of (contains c) before
  secondary : (c : ℕ) → contains c s.1 ≡ any_of (is_secondary c) before

abbrev Same : CoreSet → CoreSet → Type 0
Same g g' = (d : ℕ) → contains d g ≡ contains d g'

-- The groups before, of which one with a core of `g` has its cores.
smt_step-Knows :
    (s : CoreSet × CoreSet) (g : CoreSet) (before : List CoreSet)
    → IsAscending g
    → All IsAscending before
    → All (Coherent g) before
    → Knows s before
    → Knows (smt_step s g) (g ∷ before)
unfolding smt_step
smt_step-Knows (seen, secondary) [] before asc ascs h k = record {
  seen = λ c. unfold contains in k.seen c;
  secondary = λ c. unfold is_secondary in k.secondary c;
}
smt_step-Knows (seen, secondary) (p ∷ g) before asc ascs h k = elim (Bool-cases (contains p seen)) [
  | inl old ↦
      let met : any_of (contains p) before ≡ true = sym (k.seen p) ∙ old in
      let like : All (λ g'. contains p g' ≡ true → Same g' (p ∷ g)) before =
        All-imp _ _ (λ g' coherent holds d. sym (coherent p (contains_head p g) holds d)) before
          h in
      rw old (record {
        seen = λ c.
            k.seen c
            ∙ sym (
                any_of-same (contains c) (contains p) (contains c (p ∷ g)) before
                  (All-imp _ _ (λ g' same holds. same holds c) before like) met);
        secondary = λ c.
            k.secondary c
            ∙ sym (
                any_of-same (is_secondary c) (contains p) (is_secondary c (p ∷ g)) before
                  (All-imp _ _
                    (λ g' both holds. is_secondary-same c g' (p ∷ g) both.0 asc (both.1 holds))
                    before
                    (All-and IsAscending (λ g'. contains p g' ≡ true → Same g' (p ∷ g)) before ascs
                      like))
                  met);
      })
  | inr new ↦ rw new (record {
    seen = λ c. ground (arith, contains-update c (p ∷ g) seen, k.seen c);
    secondary = λ c.
        unfold is_secondary in
        ground (
          arith,
          contains-update c (keep (λ x. not (x == p)) (p ∷ g)) secondary,
          contains-keep c p (p ∷ g),
          k.secondary c,
        );
  })
]

smt_loop-Knows :
    (s : CoreSet × CoreSet) (groups before : List CoreSet)
    → All IsAscending groups
    → All IsAscending before
    → AllPairs Coherent groups
    → All (λ g. All (Coherent g) before) groups
    → Knows s before
    → (c : ℕ)
    → contains c (smt_loop s groups).1
      ≡ (any_of (is_secondary c) groups || any_of (is_secondary c) before)
unfolding smt_loop
smt_loop-Knows s [] before asc ascs pairs h k c = k.secondary c
smt_loop-Knows s (g ∷ groups) before asc ascs pairs h k c =
    let h' = All-and (Coherent g) (λ g'. All (Coherent g') before) groups pairs.0 h.1 in
    ground (
      arith,
      smt_loop-Knows (smt_step s g) groups (g ∷ before) asc.1 (asc.0, ascs) pairs.1
          (All-imp _ (λ g'. All (Coherent g') (g ∷ before))
            (λ g' both. (Coherent-sym g g' both.0, both.1)) groups h')
          (smt_step-Knows s g before asc.0 ascs h.0 k) c,
    )

sibling_group-IsAscending :
    (h : Host) (name : Text) (g : CoreSet) → sibling_group h name ≡ some g → IsAscending g
unfolding sibling_group
sibling_group-IsAscending h name g found =
    elim (Option-cases (
      h.read_text
        (under (under (under sys_cpu name) (codes "topology")) (codes "thread_siblings_list")))) [
          | inl missing ↦ absurd (ground arith)
          | inr (text, read) ↦ parse_cpu_list-IsAscending (strip text) g (ground arith)
        ]

sibling_groups-IsAscending :
    (h : Host) (names : List Text) → All IsAscending (sibling_groups h names)
unfolding sibling_groups
sibling_groups-IsAscending h [] = tt
sibling_groups-IsAscending h (name ∷ names) = elim (Option-cases (sibling_group h name)) [
  | inl nothing ↦ rw (All, nothing) (sibling_groups-IsAscending h names)
  | inr (g, found) ↦
      rw (All, found) (sibling_group-IsAscending h name g found, sibling_groups-IsAscending h names)
]

smt_loop_lem :
    (groups : List CoreSet)
    → All IsAscending groups
    → AllPairs Coherent groups
    → (c : ℕ) → contains c (smt_loop ([], []) groups).1 ≡ any_of (is_secondary c) groups
smt_loop_lem groups asc pairs c =
    smt_loop-Knows ([], []) groups [] asc tt pairs (nothing groups) none_yet c
    ∙ or_false (any_of (is_secondary c) groups)
  where
    nothing : (gs : List CoreSet) → All (λ g. All (Coherent g) []) gs
    nothing [] = tt
    nothing (g ∷ gs) = (tt, nothing gs)

    none_yet : Knows ([], []) []
    none_yet = record {
      seen = λ c. unfold contains in refl;
      secondary = λ c. unfold contains in refl;
    }

    or_false : (b : Bool) → (b || false) ≡ b
    or_false b = ground arith

-- The groups of sibling threads that are read for the CPUs of the host.
abbrev pub groups_of : Host → List CoreSet
groups_of h = sibling_groups h (h.glob sys_cpu (codes "cpu"))

-- Where any two sibling groups with a common core have the same cores, the secondary threads that
-- are found are the cores that some group has without their being the least of it, in whatever
-- order the groups are read and however often.
pub detect_smt_secondary_lem :
    (h : Host)
    → h.is_dir sys_cpu ≡ true
    → AllPairs Coherent (groups_of h)
    → (c : ℕ) → contains c (detect_smt_secondary h) ≡ any_of (is_secondary c) (groups_of h)
unfolding detect_smt_secondary
detect_smt_secondary_lem h there pairs c =
    rw there (smt_loop_lem (groups_of h) (sibling_groups-IsAscending h _) pairs c)
