-- ===== src/Numa/Allocate/Runs.antt =====
-- _largest_contiguous_run of nodepilot/numa.py, against the blocks of consecutive cores.
use nodepilot.Common.{
  ℕ, zero, suc, ◌+◌, ◌-◌, ◌<◌, ◌≤◌, ◌≡◌, refl, true, false, List, [], ◌∷◌, Option, none, some,
  arith, ltb, leb, ◌==◌, All, All-imp, All-append, Bool-cases, Option-cases, inl, inr, ==_iff, ◌⊎◌,
}
use native.Mathlib.Numerals.{add-one}
use nodepilot.Numa.Cores.{contains, range, IsAscending, range_snoc}
use nodepilot.Numa.Allocate.{scan_run, largest_contiguous_run}

module _ (P : ℕ → Type 0) where
  All-range_le : (s m n : ℕ) → n ≤ m → All P (range s m) → All P (range s n)
  unfolding range
  All-range_le s m zero h hs = tt
  All-range_le s zero (suc n) h hs = absurd (omega arith)
  All-range_le s (suc m) (suc n) h hs = (hs.0, All-range_le (suc s) m n (omega arith) hs.1)

  All-range_snoc :
      (s len c : ℕ) → c ≡ s + len → All P (range s len) → P c → All P (range s (len + 1))
  All-range_snoc s len c e h k =
      rw (add-one, range_snoc) (All-append P (range s len) _ h (rw (← e) k, tt))

  scan_run-All :
      (n start len prev : ℕ) (cs : List ℕ) (s : ℕ)
      → prev + 1 ≡ start + len
      → All P (range start len)
      → All P cs
      → scan_run n start len prev cs ≡ some s
      → All P (range s n)
  unfolding scan_run
  scan_run-All n start len prev [] s e h hs r = elim (Bool-cases (leb n len)) [
    | inl fits ↦
        let same : start ≡ s = ground arith in
        rw (← same) (All-range_le start len n (ground arith) h)
    | inr short ↦ absurd (ground arith)
  ]
  scan_run-All n start len prev (c ∷ cs) s e h hs r = elim (Bool-cases (c == prev + 1)) [
    | inl next ↦
        let c_lem : c ≡ prev + 1 = (==_iff c (prev + 1)).0 next in
        scan_run-All n start (len + 1) c cs s (omega arith)
          (All-range_snoc start len c (omega arith) h hs.0) hs.1 (rw next at r)
    | inr gap ↦ elim (Bool-cases (leb n len)) [
      | inl fits ↦
          let same : start ≡ s = ground arith in
          rw (← same) (All-range_le start len n (ground arith) h)
      | inr short ↦
          scan_run-All n c 1 c cs s (omega arith) (unfold range in (hs.0, tt)) hs.1 (ground arith)
    ]
  ]

  pub run-All :
      (free : List ℕ) (n s : ℕ)
      → All P free
      → largest_contiguous_run free n ≡ some s
      → All P (range s n)
  unfolding largest_contiguous_run
  run-All [] n s h r = cc
  run-All (c ∷ cs) n s h r =
      scan_run-All n c 1 c cs s (omega arith) (unfold range in (h.0, tt)) h.1 r

-- The `n` cores from `s` on are all in the list.
abbrev pub IsBlock : List ℕ → ℕ → ℕ → Type 0
IsBlock free s n = (k : ℕ) → s ≤ k → k < s + n → contains k free ≡ true

-- The same, where the cores of `start` to `prev` have been scanned.
abbrev Fits : ℕ → ℕ → List ℕ → ℕ → ℕ → Type 0
Fits start prev cs s n =
    (k : ℕ) → s ≤ k → k < s + n → (start ≤ k) × (k ≤ prev) ⊎ (contains k cs ≡ true)

Found : Option ℕ → ℕ → Type 0
Found r s = (t : ℕ) × (r ≡ some t) × (t ≤ s)

contains-lower : (m k : ℕ) (xs : List ℕ) → All (λ y. m < y) xs → contains k xs ≡ true → m < k
unfolding contains
contains-lower m k [] h e = absurd (ground arith)
contains-lower m k (y ∷ ys) h e = elim (Bool-cases (k == y)) [
  | inl same ↦ ground arith
  | inr other ↦ contains-lower m k ys h.1 (ground arith)
]

module _ (n : ℕ) (positive : 0 < n) where
  -- A block that begins after a gap does not use the run before the gap.
  Fits-gap :
      (start prev c : ℕ) (cs : List ℕ) (s : ℕ)
      → prev < s
      → Fits start prev (c ∷ cs) s n
      → Fits c c cs s n
  unfolding contains
  Fits-gap start prev c cs s h f k hk hk' = elim (f k hk hk') [
    | inl old ↦ absurd (omega arith)
    | inr m ↦ elim (Bool-cases (k == c)) [
      | inl same ↦ inl (ground arith)
      | inr other ↦ inr (ground arith)
    ]
  ]

  Fits-next :
      (start prev : ℕ) (cs : List ℕ) (s : ℕ)
      → start ≤ prev
      → Fits start prev ((prev + 1) ∷ cs) s n
      → Fits start (prev + 1) cs s n
  unfolding contains
  Fits-next start prev cs s h f k hk hk' = elim (f k hk hk') [
    | inl old ↦ inl (omega arith)
    | inr m ↦ elim (Bool-cases (k == prev + 1)) [
      | inl same ↦ inl (ground arith)
      | inr other ↦ inr (ground arith)
    ]
  ]

  -- A block that begins in a run which is too short would have to reach across the gap.
  Fits-short :
      (start len prev c : ℕ) (cs : List ℕ) (s : ℕ)
      → prev + 1 ≡ start + len
      → len < n
      → prev + 1 < c
      → All (λ y. c < y) cs
      → Fits start prev (c ∷ cs) s n
      → prev < s
  Fits-short start len prev c cs s e short gap above f = elim (Bool-cases (ltb prev s)) [
    | inl after ↦ ground arith
    | inr before ↦
        let s-le : s ≤ prev = ground arith in
        absurd (elim (f s (omega arith) (omega arith)) [
          | inr m ↦ let c-lt : prev < s = contains-lower prev s (c ∷ cs) all_above m in omega arith
          | inl (first, last) ↦ elim (f (prev + 1) (omega arith) (omega arith)) [
            | inl old ↦ omega arith
            | inr m ↦
                let bad : prev + 1 < prev + 1 =
                  contains-lower (prev + 1) (prev + 1) (c ∷ cs) all_above' m in
                omega arith
          ]
        ])
  ]
    where
      all_above : All (λ y. prev < y) (c ∷ cs)
      all_above = (omega arith, All-imp (λ y. c < y) (λ y. prev < y) (λ y hy. omega arith) cs above)

      all_above' : All (λ y. prev + 1 < y) (c ∷ cs)
      all_above' = (gap, All-imp (λ y. c < y) (λ y. prev + 1 < y) (λ y hy. omega arith) cs above)

  first-Fits :
      (start prev : ℕ) (cs : List ℕ) (s : ℕ)
      → start ≤ prev
      → IsAscending (prev ∷ cs)
      → Fits start prev cs s n
      → start ≤ s
  first-Fits start prev cs s h a f = elim (f s (omega arith) (omega arith)) [
    | inl old ↦ old.0
    | inr m ↦ let after : prev < s = contains-lower prev s cs a.0 m in omega arith
  ]

  scan_run-Found :
      (start len prev : ℕ) (cs : List ℕ) (s : ℕ)
      → prev + 1 ≡ start + len
      → 0 < len
      → IsAscending (prev ∷ cs)
      → Fits start prev cs s n
      → Found (scan_run n start len prev cs) s
  unfolding scan_run Found contains
  scan_run-Found start len prev [] s e h a f = elim (Bool-cases (leb n len)) [
    | inl fits ↦ rw fits (start, refl, first-Fits start prev [] s (omega arith) a f)
    | inr short ↦ elim (f (s + n - 1) (omega arith) (omega arith)) [
      | inl old ↦ absurd (
          let lower : start ≤ s = first-Fits start prev [] s (omega arith) a f in
          let short' : len < n = ground arith in omega arith)
      | inr m ↦ absurd (ground arith)
    ]
  ]
  scan_run-Found start len prev (c ∷ cs) s e h a f = elim (Bool-cases (c == prev + 1)) [
    | inl next ↦
        let same : c ≡ prev + 1 = (==_iff c (prev + 1)).0 next in
        rw (next, same)
          (scan_run-Found start (len + 1) (prev + 1) cs s (omega arith) (omega arith)
            (rw same at a.1) (Fits-next start prev cs s (omega arith) (rw same at f)))
    | inr gap ↦ elim (Bool-cases (leb n len)) [
      | inl fits ↦ rw (gap, fits) (start, refl, first-Fits start prev (c ∷ cs) s (omega arith) a f)
      | inr short ↦
          let after : prev < s =
            Fits-short start len prev c cs s e (ground arith) (ground arith) a.1.0 f in
          rw (gap, short)
            (scan_run-Found c 1 c cs s (omega arith) (omega arith) a.1
              (Fits-gap start prev c cs s after f))
    ]
  ]

range-All : (P : ℕ → Type 0) (s n k : ℕ) → All P (range s n) → s ≤ k → k < s + n → P k
unfolding range
range-All P s zero k h lo hi = absurd (omega arith)
range-All P s (suc n) k h lo hi = elim (Bool-cases (s == k)) [
  | inl e ↦ let same : s ≡ k = (==_iff s k).0 e in rw (← same) h.0
  | inr e ↦ range-All P (suc s) n k h.1 (ground arith) (omega arith)
]

pub contains_self : (xs : List ℕ) → All (λ c. contains c xs ≡ true) xs
unfolding contains
contains_self [] = tt
contains_self (x ∷ xs) = (
  ground arith,
  All-imp (λ c. contains c xs ≡ true) (λ c. contains c (x ∷ xs) ≡ true) (λ c h. ground arith) xs
      (contains_self xs),
)

first_block :
    (free : List ℕ) (n s : ℕ)
    → IsAscending free
    → 0 < n
    → IsBlock free s n
    → Found (largest_contiguous_run free n) s
unfolding largest_contiguous_run contains
first_block [] n s a h b = absurd (let e : false ≡ true = b s (omega arith) (omega arith) in cc)
first_block (c ∷ cs) n s a h b =
    scan_run-Found n h c 1 c cs s (omega arith) (omega arith) a (λ k lo hi.
      elim (Bool-cases (k == c)) [
        | inl same ↦ inl (ground arith)
        | inr other ↦ inr (let m : contains k (c ∷ cs) ≡ true = b k lo hi in ground arith)
      ])

-- On ascending cores and for n > 0: either the lowest start of n consecutive cores of the list is
-- returned, or none is and the list has no n consecutive cores.
pub largest_contiguous_run_lem :
    (free : List ℕ) (n : ℕ)
    → IsAscending free
    → 0 < n
    → ((t : ℕ) × (largest_contiguous_run free n ≡ some t)
        × IsBlock free t n
        × ((s : ℕ) → s < t → ¬ IsBlock free s n))
      ⊎ (largest_contiguous_run free n ≡ none) × ((s : ℕ) → ¬ IsBlock free s n)
unfolding Found
largest_contiguous_run_lem free n a h = elim (Option-cases (largest_contiguous_run free n)) [
  | inr (t, e) ↦ inl (
    t,
    e,
    λ k lo hi.
        range-All (λ c. contains c free ≡ true) t n k
          (run-All (λ c. contains c free ≡ true) free n t (contains_self free) e) lo hi,
    λ s lt b. let (t', e', le) = first_block free n s a h b in ground arith,
  )
  | inl e ↦ inr (e, λ s b. let (t', e', le) = first_block free n s a h b in ground arith)
]
