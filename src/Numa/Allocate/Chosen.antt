-- ===== src/Numa/Allocate/Chosen.antt =====
-- The cores that are chosen on a node: as many as asked for, without repetition, all free.
use nodepilot.Common.{
  ℕ, ◌+◌, ◌-◌, ◌<◌, ◌≤◌, ◌≡◌, refl, ◌⊎◌, Bool, true, false, not, List, [], ◌∷◌, ◌++◌, some, arith,
  ltb, All, All-imp, All-append, All-take, All-keep, length, take, keep, length-append, length-take,
  Bool-cases, Option-cases, inl, inr,
}
use nodepilot.Numa.Cores.{CoreSet, contains, range, IsAscending, range-IsAscending, length-range}
use nodepilot.Numa.Allocate.{Choice, choose, largest_contiguous_run}
use nodepilot.Numa.Allocate.Cores.{
  IsDistinct, IsAscending-IsDistinct, keep-IsAscending, take-IsAscending, IsDistinct-append,
  contains-All, All-keep_self,
}
use nodepilot.Numa.Allocate.Runs.{run-All}

length-keep-not :
    (p : ℕ → Bool) (xs : List ℕ)
    → length (keep (λ c. not (p c)) xs) + length (keep p xs) ≡ length xs
length-keep-not p [] = refl
length-keep-not p (x ∷ xs) = ground (arith, length-keep-not p xs)

-- What holds of a choice of `n` cores among those that satisfy `P`.
pub record IsChoice (n : ℕ) (P : ℕ → Type 0) (secondary : CoreSet) (ch : Choice) : Type 0 where
  pub count : length ch.chosen ≡ n
  pub distinct : IsDistinct ch.chosen
  pub free : All P ch.chosen
  pub physical : (ch.oversub ≡ true) ⊎ All (λ c. contains c secondary ≡ false) ch.chosen
  pub block : (ch.contiguous ≡ false) ⊎ ((s : ℕ) × (ch.chosen ≡ range s n))

module _ (n : ℕ) (P : ℕ → Type 0) (secondary : CoreSet) (free : List ℕ)
    (ascending : IsAscending free) (enough : n ≤ length free) (all_free : All P free) where
  abbrev primaries : List ℕ
  primaries = keep (λ c. not (contains c secondary)) free

  abbrev siblings : List ℕ
  siblings = keep (λ c. contains c secondary) free

  primaries-physical : All (λ c. contains c secondary ≡ false) primaries
  primaries-physical =
      All-imp _ (λ c. contains c secondary ≡ false) (λ c h. ground (arith, h.1)) primaries
        (All-keep P (λ c. not (contains c secondary)) free all_free)

  siblings-secondary : All (λ c. contains c secondary ≡ true) siblings
  siblings-secondary =
      All-imp _ (λ c. contains c secondary ≡ true) (λ c h. h.1) siblings
        (All-keep P (λ c. contains c secondary) free all_free)

  primaries-IsAscending : IsAscending primaries
  primaries-IsAscending = keep-IsAscending (λ c. not (contains c secondary)) free ascending

  abbrev missing : ℕ
  missing = n - length primaries

  spread-IsChoice :
      (short : length primaries < n)
      → IsChoice n P secondary (record {
        chosen = primaries ++ take missing siblings;
        contiguous = false;
        oversub = true;
      })
  spread-IsChoice short = record {
    count = omega (
      arith,
      length-append primaries (take missing siblings),
      length-take missing siblings
          (omega (arith, length-keep-not (λ c. contains c secondary) free)),
      length-keep-not (λ c. contains c secondary) free,
    );
    distinct =
        IsDistinct-append primaries (take missing siblings)
          (IsAscending-IsDistinct primaries primaries-IsAscending)
          (IsAscending-IsDistinct _ (
            take-IsAscending missing siblings
              (keep-IsAscending (λ c. contains c secondary) free ascending)))
          (All-imp (λ c. contains c secondary ≡ false)
            (λ c. contains c (take missing siblings) ≡ false)
            (λ c h.
              contains-All (λ y. contains y secondary) c (take missing siblings) h
                (All-take _ missing siblings siblings-secondary))
            primaries primaries-physical);
    free =
        All-append P primaries (take missing siblings) (All-keep_self P _ free all_free)
          (All-take P missing siblings (All-keep_self P _ free all_free));
    physical = inl refl;
    block = inl refl;
  }

  run-IsChoice :
      (s : ℕ)
      → largest_contiguous_run primaries n ≡ some s
      → IsChoice n P secondary (record { chosen = range s n; contiguous = true; oversub = false })
  run-IsChoice s e = record {
    count = length-range s n;
    distinct = IsAscending-IsDistinct (range s n) (range-IsAscending s n);
    free = run-All P primaries n s (All-keep_self P _ free all_free) e;
    physical = inr (run-All (λ c. contains c secondary ≡ false) primaries n s primaries-physical e);
    block = inr (s, refl);
  }

  scattered-IsChoice :
      (n ≤ length primaries)
      → IsChoice n P secondary
          (record { chosen = take n primaries; contiguous = false; oversub = false })
  scattered-IsChoice h = record {
    count = length-take n primaries h;
    distinct = IsAscending-IsDistinct _ (take-IsAscending n primaries primaries-IsAscending);
    free = All-take P n primaries (All-keep_self P _ free all_free);
    physical = inr (All-take _ n primaries primaries-physical);
    block = inl refl;
  }

  pub choose-IsChoice : IsChoice n P secondary (choose n free secondary)
  unfolding choose
  choose-IsChoice = elim (Bool-cases (ltb (length primaries) n)) [
    | inl short ↦ rw short (spread-IsChoice (ground arith))
    | inr fits ↦ elim (Option-cases (largest_contiguous_run primaries n)) [
      | inl none_found ↦ rw (fits, none_found) (scattered-IsChoice (ground arith))
      | inr (s, found) ↦ rw (fits, found) (run-IsChoice s found)
    ]
  ]
