-- ===== src/Numa/Allocate/Cores.antt =====
-- Counting the cores of a set: what is kept or taken from a set has no repetition.
use nodepilot.Common.{
  ℕ, zero, suc, ◌+◌, ◌<◌, ◌≡◌, refl, Bool, true, false, ◌||◌, List, [], ◌∷◌, ◌++◌, arith, All,
  All-take, length, take, keep,
}
use nodepilot.Numa.Cores.{CoreSet, add, update, contains, IsAscending, contains-add, All-add}

abbrev pub IsDistinct : List ℕ → Type 0
IsDistinct [] = Unit
IsDistinct (x ∷ xs) = (contains x xs ≡ false) × IsDistinct xs

contains-below : (x : ℕ) (xs : List ℕ) → All (λ y. x < y) xs → contains x xs ≡ false
unfolding contains
contains-below x [] h = refl
contains-below x (y ∷ ys) h = ground (arith, contains-below x ys h.1)

pub IsAscending-IsDistinct : (xs : List ℕ) → IsAscending xs → IsDistinct xs
IsAscending-IsDistinct [] h = tt
IsAscending-IsDistinct (x ∷ xs) h = (contains-below x xs h.0, IsAscending-IsDistinct xs h.1)

pub All-keep_self : (P : ℕ → Type 0) (p : ℕ → Bool) (xs : List ℕ) → All P xs → All P (keep p xs)
All-keep_self P p [] h = tt
All-keep_self P p (x ∷ xs) h = ground (arith, All-keep_self P p xs h.1)

pub keep-IsAscending : (p : ℕ → Bool) (xs : List ℕ) → IsAscending xs → IsAscending (keep p xs)
keep-IsAscending p [] h = tt
keep-IsAscending p (x ∷ xs) h =
    ground (arith, keep-IsAscending p xs h.1, All-keep_self (λ y. x < y) p xs h.0)

pub take-IsAscending : (n : ℕ) (xs : List ℕ) → IsAscending xs → IsAscending (take n xs)
take-IsAscending zero xs h = tt
take-IsAscending (suc n) [] h = tt
take-IsAscending (suc n) (x ∷ xs) h = (All-take _ n xs h.0, take-IsAscending n xs h.1)

contains-append :
    (c : ℕ) (xs ys : List ℕ) → contains c (xs ++ ys) ≡ (contains c xs || contains c ys)
unfolding contains
contains-append c [] ys = refl
contains-append c (x ∷ xs) ys = ground (arith, contains-append c xs ys)

pub IsDistinct-append :
    (xs ys : List ℕ)
    → IsDistinct xs
    → IsDistinct ys
    → All (λ x. contains x ys ≡ false) xs
    → IsDistinct (xs ++ ys)
IsDistinct-append [] ys h k d = k
IsDistinct-append (x ∷ xs) ys h k d =
    (ground (arith, contains-append x xs ys), IsDistinct-append xs ys h.1 k d.1)

-- A list without `x`, since all that it has differs from `x` in the test.
pub contains-All :
    (p : ℕ → Bool) (x : ℕ) (ys : List ℕ)
    → p x ≡ false
    → All (λ y. p y ≡ true) ys
    → contains x ys ≡ false
unfolding contains
contains-All p x [] h hs = refl
contains-All p x (y ∷ ys) h hs = ground (arith, contains-All p x ys h hs.1)

length-add : (x : ℕ) (s : CoreSet) → contains x s ≡ false → length (add x s) ≡ suc (length s)
unfolding add contains
length-add x [] h = refl
length-add x (y ∷ ys) h = ground (arith, length-add x ys)

apart :
    (x : ℕ) (s : CoreSet) (ys : List ℕ)
    → contains x ys ≡ false
    → All (λ y. contains y s ≡ false) ys
    → All (λ y. contains y (add x s) ≡ false) ys
unfolding contains
apart x s [] a b = tt
apart x s (y ∷ ys) a b = (ground (arith, contains-add y x s), apart x s ys (ground arith) b.1)

pub length-update :
    (xs : List ℕ) (s : CoreSet)
    → IsDistinct xs
    → All (λ x. contains x s ≡ false) xs
    → length (update xs s) ≡ length xs + length s
unfolding update
length-update [] s h d = omega arith
length-update (x ∷ xs) s h d =
    omega (arith, length-update xs (add x s) h.1 (apart x s xs h.0 d.1), length-add x s d.0)

pub All-update :
    (P : ℕ → Type 0) (xs : List ℕ) (s : CoreSet) → All P xs → All P s → All P (update xs s)
unfolding update
All-update P [] s h hs = hs
All-update P (x ∷ xs) s h hs = All-update P xs (add x s) h.1 (All-add P x s h.0 hs)
