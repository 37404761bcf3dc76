-- ===== src/Numa/Cores.antt =====
-- Python's set of core ids, kept as the ascending list that `sorted` returns.
use nodepilot.Common.{
  ℕ, zero, suc, ◌+◌, ◌<◌, ◌≡◌, refl, ◌∙◌, Bool, false, ◌||◌, List, [], ◌∷◌, ◌++◌, arith, ltb, ◌==◌,
  if◌then◌else◌, All, All-imp, append_assoc, append-nil, length, sym, ap,
}

abbrev pub CoreSet : Type 0
CoreSet = List ℕ

-- `s.add(x)`
unfoldable pub add : ℕ → CoreSet → CoreSet
add x [] = x ∷ []
add x (y ∷ ys) =
    let rest = add x ys in if ltb x y then x ∷ y ∷ ys else if x == y then y ∷ ys else y ∷ rest

-- `s.update(xs)` and `s |= xs`
unfoldable pub update : List ℕ → CoreSet → CoreSet
unfolding add
update [] s = s
update (x ∷ xs) s = update xs (add x s)

-- `x in s`
unfoldable pub contains : ℕ → List ℕ → Bool
contains x [] = false
contains x (y ∷ ys) = x == y || contains x ys

-- `range(lo, lo + n)`
unfoldable pub range : ℕ → ℕ → List ℕ
range lo zero = []
range lo (suc n) = lo ∷ range (suc lo) n

abbrev pub IsAscending : List ℕ → Type 0
IsAscending [] = Unit
IsAscending (x ∷ xs) = All (λ y. x < y) xs × IsAscending xs

pub contains-add : (c x : ℕ) (s : CoreSet) → contains c (add x s) ≡ (c == x || contains c s)
unfolding contains add
contains-add c x [] = refl
contains-add c x (y ∷ ys) = ground (arith, contains-add c x ys)

pub contains-update :
    (c : ℕ) (xs : List ℕ) (s : CoreSet) → contains c (update xs s) ≡ (contains c xs || contains c s)
unfolding contains update
contains-update c [] s = refl
contains-update c (x ∷ xs) s = ground (arith, contains-update c xs (add x s), contains-add c x s)

module _ (P : ℕ → Type 0) where
  pub All-add : (x : ℕ) (s : CoreSet) → P x → All P s → All P (add x s)
  unfolding add
  All-add x [] h hs = (h, tt)
  All-add x (y ∷ ys) h hs = ground (arith, All-add x ys h hs.1)

All-lt_trans : (x y : ℕ) (ys : List ℕ) → x < y → All (λ z. y < z) ys → All (λ z. x < z) ys
All-lt_trans x y ys h hs = All-imp (λ z. y < z) (λ z. x < z) (λ z hz. omega arith) ys hs

pub add-IsAscending : (x : ℕ) (s : CoreSet) → IsAscending s → IsAscending (add x s)
unfolding add
add-IsAscending x [] h = (tt, tt)
add-IsAscending x (y ∷ ys) h =
    ground (arith, add-IsAscending x ys h.1, All-lt_trans x y ys, All-add (λ z. y < z) x ys)

pub update-IsAscending : (xs : List ℕ) (s : CoreSet) → IsAscending s → IsAscending (update xs s)
unfolding update
update-IsAscending [] s h = h
update-IsAscending (x ∷ xs) s h = update-IsAscending xs (add x s) (add-IsAscending x s h)

-- Elements beyond the end of a set are appended to it.
add_last : (x : ℕ) (s : CoreSet) → All (λ y. y < x) s → add x s ≡ s ++ x ∷ []
unfolding add
add_last x [] h = refl
add_last x (y ∷ ys) h = ground (arith, add_last x ys h.1)

IsAscending-split :
    (s : CoreSet) (x : ℕ) (xs : List ℕ) → IsAscending (s ++ x ∷ xs) → All (λ y. y < x) s
IsAscending-split [] x xs h = tt
IsAscending-split (y ∷ ys) x xs h = (first ys h.0, IsAscending-split ys x xs h.1)
  where
    first : (zs : List ℕ) → All (λ z. y < z) (zs ++ x ∷ xs) → y < x
    first [] k = k.0
    first (z ∷ zs) k = first zs k.1

pub update_last : (xs : List ℕ) (s : CoreSet) → IsAscending (s ++ xs) → update xs s ≡ s ++ xs
unfolding update
update_last [] s h = sym (append-nil s)
update_last (x ∷ xs) s h =
    rw (add_last x s (IsAscending-split s x xs h))
      (update_last xs (s ++ x ∷ []) (rw append_assoc h) ∙ append_assoc s (x ∷ []) xs)

-- `sorted(set(xs))` of an ascending list is the list.
pub update-nil : (xs : List ℕ) → IsAscending xs → update xs [] ≡ xs
update-nil xs h = update_last xs [] h

pub length-range : (lo n : ℕ) → length (range lo n) ≡ n
unfolding range
length-range lo zero = refl
length-range lo (suc n) = ap suc (length-range (suc lo) n)

range_lower : (m lo n : ℕ) → m < lo → All (λ y. m < y) (range lo n)
unfolding range
range_lower m lo zero h = tt
range_lower m lo (suc n) h = (h, range_lower m (suc lo) n (omega arith))

pub range-IsAscending : (lo n : ℕ) → IsAscending (range lo n)
unfolding range
range-IsAscending lo zero = tt
range-IsAscending lo (suc n) =
    (range_lower lo (suc lo) n (omega arith), range-IsAscending (suc lo) n)

pub range_snoc : (lo n : ℕ) → range lo (suc n) ≡ range lo n ++ (lo + n) ∷ []
unfolding range
range_snoc lo zero = ground arith
range_snoc lo (suc n) = ground (arith, range_snoc (suc lo) n)

pub update-append : (xs ys : List ℕ) (s : CoreSet) → update (xs ++ ys) s ≡ update ys (update xs s)
unfolding update
update-append [] ys s = refl
update-append (x ∷ xs) ys s = update-append xs ys (add x s)
