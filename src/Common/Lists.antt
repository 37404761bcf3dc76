-- ===== src/Common/Lists.antt =====
-- Lists measured and indexed by native numbers, predicates on all elements, and Boolean tests.
use Prim.Native.Nat.{ℕ, zero, suc, ◌+◌, ◌≤◌}
use mathlib.Core.Path.{◌≡◌, refl, ap, subst}
use mathlib.Core.Logic.{◌≢◌}
use mathlib.Core.Bool.{Bool, true, false, ◌||◌, ◌&&◌}
use mathlib.Core.List.{List, [], ◌∷◌, ◌++◌}
use mathlib.Core.Option.{Option, none, some}
use native.Mathlib.Omega.{arith}
use nodepilot.Common.Tests.{if◌then◌else◌}

module _ {ℓ} {A : Type ℓ} where
  abbrev pub length : List A → ℕ
  length [] = 0
  length (x ∷ xs) = suc (length xs)

  abbrev pub get_elem? : List A → ℕ → Option A
  get_elem? [] i = none
  get_elem? (x ∷ xs) zero = some x
  get_elem? (x ∷ xs) (suc i) = get_elem? xs i

  -- A write out of bounds changes nothing.
  abbrev pub set : List A → ℕ → A → List A
  set [] i v = []
  set (x ∷ xs) zero v = v ∷ xs
  set (x ∷ xs) (suc i) v = x ∷ set xs i v

  abbrev pub take : ℕ → List A → List A
  take zero xs = []
  take (suc n) [] = []
  take (suc n) (x ∷ xs) = x ∷ take n xs

  abbrev pub drop : ℕ → List A → List A
  drop zero xs = xs
  drop (suc n) [] = []
  drop (suc n) (x ∷ xs) = drop n xs

  -- `[x for x in xs if p(x)]`
  abbrev pub keep : (A → Bool) → List A → List A
  keep p [] = []
  keep p (x ∷ xs) = let rest = keep p xs in if p x then x ∷ rest else rest

  -- `any(p(x) for x in xs)` and `all(p(x) for x in xs)`
  abbrev pub any_of : (A → Bool) → List A → Bool
  any_of p [] = false
  any_of p (x ∷ xs) = p x || any_of p xs

  abbrev pub all_of : (A → Bool) → List A → Bool
  all_of p [] = true
  all_of p (x ∷ xs) = p x && all_of p xs

  pub length-append : (xs ys : List A) → length (xs ++ ys) ≡ length xs + length ys
  length-append [] ys = omega arith
  length-append (x ∷ xs) ys = omega (arith, length-append xs ys)

  pub length-take : (n : ℕ) (xs : List A) → n ≤ length xs → length (take n xs) ≡ n
  length-take zero xs h = refl
  length-take (suc n) [] h = absurd (omega arith)
  length-take (suc n) (x ∷ xs) h = omega (arith, length-take n xs (omega arith))

  pub length-set : (xs : List A) (i : ℕ) (v : A) → length (set xs i v) ≡ length xs
  length-set [] i v = refl
  length-set (x ∷ xs) zero v = refl
  length-set (x ∷ xs) (suc i) v = ap suc (length-set xs i v)

  pub get_elem?-set_self :
      (xs : List A) (i : ℕ) (v w : A) → get_elem? xs i ≡ some w → get_elem? (set xs i v) i ≡ some v
  get_elem?-set_self [] i v w h = ground arith
  get_elem?-set_self (x ∷ xs) zero v w h = refl
  get_elem?-set_self (x ∷ xs) (suc i) v w h = get_elem?-set_self xs i v w h

  pub get_elem?-set_ne :
      (xs : List A) (i j : ℕ) (v : A) → i ≢ j → get_elem? (set xs i v) j ≡ get_elem? xs j
  get_elem?-set_ne [] i j v h = refl
  get_elem?-set_ne (x ∷ xs) zero zero v h = absurd (h refl)
  get_elem?-set_ne (x ∷ xs) zero (suc j) v h = refl
  get_elem?-set_ne (x ∷ xs) (suc i) zero v h = refl
  get_elem?-set_ne (x ∷ xs) (suc i) (suc j) v h = get_elem?-set_ne xs i j v (λ e. h (ap suc e))

  -- The elements that a test keeps and those that it rejects add up.
  pub length-keep-le : (p : A → Bool) (xs : List A) → length (keep p xs) ≤ length xs
  length-keep-le p [] = omega arith
  length-keep-le p (x ∷ xs) = ground (arith, length-keep-le p xs)

-- A predicate on every element, which computes to a tuple.
abbrev pub All {ℓ κ} : {A : Type ℓ} → (A → Type κ) → List A → Type κ
All P [] = Unit
All P (x ∷ xs) = P x × All P xs

module _ {ℓ κ} {A : Type ℓ} (P : A → Type κ) where
  pub All-append : (xs ys : List A) → All P xs → All P ys → All P (xs ++ ys)
  All-append [] ys hx hy = hy
  All-append (x ∷ xs) ys hx hy = (hx.0, All-append xs ys hx.1 hy)

  pub All-take : (n : ℕ) (xs : List A) → All P xs → All P (take n xs)
  All-take zero xs h = tt
  All-take (suc n) [] h = tt
  All-take (suc n) (x ∷ xs) h = (h.0, All-take n xs h.1)

module _ {ℓ κ μ} {A : Type ℓ} (P : A → Type κ) (Q : A → Type μ) (f : (a : A) → P a → Q a) where
  pub All-imp : (xs : List A) → All P xs → All Q xs
  All-imp [] h = tt
  All-imp (x ∷ xs) h = (f x h.0, All-imp xs h.1)

module _ {ℓ κ μ} {A : Type ℓ} (P : A → Type κ) (Q : A → Type μ) where
  pub All-and : (xs : List A) → All P xs → All Q xs → All (λ x. P x × Q x) xs
  All-and [] h k = tt
  All-and (x ∷ xs) h k = ((h.0, k.0), All-and xs h.1 k.1)

module _ {ℓ κ} {A : Type ℓ} (P : A → Type κ) (p : A → Bool) where
  -- What is kept passes the test, and keeps what held of every element.
  pub All-keep : (xs : List A) → All P xs → All (λ x. P x × (p x ≡ true)) (keep p xs)
  All-keep [] h = tt
  All-keep (x ∷ xs) h = ground (arith, All-keep xs h.1)

-- A relation between two lists of one length, element by element.
abbrev pub All2 {ℓ} : {A : Type ℓ} → (A → A → Type 0) → List A → List A → Type 0
All2 R [] [] = Unit {0}
All2 R [] (y ∷ ys) = ⊥
All2 R (x ∷ xs) [] = ⊥
All2 R (x ∷ xs) (y ∷ ys) = R x y × All2 R xs ys

module _ {A : Type 0} (R : A → A → Type 0) where
  pub All2-refl : ((a : A) → R a a) → (xs : List A) → All2 R xs xs
  All2-refl h [] = tt
  All2-refl h (x ∷ xs) = (h x, All2-refl h xs)

  pub All2-at :
      ((a : A) → R a a)
      → (before : List A) (x y : A) (after : List A) → R x y
      → All2 R (before ++ x ∷ after) ((before ++ y ∷ []) ++ after)
  All2-at h [] x y after r = (r, All2-refl h after)
  All2-at h (b ∷ bs) x y after r = (h b, All2-at h bs x y after r)

  pub All2-set :
      ((a : A) → R a a)
      → (xs : List A) (i : ℕ) (x y : A) → get_elem? xs i ≡ some x
      → R x y
      → All2 R xs (set xs i y)
  All2-set h [] i x y e r = tt
  All2-set h (z ∷ xs) zero x y e r = (subst (λ w. R w y) (ground arith) r, All2-refl h xs)
  All2-set h (z ∷ xs) (suc i) x y e r = (h z, All2-set h xs i x y e r)

module _ {A : Type 0} (R S T : A → A → Type 0) (compose : (a b c : A) → R a b → S b c → T a c) where
  pub All2-trans : (xs ys zs : List A) → All2 R xs ys → All2 S ys zs → All2 T xs zs
  All2-trans [] [] [] h k = tt
  All2-trans [] [] (z ∷ zs) h k = k
  All2-trans [] (y ∷ ys) zs h k = absurd h
  All2-trans (x ∷ xs) [] zs h k = absurd h
  All2-trans (x ∷ xs) (y ∷ ys) [] h k = k
  All2-trans (x ∷ xs) (y ∷ ys) (z ∷ zs) h k = (compose x y z h.0 k.0, All2-trans xs ys zs h.1 k.1)

module _ {A : Type 0} (R S : A → A → Type 0) (f : (a b : A) → R a b → S a b) where
  pub All2-imp : (xs ys : List A) → All2 R xs ys → All2 S xs ys
  All2-imp [] [] h = tt
  All2-imp [] (y ∷ ys) h = h
  All2-imp (x ∷ xs) [] h = h
  All2-imp (x ∷ xs) (y ∷ ys) h = (f x y h.0, All2-imp xs ys h.1)

module _ {A : Type 0} (P : A → Type 0) where
  pub All-middle : (before : List A) (x : A) (after : List A) → All P (before ++ x ∷ after) → P x
  All-middle [] x after h = h.0
  All-middle (b ∷ bs) x after h = All-middle bs x after h.1

module _ {A : Type 0} (P : A → Type 0) where
  -- What holds at each index holds of each element, and conversely.
  pub All-at : (xs : List A) → ((i : ℕ) (x : A) → get_elem? xs i ≡ some x → P x) → All P xs
  All-at [] h = tt
  All-at (x ∷ xs) h = (h 0 x refl, All-at xs (λ i. h (suc i)))

  pub All-get_elem? : (xs : List A) → All P xs → (i : ℕ) (x : A) → get_elem? xs i ≡ some x → P x
  All-get_elem? [] h i x e = absurd (ground arith)
  All-get_elem? (y ∷ xs) h zero x e = let same : y ≡ x = ground arith in subst P same h.0
  All-get_elem? (y ∷ xs) h (suc i) x e = All-get_elem? xs h.1 i x e

-- What holds of each element, and relates it to its image, carries over to the images.
module _ {A : Type 0} (P : A → Type 0) (R S : A → A → Type 0)
    (f : (a b : A) → P a → R a b → S a b) where
  pub All2-with : (xs ys : List A) → All P xs → All2 R xs ys → All2 S xs ys
  All2-with [] [] k h = tt
  All2-with [] (y ∷ ys) k h = h
  All2-with (x ∷ xs) [] k h = h
  All2-with (x ∷ xs) (y ∷ ys) k h = (f x y k.0 h.0, All2-with xs ys k.1 h.1)

module _ {A : Type 0} (P Q : A → Type 0) (R : A → A → Type 0)
    (f : (a b : A) → P a → R a b → Q b) where
  pub All2-All : (xs ys : List A) → All P xs → All2 R xs ys → All Q ys
  All2-All [] [] k h = tt
  All2-All [] (y ∷ ys) k h = absurd h
  All2-All (x ∷ xs) [] k h = absurd h
  All2-All (x ∷ xs) (y ∷ ys) k h = (f x y k.0 h.0, All2-All xs ys k.1 h.1)
