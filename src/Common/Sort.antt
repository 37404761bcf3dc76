-- ===== src/Common/Sort.antt =====
-- `sorted(xs, key=...)` and `xs.sort(key=...)`: the stable sort by a strict order on the keys.
use nodepilot.Common.Tests.{if◌then◌else◌, Bool-cases}
use nodepilot.Common.Lists.{All, All-imp}
use mathlib.Core.Path.{◌≡◌}
use mathlib.Core.Logic.{inl, inr}
use mathlib.Core.Bool.{Bool, true, false}
use mathlib.Core.List.{List, [], ◌∷◌, Perm}
use mathlib.Core.List.Perm

module _ {ℓ} {A : Type ℓ} (less : A → A → Bool) where
  unfoldable pub insert_by : A → List A → List A
  insert_by x [] = x ∷ []
  insert_by x (y ∷ ys) = let rest = insert_by x ys in if less y x then y ∷ rest else x ∷ y ∷ ys

  unfoldable pub sort_by : List A → List A
  unfolding insert_by
  sort_by [] = []
  sort_by (x ∷ xs) = insert_by x (sort_by xs)

  -- No element is less than one that stands before it.
  abbrev pub IsSorted : List A → Type ℓ
  IsSorted [] = Unit
  IsSorted (x ∷ xs) = All (λ y. less y x ≡ false) xs × IsSorted xs

  insert_by-perm : (x : A) (ys : List A) → Perm (insert_by x ys) (x ∷ ys)
  unfolding insert_by
  insert_by-perm x [] = Perm.refl (x ∷ [])
  insert_by-perm x (y ∷ ys) = elim (Bool-cases (less y x)) [
    | inl e ↦ rw e (Perm.trans (Perm.cons y (insert_by-perm x ys)) (Perm.swap x y ys))
    | inr e ↦ rw e (Perm.refl (x ∷ y ∷ ys))
  ]

  pub sort_by-perm : (xs : List A) → Perm (sort_by xs) xs
  unfolding sort_by
  sort_by-perm [] = Perm.refl []
  sort_by-perm (x ∷ xs) = Perm.trans (insert_by-perm x (sort_by xs)) (Perm.cons x (sort_by-perm xs))

module _ {ℓ κ} {A : Type ℓ} (less : A → A → Bool) (P : A → Type κ) where
  All-insert_by : (x : A) (ys : List A) → P x → All P ys → All P (insert_by less x ys)
  unfolding insert_by
  All-insert_by x [] h hs = (h, tt)
  All-insert_by x (y ∷ ys) h hs = elim (Bool-cases (less y x)) [
    | inl e ↦ rw e (hs.0, All-insert_by x ys h hs.1)
    | inr e ↦ rw e (h, hs)
  ]

  pub All-sort_by : (xs : List A) → All P xs → All P (sort_by less xs)
  unfolding sort_by
  All-sort_by [] h = tt
  All-sort_by (x ∷ xs) h = All-insert_by x (sort_by less xs) h.0 (All-sort_by xs h.1)

  insert_by-All : (x : A) (ys : List A) → All P (insert_by less x ys) → P x × All P ys
  unfolding insert_by
  insert_by-All x [] h = h
  insert_by-All x (y ∷ ys) h = elim (Bool-cases (less y x)) [
    | inl e ↦
        let h' : All P (y ∷ insert_by less x ys) = rw e at h in
        let rest = insert_by-All x ys h'.1 in (rest.0, (h'.0, rest.1))
    | inr e ↦ let h' : All P (x ∷ y ∷ ys) = rw e at h in h'
  ]

  pub sort_by-All : (xs : List A) → All P (sort_by less xs) → All P xs
  unfolding sort_by
  sort_by-All [] h = tt
  sort_by-All (x ∷ xs) h =
      let both = insert_by-All x (sort_by less xs) h in (both.0, sort_by-All xs both.1)

-- What a key order gives: `less` is asymmetric, and "not less" is transitive.
pub record StrictOrder {ℓ} {A : Type ℓ} (less : A → A → Bool) : Type ℓ where
  pub asymm : (a b : A) → less a b ≡ true → less b a ≡ false
  pub not_less_trans : (a b c : A) → less b a ≡ false → less c b ≡ false → less c a ≡ false

module _ {ℓ} {A : Type ℓ} (less : A → A → Bool) (order : StrictOrder less) where
  insert_by-IsSorted :
      (x : A) (ys : List A) → IsSorted less ys → IsSorted less (insert_by less x ys)
  unfolding insert_by
  insert_by-IsSorted x [] h = (tt, tt)
  insert_by-IsSorted x (y ∷ ys) h = elim (Bool-cases (less y x)) [
    | inl e ↦ rw e (
      All-insert_by less (λ z. less z y ≡ false) x ys (order.asymm y x e) h.0,
      insert_by-IsSorted x ys h.1,
    )
    | inr e ↦ rw e (
      (
        e,
        All-imp (λ z. less z y ≡ false) (λ z. less z x ≡ false)
            (λ z hz. order.not_less_trans x y z e hz) ys h.0,
      ),
      h,
    )
  ]

  pub sort_by-IsSorted : (xs : List A) → IsSorted less (sort_by less xs)
  unfolding sort_by
  sort_by-IsSorted [] = tt
  sort_by-IsSorted (x ∷ xs) = insert_by-IsSorted x (sort_by less xs) (sort_by-IsSorted xs)

-- A relation between any two elements of a list.
abbrev pub AllPairs {ℓ κ} : {A : Type ℓ} → (A → A → Type κ) → List A → Type κ
AllPairs R [] = Unit
AllPairs R (x ∷ xs) = All (R x) xs × AllPairs R xs

module _ {ℓ κ} {A : Type ℓ} (less : A → A → Bool) (R : A → A → Type κ)
    (symm : (a b : A) → R a b → R b a) where
  insert_by-AllPairs :
      (x : A) (ys : List A) → All (R x) ys → AllPairs R ys → AllPairs R (insert_by less x ys)
  unfolding insert_by
  insert_by-AllPairs x [] h hs = (tt, tt)
  insert_by-AllPairs x (y ∷ ys) h hs = elim (Bool-cases (less y x)) [
    | inl e ↦
        rw e (All-insert_by less (R y) x ys (symm x y h.0) hs.0, insert_by-AllPairs x ys h.1 hs.1)
    | inr e ↦ rw e (h, hs)
  ]

  pub sort_by-AllPairs : (xs : List A) → AllPairs R xs → AllPairs R (sort_by less xs)
  unfolding sort_by
  sort_by-AllPairs [] h = tt
  sort_by-AllPairs (x ∷ xs) h =
      insert_by-AllPairs x (sort_by less xs) (All-sort_by less (R x) xs h.0)
        (sort_by-AllPairs xs h.1)
