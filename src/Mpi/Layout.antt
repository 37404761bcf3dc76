-- ===== src/Mpi/Layout.antt =====
-- The default layout of the ranks in nodepilot/mpi.py.
use nodepilot.Common.{
  ℕ, zero, suc, ◌+◌, ◌*◌, ◌/◌, ◌<◌, ◌≤◌, ◌≡◌, refl, sym, ap, ◌∙◌, true, false, List, [], ◌∷◌, ◌++◌,
  none, arith, ltb, ◌==◌, ok, All, length, take, drop, append-nil,
}
use native.Mathlib.Nat.{
  mul-div-le, le-div_iff_mul-le, suc-mul, zero-mul, zero-add, add-zero, suc-add, mul-le-mul_right,
}
use nodepilot.Common.Text.{Text}
use nodepilot.Numa.CpuList.{parse_cpu_list}
use nodepilot.Mpi.{RankBinding, plan_ranks, rank_binding_plan}

-- The cores of all ranks, one rank after the other.
unfoldable pub all_cores : List RankBinding → List ℕ
all_cores [] = []
all_cores (b ∷ bs) = b.cores ++ all_cores bs

take-drop : (n : ℕ) (xs : List ℕ) → take n xs ++ drop n xs ≡ xs
take-drop zero xs = refl
take-drop (suc n) [] = refl
take-drop (suc n) (x ∷ xs) = ap (◌∷◌ x) (take-drop n xs)

drop-drop : (m n : ℕ) (xs : List ℕ) → drop n (drop m xs) ≡ drop (m + n) xs
drop-drop zero n xs = rw zero-add refl
drop-drop (suc m) zero [] = rw add-zero refl
drop-drop (suc m) (suc n) [] = rw suc-add refl
drop-drop (suc m) n (x ∷ xs) = rw suc-add (drop-drop m n xs)

length-drop : (n : ℕ) (xs : List ℕ) → n ≤ length xs → length (drop n xs) + n ≡ length xs
length-drop zero xs h = omega arith
length-drop (suc n) [] h = absurd (omega arith)
length-drop (suc n) (x ∷ xs) h = omega (arith, length-drop n xs (omega arith))

length-take_le : (n : ℕ) (xs : List ℕ) → n ≤ length xs → length (take n xs) ≡ n
length-take_le zero xs h = refl
length-take_le (suc n) [] h = absurd (omega arith)
length-take_le (suc n) (x ∷ xs) h = omega (arith, length-take_le n xs (omega arith))

module _ (nprocs stride : ℕ) (cores : List ℕ) (some_cores : 0 < stride)
    (room : nprocs * stride ≤ length cores) where
  room_at : (i : ℕ) → i < nprocs → i * stride + stride ≤ length cores
  room_at i h =
      let le = mul-le-mul_right {m = suc i} {n = nprocs} stride (omega arith) in
      omega (arith, le, suc-mul i stride)

  plan_ranks-all_cores :
      (left i : ℕ)
      → i + suc left ≡ nprocs
      → all_cores (plan_ranks nprocs stride stride (suc left) i cores) ≡ drop (i * stride) cores
  unfolding plan_ranks all_cores
  plan_ranks-all_cores zero i h =
      let last : (i + 1 == nprocs) ≡ true = ground arith in
      rw last (append-nil (drop (i * stride) cores))
  plan_ranks-all_cores (suc left) i h =
      let inner : (i + 1 == nprocs) ≡ false = ground arith in
      let rest = plan_ranks-all_cores left (suc i) (omega arith) in
      let next : drop (suc i * stride) cores ≡ drop stride (drop (i * stride) cores) =
        ap (λ k. drop k cores) (suc-mul i stride) ∙ sym (drop-drop (i * stride) stride cores) in
      rw inner (
        ap (◌++◌ (take stride (drop (i * stride) cores))) (rest ∙ next)
        ∙ take-drop stride (drop (i * stride) cores))

  plan_ranks-length :
      (left i : ℕ)
      → i + left ≡ nprocs
      → All (λ b. stride ≤ length b.cores) (plan_ranks nprocs stride stride left i cores)
  unfolding plan_ranks
  plan_ranks-length zero i h = tt
  plan_ranks-length (suc left) i h =
      let at = room_at i (omega arith) in
      let remaining = length-drop (i * stride) cores (omega arith) in
      let block = length-take_le stride (drop (i * stride) cores) (omega arith) in
      (ground arith, plan_ranks-length left (suc i) (omega arith))

length-plan_ranks :
    (nprocs stride width left i : ℕ) (cores : List ℕ)
    → length (plan_ranks nprocs stride width left i cores) ≡ left
unfolding plan_ranks
length-plan_ranks nprocs stride width zero i cores = refl
length-plan_ranks nprocs stride width (suc left) i cores =
    omega (arith, length-plan_ranks nprocs stride width left (suc i) cores)

-- For at least one rank and at least one core to each, the default plan exists; it has as many ranks
-- as asked for, gives each at least the even share, and its ranks, one after the other, have exactly
-- the cores of the list, in its order.
pub rank_binding_plan_lem :
    (spec : Text) (nprocs : ℕ) (cores : List ℕ)
    → parse_cpu_list spec ≡ ok cores
    → 0 < nprocs
    → nprocs ≤ length cores
    → (plan : List RankBinding) × (rank_binding_plan spec nprocs none ≡ ok plan)
      × (length plan ≡ nprocs)
      × All (λ b. length cores / nprocs ≤ length b.cores) plan
      × (all_cores plan ≡ cores)
unfolding rank_binding_plan
rank_binding_plan_lem spec zero cores parsed h enough = absurd (omega arith)
rank_binding_plan_lem spec (suc m) cores parsed h enough =
    let nprocs = suc m in
    let stride = length cores / nprocs in
    let some_cores : 0 < stride = (le-div_iff_mul-le (omega arith)).1 (omega arith) in
    let room : nprocs * stride ≤ length cores = mul-div-le (length cores) nprocs in
    let asked : ltb nprocs 1 ≡ false = ground arith in
    let fits : ltb (length cores) nprocs ≡ false = ground arith in
    let wide : ltb stride 1 ≡ false = ground arith in
    (
      plan_ranks nprocs stride stride nprocs 0 cores,
      rw (asked, parsed, fits, wide) refl,
      length-plan_ranks nprocs stride stride nprocs 0 cores,
      plan_ranks-length nprocs stride cores some_cores room nprocs 0 (omega arith),
      plan_ranks-all_cores nprocs stride cores some_cores room m 0 (omega arith)
          ∙ ap (λ k. drop k cores) (zero-mul stride),
    )
