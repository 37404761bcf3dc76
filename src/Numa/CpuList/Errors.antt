-- ===== src/Numa/CpuList/Errors.antt =====
-- The exceptions of parse_cpu_list of nodepilot/numa.py.
use nodepilot.Common.{
  refl, ◌≡◌, ◌↔◌, ◌⊎◌, ◌≤◌, ℕ, ok, arith, All, Returns, >>=-eq-ok, Option-cases, true, false, inl,
  inr, List, [], ◌∷◌, Option, none, some, RaisesValueError, bind-RaisesValueError, ◌>>=◌, ℤ, pos,
  negsuc, Bool-cases, ltb, ◌||◌,
}
use nodepilot.Common.Text.{Text, strip, is_empty, split_on, split_once}
use nodepilot.Common.Decimal.{int, int-RaisesValueError}
use nodepilot.Numa.Cores.{CoreSet}
use nodepilot.Numa.CpuList.{add_range, add_core, parse_part, parse_parts, parse_cpu_list}

add_range-RaisesValueError : (lo hi : ℤ) (out : CoreSet) → RaisesValueError (add_range lo hi out)
unfolding add_range
add_range-RaisesValueError (pos lo) (pos hi) out = elim (Bool-cases (ltb hi lo)) [
  | inl inverted ↦ rw inverted refl
  | inr fine ↦ rw fine tt
]
add_range-RaisesValueError (pos lo) (negsuc hi) out = refl
add_range-RaisesValueError (negsuc lo) hi out = refl

add_core-RaisesValueError : (c : ℤ) (out : CoreSet) → RaisesValueError (add_core c out)
unfolding add_core
add_core-RaisesValueError (pos c) out = tt
add_core-RaisesValueError (negsuc c) out = refl

parse_part-RaisesValueError : (part : Text) (out : CoreSet) → RaisesValueError (parse_part part out)
unfolding parse_part
parse_part-RaisesValueError part out = go (split_once b'-' part)
  where
    go :
        (o : Option (Text × Text))
        → RaisesValueError (elim o [
          | some (lo_s, hi_s) ↦ do lo ← int lo_s; hi ← int hi_s; add_range lo hi out
          | none ↦ do c ← int part; add_core c out
        ])
    go none =
        bind-RaisesValueError (int part) _ (int-RaisesValueError part)
          (λ c. add_core-RaisesValueError c out)
    go (some (lo_s, hi_s)) = bind-RaisesValueError (int lo_s) _ (int-RaisesValueError lo_s) (λ lo.
        bind-RaisesValueError (int hi_s) _ (int-RaisesValueError hi_s)
          (λ hi. add_range-RaisesValueError lo hi out))

parse_parts-RaisesValueError :
    (parts : List Text) (out : CoreSet) → RaisesValueError (parse_parts parts out)
unfolding parse_parts
parse_parts-RaisesValueError [] out = tt
parse_parts-RaisesValueError (p ∷ ps) out = elim (Bool-cases (is_empty (strip p))) [
  | inl blank ↦ rw blank (parse_parts-RaisesValueError ps out)
  | inr filled ↦ rw filled (
      bind-RaisesValueError (parse_part (strip p) out) _ (parse_part-RaisesValueError (strip p) out)
        (λ next. parse_parts-RaisesValueError ps next))
]

is_empty-strip : (spec : Text) → is_empty (strip spec) ≡ false → is_empty spec ≡ false
unfolding is_empty strip
is_empty-strip [] e = absurd (ground arith)
is_empty-strip (c ∷ cs) e = refl

parse_cpu_list-RaisesValueError : (spec : Text) → RaisesValueError (parse_cpu_list spec)
unfolding parse_cpu_list
parse_cpu_list-RaisesValueError spec = elim (Bool-cases (is_empty spec || is_empty (strip spec))) [
  | inl blank ↦ rw blank tt
  | inr filled ↦ rw filled (parse_parts-RaisesValueError (split_on b',' spec) [])
]

-- A number of a core, or two with a dash between them, the first not above the second.
abbrev pub IsPart : Text → Type 0
IsPart part =
    ((split_once b'-' part ≡ none) × ((c : ℕ) × (int part ≡ ok (pos c))))
    ⊎ (lo_s : Text) × (hi_s : Text) × (split_once b'-' part ≡ some (lo_s, hi_s))
      × ((lo : ℕ) × (hi : ℕ) × (int lo_s ≡ ok (pos lo)) × (int hi_s ≡ ok (pos hi)) × (lo ≤ hi))

-- A blank text, or parts with commas between them, each of which is blank or a part.
abbrev pub IsCpuList : Text → Type 0
IsCpuList spec =
    (is_empty (strip spec) ≡ true)
    ⊎ All (λ p. (is_empty (strip p) ≡ true) ⊎ IsPart (strip p)) (split_on b',' spec)

parse_part-IsPart : (part : Text) (out next : CoreSet) → parse_part part out ≡ ok next → IsPart part
unfolding parse_part add_range add_core
parse_part-IsPart part out next e = elim (Option-cases (split_once b'-' part)) [
  | inl single ↦
      let (c, number, e') = >>=-eq-ok (int part) _ (rw (parse_part, single) at e) in
      inl (single, core c number e')
  | inr ((lo_s, hi_s), dash) ↦
      let (lo, low, e') = >>=-eq-ok (int lo_s) _ (rw (parse_part, dash) at e) in
      let (hi, high, e'') = >>=-eq-ok (int hi_s) _ e' in
      inr (lo_s, hi_s, dash, bounds lo_s hi_s lo hi low high e'')
]
  where
    core : (c : ℤ) → int part ≡ ok c → add_core c out ≡ ok next → (n : ℕ) × (int part ≡ ok (pos n))
    core (pos n) number e' = (n, number)
    core (negsuc n) number e' = absurd (ground arith)

    bounds :
        (lo_s hi_s : Text) (lo hi : ℤ)
        → int lo_s ≡ ok lo
        → int hi_s ≡ ok hi
        → add_range lo hi out ≡ ok next
        → (a : ℕ) × (b : ℕ) × (int lo_s ≡ ok (pos a)) × (int hi_s ≡ ok (pos b)) × (a ≤ b)
    bounds lo_s hi_s (pos a) (pos b) low high e' = (a, b, low, high, ground arith)
    bounds lo_s hi_s (pos a) (negsuc b) low high e' = absurd (ground arith)
    bounds lo_s hi_s (negsuc a) hi low high e' = absurd (ground arith)

IsPart-Returns : (part : Text) (out : CoreSet) → IsPart part → Returns (parse_part part out)
unfolding parse_part add_range add_core
IsPart-Returns part out (inl (single, (c, number))) = rw (parse_part, single, number) (_, refl)
IsPart-Returns part out (inr (lo_s, hi_s, dash, (lo, hi, low, high, le))) =
    let fine : ltb hi lo ≡ false = ground arith in rw (parse_part, dash, low, high, fine) (_, refl)

parse_parts_iff :
    (parts : List Text) (out : CoreSet)
    → Returns (parse_parts parts out)
      ↔ All (λ p. (is_empty (strip p) ≡ true) ⊎ IsPart (strip p)) parts
unfolding parse_parts
parse_parts_iff [] out = (λ _. tt, λ _. (out, refl))
parse_parts_iff (p ∷ ps) out = elim (Bool-cases (is_empty (strip p))) [
  | inl blank ↦
      let (to, from) = parse_parts_iff ps out in
      (
        λ r. (inl blank, to (rw (parse_parts, blank) at r)),
        λ all. rw (parse_parts, blank) (from all.1),
      )
  | inr filled ↦ (
    λ (cores, e).
        let (next, here, e') =
          >>=-eq-ok (parse_part (strip p) out) _ (rw (parse_parts, filled) at e) in
        (inr (parse_part-IsPart (strip p) out next here), (parse_parts_iff ps next).0 (cores, e')),
    λ (first, rest). elim first [
      | inl blank ↦ absurd (ground arith)
      | inr part ↦
          let (next, here) = IsPart-Returns (strip p) out part in
          rw (parse_parts, filled, here) ((parse_parts_iff ps next).1 rest)
    ],
  )
]

-- Reading a CPU list gives a set of cores exactly if the text is blank, or its parts between commas are
-- blank, or the number of a core, or a range whose first core is not above its last; on any other text
-- it raises ValueError, and no other exception.
pub parse_cpu_list-Returns_iff :
    (spec : Text)
    → (Returns (parse_cpu_list spec) ↔ IsCpuList spec) × RaisesValueError (parse_cpu_list spec)
unfolding parse_cpu_list
parse_cpu_list-Returns_iff spec = (
  elim (Bool-cases (is_empty (strip spec))) [
    | inl blank ↦ (
      λ _. inl blank,
      λ _. elim (Bool-cases (is_empty spec)) [
        | inl nothing ↦ rw nothing (_, refl)
        | inr some_text ↦ rw (some_text, blank) (_, refl)
      ],
    )
    | inr filled ↦
        let some_text : is_empty spec ≡ false = is_empty-strip spec filled in
        let (to, from) = parse_parts_iff (split_on b',' spec) [] in
        (
          λ r. inr (to (rw (parse_cpu_list, some_text, filled) at r)),
          λ l. elim l [
            | inl blank ↦ absurd (ground arith)
            | inr parts ↦ rw (parse_cpu_list, some_text, filled) (from parts)
          ],
        )
  ],
  parse_cpu_list-RaisesValueError spec,
)
