-- ===== src/Numa/CpuList/Sets.antt =====
-- What parse_cpu_list returns is a set.
use nodepilot.Common.{
  ◌+◌, ◌-◌, ◌≡◌, List, [], ◌∷◌, Option, none, some, arith, ok, ◌>>=◌, >>=-eq-ok, ℤ, pos, negsuc,
  if◌then◌else◌, Bool-cases, inl, inr, ◌||◌,
}
use nodepilot.Common.Text.{Text, is_empty, strip, split_once, split_on}
use nodepilot.Common.Decimal.{int}
use nodepilot.Numa.Cores.{CoreSet, IsAscending, add-IsAscending, update-IsAscending, range}
use nodepilot.Numa.CpuList.{parse_part, parse_parts, parse_cpu_list, add_core, add_range}

add_core-IsAscending :
    (z : ℤ) (out s : CoreSet) → IsAscending out → add_core z out ≡ ok s → IsAscending s
unfolding add_core
add_core-IsAscending (pos c) out s h e = ground (arith, add-IsAscending c out h)
add_core-IsAscending (negsuc c) out s h e = cc

add_range-IsAscending :
    (lo hi : ℤ) (out s : CoreSet) → IsAscending out → add_range lo hi out ≡ ok s → IsAscending s
unfolding add_range
add_range-IsAscending (pos lo) (pos hi) out s h e =
    ground (arith, update-IsAscending (range lo (hi + 1 - lo)) out h)
add_range-IsAscending (pos lo) (negsuc hi) out s h e = cc
add_range-IsAscending (negsuc lo) hi out s h e = cc

parse_part-IsAscending :
    (part : Text) (out s : CoreSet) → IsAscending out → parse_part part out ≡ ok s → IsAscending s
unfolding parse_part
parse_part-IsAscending part out s h e = go (split_once b'-' part) e
  where
    go :
        (cut : Option (Text × Text))
        → (elim cut [
          | some (lo_s, hi_s) ↦ do lo ← int lo_s; hi ← int hi_s; add_range lo hi out
          | none ↦ do c ← int part; add_core c out
        ])
          ≡ ok s
        → IsAscending s
    go none e =
        let (c, _, e') = >>=-eq-ok (int part) (λ c. add_core c out) e in
        add_core-IsAscending c out s h e'
    go (some (lo_s, hi_s)) e =
        let (lo, _, e') = >>=-eq-ok (int lo_s) (λ lo. int hi_s >>= λ hi. add_range lo hi out) e in
        let (hi, _, e'') = >>=-eq-ok (int hi_s) (λ hi. add_range lo hi out) e' in
        add_range-IsAscending lo hi out s h e''

parse_parts-IsAscending :
    (parts : List Text) (out s : CoreSet)
    → IsAscending out
    → parse_parts parts out ≡ ok s
    → IsAscending s
unfolding parse_parts
parse_parts-IsAscending [] out s h e = ground arith
parse_parts-IsAscending (p ∷ ps) out s h e =
    let (next, e', e'') = >>=-eq-ok _ (λ next. parse_parts ps next) e in
    parse_parts-IsAscending ps next s (step (strip p) next e') e''
  where
    step :
        (part : Text) (next : CoreSet)
        → (if is_empty part then ok out else parse_part part out) ≡ ok next
        → IsAscending next
    step part next e = elim (Bool-cases (is_empty part)) [
      | inl skip ↦ ground arith
      | inr some_text ↦ parse_part-IsAscending part out next h (rw some_text at e)
    ]

pub parse_cpu_list-IsAscending :
    (spec : Text) (s : CoreSet) → parse_cpu_list spec ≡ ok s → IsAscending s
unfolding parse_cpu_list
parse_cpu_list-IsAscending spec s e = elim (Bool-cases (is_empty spec || is_empty (strip spec))) [
  | inl blank ↦ ground arith
  | inr parts ↦ parse_parts-IsAscending (split_on b',' spec) [] s tt (rw parts at e)
]
