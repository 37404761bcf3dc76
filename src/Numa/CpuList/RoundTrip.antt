-- ===== src/Numa/CpuList/RoundTrip.antt =====
-- format_cpu_list followed by parse_cpu_list.
use nodepilot.Common.{
  ℕ, suc, ◌+◌, ◌-◌, ◌≤◌, ◌≡◌, refl, sym, ap, ◌∙◌, false, ◌≢◌, inl, inr, Bool-cases, List, [], ◌∷◌,
  ◌++◌, arith, ok, ◌==◌, All, All-imp, All-append, append_assoc, append-nil, ==_iff, ◌>>=◌,
}
use nodepilot.Common.Text.{
  Text, strip, is_empty, join, IsVisible, strip-IsVisible, Avoids, split_on-join, split_once-Avoids,
  split_once-append,
}
use nodepilot.Common.Decimal.{decimal, IsDigit, decimal-IsDigit, int-decimal, decimal-ne_empty}
use nodepilot.Numa.Cores.{
  CoreSet, add, update, range, contains, IsAscending, update-IsAscending, update-nil, update-append,
  range_snoc, contains-update,
}
use nodepilot.Numa.CpuList.{
  parse_part, parse_parts, parse_cpu_list, run, format_runs, format_ordered, format_cpu_list,
}

-- The code points of a printed part: digits and the dash.
abbrev IsPartChar : ℕ → Type 0
IsPartChar c = (b'-' ≤ c) × (c ≤ b'9')

decimal-IsPartChar : (n : ℕ) → All IsPartChar (decimal n)
decimal-IsPartChar n = All-imp IsDigit IsPartChar (λ c h. omega arith) _ (decimal-IsDigit n)

run-IsPartChar : (lo hi : ℕ) → All IsPartChar (run lo hi)
unfolding run
run-IsPartChar lo hi = elim (Bool-cases (lo == hi)) [
  | inl e ↦ rw e (decimal-IsPartChar lo)
  | inr e ↦ rw e (
      All-append IsPartChar (decimal lo) (b'-' ∷ decimal hi) (decimal-IsPartChar lo)
        (omega arith, decimal-IsPartChar hi))
]

decimal-Avoids : (n : ℕ) → Avoids b'-' (decimal n)
decimal-Avoids n = All-imp IsDigit (λ c. c ≢ b'-') (λ c h. omega arith) _ (decimal-IsDigit n)

is_empty-append : (s t : Text) → is_empty s ≡ false → is_empty (s ++ t) ≡ false
unfolding is_empty
is_empty-append [] t h = cc
is_empty-append (c ∷ s) t h = refl

run-ne_empty : (lo hi : ℕ) → is_empty (run lo hi) ≡ false
unfolding run
run-ne_empty lo hi = elim (Bool-cases (lo == hi)) [
  | inl e ↦ rw e (decimal-ne_empty lo)
  | inr e ↦ rw e (is_empty-append (decimal lo) _ (decimal-ne_empty lo))
]

strip-run : (lo hi : ℕ) → strip (run lo hi) ≡ run lo hi
strip-run lo hi =
    strip-IsVisible _ (All-imp IsPartChar IsVisible (λ c h. omega arith) _ (run-IsPartChar lo hi))

parse_part-decimal : (c : ℕ) (out : CoreSet) → parse_part (decimal c) out ≡ ok (add c out)
unfolding parse_part
parse_part-decimal c out =
    rw (split_once-Avoids b'-' (decimal c) (decimal-Avoids c), int-decimal c, parse_part)

parse_part-range :
    (lo hi : ℕ) (out : CoreSet)
    → lo ≤ hi
    → parse_part (decimal lo ++ b'-' ∷ decimal hi) out ≡ ok (update (range lo (hi + 1 - lo)) out)
unfolding parse_part
parse_part-range lo hi out h =
    rw
      (
        split_once-append b'-' (decimal lo) (decimal hi) (decimal-Avoids lo),
        int-decimal lo,
        int-decimal hi,
        parse_part,
      )
      (ground arith)

update-range_one : (c : ℕ) (out : CoreSet) → update (range c (c + 1 - c)) out ≡ add c out
unfolding update range
update-range_one c out = let e : c + 1 - c ≡ 1 = omega arith in rw e

parse_part-run :
    (lo hi : ℕ) (out : CoreSet)
    → lo ≤ hi
    → parse_part (run lo hi) out ≡ ok (update (range lo (hi + 1 - lo)) out)
unfolding run
parse_part-run lo hi out h = elim (Bool-cases (lo == hi)) [
  | inl e ↦
      let same : lo ≡ hi = (==_iff lo hi).0 e in
      rw (e, ← same) (parse_part-decimal lo out ∙ ap ok (sym (update-range_one lo out)))
  | inr e ↦ rw e (parse_part-range lo hi out h)
]

parse_parts-run :
    (lo hi : ℕ) (ps : List Text) (out : CoreSet)
    → lo ≤ hi
    → parse_parts (run lo hi ∷ ps) out ≡ parse_parts ps (update (range lo (hi + 1 - lo)) out)
unfolding parse_parts
parse_parts-run lo hi ps out h =
    rw (strip-run lo hi, run-ne_empty lo hi)
      (ap (λ m. m >>= λ next. parse_parts ps next) (parse_part-run lo hi out h))

-- One more core joins the current run.
range_longer :
    (lo hi : ℕ) → lo ≤ hi → range lo (hi + 1 + 1 - lo) ≡ range lo (hi + 1 - lo) ++ (hi + 1) ∷ []
range_longer lo hi h =
    let e : hi + 1 + 1 - lo ≡ suc (hi + 1 - lo) = omega arith in
    let e' : hi + 1 ≡ lo + (hi + 1 - lo) = omega arith in
    rw (e, range_snoc) (ap (λ x. range lo (hi + 1 - lo) ++ x ∷ []) (sym e'))

join_runs :
    (c : ℕ) (cs xs : List ℕ) (out : CoreSet)
    → update (range c (c + 1 - c) ++ cs) (update xs out) ≡ update (xs ++ c ∷ cs) out
join_runs c cs xs out =
    rw (update-append xs, update-append (range c (c + 1 - c)), update-range_one)
      (unfold update in refl)

parse_parts-format_runs :
    (lo hi : ℕ) (cs : List ℕ) (out : CoreSet)
    → lo ≤ hi
    → parse_parts (format_runs lo hi cs) out ≡ ok (update (range lo (hi + 1 - lo) ++ cs) out)
unfolding format_runs
parse_parts-format_runs lo hi [] out h =
    parse_parts-run lo hi [] out h ∙ rw append-nil (unfold parse_parts in refl)
parse_parts-format_runs lo hi (c ∷ cs) out h = elim (Bool-cases (c == hi + 1)) [
  | inl e ↦
      let next : c ≡ hi + 1 = (==_iff c (hi + 1)).0 e in
      rw (e, next)
        (parse_parts-format_runs lo (hi + 1) cs out (omega arith)
          ∙ rw (range_longer lo hi h, append_assoc))
  | inr e ↦ rw e (
      parse_parts-run lo hi (format_runs c c cs) out h
      ∙ parse_parts-format_runs c c cs (update (range lo (hi + 1 - lo)) out) (omega arith)
      ∙ ap ok (join_runs c cs (range lo (hi + 1 - lo)) out))
]

format_runs-parts :
    (lo hi : ℕ) (cs : List ℕ) → All (λ part. All IsPartChar part) (format_runs lo hi cs)
unfolding format_runs
format_runs-parts lo hi [] = (run-IsPartChar lo hi, tt)
format_runs-parts lo hi (c ∷ cs) = elim (Bool-cases (c == hi + 1)) [
  | inl e ↦ rw e (format_runs-parts lo c cs)
  | inr e ↦ rw e (run-IsPartChar lo hi, format_runs-parts c c cs)
]

-- The list of parts is not empty, and neither is its first part.
abbrev Starts : List Text → Type 0
Starts parts = (p : Text) × (ps : List Text) × (parts ≡ p ∷ ps) × (is_empty p ≡ false)

format_runs-Starts : (lo hi : ℕ) (cs : List ℕ) → Starts (format_runs lo hi cs)
unfolding format_runs
format_runs-Starts lo hi [] = (run lo hi, [], refl, run-ne_empty lo hi)
format_runs-Starts lo hi (c ∷ cs) = elim (Bool-cases (c == hi + 1)) [
  | inl e ↦ rw e (format_runs-Starts lo c cs)
  | inr e ↦ rw e (run lo hi, format_runs c c cs, refl, run-ne_empty lo hi)
]

join-IsVisible :
    (parts : List Text) → All (λ part. All IsPartChar part) parts → All IsVisible (join b',' parts)
unfolding join
join-IsVisible [] h = tt
join-IsVisible (p ∷ []) h = All-imp IsPartChar IsVisible (λ c k. omega arith) p h.0
join-IsVisible (p ∷ q ∷ ps) h =
    All-append IsVisible p (b',' ∷ join b',' (q ∷ ps))
      (All-imp IsPartChar IsVisible (λ c k. omega arith) p h.0)
      (omega arith, join-IsVisible (q ∷ ps) h.1)

join-ne_empty :
    (p : Text) (ps : List Text) → is_empty p ≡ false → is_empty (join b',' (p ∷ ps)) ≡ false
unfolding join
join-ne_empty p [] h = h
join-ne_empty p (q ∷ ps) h = is_empty-append p _ h

parse_cpu_list-join :
    (parts : List Text)
    → Starts parts
    → All (λ part. All IsPartChar part) parts
    → parse_cpu_list (join b',' parts) ≡ parse_parts parts []
unfolding parse_cpu_list
parse_cpu_list-join parts (p, ps, e, first) h = rw e (
    let h' : All (λ part. All IsPartChar part) (p ∷ ps) = rw e at h in
    rw (
      strip-IsVisible _ (join-IsVisible (p ∷ ps) h'),
      join-ne_empty p ps first,
      split_on-join b',' p ps (
          All-imp (λ part. All IsPartChar part) (Avoids b',')
            (λ part k. All-imp IsPartChar (λ c. c ≢ b',') (λ c k'. omega arith) part k) (p ∷ ps)
            h'),
    ))

parse_cpu_list-format_ordered :
    (cores : List ℕ) → parse_cpu_list (format_ordered cores) ≡ ok (update cores [])
unfolding format_ordered
parse_cpu_list-format_ordered [] = unfold parse_cpu_list is_empty update in refl
parse_cpu_list-format_ordered (c ∷ cs) =
    parse_cpu_list-join (format_runs c c cs) (format_runs-Starts c c cs) (format_runs-parts c c cs)
    ∙ parse_parts-format_runs c c cs [] (omega arith)
    ∙ ap ok (rw (update-append (range c (c + 1 - c)), update-range_one) (unfold update in refl))

pub parse-format_lem :
    (cores : List ℕ) → parse_cpu_list (format_cpu_list cores) ≡ ok (update cores [])
unfolding format_cpu_list
parse-format_lem cores =
    parse_cpu_list-format_ordered (update cores [])
    ∙ ap ok (update-nil (update cores []) (update-IsAscending cores [] tt))

-- Reading a printed CPU list never fails: it gives the ascending list without repetitions that
-- has exactly the cores that were printed, in whatever order and however often they were given.
pub parse_cpu_list-format_cpu_list :
    (cores : List ℕ)
    → (s : CoreSet) × (parse_cpu_list (format_cpu_list cores) ≡ ok s)
      × IsAscending s
      × ((c : ℕ) → contains c s ≡ contains c cores)
parse_cpu_list-format_cpu_list cores =
    (update cores [], parse-format_lem cores, update-IsAscending cores [] tt, same)
  where
    same : (c : ℕ) → contains c (update cores []) ≡ contains c cores
    same c = contains-update c cores [] ∙ unfold contains in ground arith
