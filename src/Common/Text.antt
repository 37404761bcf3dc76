-- ===== src/Common/Text.antt =====
-- Python's str as the list of its code points, with the methods that the program calls.
use Prim.Native.Char.{code}
use nodepilot.Common.Tests.{leb, ltb, ◌==◌, if◌then◌else◌}
use nodepilot.Common.Lists.{All}
use Prim.Native.Nat.{ℕ, ◌+◌, ◌<◌}
use Prim.Native.String.{String}
use mathlib.Core.Path.{◌≡◌, refl, ap, ◌∙◌}
use mathlib.Core.Logic.{◌↔◌, ◌≢◌}
use mathlib.Core.Bool.{Bool, true, false, ◌&&◌, ◌||◌}
use mathlib.Core.Option.{Option, none, some}
use mathlib.Core.List.{List, [], ◌∷◌, ◌++◌}
use native.Mathlib.Omega.{arith}

abbrev pub Text : Type 0
Text = List ℕ

-- A literal of the source.
abbrev pub codes : String → Text
codes String.[] = []
codes (String.◌∷◌ c s) = code c ∷ codes s

-- `s == t`
unfoldable pub text_eq : Text → Text → Bool
text_eq [] [] = true
text_eq [] (d ∷ t) = false
text_eq (c ∷ s) [] = false
text_eq (c ∷ s) (d ∷ t) = (c == d) && text_eq s t

pub text_eq_iff : (s t : Text) → (text_eq s t ≡ true) ↔ (s ≡ t)
unfolding text_eq
text_eq_iff [] [] = ground arith
text_eq_iff [] (d ∷ t) = ground arith
text_eq_iff (c ∷ s) [] = ground arith
text_eq_iff (c ∷ s) (d ∷ t) = ground (arith, text_eq_iff s t)

-- The code points for which `str.isspace` holds.
is_space : ℕ → Bool
is_space c =
    (leb 9 c && leb c 13)
    || (leb 28 c && leb c 32)
    || c == 133
    || c == 160
    || c == 5760
    || (leb 8192 c && leb c 8202)
    || c == 8232
    || c == 8233
    || c == 8239
    || c == 8287
    || c == 12288

unfoldable pub is_empty : Text → Bool
is_empty [] = true
is_empty (c ∷ s) = false

lstrip : Text → Text
lstrip [] = []
lstrip (c ∷ s) = if is_space c then lstrip s else c ∷ s

rstrip : Text → Text
rstrip [] = []
rstrip (c ∷ s) = let rest = rstrip s in if is_space c && is_empty rest then [] else c ∷ rest

-- `s.strip()`
unfoldable pub strip : Text → Text
unfolding lstrip rstrip is_space is_empty
strip s = rstrip (lstrip s)

-- `s.startswith(prefix)`
unfoldable pub starts_with : Text → Text → Bool
starts_with s [] = true
starts_with [] (d ∷ t) = false
starts_with (c ∷ s) (d ∷ t) = (c == d) && starts_with s t

-- the first part of a split, one character longer
cons_head : ℕ → List Text → List Text
cons_head c [] = (c ∷ []) ∷ []
cons_head c (p ∷ ps) = (c ∷ p) ∷ ps

-- `s.split(sep)` at a separator of one character
unfoldable pub split_on : ℕ → Text → List Text
unfolding cons_head
split_on sep [] = [] ∷ []
split_on sep (c ∷ s) = let rest = split_on sep s in if c == sep then [] ∷ rest else cons_head c rest

-- `s.split(sep, 1)` where `sep in s`, and `none` where it is not
unfoldable pub split_once : ℕ → Text → Option (Text × Text)
split_once sep [] = none
split_once sep (c ∷ s) =
    let rest = split_once sep s in
    if c == sep then some ([], s) else elim rest [ none ↦ none | some (a, b) ↦ some (c ∷ a, b) ]

-- `sep.join(parts)` at a separator of one character
unfoldable pub join : ℕ → List Text → Text
join sep [] = []
join sep (p ∷ []) = p
join sep (p ∷ q ∷ ps) = p ++ sep ∷ join sep (q ∷ ps)

-- No white space.
abbrev pub IsVisible : ℕ → Type 0
IsVisible c = (32 < c) × (c < 133)

is_space-IsVisible : (c : ℕ) → IsVisible c → is_space c ≡ false
unfolding is_space
is_space-IsVisible c h = ground arith

lstrip-IsVisible : (s : Text) → All IsVisible s → lstrip s ≡ s
unfolding lstrip
lstrip-IsVisible [] h = refl
lstrip-IsVisible (c ∷ s) h = rw (is_space-IsVisible c h.0)

rstrip-IsVisible : (s : Text) → All IsVisible s → rstrip s ≡ s
unfolding rstrip
rstrip-IsVisible [] h = refl
rstrip-IsVisible (c ∷ s) h = rw (is_space-IsVisible c h.0, rstrip-IsVisible s h.1)

pub strip-IsVisible : (s : Text) → All IsVisible s → strip s ≡ s
unfolding strip
strip-IsVisible s h = rw (lstrip-IsVisible s h) (rstrip-IsVisible s h)

-- Every code point of the text differs from `sep`.
abbrev pub Avoids : ℕ → Text → Type 0
Avoids sep s = All (λ c. c ≢ sep) s

split_on-Avoids : (sep : ℕ) (s : Text) → Avoids sep s → split_on sep s ≡ s ∷ []
unfolding split_on
split_on-Avoids sep [] h = refl
split_on-Avoids sep (c ∷ s) h = ground (arith, split_on-Avoids sep s h.1)

split_on-append :
    (sep : ℕ) (p s : Text) → Avoids sep p → split_on sep (p ++ sep ∷ s) ≡ p ∷ split_on sep s
unfolding split_on
split_on-append sep [] s h = ground arith
split_on-append sep (c ∷ p) s h = ground (arith, split_on-append sep p s h.1)

pub split_on-join :
    (sep : ℕ) (p : Text) (ps : List Text)
    → All (Avoids sep) (p ∷ ps)
    → split_on sep (join sep (p ∷ ps)) ≡ p ∷ ps
unfolding join
split_on-join sep p [] h = split_on-Avoids sep p h.0
split_on-join sep p (q ∷ ps) h =
    split_on-append sep p (join sep (q ∷ ps)) h.0 ∙ ap (◌∷◌ p) (split_on-join sep q ps h.1)

pub split_once-Avoids : (sep : ℕ) (s : Text) → Avoids sep s → split_once sep s ≡ none
unfolding split_once
split_once-Avoids sep [] h = refl
split_once-Avoids sep (c ∷ s) h = ground (arith, split_once-Avoids sep s h.1)

pub split_once-append :
    (sep : ℕ) (p s : Text) → Avoids sep p → split_once sep (p ++ sep ∷ s) ≡ some (p, s)
unfolding split_once
split_once-append sep [] s h = ground arith
split_once-append sep (c ∷ p) s h = ground (arith, split_once-append sep p s h.1)

-- `s < t`
unfoldable pub text_less : Text → Text → Bool
text_less s [] = false
text_less [] (d ∷ t) = true
text_less (c ∷ s) (d ∷ t) = ltb c d || (c == d && text_less s t)

words_from : Text → Text → List Text
words_from word [] = if is_empty word then [] else word ∷ []
words_from word (c ∷ s) =
    let next = words_from [] s in
    let longer = words_from (word ++ c ∷ []) s in
    if is_space c then (if is_empty word then next else word ∷ next) else longer

-- `s.split()`
unfoldable pub words : Text → List Text
unfolding words_from is_space is_empty
words s = words_from [] s

-- `s.rstrip(c)` for one character
unfoldable pub rstrip_char : ℕ → Text → Text
unfolding is_empty
rstrip_char d [] = []
rstrip_char d (c ∷ s) =
    let rest = rstrip_char d s in if c == d && is_empty rest then [] else c ∷ rest

-- `s.lower()` for the letters of ASCII
unfoldable pub lower : Text → Text
lower [] = []
lower (c ∷ s) = (if leb b'A' c && leb c b'Z' then c + 32 else c) ∷ lower s

-- `part in s`
unfoldable pub has_part : Text → Text → Bool
unfolding starts_with
has_part part [] = is_empty part
has_part part (c ∷ s) = starts_with (c ∷ s) part || has_part part s

-- The lines of a file that is opened as a text, without their ends.
abbrev pub lines : Text → List Text
lines s = split_on b'\n' s

-- `directory / name`
abbrev pub under : Text → Text → Text
under directory name = directory ++ b'/' ∷ name
