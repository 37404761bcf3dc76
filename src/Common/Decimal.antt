-- ===== src/Common/Decimal.antt =====
-- `str(n)` and `int(s)` in base ten.
use nodepilot.Common.Tests.{leb, ltb, ◌==◌, if◌then◌else◌, Bool-cases}
use nodepilot.Common.Int.{ℤ, pos, negsuc}
use nodepilot.Common.Lists.{All, All-imp}
use nodepilot.Common.Outcome.{Result, ok, err, value_error, RaisesValueError}
use nodepilot.Common.Text.{Text, is_empty, strip, codes, IsVisible, strip-IsVisible}
use Prim.Native.Nat.{ℕ, zero, suc, ◌+◌, ◌-◌, ◌*◌, ◌/◌, ◌%◌, ◌<◌, ◌≤◌}
use mathlib.Core.Path.{◌≡◌, refl, ap, ◌∙◌}
use mathlib.Core.Logic.{inl, inr}
use mathlib.Core.Bool.{Bool, true, false, ◌&&◌}
use mathlib.Core.Option.{Option, none, some}
use mathlib.Core.List.{[], ◌∷◌}
use native.Mathlib.Omega.{arith}

is_digit : ℕ → Bool
is_digit c = leb b'0' c && leb c b'9'

-- The digits of `n` in front of `acc`; more fuel than `n` is enough.
digits : ℕ → ℕ → Text → Text
digits zero n acc = acc
digits (suc f) n acc =
    let rest = digits f (n / 10) ((b'0' + n % 10) ∷ acc) in
    if ltb n 10 then (b'0' + n) ∷ acc else rest

-- `str(n)` for n ≥ 0
unfoldable pub decimal : ℕ → Text
unfolding digits
decimal n = digits (suc n) n []

-- `f"{n}"` of an integer
unfoldable pub show : ℤ → Text
show (pos n) = decimal n
show (negsuc n) = b'-' ∷ decimal (suc n)

-- Digits, with single underscores between them; `prev` says that a digit stands before.
read_digits : Bool → ℕ → Text → Option ℕ
read_digits prev acc [] = if prev then some acc else none
read_digits prev acc (c ∷ s) =
    if is_digit c
    then read_digits true (acc * 10 + (c - b'0')) s
    else if (c == b'_') && prev
    then read_digits false acc s
    else none

signed : Bool → Option ℕ → Result ℤ
signed minus none = err value_error
signed true (some zero) = ok (pos zero)
signed true (some (suc n)) = ok (negsuc n)
signed false (some n) = ok (pos n)

read_int : Text → Result ℤ
read_int [] = err value_error
read_int (c ∷ s) =
    if c == b'-'
    then signed true (read_digits false 0 s)
    else if c == b'+'
    then signed false (read_digits false 0 s)
    else signed false (read_digits false 0 (c ∷ s))

-- `int(s)`
unfoldable pub int : Text → Result ℤ
unfolding read_int read_digits signed is_digit strip
int s = read_int (strip s)

int_samples :
    (int (codes " 1_0 ") ≡ ok (pos 10))
    × (int (codes "-7") ≡ ok (negsuc 6))
    × (int (codes "") ≡ err value_error)
    × (int (codes "1__0") ≡ err value_error)
unfolding int
int_samples = (refl, refl, refl, refl)

decimal_sample : decimal 1050 ≡ codes "1050"
unfolding decimal
decimal_sample = refl

abbrev pub IsDigit : ℕ → Type 0
IsDigit c = (b'0' ≤ c) × (c ≤ b'9')

digits-IsDigit : (f n : ℕ) (acc : Text) → All IsDigit acc → All IsDigit (digits f n acc)
unfolding digits
digits-IsDigit zero n acc h = h
digits-IsDigit (suc f) n acc h = ground (arith, digits-IsDigit f (n / 10) ((b'0' + n % 10) ∷ acc))

pub decimal-IsDigit : (n : ℕ) → All IsDigit (decimal n)
unfolding decimal
decimal-IsDigit n = digits-IsDigit (suc n) n [] tt

read_digits-digits :
    (f n : ℕ) (acc : Text) (prev : Bool)
    → n < f
    → read_digits prev 0 (digits f n acc) ≡ read_digits true n acc
unfolding digits read_digits is_digit
read_digits-digits zero n acc prev h = elim h [ ]
read_digits-digits (suc f) n acc prev h =
    ground (arith, read_digits-digits f (n / 10) ((b'0' + n % 10) ∷ acc) prev)

read_int-IsDigit : (s : Text) → All IsDigit s → read_int s ≡ signed false (read_digits false 0 s)
unfolding read_int signed read_digits is_digit
read_int-IsDigit [] h = refl
read_int-IsDigit (c ∷ s) h = ground arith

-- Reading a printed number returns it.
pub int-decimal : (n : ℕ) → int (decimal n) ≡ ok (pos n)
unfolding int
int-decimal n =
    rw
      (strip-IsVisible (decimal n)
        (All-imp IsDigit IsVisible (λ c h. omega arith) _ (decimal-IsDigit n)))
      (read_int-IsDigit (decimal n) (decimal-IsDigit n)
        ∙ unfold decimal in ap (signed false) (read_digits-digits (suc n) n [] false (omega arith)))

digits-ne_empty : (f n c : ℕ) (acc : Text) → is_empty (digits f n (c ∷ acc)) ≡ false
unfolding digits is_empty
digits-ne_empty zero n c acc = refl
digits-ne_empty (suc f) n c acc =
    ground (arith, digits-ne_empty f (n / 10) (b'0' + n % 10) (c ∷ acc))

pub decimal-ne_empty : (n : ℕ) → is_empty (decimal n) ≡ false
unfolding decimal is_empty
decimal-ne_empty n = ground (arith, digits-ne_empty n (n / 10) (b'0' + n % 10) [])

signed-RaisesValueError : (minus : Bool) (o : Option ℕ) → RaisesValueError (signed minus o)
unfolding signed
signed-RaisesValueError minus none = refl
signed-RaisesValueError true (some zero) = tt
signed-RaisesValueError true (some (suc n)) = tt
signed-RaisesValueError false (some n) = tt

read_int-RaisesValueError : (s : Text) → RaisesValueError (read_int s)
unfolding read_int
read_int-RaisesValueError [] = refl
read_int-RaisesValueError (c ∷ s) = elim (Bool-cases (c == b'-')) [
  | inl minus ↦ rw minus (signed-RaisesValueError true _)
  | inr no_minus ↦ elim (Bool-cases (c == b'+')) [
    | inl plus ↦ rw (no_minus, plus) (signed-RaisesValueError false _)
    | inr digit ↦ rw (no_minus, digit) (signed-RaisesValueError false _)
  ]
]

pub int-RaisesValueError : (s : Text) → RaisesValueError (int s)
unfolding int
int-RaisesValueError s = read_int-RaisesValueError (strip s)
