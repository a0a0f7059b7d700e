-- ===== src/Common/Text.antt =====
-- Text as a list of code points. Python's character classes are read on ASCII: digits, white space
-- and letters beyond it count as ordinary characters.
use Prim.Native.Char.{code}
use Prim.Native.String.{String}
use Prim.Native.Nat.{ℕ, zero, suc, ◌+◌, ◌-◌, ◌*◌, ◌/◌, ◌%◌, ◌<◌}
use mathlib.Core.Path.{◌≡◌, refl, sym}
use mathlib.Core.Bool.{Bool, true, false, ◌||◌, ◌&&◌}
use mathlib.Core.List.{List, [], ◌∷◌, ◌++◌, reverse}
use native.Mathlib.Omega.{arith}
use zenith_enterprise.Common.Tests.{◌==◌, if◌then◌else◌, leb, ltb}
use zenith_enterprise.Common.Lists.{all}

abbrev pub Text : Type 0
Text = List ℕ

abbrev pub codes : String → Text
codes String.[] = []
codes (String.◌∷◌ c s) = code c ∷ codes s

abbrev pub is_empty {ℓ} : {A : Type ℓ} → List A → Bool
is_empty [] = true
is_empty (x ∷ xs) = false

abbrev pub is_digit : ℕ → Bool
is_digit c = leb 48 c && leb c 57

abbrev pub is_space : ℕ → Bool
is_space c = c == 32 || (leb 9 c && leb c 13) || (leb 28 c && leb c 31)

-- `str.isdigit`: not of the empty text.
abbrev pub is_number : Text → Bool
is_number [] = false
is_number (c ∷ cs) = is_digit c && all is_digit cs

abbrev pub drop_while : (ℕ → Bool) → Text → Text
drop_while p [] = []
drop_while p (c ∷ cs) = if p c then drop_while p cs else c ∷ cs

-- `str.strip()`
unfoldable pub strip : Text → Text
strip s = reverse (drop_while is_space (reverse (drop_while is_space s)))

-- `str.split(sep)` for a separator of one character: never the empty list.
unfoldable pub split_on : ℕ → Text → Text → List Text
split_on sep part [] = part ∷ []
split_on sep part (c ∷ cs) = elim (c == sep) [
  | true ↦ part ∷ split_on sep [] cs
  | false ↦ split_on sep (part ++ c ∷ []) cs
]

-- `int` of a run of digits.
value_from : ℕ → Text → ℕ
value_from acc [] = acc
value_from acc (c ∷ cs) = value_from (acc * 10 + (c - 48)) cs

unfoldable pub int : Text → ℕ
unfolding value_from
int = value_from 0

show_fuel : ℕ → ℕ → Text
show_fuel zero n = []
show_fuel (suc fuel) n =
    let front = show_fuel fuel (n / 10) in
    if ltb n 10 then (48 + n) ∷ [] else front ++ (48 + n % 10) ∷ []

-- `str` of a number: its decimal digits.
unfoldable pub show : ℕ → Text
unfolding show_fuel
show n = show_fuel (suc n) n

abbrev pub text_eq : Text → Text → Bool
text_eq [] [] = true
text_eq [] (d ∷ t) = false
text_eq (c ∷ s) [] = false
text_eq (c ∷ s) (d ∷ t) = c == d && text_eq s t

pub text_eq→eq : (s t : Text) → text_eq s t ≡ true → s ≡ t
text_eq→eq [] [] h = refl
text_eq→eq [] (d ∷ t) h = absurd (ground (arith, h))
text_eq→eq (c ∷ s) [] h = absurd (ground (arith, h))
text_eq→eq (c ∷ s) (d ∷ t) h = ground (arith, h, text_eq→eq s t)

pub text_eq_sym : (s t : Text) → text_eq s t ≡ text_eq t s
text_eq_sym [] [] = refl
text_eq_sym [] (d ∷ t) = refl
text_eq_sym (c ∷ s) [] = refl
text_eq_sym (c ∷ s) (d ∷ t) = ground (arith, text_eq_sym s t)

abbrev pub starts_with : Text → Text → Bool
starts_with [] text = true
starts_with (c ∷ part) [] = false
starts_with (c ∷ part) (d ∷ text) = c == d && starts_with part text

-- `str.upper()`
abbrev pub upper : Text → Text
upper [] = []
upper (c ∷ s) = (if leb 97 c && leb c 122 then c - 32 else c) ∷ upper s

-- `sep.join(parts)`
abbrev pub join : Text → List Text → Text
join sep [] = []
join sep (s ∷ []) = s
join sep (s ∷ t ∷ ts) = s ++ (sep ++ join sep (t ∷ ts))

-- `str.lower()`
abbrev pub lower : Text → Text
lower [] = []
lower (c ∷ s) = (if leb 65 c && leb c 90 then c + 32 else c) ∷ lower s

-- `str.rstrip(".")`
unfoldable pub rstrip_dot : Text → Text
rstrip_dot s = reverse (drop_while (λ c. c == 46) (reverse s))

-- `"".join(f"[{number}]" for number in numbers)`
abbrev pub render : List ℕ → Text
render [] = []
render (n ∷ ns) = (91 ∷ show n ++ 93 ∷ []) ++ render ns

value_from-append :
    (acc c : ℕ) (s : Text) → value_from acc (s ++ c ∷ []) ≡ value_from acc s * 10 + (c - 48)
unfolding value_from
value_from-append acc c [] = refl
value_from-append acc c (d ∷ s) = value_from-append (acc * 10 + (d - 48)) c s

int-show_fuel : (fuel n : ℕ) → n < fuel → value_from 0 (show_fuel fuel n) ≡ n
unfolding show_fuel value_from
int-show_fuel zero n h = absurd (omega arith)
int-show_fuel (suc fuel) n h = ground (
  arith,
  int-show_fuel fuel (n / 10),
  value_from-append 0 (48 + n % 10) (show_fuel fuel (n / 10)),
)

-- Printing a number and reading it back gives the number.
pub int-show : (n : ℕ) → int (show n) ≡ n
unfolding int show
int-show n = int-show_fuel (suc n) n (omega arith)

pub all-append : (p : ℕ → Bool) (s t : Text) → all p (s ++ t) ≡ (all p s && all p t)
all-append p [] t = refl
all-append p (c ∷ s) t = ground (arith, all-append p s t)

digits-show_fuel : (fuel n : ℕ) → all is_digit (show_fuel fuel n) ≡ true
unfolding show_fuel
digits-show_fuel zero n = refl
digits-show_fuel (suc fuel) n = ground (
  arith,
  digits-show_fuel fuel (n / 10),
  all-append is_digit (show_fuel fuel (n / 10)) ((48 + n % 10) ∷ []),
)

is_empty-append : (c : ℕ) (s : Text) → is_empty (s ++ c ∷ []) ≡ false
is_empty-append c [] = refl
is_empty-append c (d ∷ s) = refl

pub is_empty-show : (n : ℕ) → is_empty (show n) ≡ false
unfolding show
is_empty-show n = ground (arith, is_empty-append (48 + n % 10) (show_fuel n (n / 10)))

is_number_of : (s : Text) → is_empty s ≡ false → all is_digit s ≡ true → is_number s ≡ true
is_number_of [] e d = sym e
is_number_of (c ∷ s) e d = d

pub digits-show : (n : ℕ) → all is_digit (show n) ≡ true
unfolding show
digits-show n = digits-show_fuel (suc n) n

-- What is printed is a number.
pub is_number-show : (n : ℕ) → is_number (show n) ≡ true
is_number-show n = is_number_of (show n) (is_empty-show n) (digits-show n)
