-- ===== src/PyText.antt =====
-- Python's `int(text)` and `str(number)`, on texts of ASCII characters.
mod Tests
use Prim.Native.Char.{code}
use Prim.Native.String
use rsl_mom_bot.Prelude.{
  ℕ, zero, suc, ◌+◌, ◌-◌, ◌*◌, ◌/◌, ◌%◌, String, Bool, true, false, ◌&&◌, ◌||◌, ◌==◌, leb, ltb,
  if◌then◌else◌, Option, none, some, List, [], ◌∷◌,
}
use rsl_mom_bot.Prelude.Int.{ℤ, pos, negsuc}

-- The code points of a text.
abbrev pub codes : String → List ℕ
codes String.[] = []
codes (String.◌∷◌ c s) = code c ∷ codes s

abbrev pub is_digit : ℕ → Bool
is_digit c = leb b'0' c && leb c b'9'

abbrev is_space : ℕ → Bool
is_space c = (leb 9 c && leb c 13) || (leb 28 c && leb c 32)

-- The digits read so far: their value, their number, and whether the last character was a digit.
pub record Scan : Type 0 where
  pub value : ℕ
  pub count : ℕ
  pub after_digit : Bool

abbrev scan_start : Scan
scan_start = record { value = 0; count = 0; after_digit = false }

-- An underscore may stand between two digits.
scan_char : Scan → ℕ → Option Scan
scan_char s c =
    if is_digit c
    then some (record { value = s.value * 10 + (c - 48); count = s.count + 1; after_digit = true })
    else if (c == b'_') && s.after_digit
    then some (record s { after_digit = false })
    else none

-- The end of the text, spaces allowed; Python refuses more than 4300 digits.
scan_end : Scan → List ℕ → Option ℕ
scan_end s [] = if s.after_digit && leb s.count 4300 then some s.value else none
scan_end s (c ∷ cs) = let rest = scan_end s cs in if is_space c then rest else none

scan : Scan → List ℕ → Option ℕ
scan s [] = scan_end s []
scan s (c ∷ cs) = elim (scan_char s c) [ some s' ↦ scan s' cs | none ↦ scan_end s (c ∷ cs) ]

negate : Option ℕ → Option ℤ
negate none = none
negate (some zero) = some (pos 0)
negate (some (suc n)) = some (negsuc n)

positive : Option ℕ → Option ℤ
positive none = none
positive (some n) = some (pos n)

signed : List ℕ → Option ℤ
signed [] = none
signed (c ∷ cs) =
    if c == b'-'
    then negate (scan scan_start cs)
    else if c == b'+'
    then positive (scan scan_start cs)
    else positive (scan scan_start (c ∷ cs))

strip_left : List ℕ → List ℕ
strip_left [] = []
strip_left (c ∷ cs) = let rest = strip_left cs in if is_space c then rest else c ∷ cs

-- `int(text)`; `none` is a `ValueError`.
unfoldable pub int_of : String → Option ℤ
unfolding scan scan_char scan_end negate positive signed strip_left
int_of text = signed (strip_left (codes text))

-- The decimal digits of a number, before a text; the fuel `suc n` is enough for the number n.
unfoldable pub show_from : ℕ → ℕ → List ℕ → List ℕ
show_from zero n acc = acc
show_from (suc fuel) n acc =
    let shown = (48 + n % 10) ∷ acc in
    let rest = show_from fuel (n / 10) shown in if n / 10 == 0 then shown else rest

-- `str(z)`, as code points.
unfoldable pub str_of : ℤ → List ℕ
unfolding show_from
str_of (pos n) = show_from (suc n) n []
str_of (negsuc n) = b'-' ∷ show_from (suc (suc n)) (suc n) []

-- `a == b`, on code points.
abbrev pub codes_eq : List ℕ → List ℕ → Bool
codes_eq [] [] = true
codes_eq (a ∷ xs) (b ∷ ys) = (a == b) && codes_eq xs ys
codes_eq _ _ = false

-- `a < b`, on code points.
abbrev pub codes_lt : List ℕ → List ℕ → Bool
codes_lt xs [] = false
codes_lt [] (y ∷ ys) = true
codes_lt (x ∷ xs) (y ∷ ys) = ltb x y || ((x == y) && codes_lt xs ys)

unfoldable pub codes_prefix : List ℕ → List ℕ → Bool
codes_prefix [] text = true
codes_prefix (c ∷ cs) [] = false
codes_prefix (c ∷ cs) (d ∷ ds) = (c == d) && codes_prefix cs ds

codes_within : List ℕ → List ℕ → Bool
codes_within part [] = codes_prefix part []
codes_within part (c ∷ cs) = codes_prefix part (c ∷ cs) || codes_within part cs

-- `part in text`.
unfoldable pub is_substring : String → String → Bool
unfolding codes_prefix codes_within
is_substring part text = codes_within (codes part) (codes text)
