-- ===== src/Date/Ordinal.antt =====
-- Day numbers of valid dates: they grow by one a day, and follow the calendar's order.
use rsl_mom_bot.Prelude.{
  ℕ, zero, suc, ◌+◌, ◌≤◌, ◌<◌, ◌≡◌, true, false, arith, inl, inr, Bool-cases, ◌==◌, ==→eq, ap,
}
use rsl_mom_bot.Date.{
  Date, days_in_month, days_before_year, days_before_month, to_ordinal, date_lt, date_eq, IsValid,
}

pub days_in_month_pos : (y m : ℕ) → 28 ≤ days_in_month y m
unfolding days_in_month
days_in_month_pos y m = ground arith

pub days_in_month_le : (y m : ℕ) → days_in_month y m ≤ 31
unfolding days_in_month
days_in_month_le y m = ground arith

pub days_before_month-suc :
    (y m : ℕ) → 1 ≤ m → days_before_month y (suc m) ≡ days_before_month y m + days_in_month y m
unfolding days_before_month
days_before_month-suc y zero h = absurd (omega arith)
days_before_month-suc y (suc m) h = omega arith

-- The leap rule and the closed formula for the days before a year agree.
pub days_before_year-suc :
    (y : ℕ)
    → 1 ≤ y
    → days_before_year (suc y) ≡ days_before_year y + days_before_month y 12 + days_in_month y 12
unfolding days_before_year days_before_month days_in_month
days_before_year-suc y h = ground arith

-- A later month begins after an earlier one has ended.
days_before_month_mono :
    (y m n : ℕ) → 1 ≤ m → m < n → days_before_month y m + days_in_month y m ≤ days_before_month y n
days_before_month_mono y m zero h lt = absurd (omega arith)
days_before_month_mono y m (suc n) h lt =
    ground (arith, days_before_month-suc y n, days_before_month_mono y m n h)

-- A later year begins after an earlier one has ended.
days_before_year_mono :
    (y z : ℕ)
    → 1 ≤ y
    → y < z
    → days_before_year y + days_before_month y 12 + days_in_month y 12 ≤ days_before_year z
days_before_year_mono y zero h lt = absurd (omega arith)
days_before_year_mono y (suc z) h lt =
    ground (arith, days_before_year-suc y h, days_before_year-suc z, days_before_year_mono y z h)

-- A day of the year comes by the end of December.
day_in_year :
    (d : Date)
    → IsValid d
    → days_before_month d.year d.month + d.day
      ≤ days_before_month d.year 12 + days_in_month d.year 12
day_in_year d v = ground (arith, days_before_month_mono d.year d.month 12)

-- An earlier date has a smaller day number.
pub date_lt-to_ordinal :
    (a b : Date) → IsValid a → IsValid b → date_lt a b ≡ true → to_ordinal a < to_ordinal b
unfolding to_ordinal
date_lt-to_ordinal a b va vb h = ground (
  arith,
  day_in_year a va,
  days_before_year_mono a.year b.year,
  days_before_month_mono a.year a.month b.month,
)

-- Dates that are not in order are the other way round, or one.
pub date_trichotomy : (a b : Date) → date_lt a b ≡ false → date_lt b a ≡ false → a ≡ b
date_trichotomy a b h k = ground arith

pub date_lt-asymm : (a b : Date) → date_lt a b ≡ true → date_lt b a ≡ false
date_lt-asymm a b h = ground arith

pub date_eq→eq : (a b : Date) → date_eq a b ≡ true → a ≡ b
date_eq→eq a b h = ground arith

pub date_eq_refl : (a : Date) → date_eq a a ≡ true
date_eq_refl a = ground arith

pub eq→date_eq : (a b : Date) → a ≡ b → date_eq a b ≡ true
eq→date_eq a b h = rw h (date_eq_refl b)

-- Valid dates with one day number are one date.
pub to_ordinal_inj : (d e : Date) → IsValid d → IsValid e → to_ordinal d ≡ to_ordinal e → d ≡ e
to_ordinal_inj a b va vb h = elim (Bool-cases (date_lt a b)) [
  | inl lt ↦ absurd (omega (arith, date_lt-to_ordinal a b va vb lt))
  | inr ge ↦ elim (Bool-cases (date_lt b a)) [
    | inl lt ↦ absurd (omega (arith, date_lt-to_ordinal b a vb va lt))
    | inr le ↦ date_trichotomy a b ge le
  ]
]

-- Valid dates are equal exactly when their day numbers are.
pub date_eq-to_ordinal :
    (a b : Date) → IsValid a → IsValid b → date_eq a b ≡ (to_ordinal a == to_ordinal b)
date_eq-to_ordinal a b va vb = elim (Bool-cases (to_ordinal a == to_ordinal b)) [
  | inl same ↦ rw same (eq→date_eq a b (to_ordinal_inj a b va vb (==→eq _ _ same)))
  | inr ne ↦ elim (Bool-cases (date_eq a b)) [
    | inl e ↦ absurd (ground (arith, ap to_ordinal (date_eq→eq a b e)))
    | inr e ↦ rw (e, ne)
  ]
]
