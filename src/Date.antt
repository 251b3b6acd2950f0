-- ===== src/Date.antt =====
-- `datetime.date` and `calendar` as the bot uses them.
pub mod Ordinal
pub mod Shift
use rsl_mom_bot.Prelude.{
  ℕ, zero, suc, ◌+◌, ◌-◌, ◌*◌, ◌/◌, ◌%◌, ◌≤◌, ltb, leb, ◌==◌, if◌then◌else◌, Bool, true, false, not,
  ◌&&◌, ◌||◌,
}
use rsl_mom_bot.Prelude.Exec.{Result, ok, err, overflow_error}
use rsl_mom_bot.Prelude.Int.{ℤ, sub_ℕ}

pub record Date : Type 0 where
  pub year : ℕ
  pub month : ℕ
  pub day : ℕ

abbrev pub date : ℕ → ℕ → ℕ → Date
date in_year in_month on = record { year = in_year; month = in_month; day = on }

-- `calendar.isleap`.
unfoldable pub is_leap : ℕ → Bool
is_leap y = (y % 4 == 0) && (not (y % 100 == 0) || (y % 400 == 0))

-- `calendar.monthrange(y, m)[1]`.
unfoldable pub days_in_month : ℕ → ℕ → ℕ
unfolding is_leap
days_in_month y m =
    if (m == 4) || (m == 6) || (m == 9) || (m == 11)
    then 30
    else if not (m == 2)
    then 31
    else if is_leap y
    then 29
    else 28

-- Days before January 1st of year `y`.
unfoldable pub days_before_year : ℕ → ℕ
days_before_year y =
    let full_years = y - 1 in
    full_years * 365 + full_years / 4 - full_years / 100 + full_years / 400

-- Days of year `y` before the 1st of month `m`.
unfoldable pub days_before_month : ℕ → ℕ → ℕ
days_before_month y zero = 0
days_before_month y (suc zero) = 0
days_before_month y (suc (suc m)) = days_in_month y (suc m) + days_before_month y (suc m)

-- `d.toordinal()`: January 1st of year 1 has number 1.
unfoldable pub to_ordinal : Date → ℕ
to_ordinal d = days_before_year d.year + days_before_month d.year d.month + d.day

-- `d.weekday()`: Monday is 0.
unfoldable pub weekday : Date → ℕ
weekday d = (to_ordinal d + 6) % 7

-- `(a - b).days`.
unfoldable pub days_between : Date → Date → ℤ
days_between a b = sub_ℕ (to_ordinal a) (to_ordinal b)

-- `a == b`.
abbrev pub date_eq : Date → Date → Bool
date_eq a b = (a.year == b.year) && (a.month == b.month) && (a.day == b.day)

-- `a < b` on pairs (year, month), as Python compares tuples.
abbrev pub ym_lt : Date → Date → Bool
ym_lt a b = ltb a.year b.year || ((a.year == b.year) && ltb a.month b.month)

-- `a < b`: by year, then month, then day.
abbrev pub date_lt : Date → Date → Bool
date_lt a b = ym_lt a b || ((a.year == b.year) && (a.month == b.month) && ltb a.day b.day)

-- `d + timedelta(days=1)`.
unfoldable pub next_day : Date → Result Date
next_day d =
    if ltb d.day (days_in_month d.year d.month)
    then ok (record d { day = d.day + 1 })
    else if ltb d.month 12
    then ok (date d.year (d.month + 1) 1)
    else if ltb d.year 9999
    then ok (date (d.year + 1) 1 1)
    else err overflow_error

-- `d - timedelta(days=1)`.
unfoldable pub prev_day : Date → Result Date
prev_day d =
    if ltb 1 d.day
    then ok (record d { day = d.day - 1 })
    else if ltb 1 d.month
    then ok (date d.year (d.month - 1) (days_in_month d.year (d.month - 1)))
    else if ltb 1 d.year
    then ok (date (d.year - 1) 12 31)
    else err overflow_error

-- `d + timedelta(days=n)`.
unfoldable pub add_days : ℕ → Date → Result Date
add_days zero d = ok d
add_days (suc n) d = elim (next_day d) [ ok e ↦ add_days n e | err x ↦ err x ]

-- `d - timedelta(days=n)`.
unfoldable pub sub_days : ℕ → Date → Result Date
sub_days zero d = ok d
sub_days (suc n) d = elim (prev_day d) [ ok e ↦ sub_days n e | err x ↦ err x ]

-- The dates that Python can hold.
pub record IsValid (d : Date) : Type 0 where
  pub year_in : (1 ≤ d.year) × (d.year ≤ 9999)
  pub month_in : (1 ≤ d.month) × (d.month ≤ 12)
  pub day_in : (1 ≤ d.day) × (d.day ≤ days_in_month d.year d.month)
