-- ===== src/Date/Shift.antt =====
-- Moving by days: `next_day` and `prev_day` undo one another, and a move by n days changes the
-- day number by n.
use mathlib.Core.Path.{subst}
use rsl_mom_bot.Prelude.{ℕ, zero, suc, ◌+◌, ◌-◌, ◌≤◌, ◌≡◌, refl, arith}
use rsl_mom_bot.Prelude.Exec.{Result, ok, err, overflow_error}
use rsl_mom_bot.Date.{
  Date, days_in_month, days_before_year, days_before_month, to_ordinal, next_day, prev_day,
  add_days, sub_days, IsValid,
}
use rsl_mom_bot.Date.Ordinal.{days_in_month_pos, days_before_month-suc, days_before_year-suc}

-- `r` is the valid date with day number n, or an overflow where there is none.
abbrev pub Lands : ℕ → Result Date → Type 0
Lands n (ok e) = IsValid e × (to_ordinal e ≡ n)
Lands n (err x) = (x ≡ overflow_error) × (3652060 ≤ n)

pub year_ends : (days_before_year 1 ≡ 0) × (days_before_year 10000 ≡ 3652059)
unfolding days_before_year
year_ends = (refl, refl)

days_in_december : (y : ℕ) → days_in_month y 12 ≡ 31
unfolding days_in_month
days_in_december y = refl

days_before_january : (y : ℕ) → days_before_month y 1 ≡ 0
unfolding days_before_month
days_before_january y = refl

days_before_february :
    (y : ℕ) → days_before_month y 12 + 31 ≡ days_before_month y 12 + days_in_month y 12
days_before_february y = rw days_in_december

-- A day on, the day number is one more; only the last day of year 9999 overflows.
pub next_day-Lands : (d : Date) → IsValid d → Lands (to_ordinal d + 1) (next_day d)
unfolding next_day to_ordinal
next_day-Lands d v = ground (
  arith,
  days_before_month-suc d.year d.month,
  days_before_year-suc d.year,
  days_before_january (d.year + 1),
  days_in_month_pos d.year (d.month + 1),
  days_in_month_pos (d.year + 1) 1,
  days_in_december d.year,
  year_ends,
)

-- `r` is the valid date n days before the day with number m, or an overflow where there is none.
abbrev pub Sinks : ℕ → ℕ → Result Date → Type 0
Sinks m n (ok e) = IsValid e × (to_ordinal e + n ≡ m)
Sinks m n (err x) = (x ≡ overflow_error) × (m ≤ n)

pub prev_day-Sinks : (d : Date) → IsValid d → Sinks (to_ordinal d) 1 (prev_day d)
unfolding prev_day to_ordinal
prev_day-Sinks d v = ground (
  arith,
  days_before_month-suc d.year (d.month - 1),
  days_before_year-suc (d.year - 1),
  days_before_january d.year,
  days_in_month_pos d.year (d.month - 1),
  days_in_december (d.year - 1),
  year_ends,
)

-- `d + timedelta(days=n)` is the date n days on, or overflows past the end of year 9999.
pub add_days-Lands : (n : ℕ) (d : Date) → IsValid d → Lands (to_ordinal d + n) (add_days n d)
unfolding add_days
add_days-Lands zero d v = (v, omega arith)
add_days-Lands (suc n) d v = step (add_days-Lands n) (next_day d) (next_day-Lands d v)
  where
    step :
        ((e : Date) → IsValid e → Lands (to_ordinal e + n) (add_days n e))
        → (r : Result Date) → Lands (to_ordinal d + 1) r
        → Lands (to_ordinal d + suc n) (elim r [ ok e ↦ add_days n e | err x ↦ err x ])
    step ih (ok e) (ve, h) = subst (λ m. Lands m (add_days n e)) (omega arith) (ih e ve)
    step ih (err x) (h, le) = (h, omega arith)

-- `d - timedelta(days=n)` is the date n days before, or overflows where year 1 begins.
pub sub_days-Sinks : (n : ℕ) (d : Date) → IsValid d → Sinks (to_ordinal d) n (sub_days n d)
unfolding sub_days
sub_days-Sinks zero d v = (v, omega arith)
sub_days-Sinks (suc n) d v = step (sub_days-Sinks n) (prev_day d) (prev_day-Sinks d v)
  where
    widen :
        (m : ℕ) (r : Result Date)
        → m + 1 ≡ to_ordinal d
        → Sinks m n r
        → Sinks (to_ordinal d) (suc n) r
    widen m (ok e) h (v', k) = (v', omega arith)
    widen m (err x) h (k, le) = (k, omega arith)

    step :
        ((e : Date) → IsValid e → Sinks (to_ordinal e) n (sub_days n e))
        → (r : Result Date) → Sinks (to_ordinal d) 1 r
        → Sinks (to_ordinal d) (suc n) (elim r [ ok e ↦ sub_days n e | err x ↦ err x ])
    step ih (ok e) (ve, h) = widen (to_ordinal e) (sub_days n e) h (ih e ve)
    step ih (err x) (h, le) = (h, omega arith)
