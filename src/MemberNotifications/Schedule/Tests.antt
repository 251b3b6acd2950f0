-- ===== src/MemberNotifications/Schedule/Tests.antt =====
-- The theorems on occurrence dates, applied to an anchor on the last day of January 2026.
use rsl_mom_bot.Prelude.{◌≡◌, ◌↔◌, min, refl, true, false, arith}
use rsl_mom_bot.Prelude.Exec.{ok}
use rsl_mom_bot.Date.{Date, date, date_lt, days_in_month, IsValid}
use rsl_mom_bot.MemberNotifications.Schedule.{clamped_anchor_day, is_occurrence_date}
use rsl_mom_bot.MemberNotifications.Schedule.Occurrences.{
  Every, is_occurrence_date_iff, monthly_once,
}

abbrev anchor : Date
anchor = date 2026 1 31

abbrev february_end : Date
february_end = date 2026 2 28

anchor-IsValid : IsValid anchor
unfolding days_in_month
anchor-IsValid = record { year_in = omega arith; month_in = omega arith; day_in = omega arith }

february_end-IsValid : IsValid february_end
unfolding days_in_month
february_end-IsValid = record {
  year_in = omega arith;
  month_in = omega arith;
  day_in = omega arith;
}

is_occurrence_date_iff_example :
    ((is_occurrence_date anchor "weekly" february_end ≡ ok true) ↔ Every 7 anchor february_end)
    × ((is_occurrence_date anchor "biweekly" february_end ≡ ok true) ↔ Every 14 anchor february_end)
    × ((is_occurrence_date anchor "monthly" february_end ≡ ok true)
        ↔ ((date_lt february_end anchor ≡ false) × (28 ≡ min 31 (days_in_month 2026 2))))
is_occurrence_date_iff_example = is_occurrence_date_iff anchor february_end

monthly_once_example :
    IsValid (date 2026 2 (clamped_anchor_day 31 2026 2))
    × ((is_occurrence_date anchor "monthly" february_end ≡ ok true)
        ↔ (february_end ≡ date 2026 2 (clamped_anchor_day 31 2026 2)))
monthly_once_example = monthly_once anchor february_end anchor-IsValid february_end-IsValid refl
