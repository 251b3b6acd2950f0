-- ===== src/Reminders/Calendar/Tests.antt =====
-- The theorems on Tank Week and the Siege cycle, applied to dates of July 2026.
use rsl_mom_bot.Prelude.{◌≤◌, ◌≡◌, ◌↔◌, refl, true, arith}
use rsl_mom_bot.Prelude.Exec.{ok}
use rsl_mom_bot.Date.{Date, date, weekday, to_ordinal, add_days, days_in_month, IsValid}
use rsl_mom_bot.Reminders.Calendar.{
  siege_anchor_date, tank_week_ending_tuesday, is_end_of_tank_date, is_tank_week_headsup_date,
  is_siege_start_date, is_siege_48h_headsup_date, is_siege_24h_headsup_date,
}
use rsl_mom_bot.Reminders.Calendar.TankWeek.{is_end_of_tank_date_iff, is_tank_week_headsup_date-eq}
use rsl_mom_bot.Reminders.Calendar.Siege.{is_siege_headsup-eq}

abbrev headsup : Date
headsup = date 2026 6 30

abbrev tank_end : Date
tank_end = date 2026 7 7

abbrev two_before : Date
two_before = date 2026 7 19

headsup-IsValid : IsValid headsup
unfolding days_in_month
headsup-IsValid = record { year_in = omega arith; month_in = omega arith; day_in = omega arith }

tank_end-IsValid : IsValid tank_end
unfolding days_in_month
tank_end-IsValid = record { year_in = omega arith; month_in = omega arith; day_in = omega arith }

two_before-IsValid : IsValid two_before
unfolding days_in_month
two_before-IsValid = record { year_in = omega arith; month_in = omega arith; day_in = omega arith }

anchor-IsValid : IsValid siege_anchor_date
unfolding days_in_month
anchor-IsValid = record { year_in = omega arith; month_in = omega arith; day_in = omega arith }

july_2026 : tank_week_ending_tuesday 2026 7 ≡ tank_end
unfolding tank_week_ending_tuesday weekday to_ordinal rsl_mom_bot.Date.days_before_year
    rsl_mom_bot.Date.days_before_month days_in_month
july_2026 = refl

is_end_of_tank_date_iff_example :
    (is_end_of_tank_date tank_end ≡ true) ↔ ((weekday tank_end ≡ 1) × (tank_end.day ≤ 7))
is_end_of_tank_date_iff_example = is_end_of_tank_date_iff tank_end tank_end-IsValid

week_later : add_days 7 headsup ≡ ok tank_end
unfolding add_days rsl_mom_bot.Date.next_day days_in_month
week_later = refl

is_tank_week_headsup_date-eq_example :
    is_tank_week_headsup_date headsup ≡ ok (is_end_of_tank_date tank_end)
is_tank_week_headsup_date-eq_example =
    is_tank_week_headsup_date-eq headsup tank_end headsup-IsValid (omega arith) week_later

day_later : add_days 1 two_before ≡ ok (date 2026 7 20)
unfolding add_days rsl_mom_bot.Date.next_day days_in_month
day_later = refl

two_days_later : add_days 2 two_before ≡ ok siege_anchor_date
unfolding add_days rsl_mom_bot.Date.next_day days_in_month
two_days_later = refl

is_siege_headsup-eq_example :
    (is_siege_24h_headsup_date two_before ≡ is_siege_start_date (date 2026 7 20))
    × (is_siege_48h_headsup_date two_before ≡ is_siege_start_date siege_anchor_date)
is_siege_headsup-eq_example =
    is_siege_headsup-eq two_before (date 2026 7 20) siege_anchor_date two_before-IsValid day_later
      two_days_later

anchor_starts : is_siege_start_date siege_anchor_date ≡ true
unfolding is_siege_start_date rsl_mom_bot.Date.days_between to_ordinal
    rsl_mom_bot.Date.days_before_year rsl_mom_bot.Date.days_before_month days_in_month
anchor_starts = refl

fortnight_later : add_days 14 siege_anchor_date ≡ ok (date 2026 8 4)
unfolding add_days rsl_mom_bot.Date.next_day days_in_month
fortnight_later = refl
