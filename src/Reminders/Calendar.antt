-- ===== src/Reminders/Calendar.antt =====
-- src/mom_bot/reminders/calendar.py.
pub mod TankWeek
pub mod Siege
mod Tests
use rsl_mom_bot.Prelude.{ℕ, ◌+◌, ◌==◌, if◌then◌else◌, Bool, false, not}
use rsl_mom_bot.Prelude.Exec.{Result, ok, err}
use rsl_mom_bot.Prelude.Int.{sub_ℕ, mod_ℤ}
use rsl_mom_bot.Date.{Date, date, date_eq, weekday, days_between, add_days, sub_days}

abbrev pub siege_anchor_date : Date
siege_anchor_date = date 2026 7 21

abbrev pub siege_period_days : ℕ
siege_period_days = 14

unfoldable pub tank_week_ending_tuesday : ℕ → ℕ → Date
tank_week_ending_tuesday year month =
    let first_weekday = weekday (date year month 1) in
    let days_ahead = mod_ℤ (sub_ℕ 1 first_weekday) 7 in date year month (1 + days_ahead)

unfoldable pub is_end_of_tank_date : Date → Bool
unfolding tank_week_ending_tuesday
is_end_of_tank_date today =
    if not (weekday today == 1)
    then false
    else date_eq today (tank_week_ending_tuesday today.year today.month)

-- The comparison of `today` with the heads-up date, which may not exist in year 1.
abbrev is_headsup : Date → Result Date → Result Bool
is_headsup today (ok headsup) = ok (date_eq today headsup)
is_headsup today (err x) = err x

-- The part of `is_tank_week_headsup_date` after the candidate is known.
abbrev headsup_from : Date → Result Date → Result Bool
headsup_from today (ok candidate) =
    let ending = tank_week_ending_tuesday candidate.year candidate.month in
    is_headsup today (sub_days 7 ending)
headsup_from today (err x) = err x

unfoldable pub is_tank_week_headsup_date : Date → Result Bool
unfolding tank_week_ending_tuesday
is_tank_week_headsup_date today =
    if not (weekday today == 1) then ok false else headsup_from today (add_days 7 today)

-- `(today - SIEGE_ANCHOR_DATE).days % SIEGE_PERIOD_DAYS`.
unfoldable pub siege_offset : Date → ℕ
siege_offset today = mod_ℤ (days_between today siege_anchor_date) siege_period_days

unfoldable pub is_siege_start_date : Date → Bool
unfolding siege_offset
is_siege_start_date today = siege_offset today == 0

unfoldable pub is_siege_48h_headsup_date : Date → Bool
unfolding siege_offset
is_siege_48h_headsup_date today = siege_offset today == 12

unfoldable pub is_siege_24h_headsup_date : Date → Bool
unfolding siege_offset
is_siege_24h_headsup_date today = siege_offset today == 13
