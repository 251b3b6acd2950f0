-- ===== src/Reminders/Calendar/TankWeek.antt =====
-- Tank Week: the first Tuesday of a month, and the heads-up a week before it.
use rsl_mom_bot.Prelude.{ℕ, ◌+◌, ◌≤◌, ◌<◌, ◌≡◌, ◌↔◌, true, false, arith, ◌==◌, not, if◌then◌else◌}
use rsl_mom_bot.Prelude.Exec.{Result, ok, err}
use rsl_mom_bot.Date.{
  Date, date_eq, days_before_year, to_ordinal, weekday, add_days, sub_days, IsValid,
}
use rsl_mom_bot.Date.Ordinal.{days_in_month_pos, date_eq-to_ordinal, date_lt-to_ordinal}
use rsl_mom_bot.Date.Shift.{Sinks, add_days-Lands, sub_days-Sinks}
use rsl_mom_bot.Reminders.Calendar.{
  tank_week_ending_tuesday, is_end_of_tank_date, is_tank_week_headsup_date, is_headsup,
}

-- The ending Tuesday is a valid Tuesday, among the first seven days of the given month.
pub tank_week_ending_tuesday_lem :
    (y m : ℕ)
    → (1 ≤ y) × (y ≤ 9999)
    → (1 ≤ m) × (m ≤ 12)
    → let d = tank_week_ending_tuesday y m in
      IsValid d × (d.year ≡ y) × (d.month ≡ m) × (weekday d ≡ 1) × (d.day ≤ 7)
unfolding tank_week_ending_tuesday weekday to_ordinal
tank_week_ending_tuesday_lem y m hy hm = ground (arith, days_in_month_pos y m)

-- A date is the end of a Tank Week exactly when it is a Tuesday among the first seven days of
-- its month.
pub is_end_of_tank_date_iff :
    (d : Date) → IsValid d → (is_end_of_tank_date d ≡ true) ↔ ((weekday d ≡ 1) × (d.day ≤ 7))
unfolding is_end_of_tank_date weekday to_ordinal
is_end_of_tank_date_iff d v = ground arith

january_1st : (d : Date) → IsValid d → 2 ≤ d.year → 7 < to_ordinal d
unfolding to_ordinal days_before_year
january_1st d v h = ground arith

module _ (today later ending : Date) (v : IsValid today) (w : IsValid later)
    (moved : to_ordinal later ≡ to_ordinal today + 7) (e : IsValid ending) where
  same_weekday : weekday later ≡ weekday today
  unfolding weekday
  same_weekday = omega arith

  later_year : 2 ≤ today.year → 2 ≤ later.year
  later_year h = ground (arith, date_lt-to_ordinal later today w v)

  headsup_step :
      (r : Result Date)
      → Sinks (to_ordinal ending) 7 r
      → 7 < to_ordinal ending
      → (if not (weekday today == 1) then ok false else is_headsup today r)
        ≡ ok (if not (weekday later == 1) then false else date_eq later ending)
  headsup_step (ok d) (vd, h) far =
      rw (same_weekday, date_eq-to_ordinal today d v vd, date_eq-to_ordinal later ending w e)
        (ground arith)
  headsup_step (err x) (h, near) far = absurd (omega arith)

-- From year 2 on, a date is a heads-up date exactly when the date a week later is the end of a
-- Tank Week; the test raises nothing as long as that later date exists.
pub is_tank_week_headsup_date-eq :
    (today later : Date)
    → IsValid today
    → 2 ≤ today.year
    → add_days 7 today ≡ ok later
    → is_tank_week_headsup_date today ≡ ok (is_end_of_tank_date later)
unfolding is_tank_week_headsup_date is_end_of_tank_date
is_tank_week_headsup_date-eq today later v y2 h =
    let (w, moved) = rw h at (add_days-Lands 7 today v) in
    let ending = tank_week_ending_tuesday later.year later.month in
    let (ve, ye, _, _, _) =
      tank_week_ending_tuesday_lem later.year later.month w.year_in w.month_in in
    rw h (
      headsup_step today later ending v w moved ve (sub_days 7 ending) (sub_days-Sinks 7 ending ve)
        (january_1st ending ve (later_year today later ending v w moved ve y2)))
