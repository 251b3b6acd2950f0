-- ===== src/MemberNotifications/Schedule.antt =====
-- src/mom_bot/member_notifications/schedule.py.
pub mod Occurrences
mod Tests
use rsl_mom_bot.Prelude.{
  ℕ, ◌%◌, min, String, Bool, false, ◌&&◌, not, ◌==◌, ◌=ₛ◌, ltb, if◌then◌else◌,
}
use rsl_mom_bot.Prelude.Exec.{Result, ok, err, value_error}
use rsl_mom_bot.Prelude.Int.{mod_ℤ, is_nonneg}
use rsl_mom_bot.Date.{Date, days_in_month, days_between, ym_lt, date_lt}

unfoldable pub clamped_anchor_day : ℕ → ℕ → ℕ → ℕ
clamped_anchor_day anchor_day year month = min anchor_day (days_in_month year month)

-- `delta >= 0 and delta % n == 0` for `delta = (today - anchor_date).days`.
unfoldable pub every : ℕ → Date → Date → Bool
every n anchor_date today =
    let delta = days_between today anchor_date in is_nonneg delta && (mod_ℤ delta n == 0)

-- The branch for a monthly cadence. `ym_lt` compares the pairs (year, month).
unfoldable pub monthly_occurrence : Date → Date → Bool
unfolding clamped_anchor_day
monthly_occurrence anchor_date today =
    if ym_lt today anchor_date
    then false
    else if (today.year == anchor_date.year)
        && (today.month == anchor_date.month)
        && date_lt today anchor_date
    then false
    else today.day == clamped_anchor_day anchor_date.day today.year today.month

unfoldable pub is_occurrence_date : Date → String → Date → Result Bool
unfolding every monthly_occurrence
is_occurrence_date anchor_date cadence today =
    if cadence =ₛ "weekly"
    then ok (every 7 anchor_date today)
    else if cadence =ₛ "biweekly"
    then ok (every 14 anchor_date today)
    else if cadence =ₛ "monthly"
    then ok (monthly_occurrence anchor_date today)
    else err value_error
