-- ===== src/Reminders/Calendar/Siege.antt =====
-- The Siege cycle: the heads-up dates against the start dates.
use rsl_mom_bot.Prelude.{ℕ, ◌+◌, ◌%◌, ◌≡◌, arith, refl, true, ◌==◌}
use rsl_mom_bot.Prelude.Int.{sub_ℕ, mod_ℤ}
use rsl_mom_bot.Prelude.Exec.{ok}
use rsl_mom_bot.Date.{
  Date, days_in_month, days_before_year, days_before_month, to_ordinal, days_between, add_days,
  IsValid,
}
use rsl_mom_bot.Date.Shift.{add_days-Lands}
use rsl_mom_bot.Reminders.Calendar.{
  siege_anchor_date, siege_offset, is_siege_start_date, is_siege_48h_headsup_date,
  is_siege_24h_headsup_date,
}

anchor_ordinal : to_ordinal siege_anchor_date ≡ 739818
unfolding to_ordinal days_before_year days_before_month days_in_month
anchor_ordinal = refl

-- Python's modulo is never negative, so the cycle reaches back before the anchor.
offset_in_cycle : (n : ℕ) → mod_ℤ (sub_ℕ n 739818) 14 ≡ (n + 12) % 14
offset_in_cycle n = ground arith

-- The place in the cycle, by the number of the date.
pub siege_offset-eq : (d : Date) → siege_offset d ≡ (to_ordinal d + 12) % 14
unfolding siege_offset days_between
siege_offset-eq d = rw anchor_ordinal (offset_in_cycle (to_ordinal d))

-- n days on, the offset in the cycle is n more.
siege_offset-add_days :
    (n : ℕ) (d e : Date)
    → IsValid d
    → add_days n d ≡ ok e
    → siege_offset e ≡ (siege_offset d + n) % 14
siege_offset-add_days n d e v h =
    omega (arith, siege_offset-eq d, siege_offset-eq e, (rw h at (add_days-Lands n d v)).1)

-- A date is a 48-hour heads-up exactly when the date two days later is a Siege start, and a
-- 24-hour heads-up exactly when the date one day later is.
pub is_siege_headsup-eq :
    (d next after : Date)
    → IsValid d
    → add_days 1 d ≡ ok next
    → add_days 2 d ≡ ok after
    → (is_siege_24h_headsup_date d ≡ is_siege_start_date next)
      × (is_siege_48h_headsup_date d ≡ is_siege_start_date after)
unfolding is_siege_24h_headsup_date is_siege_48h_headsup_date is_siege_start_date
is_siege_headsup-eq d next after v h k = (
  ground (arith, siege_offset-add_days 1 d next v h),
  ground (arith, siege_offset-add_days 2 d after v k),
)

-- From a Siege start, the next n days hold another start exactly at the multiples of 14.
pub is_siege_start_date-period :
    (n : ℕ) (d e : Date)
    → IsValid d
    → is_siege_start_date d ≡ true
    → add_days n d ≡ ok e
    → is_siege_start_date e ≡ (n % 14 == 0)
unfolding is_siege_start_date
is_siege_start_date-period n d e v s h = ground (arith, siege_offset-add_days n d e v h)
