-- ===== src/MemberNotifications/Schedule/Occurrences.antt =====
-- What the occurrence dates of each cadence are, and that none comes before the anchor date.
use rsl_mom_bot.Prelude.{
  ℕ, ◌+◌, ◌*◌, ◌/◌, ◌≤◌, min, String, ◌≡◌, ◌↔◌, true, false, arith, inl, inr, Bool-cases, ◌-◌, ap,
  Bool,
}
use rsl_mom_bot.Prelude.Exec.{ok}
use rsl_mom_bot.Date.{Date, date, ym_lt, days_in_month, to_ordinal, date_lt, days_between, IsValid}
use rsl_mom_bot.Date.Ordinal.{days_in_month_pos, date_trichotomy, date_lt-to_ordinal}
use rsl_mom_bot.MemberNotifications.Schedule.{
  clamped_anchor_day, every, monthly_occurrence, is_occurrence_date,
}

-- The date is the anchor date, or `k` times `n` days after it for some `k`.
abbrev pub Every : ℕ → Date → Date → Type 0
Every n a d = (k : ℕ) × (to_ordinal d ≡ to_ordinal a + k * n)

weekly_iff : (a d : Date) → (every 7 a d ≡ true) ↔ Every 7 a d
unfolding every days_between
weekly_iff a d = (λ e. ((to_ordinal d - to_ordinal a) / 7, ground arith), λ (k, h). ground arith)

biweekly_iff : (a d : Date) → (every 14 a d ≡ true) ↔ Every 14 a d
unfolding every days_between
biweekly_iff a d = (λ e. ((to_ordinal d - to_ordinal a) / 14, ground arith), λ (k, h). ground arith)

monthly_iff :
    (a d : Date)
    → (monthly_occurrence a d ≡ true)
      ↔ ((date_lt d a ≡ false) × (d.day ≡ min a.day (days_in_month d.year d.month)))
unfolding monthly_occurrence clamped_anchor_day
monthly_iff a d = ground arith

ok_iff : (b : Bool) → (ok b ≡ ok true) ↔ (b ≡ true)
ok_iff b = ground arith

-- A weekly notice occurs exactly 7 k days after its anchor date, for some k; a biweekly one
-- exactly 14 k days after it; a monthly one exactly on the dates not before the anchor date whose
-- day is the anchor's day, or the last day of a month that is too short for it.
pub is_occurrence_date_iff :
    (a d : Date)
    → ((is_occurrence_date a "weekly" d ≡ ok true) ↔ Every 7 a d)
      × ((is_occurrence_date a "biweekly" d ≡ ok true) ↔ Every 14 a d)
      × ((is_occurrence_date a "monthly" d ≡ ok true)
          ↔ ((date_lt d a ≡ false) × (d.day ≡ min a.day (days_in_month d.year d.month))))
unfolding is_occurrence_date
is_occurrence_date_iff a d = (
  (λ e. (weekly_iff a d).0 ((ok_iff _).0 e), λ w. ap ok ((weekly_iff a d).1 w)),
  (λ e. (biweekly_iff a d).0 ((ok_iff _).0 e), λ w. ap ok ((biweekly_iff a d).1 w)),
  (λ e. (monthly_iff a d).0 ((ok_iff _).0 e), λ w. ap ok ((monthly_iff a d).1 w)),
)

every-le : (n : ℕ) (a d : Date) → every n a d ≡ true → to_ordinal a ≤ to_ordinal d
unfolding every days_between
every-le n a d h = ground arith

monthly-le :
    (a d : Date)
    → IsValid a
    → IsValid d
    → monthly_occurrence a d ≡ true
    → to_ordinal a ≤ to_ordinal d
monthly-le a d va vd h = elim (Bool-cases (date_lt a d)) [
  | inl lt ↦ omega (arith, date_lt-to_ordinal a d va vd lt)
  | inr ge ↦
      let e : a ≡ d = date_trichotomy a d ge ((monthly_iff a d).0 h).0 in
      omega (arith, ap to_ordinal e)
]

-- Whatever the cadence, no occurrence comes before the anchor date.
pub no_occurrence_before_anchor :
    (a d : Date) (cadence : String)
    → IsValid a
    → IsValid d
    → is_occurrence_date a cadence d ≡ ok true
    → to_ordinal a ≤ to_ordinal d
unfolding is_occurrence_date
no_occurrence_before_anchor a d cadence va vd h =
    ground (arith, every-le 7 a d, every-le 14 a d, monthly-le a d va vd)

-- In each month after the anchor's a monthly notice occurs exactly once: the clamped day is a date
-- of that month, and a date of that month is an occurrence exactly when it is that date.
pub monthly_once :
    (a e : Date)
    → IsValid a
    → IsValid e
    → ym_lt a e ≡ true
    → let d = date e.year e.month (clamped_anchor_day a.day e.year e.month) in
      IsValid d × ((is_occurrence_date a "monthly" e ≡ ok true) ↔ (e ≡ d))
unfolding is_occurrence_date monthly_occurrence clamped_anchor_day
monthly_once a e va ve later = (
  ground (arith, days_in_month_pos e.year e.month),
  (λ h. ground arith, λ h. ground (arith, ap (λ d. d.day) h)),
)

-- The anchor date itself is an occurrence, for each of the three cadences.
pub anchor_is_occurrence :
    (a : Date)
    → IsValid a
    → (is_occurrence_date a "weekly" a ≡ ok true)
      × (is_occurrence_date a "biweekly" a ≡ ok true)
      × (is_occurrence_date a "monthly" a ≡ ok true)
anchor_is_occurrence a v =
    let (weekly, biweekly, monthly) = is_occurrence_date_iff a a in
    (
      weekly.1 (0, omega arith),
      biweekly.1 (0, omega arith),
      monthly.1 (ground arith, ground (arith, v.day_in)),
    )
