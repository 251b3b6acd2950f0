-- ===== src/MemberNotifications/Service/Due.antt =====
-- `list_due`: which notifications it returns, and that it raises nothing on stored cadences.
use rsl_mom_bot.Prelude.{
  ℕ, ◌≤◌, String, ◌≡◌, ◌↔◌, refl, Bool, true, false, not, ◌&&◌, List, [], ◌∷◌, All, In, filter,
  In-filter, ltb, if◌then◌else◌, arith, ◌=ₛ◌,
}
use rsl_mom_bot.Prelude.Exec.{ok, err}
use rsl_mom_bot.Date.{Date}
use rsl_mom_bot.Reminders.SentStore.{SentTable}
use rsl_mom_bot.Reminders.SentStore.MemberNotificationSentStore
use rsl_mom_bot.MemberNotifications.Models.{MemberNotification, Db}
use rsl_mom_bot.MemberNotifications.Schedule.{is_occurrence_date, every, monthly_occurrence}
use rsl_mom_bot.MemberNotifications.Service.{is_valid_cadence, is_candidate, collect_due, list_due}

abbrev pub HasValidCadence : MemberNotification → Type 0
HasValidCadence r = is_valid_cadence r.cadence ≡ true

-- Is the row due, as one test: the answer of `is_occurrence_date` with an error read as no.
abbrev pub occurs : Date → MemberNotification → Bool
occurs today r = elim (is_occurrence_date r.anchor_date_utc r.cadence today) [
  | ok b ↦ b
  | err e ↦ false
]

pub is_due : Date → ℕ → MemberNotification → Bool
is_due today now r = not (ltb now r.fire_time_utc) && occurs today r

-- Of a valid cadence `is_occurrence_date` returns an answer, and never raises.
pub is_occurrence_date-ok :
    (a d : Date) (c : String)
    → is_valid_cadence c ≡ true
    → (b : Bool) × (is_occurrence_date a c d ≡ ok b)
unfolding is_valid_cadence is_occurrence_date
is_occurrence_date-ok a d c h = (
  (if c =ₛ "weekly"
      then every 7 a d
      else if c =ₛ "biweekly"
      then every 14 a d
      else monthly_occurrence a d),
  ground arith,
)

All-filter :
    (p : MemberNotification → Bool) (rows : List MemberNotification)
    → All HasValidCadence rows
    → All HasValidCadence (filter p rows)
All-filter p [] h = tt
All-filter p (r ∷ rows) h = ground (arith, All-filter p rows h.1)

collect_due-eq :
    (today : Date) (now : ℕ) (rows : List MemberNotification)
    → All HasValidCadence rows
    → collect_due today now rows ≡ ok (filter (is_due today now) rows)
unfolding collect_due is_due
collect_due-eq today now [] h = refl
collect_due-eq today now (r ∷ rows) h =
    let (b, e) = is_occurrence_date-ok r.anchor_date_utc today r.cadence h.0 in
    rw (collect_due-eq today now rows h.1) (ground arith)

is_selected_iff :
    (today : Date) (now : ℕ) (sent : SentTable) (r : MemberNotification)
    → ((is_candidate sent today r ≡ true) × (is_due today now r ≡ true)) ↔ (
        (r.enabled ≡ true)
        × (MemberNotificationSentStore.was_sent r.id today sent ≡ false)
        × (r.fire_time_utc ≤ now)
        × (is_occurrence_date r.anchor_date_utc r.cadence today ≡ ok true))
unfolding is_due
is_selected_iff today now sent r = ground arith

-- On stored cadences `list_due` raises nothing, and a row is in its result exactly when it is a
-- row of the table, enabled, not yet sent for today's date, at or past its time of day, and today
-- is an occurrence date of it.
pub list_due_iff :
    (today : Date) (now : ℕ) (db : Db) (r : MemberNotification)
    → All HasValidCadence db.rows
    → (due : List MemberNotification) × (list_due today now db ≡ ok due)
      × (In r due ↔ (
          In r db.rows
          × (r.enabled ≡ true)
          × (MemberNotificationSentStore.was_sent r.id today db.sent ≡ false)
          × (r.fire_time_utc ≤ now)
          × (is_occurrence_date r.anchor_date_utc r.cadence today ≡ ok true)))
unfolding list_due
list_due_iff today now db r h =
    let candidates : List MemberNotification = filter (is_candidate db.sent today) db.rows in
    let outer = In-filter (is_due today now) r candidates in
    let inner = In-filter (is_candidate db.sent today) r db.rows in
    let tests = is_selected_iff today now db.sent r in
    (
      filter (is_due today now) candidates,
      collect_due-eq today now candidates (All-filter (is_candidate db.sent today) db.rows h),
      (
        λ m.
            let (n, d) = outer.0 m in
            let (k, c) = inner.0 n in let (a, b, e, f) = tests.0 (c, d) in (k, a, b, e, f),
        λ (m, a, b, e, f). let (c, d) = tests.1 (a, b, e, f) in outer.1 (inner.1 (m, c), d),
      ),
    )
