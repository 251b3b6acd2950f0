-- ===== src/Reminders/Scheduler/Selection.antt =====
-- Steps 1 to 3 of `_process_tick` in src/mom_bot/reminders/scheduler.py: which reminders this
-- round sends.
use rsl_mom_bot.Prelude.{
  ℕ, String, Bool, true, false, not, ◌&&◌, ◌==◌, ◌=ₛ◌, leb, if◌then◌else◌, Option, none, some, List,
  [], ◌∷◌, ◌++◌, filter, any,
}
use rsl_mom_bot.Prelude.Exec.{Result, ok, ◌>>=ᵣ◌}
use rsl_mom_bot.Date.{Date}
use rsl_mom_bot.Reminders.Calendar.{
  is_end_of_tank_date, is_tank_week_headsup_date, is_siege_48h_headsup_date,
  is_siege_24h_headsup_date,
}
use rsl_mom_bot.Reminders.Models.{Reminder}
use rsl_mom_bot.Reminders.SentStore.{SentTable}
use rsl_mom_bot.Reminders.SentStore.ReminderSentStore
use rsl_mom_bot.Reminders.Scheduler.Effects.{World}

-- Does a row with this month condition fire today? An unknown condition never does.
unfoldable pub condition_holds : Option String → Date → Result Bool
condition_holds none today = ok true
condition_holds (some cond) today =
    if cond =ₛ "tank_week_headsup"
    then is_tank_week_headsup_date today
    else if cond =ₛ "tank_week_end"
    then ok (is_end_of_tank_date today)
    else if cond =ₛ "siege_48h_headsup"
    then ok (is_siege_48h_headsup_date today)
    else if cond =ₛ "siege_24h_headsup"
    then ok (is_siege_24h_headsup_date today)
    else ok false

-- The SQL query of step 1.
abbrev pub is_eligible : SentTable → ℕ → ℕ → Date → Reminder → Bool
is_eligible sent weekday now today r =
    (r.weekday == weekday)
    && leb r.fire_time_utc now
    && not (ReminderSentStore.was_sent r.id today sent)

-- Step 2, the loop that fills `kept`.
unfoldable pub keep : Date → List Reminder → Result (List Reminder)
unfolding condition_holds
keep today [] = ok []
keep today (r ∷ rs) =
    let rest = keep today rs in
    condition_holds r.month_condition today >>=ᵣ λ holds.
    rest >>=ᵣ λ kept. ok (if holds then r ∷ kept else kept)

-- `month_condition == "tank_week_end"`, and `month_condition is None`.
abbrev pub ends_tank_week : Reminder → Bool
ends_tank_week r = elim r.month_condition [ none ↦ false | some cond ↦ cond =ₛ "tank_week_end" ]

abbrev pub is_unconditional : Reminder → Bool
is_unconditional r = elim r.month_condition [ none ↦ true | some cond ↦ false ]

-- The slot (channel_id, weekday, fire_time_utc).
abbrev pub same_slot : Reminder → Reminder → Bool
same_slot r s =
    (r.channel_id == s.channel_id)
    && (r.weekday == s.weekday)
    && (r.fire_time_utc == s.fire_time_utc)

-- The rows whose slots step 3 collects: part (a) from `kept`, part (b) from the rows sent today.
unfoldable pub tank_end_rows : ℕ → Date → World → List Reminder → List Reminder
tank_end_rows weekday today w kept =
    filter ends_tank_week kept
    ++ (if is_end_of_tank_date today
        then filter
            (λ r.
              ReminderSentStore.was_sent r.id today w.reminder_sent
              && ends_tank_week r
              && (r.weekday == weekday))
            w.reminders
        else [])

abbrev pub is_suppressed : List Reminder → Reminder → Bool
is_suppressed ends r = is_unconditional r && any (same_slot r) ends

-- Steps 1 to 3: the reminders of this round.
unfoldable pub survivors : ℕ → ℕ → Date → World → Result (List Reminder)
unfolding keep tank_end_rows
survivors weekday now today w =
    keep today (filter (is_eligible w.reminder_sent weekday now today) w.reminders) >>=ᵣ λ kept.
    ok (filter (λ r. not (is_suppressed (tank_end_rows weekday today w kept) r)) kept)
