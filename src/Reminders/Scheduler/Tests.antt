-- ===== src/Reminders/Scheduler/Tests.antt =====
-- The theorems on rounds of the scheduler, applied to a table of two reminders on a Tuesday that
-- ends a Tank Week, and a Discord whose first send times out.
use rsl_mom_bot.Prelude.{
  ◌≤◌, ◌≡◌, ◌↔◌, refl, String, ◌||◌, arith, true, false, if◌then◌else◌, none, some, List, [], ◌∷◌,
  All, In,
}
use rsl_mom_bot.Prelude.Exec.{Result, ok, err, timeout_error, cancelled}
use rsl_mom_bot.Date.{Date, date, to_ordinal, days_in_month}
use rsl_mom_bot.Health.Progress.{initial}
use rsl_mom_bot.MemberNotifications.Models.{MemberNotification}
use rsl_mom_bot.MemberNotifications.Service.{is_valid_cadence, is_valid_discord_id}
use rsl_mom_bot.MemberNotifications.Service.Contract.{call, drop}
use rsl_mom_bot.MemberNotifications.Service.Invariant.{IsValid}
use rsl_mom_bot.Reminders.Scheduler.Removed.{is_removed}
use rsl_mom_bot.Reminders.Calendar.{is_end_of_tank_date}
use rsl_mom_bot.Reminders.Models.{Reminder}
use rsl_mom_bot.Reminders.SentStore.{SentTable}
use rsl_mom_bot.Reminders.SentStore.ReminderSentStore
use rsl_mom_bot.Reminders.SentStore.MemberNotificationSentStore
use rsl_mom_bot.Reminders.Scheduler.Effects.{World, Discord, Event}
use rsl_mom_bot.Reminders.Scheduler.Handlers.{handle_reminder, post_of}
use rsl_mom_bot.Reminders.Scheduler.Selection.{survivors}
use rsl_mom_bot.Reminders.Scheduler.Selected.{Fires, IsReplaced, survivors_iff}
use rsl_mom_bot.Reminders.Scheduler.Retried.{IsHandled, handle_reminder-IsHandled}
use rsl_mom_bot.Reminders.Scheduler.Once.{deliveries}
use rsl_mom_bot.Reminders.Scheduler.OnceMessages.{messages}
use rsl_mom_bot.Reminders.Scheduler.Tick.{Reach, here, next, round, serve, delivered_at_most_once}
use rsl_mom_bot.Reminders.Scheduler.Complete.{
  send_all-marks, send_all_completes, send_notices_isolated,
}
use rsl_mom_bot.Reminders.Scheduler.{send_all, send_notices, run_round}

abbrev tuesday : Date
tuesday = date 2026 7 7

abbrev plain : Reminder
plain = record {
  id = 1;
  name = "chimera";
  channel_id = 500;
  weekday = 1;
  fire_time_utc = 36000;
  message_template = "Hydra resets today";
  role_mention_id = some 77;
  month_condition = none;
}

abbrev tank_end : Reminder
tank_end = record plain { id = 2; name = "tank_end"; month_condition = some "tank_week_end" }

-- The first send times out; the sends after it succeed.
abbrev first_times_out : List Event → Result (Unit {0})
first_times_out [] = err timeout_error
first_times_out (x ∷ xs) = ok tt

abbrev discord : Discord
discord = record {
  get_channel = λ trace channel. true;
  send = λ trace channel post. first_times_out trace;
  get_member = λ trace member. false;
  fetch_member = λ trace member. ok tt;
  send_dm = λ trace member text. err cancelled;
}

abbrev deaf : Discord
deaf = record discord { get_channel = λ trace channel. false }

abbrev notice : MemberNotification
notice = record {
  id = 4;
  name = "dues";
  target_discord_id = "123";
  anchor_date_utc = tuesday;
  fire_time_utc = 36000;
  cadence = "weekly";
  message_template = "Pay your dues";
  enabled = true;
}

abbrev world : World
world = record {
  reminders = plain ∷ tank_end ∷ [];
  reminder_sent = [];
  notices = record { rows = notice ∷ []; sent = []; next_id = 5 };
  trace = [];
  progress = initial;
}

abbrev marked_world : World
marked_world = record world { reminder_sent = (1, tuesday) ∷ [] }

abbrev called_world : World
called_world = (handle_reminder discord plain tuesday world).1

-- A round at 10:00:05 UTC.
abbrev one_round : World → World
one_round w = (run_round discord true true 1000 1 36005 tuesday w).1

abbrev violation : String → String
violation name = "UNIQUE constraint failed: member_notification.name"

-- The notification is deleted after a round.
abbrev dropped : World
dropped =
    let w = one_round world in record w { notices = (call violation (drop "dues") w.notices).1 }

two_rounds : Reach discord violation world (one_round dropped)
two_rounds =
    next
      (next (next here (round true true 1000 1 36005 tuesday world))
        (serve (drop "dues") (one_round world)))
      (round true true 1000 1 36005 tuesday dropped)

world-IsValid : IsValid world.notices
unfolding is_valid_cadence is_valid_discord_id rsl_mom_bot.PyText.int_of rsl_mom_bot.PyText.str_of
world-IsValid = record {
  stored = ((refl, refl, refl), tt);
  apart = (refl, refl, tt);
  below = (omega arith, tt);
}

delivered_at_most_once_example :
    (deliveries 2 tuesday (one_round dropped).trace
      ≤ (if ReminderSentStore.was_sent 2 tuesday (one_round dropped).reminder_sent then 1 else 0))
    × (messages 2 tuesday (one_round dropped).trace ≤ (
        if MemberNotificationSentStore.was_sent 2 tuesday (one_round dropped).notices.sent
          || is_removed 2 (one_round dropped).notices
        then 1
        else 0))
delivered_at_most_once_example =
    delivered_at_most_once discord violation world (one_round dropped) 2 tuesday refl world-IsValid
      two_rounds

was_sent_plain : ReminderSentStore.was_sent 1 tuesday [] ≡ false
unfolding ReminderSentStore.was_sent rsl_mom_bot.Reminders.SentStore.has_row
was_sent_plain = refl

was_sent_marked : ReminderSentStore.was_sent 1 tuesday marked_world.reminder_sent ≡ true
unfolding ReminderSentStore.was_sent rsl_mom_bot.Reminders.SentStore.has_row
was_sent_marked = refl

handle_reminder-IsHandled_example :
    IsHandled discord plain tuesday world (handle_reminder discord plain tuesday world)
handle_reminder-IsHandled_example = handle_reminder-IsHandled discord plain tuesday world

called_sends : (send_all discord tuesday (plain ∷ tank_end ∷ []) called_world).0 ≡ ok tt
unfolding send_all handle_reminder ReminderSentStore.mark_sent
    rsl_mom_bot.Reminders.SentStore.insert_row ReminderSentStore.unmark
    rsl_mom_bot.Reminders.SentStore.delete_row
called_sends = refl

send_all-marks_example :
    All
      (λ r.
        ReminderSentStore.was_sent r.id tuesday
          (send_all discord tuesday (plain ∷ tank_end ∷ []) called_world).1.reminder_sent
        ≡ true)
      (plain ∷ tank_end ∷ [])
send_all-marks_example =
    send_all-marks discord tuesday (plain ∷ tank_end ∷ []) called_world called_sends

notices_cancelled : (send_notices discord tuesday true (notice ∷ []) world).0 ≡ err cancelled
unfolding send_notices rsl_mom_bot.Reminders.Scheduler.Handlers.handle_member_notification
    MemberNotificationSentStore.mark_sent rsl_mom_bot.Reminders.SentStore.insert_row
    rsl_mom_bot.PyText.int_of
notices_cancelled = refl

send_notices_isolated_example : cancelled ≡ cancelled
send_notices_isolated_example =
    send_notices_isolated discord tuesday true (notice ∷ []) world cancelled notices_cancelled

-- Both rows are due; the end of Tank Week row takes the slot.
selected_rows : survivors 1 36005 tuesday world ≡ ok (tank_end ∷ [])
unfolding survivors ReminderSentStore.was_sent rsl_mom_bot.Reminders.SentStore.has_row
    is_end_of_tank_date rsl_mom_bot.Date.weekday to_ordinal rsl_mom_bot.Date.days_before_year
    rsl_mom_bot.Date.days_before_month days_in_month
selected_rows = refl

survivors_iff_example : In plain (tank_end ∷ []) ↔ (
    In plain world.reminders
    × (plain.weekday ≡ 1)
    × (36000 ≤ 36005)
    × (ReminderSentStore.was_sent 1 tuesday world.reminder_sent ≡ false)
    × Fires none tuesday
    × (¬ IsReplaced tuesday world.reminders plain))
survivors_iff_example = survivors_iff 1 36005 tuesday world (tank_end ∷ []) plain selected_rows

-- A Discord on which every send succeeds.
abbrev calm : Discord
calm = record discord { send = λ trace channel post. ok tt }

send_all_completes_example :
    ((send_all calm tuesday (plain ∷ tank_end ∷ []) world).0 ≡ ok tt)
    × All
        (λ r.
          ReminderSentStore.was_sent r.id tuesday
            (send_all calm tuesday (plain ∷ tank_end ∷ []) world).1.reminder_sent
          ≡ true)
        (plain ∷ tank_end ∷ [])
send_all_completes_example =
    send_all_completes calm (λ trace channel post. refl) tuesday (plain ∷ tank_end ∷ []) world
