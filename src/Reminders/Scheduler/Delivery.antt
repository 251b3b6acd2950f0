-- ===== src/Reminders/Scheduler/Delivery.antt =====
-- What one call of a handler does to the table of sent rows, for each way the send can end.
use rsl_mom_bot.Prelude.{◌≡◌, refl, Bool, true, false, arith, ◌∷◌, not, if◌then◌else◌}
use rsl_mom_bot.Prelude.Exec.{
  Result, ok, err, timeout_error, rate_limited, client_error, http_exception, cancelled,
}
use rsl_mom_bot.Date.{Date}
use rsl_mom_bot.Reminders.SentStore.{insert_row}
use rsl_mom_bot.Reminders.SentStore.Laws.{delete_row_head}
use rsl_mom_bot.Reminders.SentStore.ReminderSentStore.{mark_sent, unmark, was_sent}
use rsl_mom_bot.Reminders.Models.{Reminder}
use rsl_mom_bot.Reminders.Scheduler.Effects.{World, Discord, posted}
use rsl_mom_bot.Reminders.Scheduler.Handlers.{
  is_transient, after_send, unmark_reminder, handle_reminder, send_reminder, post_of,
}

-- The sent row is kept unless the send ended with a transient error.
abbrev pub claims : Result (Unit {0}) → Bool
claims (ok _) = true
claims (err e) = not (is_transient e)

-- Only a transient error and a cancellation are raised.
abbrev pub passed_on : Result (Unit {0}) → Result (Unit {0})
passed_on (ok _) = ok tt
passed_on (err cancelled) = err cancelled
passed_on (err e) = if is_transient e then err e else ok tt

-- The world after a send with that outcome.
abbrev pub after_sending : Reminder → Date → World → Result (Unit {0}) → World
after_sending r today w outcome = record w {
  reminder_sent = if claims outcome then (r.id, today) ∷ w.reminder_sent else w.reminder_sent;
  trace = posted r.id today r.channel_id (post_of r) outcome ∷ w.trace;
}

after_send-eq :
    (r : Reminder) (today : Date) (w : World) (outcome : Result (Unit {0}))
    → after_send (unmark_reminder r.id today) outcome (record w {
      reminder_sent = (r.id, today) ∷ w.reminder_sent;
      trace = posted r.id today r.channel_id (post_of r) outcome ∷ w.trace;
    })
      ≡ (passed_on outcome, after_sending r today w outcome)
unfolding after_send unmark is_transient
after_send-eq r today w (ok _) = refl
after_send-eq r today w (err cancelled) = refl
after_send-eq r today w (err timeout_error) = rw delete_row_head
after_send-eq r today w (err rate_limited) = rw delete_row_head
after_send-eq r today w (err client_error) = rw delete_row_head
after_send-eq r today w (err (http_exception n)) =
    ground (arith, delete_row_head r.id today w.reminder_sent)
after_send-eq r today w (err e) = refl

-- Of a reminder that is not marked for the date and whose channel is known, the handler makes one
-- send, of the reminder's post to its channel. If that ends with a transient error, the sent rows
-- are what they were and the error is raised; otherwise the row of the reminder and date is added,
-- and nothing but a cancellation is raised. The rest of the world is untouched.
pub handle_reminder-sends :
    (discord : Discord) (r : Reminder) (today : Date) (w : World)
    → was_sent r.id today w.reminder_sent ≡ false
    → discord.get_channel w.trace r.channel_id ≡ true
    → let outcome = discord.send w.trace r.channel_id (post_of r) in
      handle_reminder discord r today w ≡ (passed_on outcome, after_sending r today w outcome)
unfolding handle_reminder mark_sent insert_row was_sent
handle_reminder-sends discord r today w fresh known =
    rw (fresh, known) (after_send-eq r today w (discord.send w.trace r.channel_id (post_of r)))

-- Of a reminder that is already marked for the date, the handler does nothing at all.
pub handle_reminder_marked :
    (discord : Discord) (r : Reminder) (today : Date) (w : World)
    → was_sent r.id today w.reminder_sent ≡ true
    → handle_reminder discord r today w ≡ (ok tt, w)
unfolding handle_reminder mark_sent insert_row was_sent
handle_reminder_marked discord r today w marked = rw marked

-- Of a reminder that is not marked and whose channel is not known, it adds the row and makes no
-- call: the reminder is dropped for the date.
pub handle_reminder_no_channel :
    (discord : Discord) (r : Reminder) (today : Date) (w : World)
    → was_sent r.id today w.reminder_sent ≡ false
    → discord.get_channel w.trace r.channel_id ≡ false
    → handle_reminder discord r today w
      ≡ (ok tt, record w { reminder_sent = (r.id, today) ∷ w.reminder_sent })
unfolding handle_reminder mark_sent insert_row was_sent send_reminder
handle_reminder_no_channel discord r today w fresh unknown = rw (fresh, unknown)
