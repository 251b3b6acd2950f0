-- ===== src/Reminders/Scheduler.antt =====
-- src/mom_bot/reminders/scheduler.py: one round of the loop, from the readiness guard to the DMs.
-- Log lines, the heartbeat file and the sleeps are left out. `Handlers` and `Selection` hold the
-- parts that this file puts together, the other modules below prove what they do.
pub mod Effects
pub mod Handlers
pub mod Selection
pub mod Suppression
pub mod Selected
pub mod Delivery
pub mod Retried
pub mod Once
pub mod OnceMessages
pub mod Frame
pub mod Removed
pub mod Settled
pub mod Tick
pub mod Complete
mod Tests
use rsl_mom_bot.Prelude.{
  ℕ, String, Bool, true, false, not, ◌&&◌, ◌||◌, ◌==◌, ◌=ₛ◌, leb, if◌then◌else◌, Option, none, some,
  List, [], ◌∷◌, ◌++◌, filter, any, map,
}
use rsl_mom_bot.Prelude.Exec.{
  Error, Result, ok, err, Exec, pure, raise, continue, ◌>>=◌, ◌>>◌, ◌>>=ᵣ◌, forbidden, not_found,
  timeout_error, rate_limited, client_error, http_exception, cancelled, value_error,
}
use rsl_mom_bot.Prelude.Int.{ℤ}
use rsl_mom_bot.PyText.{int_of}
use rsl_mom_bot.Date.{Date}
use rsl_mom_bot.Reminders.Calendar.{
  is_end_of_tank_date, is_tank_week_headsup_date, is_siege_48h_headsup_date,
  is_siege_24h_headsup_date,
}
use rsl_mom_bot.Reminders.Models.{Reminder}
use rsl_mom_bot.Reminders.SentStore.{SentTable}
use rsl_mom_bot.Reminders.SentStore.ReminderSentStore
use rsl_mom_bot.Reminders.SentStore.MemberNotificationSentStore
use rsl_mom_bot.MemberNotifications.Models.{MemberNotification, Db}
use rsl_mom_bot.MemberNotifications.Service.{list_due}
use rsl_mom_bot.Health.Progress
use rsl_mom_bot.Reminders.Scheduler.Effects.{World, Discord, Event, Post, posted, fetched, messaged}
use rsl_mom_bot.Reminders.Scheduler.Handlers.{handle_reminder, handle_member_notification}
use rsl_mom_bot.Reminders.Scheduler.Selection.{survivors}

-- The `except Exception` around each notification, on whether all went well so far.
abbrev pub note_failure : Bool → Result (Unit {0}) → Result Bool
note_failure completed (ok _) = ok completed
note_failure completed (err cancelled) = err cancelled
note_failure completed (err _) = ok false

-- How a round ends: on a cancellation the loop does too.
abbrev pub settle : ℕ → Result Bool × World → Result (Unit {0}) × World
settle clock (ok true, w) =
    (ok tt, record w { progress = Progress.succeeded clock Progress.reminders w.progress })
settle clock (ok false, w) =
    (ok tt, record w { progress = Progress.failed Progress.reminders w.progress })
settle clock (err cancelled, w) = (err cancelled, w)
settle clock (err e, w) =
    (ok tt, record w { progress = Progress.failed Progress.reminders w.progress })

module _ (discord : Discord) where
  -- Step 4.
  unfoldable pub send_all : Date → List Reminder → Exec World (Unit {0})
  send_all today [] = pure tt
  send_all today (r ∷ rs) = handle_reminder discord r today >>= λ _. send_all today rs

  -- Step 5, the loop over the due notifications.
  unfoldable pub send_notices : Date → Bool → List MemberNotification → Exec World Bool
  send_notices today completed [] w = (ok completed, w)
  send_notices today completed (n ∷ ns) w =
      let (r, w') = handle_member_notification discord n today w in
      continue (note_failure completed r) (λ c. send_notices today c ns) w'

  -- Step 5; `has_guild` is false in the mode for channels only.
  unfoldable pub send_due : Bool → ℕ → Date → Exec World Bool
  send_due has_guild now today w =
      if has_guild
      then continue (list_due today now w.notices) (send_notices today true) w
      else (ok true, w)

  unfoldable pub process_tick : Bool → ℕ → ℕ → Date → Exec World Bool
  unfolding send_due
  process_tick has_guild weekday now today w =
      continue (survivors weekday now today w)
        (λ rs. send_all today rs >>= λ _. send_due has_guild now today) w

  -- One round of `_run_loop` after the heartbeat: whether the bot is ready, the clock of the
  -- progress states, and what `datetime.now` gave. Only a cancellation ends the loop.
  unfoldable pub run_round : Bool → Bool → ℕ → ℕ → ℕ → Date → Exec World (Unit {0})
  unfolding process_tick
  run_round is_ready has_guild clock weekday now today w =
      if is_ready
      then settle clock (process_tick has_guild weekday now today w)
      else (ok tt, record w { progress = Progress.failed Progress.reminders w.progress })
