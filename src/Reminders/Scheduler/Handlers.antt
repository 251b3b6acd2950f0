-- ===== src/Reminders/Scheduler/Handlers.antt =====
-- `_handle_reminder` and `_handle_member_notification` of src/mom_bot/reminders/scheduler.py.
use rsl_mom_bot.Prelude.{ℕ, String, Bool, true, false, leb, if◌then◌else◌, Option, none, some, ◌∷◌}
use rsl_mom_bot.Prelude.Exec.{
  Error, Result, ok, err, Exec, pure, raise, ◌>>=◌, ◌>>◌, forbidden, not_found, timeout_error,
  rate_limited, client_error, http_exception, cancelled, value_error,
}
use rsl_mom_bot.Prelude.Int.{ℤ}
use rsl_mom_bot.PyText.{int_of}
use rsl_mom_bot.Date.{Date}
use rsl_mom_bot.Reminders.Models.{Reminder}
use rsl_mom_bot.Reminders.SentStore.ReminderSentStore
use rsl_mom_bot.Reminders.SentStore.MemberNotificationSentStore
use rsl_mom_bot.MemberNotifications.Models.{MemberNotification}
use rsl_mom_bot.Reminders.Scheduler.Effects.{World, Discord, Post, posted, fetched, messaged}

-- The `except` clauses of both handlers, in their order: `true` asks for the sent row to be deleted
-- and the exception raised again; `false` keeps the row.
unfoldable pub is_transient : Error → Bool
is_transient timeout_error = true
is_transient rate_limited = true
is_transient client_error = true
is_transient (http_exception status) = leb 500 status
is_transient _ = false

-- `ReminderSentStore(session).mark_sent`, on the tables.
abbrev pub mark_reminder : ℕ → Date → Exec World Bool
mark_reminder id day w =
    let (inserted, rows) = ReminderSentStore.mark_sent id day w.reminder_sent in
    (ok inserted, record w { reminder_sent = rows })

abbrev pub unmark_reminder : ℕ → Date → Exec World (Unit {0})
unmark_reminder id day w =
    (ok tt, record w { reminder_sent = ReminderSentStore.unmark id day w.reminder_sent })

abbrev pub mark_notice : ℕ → Date → Exec World Bool
mark_notice id day w =
    let (inserted, rows) = MemberNotificationSentStore.mark_sent id day w.notices.sent in
    (ok inserted, record w { notices = record w.notices { sent = rows } })

abbrev pub unmark_notice : ℕ → Date → Exec World (Unit {0})
unmark_notice id day w = (
  ok tt,
  record w {
    notices = record w.notices { sent = MemberNotificationSentStore.unmark id day w.notices.sent };
  },
)

-- What follows a send: `undo` deletes the sent row. `except Exception` does not catch a
-- cancellation.
unfoldable pub after_send : Exec World (Unit {0}) → Result (Unit {0}) → Exec World (Unit {0})
unfolding is_transient
after_send undo (ok _) = pure tt
after_send undo (err cancelled) = raise cancelled
after_send undo (err e) = if is_transient e then (undo >> raise e) else pure tt

-- The message of a reminder, with the mention of its role.
abbrev pub post_of : Reminder → Post
post_of r = record { mention = r.role_mention_id; text = r.message_template }

module _ (discord : Discord) where
  -- `channel.send(...)`: the call and its outcome go on the trace.
  abbrev pub send_post : ℕ → Date → ℕ → Post → Exec World (Result (Unit {0}))
  send_post id day channel post w =
      let outcome = discord.send w.trace channel post in
      (ok outcome, record w { trace = posted id day channel post outcome ∷ w.trace })

  abbrev pub send_message : ℕ → Date → ℤ → String → Exec World (Result (Unit {0}))
  send_message id day member text w =
      let outcome = discord.send_dm w.trace member text in
      (ok outcome, record w { trace = messaged id day member text outcome ∷ w.trace })

  abbrev pub fetch : ℕ → Date → ℤ → Exec World (Result (Unit {0}))
  fetch id day member w =
      let outcome = discord.fetch_member w.trace member in
      (ok outcome, record w { trace = fetched id day member outcome ∷ w.trace })

  -- `_handle_reminder` once the row is inserted.
  unfoldable pub send_reminder : Reminder → Date → Exec World (Unit {0})
  unfolding after_send
  send_reminder r today w =
      if discord.get_channel w.trace r.channel_id
      then (send_post r.id today r.channel_id (post_of r)
            >>= after_send (unmark_reminder r.id today))
          w
      else (ok tt, w)

  unfoldable pub handle_reminder : Reminder → Date → Exec World (Unit {0})
  unfolding send_reminder
  handle_reminder r today =
      mark_reminder r.id today >>= λ inserted. if inserted then send_reminder r today else pure tt

  -- The third step of `_handle_member_notification`.
  unfoldable pub send_notice : MemberNotification → Date → ℤ → Exec World (Unit {0})
  unfolding after_send
  send_notice n today member =
      send_message n.id today member n.message_template >>= after_send (unmark_notice n.id today)

  -- The `except` clauses of `fetch_member`: unlike those of a send, they let any exception through
  -- that is not one of discord.py's or aiohttp's.
  unfoldable pub after_fetch :
      MemberNotification → Date → ℤ → Result (Unit {0}) → Exec World (Unit {0})
  unfolding is_transient send_notice
  after_fetch n today member (ok _) = send_notice n today member
  after_fetch n today member (err not_found) = pure tt
  after_fetch n today member (err forbidden) = pure tt
  after_fetch n today member (err (http_exception status)) =
      if is_transient (http_exception status)
      then (unmark_notice n.id today >> raise (http_exception status))
      else pure tt
  after_fetch n today member (err e) =
      if is_transient e then (unmark_notice n.id today >> raise e) else raise e

  -- `_handle_member_notification` once the row is inserted and the id is read.
  unfoldable pub resolve_member : MemberNotification → Date → Option ℤ → Exec World (Unit {0})
  unfolding after_fetch
  resolve_member n today none w = (err value_error, w)
  resolve_member n today (some member) w =
      if discord.get_member w.trace member
      then send_notice n today member w
      else (fetch n.id today member >>= after_fetch n today member) w

  unfoldable pub handle_member_notification : MemberNotification → Date → Exec World (Unit {0})
  unfolding resolve_member
  handle_member_notification n today = mark_notice n.id today >>= λ inserted.
      if inserted then resolve_member n today (int_of n.target_discord_id) else pure tt
