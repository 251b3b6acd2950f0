-- ===== src/Reminders/Scheduler/Frame.antt =====
-- What the direct messages leave alone: all that the invariant of the reminders reads.
use rsl_mom_bot.Prelude.{ℕ, ◌≡◌, refl, ◌∙◌, List, ◌∷◌, Bool-cases, inl, inr, Option, none, some}
use rsl_mom_bot.Prelude.Exec.{
  Result, ok, err, http_exception, timeout_error, rate_limited, client_error,
}
use rsl_mom_bot.Prelude.Int.{ℤ}
use rsl_mom_bot.PyText.{int_of}
use rsl_mom_bot.Date.{Date}
use rsl_mom_bot.Reminders.SentStore.{has_row, insert_row}
use rsl_mom_bot.Reminders.SentStore.MemberNotificationSentStore.{mark_sent}
use rsl_mom_bot.MemberNotifications.Models.{MemberNotification}
use rsl_mom_bot.Reminders.Scheduler.Effects.{World, Discord, Event, fetched, messaged}
use rsl_mom_bot.Reminders.Scheduler.Handlers.{
  is_transient, after_send, unmark_notice, send_notice, after_fetch, resolve_member,
  handle_member_notification,
}
use rsl_mom_bot.Reminders.Scheduler.Once.{deliveries}
use rsl_mom_bot.Reminders.Scheduler.Once

-- Nothing that the invariant of the reminders reads has changed, and no notification or key.
pub record SameReminders (w v : World) : Type 0 where
  pub sent_is : v.reminder_sent ≡ w.reminder_sent
  pub rows_is : v.notices.rows ≡ w.notices.rows
  pub next_is : v.notices.next_id ≡ w.notices.next_id
  pub counts : (id : ℕ) (day : Date) → deliveries id day v.trace ≡ deliveries id day w.trace

same : (w : World) → SameReminders w w
same w = record { sent_is = refl; rows_is = refl; next_is = refl; counts = λ id day. refl }

chain : (u v w : World) → SameReminders u v → SameReminders v w → SameReminders u w
chain u v w p q = record {
  sent_is = q.sent_is ∙ p.sent_is;
  rows_is = q.rows_is ∙ p.rows_is;
  next_is = q.next_is ∙ p.next_is;
  counts = λ id day. q.counts id day ∙ p.counts id day;
}

pub IsOnce-same : (w v : World) → SameReminders w v → Once.IsOnce w → Once.IsOnce v
IsOnce-same w v s h = λ id day. rw (s.sent_is, s.counts id day) (h id day)

module _ (n : MemberNotification) (today : Date) where
  unmarked-same : (w : World) → SameReminders w (unmark_notice n.id today w).1
  unmarked-same w = record {
    sent_is = refl;
    rows_is = refl;
    next_is = refl;
    counts = λ id day. refl;
  }

  after_send-same :
      (r : Result (Unit {0})) (w : World)
      → SameReminders w (after_send (unmark_notice n.id today) r w).1
  unfolding after_send
  after_send-same (ok _) w = same w
  after_send-same (err timeout_error) w = unmarked-same w
  after_send-same (err rate_limited) w = unmarked-same w
  after_send-same (err client_error) w = unmarked-same w
  after_send-same (err (http_exception s)) w = elim (Bool-cases (is_transient (http_exception s))) [
    | inl t ↦ rw t (unmarked-same w)
    | inr f ↦ rw f (same w)
  ]
  after_send-same (err e) w = same w

  module _ (discord : Discord) where
    send_notice-same :
        (member : ℤ) (w : World) → SameReminders w (send_notice discord n today member w).1
    unfolding send_notice
    send_notice-same member w =
        let outcome = discord.send_dm w.trace member n.message_template in
        let v : World = record w {
          trace = messaged n.id today member n.message_template outcome ∷ w.trace;
        } in
        chain w v (after_send (unmark_notice n.id today) outcome v).1
          (record {
            sent_is = refl;
            rows_is = refl;
            next_is = refl;
            counts = λ id day. messaged_ignored id day member outcome w.trace;
          })
          (after_send-same outcome v)
      where
        messaged_ignored :
            (id : ℕ) (day : Date) (m : ℤ) (r : Result (Unit {0})) (t : List Event)
            → deliveries id day (messaged n.id today m n.message_template r ∷ t)
              ≡ deliveries id day t
        messaged_ignored id day m r t = unfold deliveries in refl

    after_fetch-same :
        (r : Result (Unit {0})) (member : ℤ) (w : World)
        → SameReminders w (after_fetch discord n today member r w).1
    unfolding after_fetch
    after_fetch-same (ok _) member w = send_notice-same member w
    after_fetch-same (err timeout_error) member w = unmarked-same w
    after_fetch-same (err rate_limited) member w = unmarked-same w
    after_fetch-same (err client_error) member w = unmarked-same w
    after_fetch-same (err (http_exception s)) member w =
        elim (Bool-cases (is_transient (http_exception s))) [
          | inl t ↦ rw t (unmarked-same w)
          | inr f ↦ rw f (same w)
        ]
    after_fetch-same (err e) member w = same w

    resolve_member-same :
        (id : Option ℤ) (w : World) → SameReminders w (resolve_member discord n today id w).1
    unfolding resolve_member
    resolve_member-same none w = same w
    resolve_member-same (some member) w = elim (Bool-cases (discord.get_member w.trace member)) [
      | inl cached ↦ rw cached (send_notice-same member w)
      | inr miss ↦
          let outcome = discord.fetch_member w.trace member in
          let v : World = record w { trace = fetched n.id today member outcome ∷ w.trace } in
          rw miss (
            chain w v (after_fetch discord n today member outcome v).1
              (record {
                sent_is = refl;
                rows_is = refl;
                next_is = refl;
                counts = λ id day. unfold deliveries in refl;
              })
              (after_fetch-same outcome member v))
    ]

    pub handle_member_notification-same :
        (w : World) → SameReminders w (handle_member_notification discord n today w).1
    unfolding handle_member_notification mark_sent insert_row
    handle_member_notification-same w = elim (Bool-cases (has_row n.id today w.notices.sent)) [
      | inl marked ↦ rw marked (same w)
      | inr fresh ↦
          let v : World = record w {
            notices = record w.notices { sent = (n.id, today) ∷ w.notices.sent };
          } in
          rw fresh (
            chain w v (resolve_member discord n today (int_of n.target_discord_id) v).1
              (record { sent_is = refl; rows_is = refl; next_is = refl; counts = λ id day. refl })
              (resolve_member-same (int_of n.target_discord_id) v))
    ]
