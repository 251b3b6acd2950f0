-- ===== src/Reminders/Scheduler/Settled.antt =====
-- Both invariants through a round: what was delivered, of reminders and of notifications.
use rsl_mom_bot.Prelude.{
  ℕ, ◌≡◌, refl, ap, ◌∙◌, In, All-map, any, Bool, true, false, arith, List, [], ◌∷◌, Bool-cases, inl,
  inr,
}
use rsl_mom_bot.Prelude.Exec.{Result, ok, err, Exec, cancelled, continue}
use rsl_mom_bot.Date.{Date}
use rsl_mom_bot.Reminders.SentStore.ReminderSentStore.{was_sent}
use rsl_mom_bot.Reminders.Models.{Reminder}
use rsl_mom_bot.MemberNotifications.Models.{MemberNotification, Db}
use rsl_mom_bot.MemberNotifications.Service.{is_valid_cadence, list_due}
use rsl_mom_bot.MemberNotifications.Service.Rows.{IsStored, has_id}
use rsl_mom_bot.MemberNotifications.Service.Invariant.{IsValid}
use rsl_mom_bot.MemberNotifications.Service.Due.{list_due_iff}
use rsl_mom_bot.Health.Progress.{States}
use rsl_mom_bot.Reminders.Scheduler.Removed.{is_removed}
use rsl_mom_bot.Reminders.Scheduler.Effects.{World, Discord}
use rsl_mom_bot.Reminders.Scheduler.Handlers.{handle_reminder, handle_member_notification}
use rsl_mom_bot.Reminders.Scheduler.Selection.{survivors}
use rsl_mom_bot.Reminders.Scheduler.Delivery.{
  handle_reminder-sends, handle_reminder_marked, handle_reminder_no_channel,
}
use rsl_mom_bot.Reminders.Scheduler.Once
use rsl_mom_bot.Reminders.Scheduler.Once.{deliveries, handle_reminder-IsOnce}
use rsl_mom_bot.Reminders.Scheduler.OnceMessages
use rsl_mom_bot.Reminders.Scheduler.OnceMessages.{messages, handle_member_notification-IsOnce}
use rsl_mom_bot.Reminders.Scheduler.Frame.{IsOnce-same, handle_member_notification-same}
use rsl_mom_bot.Reminders.Scheduler.{
  send_all, send_notices, send_due, process_tick, settle, run_round, note_failure,
}

-- Both invariants, in a round that began with the notifications of `db`.
pub record IsSettled (db : Db) (w : World) : Type 0 where
  pub posts : Once.IsOnce w
  pub directs : OnceMessages.IsOnce (λ id. is_removed id db) w
  pub rows_is : w.notices.rows ≡ db.rows
  pub next_is : w.notices.next_id ≡ db.next_id

In-any :
    (n : MemberNotification) (rows : List MemberNotification)
    → In n rows
    → any (has_id n.id) rows ≡ true
In-any n [] m = absurd m
In-any n (x ∷ rows) (inl e) =
    let same : n.id ≡ x.id = ap (λ (r : MemberNotification). r.id) e in ground (arith, same)
In-any n (x ∷ rows) (inr m) = ground (arith, In-any n rows m)

-- A row of the table has a key that is not removed.
row_is_there : (n : MemberNotification) (db : Db) → In n db.rows → is_removed n.id db ≡ false
row_is_there n db m = rw (In-any n db.rows m) (ground arith)

-- What `list_due` returns are rows of the table.
due_are_rows :
    (today : Date) (now : ℕ) (db : Db) (ns : List MemberNotification) (n : MemberNotification)
    → IsValid db
    → list_due today now db ≡ ok ns
    → In n ns
    → In n db.rows
due_are_rows today now db ns n v h m =
    let cadences =
      All-map IsStored (λ r. is_valid_cadence r.cadence ≡ true) db.rows (λ r s. s.0) v.stored in
    let (due, is_due, which) = list_due_iff today now db n cadences in
    let same : ns ≡ due = cc in (which.0 (rw same at m)).0

continue-IsSettled :
    {A B : Type 0} (db : Db) (f : A → Exec World B) (r : Result A) (w : World)
    → IsSettled db w
    → ((a : A) → r ≡ ok a → (v : World) → IsSettled db v → IsSettled db (f a v).1)
    → IsSettled db (continue r f w).1
continue-IsSettled db f (ok a) w s k = k a refl w s
continue-IsSettled db f (err e) w s k = s

module _ (discord : Discord) where
  handle_reminder-notices :
      (r : Reminder) (today : Date) (w : World)
      → ((handle_reminder discord r today w).1.notices ≡ w.notices)
        × ((id : ℕ) (day : Date)
            → messages id day (handle_reminder discord r today w).1.trace ≡ messages id day w.trace)
  unfolding was_sent messages
  handle_reminder-notices r today w = elim (Bool-cases (was_sent r.id today w.reminder_sent)) [
    | inl marked ↦ rw (handle_reminder_marked discord r today w marked) (refl, λ id day. refl)
    | inr fresh ↦ elim (Bool-cases (discord.get_channel w.trace r.channel_id)) [
      | inl known ↦ rw (handle_reminder-sends discord r today w fresh known) (refl, λ id day. refl)
      | inr unknown ↦
          rw (handle_reminder_no_channel discord r today w fresh unknown) (refl, λ id day. refl)
    ]
  ]

  handle_reminder-IsSettled :
      (db : Db) (r : Reminder) (today : Date) (w : World)
      → IsSettled db w
      → IsSettled db (handle_reminder discord r today w).1
  handle_reminder-IsSettled db r today w s =
      let (notices_is, counts) = handle_reminder-notices r today w in
      record {
        posts = handle_reminder-IsOnce discord r today w s.posts;
        directs = λ id day. rw (notices_is, counts id day) (s.directs id day);
        rows_is = rw notices_is s.rows_is;
        next_is = rw notices_is s.next_is;
      }

  handle_member_notification-IsSettled :
      (db : Db) (n : MemberNotification) (today : Date) (w : World)
      → is_removed n.id db ≡ false
      → IsSettled db w
      → IsSettled db (handle_member_notification discord n today w).1
  handle_member_notification-IsSettled db n today w there s =
      let same = handle_member_notification-same n today discord w in
      record {
        posts = IsOnce-same w (handle_member_notification discord n today w).1 same s.posts;
        directs =
            handle_member_notification-IsOnce discord n today (λ id. is_removed id db) w there
              s.directs;
        rows_is = same.rows_is ∙ s.rows_is;
        next_is = same.next_is ∙ s.next_is;
      }

  send_all-IsSettled :
      (db : Db) (today : Date) (rs : List Reminder) (w : World)
      → IsSettled db w
      → IsSettled db (send_all discord today rs w).1
  unfolding send_all
  send_all-IsSettled db today [] w s = s
  send_all-IsSettled db today (r ∷ rs) w s =
      let (res, v) = handle_reminder discord r today w in
      continue-IsSettled db (λ _. send_all discord today rs) res v
        (handle_reminder-IsSettled db r today w s) (λ _ _ v. send_all-IsSettled db today rs v)

  send_notices-IsSettled :
      (db : Db) (today : Date) (completed : Bool) (ns : List MemberNotification) (w : World)
      → ((n : MemberNotification) → In n ns → is_removed n.id db ≡ false)
      → IsSettled db w
      → IsSettled db (send_notices discord today completed ns w).1
  unfolding send_notices
  send_notices-IsSettled db today completed [] w there s = s
  send_notices-IsSettled db today completed (n ∷ ns) w there s =
      let (r, v) = handle_member_notification discord n today w in
      continue-IsSettled db (λ c. send_notices discord today c ns) (note_failure completed r) v
        (handle_member_notification-IsSettled db n today w (there n (inl refl)) s)
        (λ c _ v'. send_notices-IsSettled db today c ns v' (λ m k. there m (inr k)))

  -- The notifications of the round are those of its start.
  pub still-IsValid : (db : Db) (w : World) → IsValid db → IsSettled db w → IsValid w.notices
  still-IsValid db w v s = record {
    stored = rw s.rows_is v.stored;
    apart = rw s.rows_is v.apart;
    below = rw (s.rows_is, s.next_is) v.below;
  }

  send_due-IsSettled :
      (db : Db) (has_guild : Bool) (now : ℕ) (today : Date) (w : World)
      → IsValid db
      → IsSettled db w
      → IsSettled db (send_due discord has_guild now today w).1
  unfolding send_due
  send_due-IsSettled db true now today w v s =
      continue-IsSettled db (send_notices discord today true) (list_due today now w.notices) w s
        λ ns due u. send_notices-IsSettled db today true ns u λ n m.
          let row = due_are_rows today now w.notices ns n (still-IsValid db w v s) due m in
          row_is_there n db (rw s.rows_is at row)
  send_due-IsSettled db false now today w v s = s

  process_tick-IsSettled :
      (db : Db) (has_guild : Bool) (weekday now : ℕ) (today : Date) (w : World)
      → IsValid db
      → IsSettled db w
      → IsSettled db (process_tick discord has_guild weekday now today w).1
  unfolding process_tick
  process_tick-IsSettled db has_guild weekday now today w valid s =
      continue-IsSettled db _ (survivors weekday now today w) w s λ rs _ v sv.
        let (res, v') = send_all discord today rs v in
        continue-IsSettled db _ res v' (send_all-IsSettled db today rs v sv)
          (λ _ _ u. send_due-IsSettled db has_guild now today u valid)

  unread-IsSettled :
      (db : Db) (progress : States) (w : World)
      → IsSettled db w
      → IsSettled db (record w { progress = progress })
  unread-IsSettled db progress w s = record {
    posts = s.posts;
    directs = s.directs;
    rows_is = s.rows_is;
    next_is = s.next_is;
  }

  settle-IsSettled :
      (db : Db) (clock : ℕ) (r : Result Bool) (w : World)
      → IsSettled db w
      → IsSettled db (settle clock (r, w)).1
  settle-IsSettled db clock (ok true) w s = unread-IsSettled db _ w s
  settle-IsSettled db clock (ok false) w s = unread-IsSettled db _ w s
  settle-IsSettled db clock (err cancelled) w s = s
  settle-IsSettled db clock (err e) w s = unread-IsSettled db _ w s

  pub run_round-IsSettled :
      (db : Db) (is_ready has_guild : Bool) (clock weekday now : ℕ) (today : Date) (w : World)
      → IsValid db
      → IsSettled db w
      → IsSettled db (run_round discord is_ready has_guild clock weekday now today w).1
  unfolding run_round
  run_round-IsSettled db true has_guild clock weekday now today w valid s =
      let (r, v) = process_tick discord has_guild weekday now today w in
      settle-IsSettled db clock r v
        (process_tick-IsSettled db has_guild weekday now today w valid s)
  run_round-IsSettled db false has_guild clock weekday now today w valid s =
      unread-IsSettled db _ w s
