-- ===== src/Reminders/Scheduler/Complete.antt =====
-- A round that raises nothing settles each of its reminders; a failed notification stops no other.
use rsl_mom_bot.Prelude.{
  ℕ, ◌≡◌, refl, Bool, true, false, arith, List, [], ◌∷◌, Bool-cases, inl, inr, All,
}
use rsl_mom_bot.Prelude.Exec.{Error, Result, ok, err, cancelled, continue}
use rsl_mom_bot.Date.{Date}
use rsl_mom_bot.Reminders.SentStore.{has_row}
use rsl_mom_bot.Reminders.SentStore.Laws.{has_row-cons, is_row_self}
use rsl_mom_bot.Reminders.SentStore.ReminderSentStore.{was_sent}
use rsl_mom_bot.Reminders.Models.{Reminder}
use rsl_mom_bot.MemberNotifications.Models.{MemberNotification}
use rsl_mom_bot.Reminders.Scheduler.Effects.{World, Discord, Event, Post}
use rsl_mom_bot.Reminders.Scheduler.Handlers.{
  is_transient, handle_reminder, handle_member_notification, post_of,
}
use rsl_mom_bot.Reminders.Scheduler.Delivery.{
  passed_on, after_sending, handle_reminder-sends, handle_reminder_marked,
  handle_reminder_no_channel,
}
use rsl_mom_bot.Reminders.Scheduler.{send_all, send_notices, note_failure}

-- The rows that are there stay there.
abbrev pub Grows : World → World → Type 0
Grows w v =
    (id : ℕ) (day : Date)
    → has_row id day w.reminder_sent ≡ true
    → has_row id day v.reminder_sent ≡ true

after_sending-Grows :
    (r : Reminder) (today : Date) (w : World) (outcome : Result (Unit {0}))
    → Grows w (after_sending r today w outcome)
after_sending-Grows r today w (ok _) id day h =
    ground (arith, has_row-cons r.id id today day w.reminder_sent)
after_sending-Grows r today w (err e) id day h =
    ground (arith, has_row-cons r.id id today day w.reminder_sent)

-- If it raised nothing, it kept the row.
after_sending-marked :
    (r : Reminder) (today : Date) (w : World) (outcome : Result (Unit {0}))
    → passed_on outcome ≡ ok tt
    → has_row r.id today (after_sending r today w outcome).reminder_sent ≡ true
unfolding is_transient
after_sending-marked r today w (ok _) h =
    ground (arith, has_row-cons r.id r.id today today w.reminder_sent, is_row_self r.id today)
after_sending-marked r today w (err e) h =
    ground (arith, has_row-cons r.id r.id today today w.reminder_sent, is_row_self r.id today)

module _ (discord : Discord) where
  handle_reminder-Grows :
      (r : Reminder) (today : Date) (w : World) → Grows w (handle_reminder discord r today w).1
  unfolding was_sent
  handle_reminder-Grows r today w id day h =
      elim (Bool-cases (was_sent r.id today w.reminder_sent)) [
        | inl marked ↦ rw (handle_reminder_marked discord r today w marked) h
        | inr fresh ↦ elim (Bool-cases (discord.get_channel w.trace r.channel_id)) [
          | inl known ↦
              rw (handle_reminder-sends discord r today w fresh known)
                (after_sending-Grows r today w _ id day h)
          | inr unknown ↦
              rw (handle_reminder_no_channel discord r today w fresh unknown)
                (ground (arith, has_row-cons r.id id today day w.reminder_sent))
        ]
      ]

  -- A handler that raises nothing leaves its reminder marked.
  handle_reminder-marks :
      (r : Reminder) (today : Date) (w : World)
      → (handle_reminder discord r today w).0 ≡ ok tt
      → has_row r.id today (handle_reminder discord r today w).1.reminder_sent ≡ true
  unfolding was_sent
  handle_reminder-marks r today w h = elim (Bool-cases (was_sent r.id today w.reminder_sent)) [
    | inl marked ↦ rw (handle_reminder_marked discord r today w marked) marked
    | inr fresh ↦ elim (Bool-cases (discord.get_channel w.trace r.channel_id)) [
      | inl known ↦
          let e = handle_reminder-sends discord r today w fresh known in
          rw e (after_sending-marked r today w _ (rw e at h))
      | inr unknown ↦ rw (handle_reminder_no_channel discord r today w fresh unknown) (
          ground
            (arith, has_row-cons r.id r.id today today w.reminder_sent, is_row_self r.id today))
    ]
  ]

  send_all-Grows :
      (today : Date) (rs : List Reminder) (w : World) → Grows w (send_all discord today rs w).1
  unfolding send_all
  send_all-Grows today [] w id day h = h
  send_all-Grows today (r ∷ rs) w id day h =
      step (handle_reminder discord r today w).0 (handle_reminder discord r today w).1
        (handle_reminder-Grows r today w id day h) (send_all-Grows today rs)
    where
      step :
          (res : Result (Unit {0})) (v : World)
          → has_row id day v.reminder_sent ≡ true
          → ((u : World) → Grows u (send_all discord today rs u).1)
          → has_row id day (continue res (λ _. send_all discord today rs) v).1.reminder_sent ≡ true
      step (ok _) v k ih = ih v id day k
      step (err e) v k ih = k

  -- If the loop over the reminders raises nothing, each of them is marked for the date afterwards:
  -- it was delivered, or dropped for good.
  pub send_all-marks :
      (today : Date) (rs : List Reminder) (w : World)
      → (send_all discord today rs w).0 ≡ ok tt
      → All (λ r. was_sent r.id today (send_all discord today rs w).1.reminder_sent ≡ true) rs
  unfolding send_all was_sent
  send_all-marks today [] w h = tt
  send_all-marks today (r ∷ rs) w h =
      let (res, v) = handle_reminder discord r today w in
      step res v (handle_reminder-marks r today w) (send_all-Grows today rs)
        (send_all-marks today rs) h
    where
      step :
          (res : Result (Unit {0})) (v : World)
          → (res ≡ ok tt → has_row r.id today v.reminder_sent ≡ true)
          → ((u : World) → Grows u (send_all discord today rs u).1)
          → ((u : World)
              → (send_all discord today rs u).0 ≡ ok tt
              → All
                  (λ q. has_row q.id today (send_all discord today rs u).1.reminder_sent ≡ true)
                  rs)
          → let w' = continue res (λ _. send_all discord today rs) v in
            w'.0 ≡ ok tt
            → (has_row r.id today w'.1.reminder_sent ≡ true)
              × All (λ q. has_row q.id today w'.1.reminder_sent ≡ true) rs
      step (ok _) v marked grows ih k = (grows v r.id today (marked refl), ih v k)
      step (err e) v marked grows ih k = cc

  -- The loop over the notifications raises nothing but a cancellation: whatever else a handler
  -- raises, the loop goes on to the next one, and in the end reports that not all went well.
  pub send_notices_isolated :
      (today : Date) (completed : Bool) (ns : List MemberNotification) (w : World) (e : Error)
      → (send_notices discord today completed ns w).0 ≡ err e
      → e ≡ cancelled
  unfolding send_notices
  send_notices_isolated today completed [] w e h = cc
  send_notices_isolated today completed (n ∷ ns) w e h =
      let (res, v) = handle_member_notification discord n today w in
      step res v (λ c u. send_notices_isolated today c ns u e) h
    where
      step :
          (res : Result (Unit {0})) (v : World)
          → ((c : Bool) (u : World) → (send_notices discord today c ns u).0 ≡ err e → e ≡ cancelled)
          → (continue (note_failure completed res) (λ c. send_notices discord today c ns) v).0
            ≡ err e
          → e ≡ cancelled
      step (ok _) v ih k = ih completed v k
      step (err cancelled) v ih k = cc
      step (err x) v ih k = ih false v k

module _ (discord : Discord)
    (settles : (trace : List Event) (channel : ℕ) (post : Post)
      → passed_on (discord.send trace channel post) ≡ ok tt) where
  handle_reminder_settles :
      (r : Reminder) (today : Date) (w : World) → (handle_reminder discord r today w).0 ≡ ok tt
  handle_reminder_settles r today w = elim (Bool-cases (was_sent r.id today w.reminder_sent)) [
    | inl marked ↦ rw (handle_reminder_marked discord r today w marked) refl
    | inr fresh ↦ elim (Bool-cases (discord.get_channel w.trace r.channel_id)) [
      | inl known ↦
          rw (handle_reminder-sends discord r today w fresh known)
            (settles w.trace r.channel_id (post_of r))
      | inr unknown ↦ rw (handle_reminder_no_channel discord r today w fresh unknown) refl
    ]
  ]

  send_all_returns :
      (today : Date) (rs : List Reminder) (w : World) → (send_all discord today rs w).0 ≡ ok tt
  unfolding send_all
  send_all_returns today [] w = refl
  send_all_returns today (r ∷ rs) w =
      step (handle_reminder discord r today w).0 (handle_reminder discord r today w).1
        (handle_reminder_settles r today w) (send_all_returns today rs)
    where
      step :
          (res : Result (Unit {0})) (v : World)
          → res ≡ ok tt
          → ((u : World) → (send_all discord today rs u).0 ≡ ok tt)
          → (continue res (λ _. send_all discord today rs) v).0 ≡ ok tt
      step (ok _) v k ih = ih v
      step (err e) v k ih = cc

  -- When no send ends with a transient error or a cancellation, the loop over the reminders
  -- returns, and each of them has its sent row for the date afterwards.
  pub send_all_completes :
      (today : Date) (rs : List Reminder) (w : World)
      → ((send_all discord today rs w).0 ≡ ok tt)
        × All (λ r. was_sent r.id today (send_all discord today rs w).1.reminder_sent ≡ true) rs
  send_all_completes today rs w =
      let returns = send_all_returns today rs w in
      (returns, send_all-marks discord today rs w returns)
