-- ===== src/Reminders/Scheduler/Once.antt =====
-- At most one delivery: however the rounds follow one another and whatever Discord answers.
use rsl_mom_bot.Prelude.{
  ℕ, ◌+◌, ◌≤◌, ◌≡◌, false, if◌then◌else◌, arith, List, [], ◌∷◌, Bool-cases, inl, inr,
}
use rsl_mom_bot.Prelude.Exec.{Result, ok, err}
use rsl_mom_bot.Date.{Date}
use rsl_mom_bot.Reminders.SentStore.{SentTable, is_row, has_row}
use rsl_mom_bot.Reminders.SentStore.Laws.{is_row→eq, has_row-cons}
use rsl_mom_bot.Reminders.SentStore.ReminderSentStore.{was_sent}
use rsl_mom_bot.Reminders.Models.{Reminder}
use rsl_mom_bot.Reminders.Scheduler.Effects.{World, Discord, Event, posted}
use rsl_mom_bot.Reminders.Scheduler.Handlers.{handle_reminder}
use rsl_mom_bot.Reminders.Scheduler.Delivery.{
  after_sending, handle_reminder-sends, handle_reminder_marked, handle_reminder_no_channel,
}

-- How often a post for this reminder and date was delivered.
unfoldable pub deliveries : ℕ → Date → List Event → ℕ
deliveries id day [] = 0
deliveries id day (posted j e channel post (ok _) ∷ trace) =
    (if is_row id day (j, e) then 1 else 0) + deliveries id day trace
deliveries id day (_ ∷ trace) = deliveries id day trace

-- At most one delivery where the sent row is there, and none where it is not.
abbrev pub IsOnce : World → Type 0
IsOnce w =
    (id : ℕ) (day : Date)
    → deliveries id day w.trace ≤ (if has_row id day w.reminder_sent then 1 else 0)

pub delivered_new :
    (i j : ℕ) (d e : Date) (rows : SentTable) (n : ℕ)
    → has_row i d rows ≡ false
    → n ≤ (if has_row j e rows then 1 else 0)
    → (if is_row j e (i, d) then 1 else 0) + n ≤ (if has_row j e ((i, d) ∷ rows) then 1 else 0)
delivered_new i j d e rows n fresh h = elim (Bool-cases (is_row j e (i, d))) [
  | inl same ↦
      let (p, q) = is_row→eq i j d e same in
      ground (arith, same, has_row-cons i j d e rows, rw (p, q) at h)
  | inr other ↦ ground (arith, other, has_row-cons i j d e rows)
]

after_sending-IsOnce :
    (r : Reminder) (today : Date) (w : World) (outcome : Result (Unit {0}))
    → has_row r.id today w.reminder_sent ≡ false
    → IsOnce w
    → IsOnce (after_sending r today w outcome)
unfolding deliveries
after_sending-IsOnce r today w (ok _) fresh h = λ id day.
    delivered_new r.id id today day w.reminder_sent (deliveries id day w.trace) fresh (h id day)
after_sending-IsOnce r today w (err e) fresh h =
    λ id day. ground (arith, h id day, has_row-cons r.id id today day w.reminder_sent)

pub handle_reminder-IsOnce :
    (discord : Discord) (r : Reminder) (today : Date) (w : World)
    → IsOnce w
    → IsOnce (handle_reminder discord r today w).1
unfolding was_sent
handle_reminder-IsOnce discord r today w h =
    elim (Bool-cases (was_sent r.id today w.reminder_sent)) [
      | inl marked ↦ rw (handle_reminder_marked discord r today w marked) h
      | inr fresh ↦ elim (Bool-cases (discord.get_channel w.trace r.channel_id)) [
        | inl known ↦
            rw (handle_reminder-sends discord r today w fresh known)
              (after_sending-IsOnce r today w _ fresh h)
        | inr unknown ↦
            rw (handle_reminder_no_channel discord r today w fresh unknown)
              (λ id day. ground (arith, h id day, has_row-cons r.id id today day w.reminder_sent))
      ]
    ]
