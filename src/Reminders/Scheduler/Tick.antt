-- ===== src/Reminders/Scheduler/Tick.antt =====
-- Any sequence of rounds and of changes of the tables: at most one delivery for a row and date.
use rsl_mom_bot.Prelude.{
  ℕ, ◌≤◌, ◌≡◌, refl, ◌||◌, String, Bool, true, false, if◌then◌else◌, arith, List, [],
}
use rsl_mom_bot.Date.{Date}
use rsl_mom_bot.Reminders.SentStore.ReminderSentStore.{was_sent}
use rsl_mom_bot.Reminders.SentStore.MemberNotificationSentStore
use rsl_mom_bot.Reminders.Models.{Reminder}
use rsl_mom_bot.MemberNotifications.Service.Invariant.{IsValid}
use rsl_mom_bot.MemberNotifications.Service.Contract.{Call, call}
use rsl_mom_bot.Reminders.Scheduler.Removed.{is_removed, is_settled, call-settled, call-IsValid}
use rsl_mom_bot.Reminders.Scheduler.Effects.{World, Discord}
use rsl_mom_bot.Reminders.Scheduler.Once
use rsl_mom_bot.Reminders.Scheduler.Once.{deliveries, handle_reminder-IsOnce}
use rsl_mom_bot.Reminders.Scheduler.OnceMessages
use rsl_mom_bot.Reminders.Scheduler.OnceMessages.{messages, handle_member_notification-IsOnce}
use rsl_mom_bot.Reminders.Scheduler.{run_round}
use rsl_mom_bot.Reminders.Scheduler.Settled.{IsSettled, still-IsValid, run_round-IsSettled}

module _ (discord : Discord) where
  -- What can happen between two states of the tables: a round, whatever the clock, the weekday and
  -- the date it reads and however it ends; a call of the service that creates, changes or deletes a
  -- notification; or an edit of the reminders, which leaves their sent rows alone.
  pub data Step (violation : String → String) : World → World → Type 0 where
    round :
        (is_ready has_guild : Bool) (clock weekday now : ℕ) (today : Date) (w : World)
        → Step violation w (run_round discord is_ready has_guild clock weekday now today w).1
    serve :
        (c : Call) (w : World)
        → Step violation w (record w { notices = (call violation c w.notices).1 })
    edit :
        (w : World) (reminders : List Reminder)
        → Step violation w (record w { reminders = reminders })

  pub data Reach (violation : String → String) (w : World) : World → Type 0 where
    here : Reach violation w w
    next : {u v : World} → Reach violation w u → Step violation u v → Reach violation w v

  -- Between the rounds.
  record IsSound (w : World) : Type 0 where
    valid : IsValid w.notices
    posts : Once.IsOnce w
    directs : OnceMessages.IsOnce (λ id. is_removed id w.notices) w

  round-IsSound :
      (is_ready has_guild : Bool) (clock weekday now : ℕ) (today : Date) (w : World)
      → IsSound w
      → IsSound (run_round discord is_ready has_guild clock weekday now today w).1
  round-IsSound is_ready has_guild clock weekday now today w s =
      let v = (run_round discord is_ready has_guild clock weekday now today w).1 in
      let end : IsSettled w.notices v =
        run_round-IsSettled discord w.notices is_ready has_guild clock weekday now today w s.valid
          (record { posts = s.posts; directs = s.directs; rows_is = refl; next_is = refl }) in
      record {
        valid = still-IsValid discord w.notices v s.valid end;
        posts = end.posts;
        directs = λ id day. rw (end.rows_is, end.next_is) (end.directs id day);
      }

  settled_bound :
      (n : ℕ) (b c : Bool)
      → (b ≡ true → c ≡ true)
      → n ≤ (if b then 1 else 0)
      → n ≤ (if c then 1 else 0)
  settled_bound n true c k h = rw (k refl) h
  settled_bound n false c k h = ground (arith, h)

  Step-IsSound :
      (violation : String → String) {u v : World} → Step violation u v → IsSound u → IsSound v
  Step-IsSound violation (round is_ready has_guild clock weekday now today w) s =
      round-IsSound is_ready has_guild clock weekday now today w s
  Step-IsSound violation (serve c w) s = record {
    valid = call-IsValid violation c w.notices s.valid;
    posts = s.posts;
    directs = λ id day.
        settled_bound (messages id day w.trace) (is_settled id day w.notices)
          (is_settled id day (call violation c w.notices).1)
          (call-settled violation c w.notices id day s.valid) (s.directs id day);
  }
  Step-IsSound violation (edit w reminders) s = record {
    valid = s.valid;
    posts = s.posts;
    directs = s.directs;
  }

  Reach-IsSound :
      (violation : String → String) {w v : World} → IsSound w → Reach violation w v → IsSound v
  Reach-IsSound violation s here = s
  Reach-IsSound violation s (next r st) = Step-IsSound violation st (Reach-IsSound violation s r)

  -- From a valid table and no calls made, after any sequence of rounds, of calls of the service that
  -- create, change and delete notifications and of edits of the reminders, and whatever Discord
  -- answers, each reminder was delivered at most once for each date, and not at all unless its sent
  -- row is there; and each notification at most once as a direct message, and not at all unless its
  -- sent row is there or it was deleted.
  pub delivered_at_most_once :
      (violation : String → String) (w v : World) (id : ℕ) (day : Date)
      → w.trace ≡ []
      → IsValid w.notices
      → Reach violation w v
      → (deliveries id day v.trace ≤ (if was_sent id day v.reminder_sent then 1 else 0))
        × (messages id day v.trace ≤ (
            if MemberNotificationSentStore.was_sent id day v.notices.sent || is_removed id v.notices
            then 1
            else 0))
  unfolding deliveries messages was_sent MemberNotificationSentStore.was_sent
  delivered_at_most_once violation w v id day start valid r = (end.posts id day, end.directs id day)
    where
      end : IsSound v
      end =
          Reach-IsSound violation
            (record {
              valid = valid;
              posts = λ i d. rw start (ground arith);
              directs = λ i d. rw start (ground arith);
            })
            r
