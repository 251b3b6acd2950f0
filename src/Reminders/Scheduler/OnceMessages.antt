-- ===== src/Reminders/Scheduler/OnceMessages.antt =====
-- At most one direct message for a notification and date: the step of one handler call.
use rsl_mom_bot.Prelude.{
  ℕ, ◌+◌, ◌≤◌, ◌≡◌, refl, Bool, false, ◌||◌, if◌then◌else◌, arith, List, [], ◌∷◌, Bool-cases, inl,
  inr, String, Option, none, some,
}
use rsl_mom_bot.Prelude.Exec.{
  Error, Result, ok, err, cancelled, not_found, forbidden, http_exception, timeout_error,
  rate_limited, client_error,
}
use rsl_mom_bot.Prelude.Int.{ℤ}
use rsl_mom_bot.PyText.{int_of}
use rsl_mom_bot.Date.{Date}
use rsl_mom_bot.Reminders.SentStore.{SentTable, is_row, has_row, insert_row}
use rsl_mom_bot.Reminders.SentStore.Laws.{is_row→eq, has_row-cons, delete_row_head}
use rsl_mom_bot.Reminders.SentStore.MemberNotificationSentStore.{mark_sent, unmark}
use rsl_mom_bot.MemberNotifications.Models.{MemberNotification}
use rsl_mom_bot.Reminders.Scheduler.Effects.{World, Discord, Event, fetched, messaged}
use rsl_mom_bot.Reminders.Scheduler.Handlers.{
  is_transient, after_send, unmark_notice, send_notice, after_fetch, resolve_member,
  handle_member_notification,
}

-- How often a direct message for this notification and date was delivered.
unfoldable pub messages : ℕ → Date → List Event → ℕ
messages id day [] = 0
messages id day (messaged j e member text (ok _) ∷ trace) =
    (if is_row id day (j, e) then 1 else 0) + messages id day trace
messages id day (_ ∷ trace) = messages id day trace

-- Of a key that is gone, at most one may have been delivered, whatever its sent rows were.
abbrev pub IsOnce : (ℕ → Bool) → World → Type 0
IsOnce gone w =
    (id : ℕ) (day : Date)
    → messages id day w.trace ≤ (if has_row id day w.notices.sent || gone id then 1 else 0)

delivered_here :
    (gone : ℕ → Bool) (i j : ℕ) (d e : Date) (rows : SentTable) (n : ℕ)
    → has_row i d rows ≡ false
    → gone i ≡ false
    → n ≤ (if has_row j e rows || gone j then 1 else 0)
    → (if is_row j e (i, d) then 1 else 0) + n
      ≤ (if has_row j e ((i, d) ∷ rows) || gone j then 1 else 0)
delivered_here gone i j d e rows n fresh there h = elim (Bool-cases (is_row j e (i, d))) [
  | inl same ↦
      let (p, q) = is_row→eq i j d e same in
      ground (arith, same, has_row-cons i j d e rows, rw (p, q) at h)
  | inr other ↦ ground (arith, other, has_row-cons i j d e rows)
]

module _ (n : MemberNotification) (today : Date) (rows : SentTable)
    (fresh : has_row n.id today rows ≡ false) (gone : ℕ → Bool) (there : gone n.id ≡ false) where
  -- The row is inserted and nothing is delivered for it yet.
  record IsPending (v : World) : Type 0 where
    sent_is : v.notices.sent ≡ (n.id, today) ∷ rows
    counts :
        (id : ℕ) (day : Date)
        → messages id day v.trace ≤ (if has_row id day rows || gone id then 1 else 0)

  pending-IsOnce : (v : World) → IsPending v → IsOnce gone v
  pending-IsOnce v p =
      λ id day. rw p.sent_is (ground (arith, p.counts id day, has_row-cons n.id id today day rows))

  undone-IsOnce : (v : World) → IsPending v → IsOnce gone (unmark_notice n.id today v).1
  unfolding unmark
  undone-IsOnce v p = λ id day. rw (p.sent_is, delete_row_head) (p.counts id day)

  delivered-IsOnce :
      (v : World) (member : ℤ) (text : String)
      → IsPending v
      → IsOnce gone (record v { trace = messaged n.id today member text (ok tt) ∷ v.trace })
  unfolding messages
  delivered-IsOnce v member text p = λ id day. rw p.sent_is (
      delivered_here gone n.id id today day rows (messages id day v.trace) fresh there
        (p.counts id day))

  after_send-IsOnce :
      (e : Error) (v : World)
      → IsPending v
      → IsOnce gone (after_send (unmark_notice n.id today) (err e) v).1
  unfolding after_send
  after_send-IsOnce cancelled v p = pending-IsOnce v p
  after_send-IsOnce timeout_error v p = undone-IsOnce v p
  after_send-IsOnce rate_limited v p = undone-IsOnce v p
  after_send-IsOnce client_error v p = undone-IsOnce v p
  after_send-IsOnce (http_exception s) v p = elim (Bool-cases (is_transient (http_exception s))) [
    | inl t ↦ rw t (undone-IsOnce v p)
    | inr f ↦ rw f (pending-IsOnce v p)
  ]
  after_send-IsOnce e v p = pending-IsOnce v p

  settled-IsOnce :
      (outcome : Result (Unit {0})) (v : World) (member : ℤ) (text : String)
      → IsPending v
      → IsOnce gone
          (after_send
            (unmark_notice n.id today)
            outcome
            (record v { trace = messaged n.id today member text outcome ∷ v.trace })).1
  settled-IsOnce (ok _) v member text p = unfold after_send in delivered-IsOnce v member text p
  settled-IsOnce (err e) v member text p =
      after_send-IsOnce e (record v { trace = messaged n.id today member text (err e) ∷ v.trace })
        (record { sent_is = p.sent_is; counts = unfold messages in p.counts })

  module _ (discord : Discord) where
    send_notice-IsOnce :
        (v : World) (member : ℤ)
        → IsPending v
        → IsOnce gone (send_notice discord n today member v).1
    unfolding send_notice
    send_notice-IsOnce v member p =
        settled-IsOnce (discord.send_dm v.trace member n.message_template) v member
          n.message_template p

    after_fetch-IsOnce :
        (outcome : Result (Unit {0})) (v : World) (member : ℤ)
        → IsPending v
        → IsOnce gone (after_fetch discord n today member outcome v).1
    unfolding after_fetch
    after_fetch-IsOnce (ok _) v member p = send_notice-IsOnce v member p
    after_fetch-IsOnce (err not_found) v member p = pending-IsOnce v p
    after_fetch-IsOnce (err forbidden) v member p = pending-IsOnce v p
    after_fetch-IsOnce (err (http_exception s)) v member p =
        elim (Bool-cases (is_transient (http_exception s))) [
          | inl t ↦ rw t (undone-IsOnce v p)
          | inr f ↦ rw f (pending-IsOnce v p)
        ]
    after_fetch-IsOnce (err timeout_error) v member p = undone-IsOnce v p
    after_fetch-IsOnce (err rate_limited) v member p = undone-IsOnce v p
    after_fetch-IsOnce (err client_error) v member p = undone-IsOnce v p
    after_fetch-IsOnce (err e) v member p = pending-IsOnce v p

    resolve_member-IsOnce :
        (id : Option ℤ) (v : World)
        → IsPending v
        → IsOnce gone (resolve_member discord n today id v).1
    unfolding resolve_member
    resolve_member-IsOnce none v p = pending-IsOnce v p
    resolve_member-IsOnce (some member) v p =
        elim (Bool-cases (discord.get_member v.trace member)) [
          | inl cached ↦ rw cached (send_notice-IsOnce v member p)
          | inr miss ↦
              let outcome = discord.fetch_member v.trace member in
              rw miss (
                after_fetch-IsOnce outcome
                  (record v { trace = fetched n.id today member outcome ∷ v.trace }) member
                  (record { sent_is = p.sent_is; counts = unfold messages in p.counts }))
        ]

pub handle_member_notification-IsOnce :
    (discord : Discord) (n : MemberNotification) (today : Date) (gone : ℕ → Bool) (w : World)
    → gone n.id ≡ false
    → IsOnce gone w
    → IsOnce gone (handle_member_notification discord n today w).1
unfolding handle_member_notification mark_sent insert_row
handle_member_notification-IsOnce discord n today gone w there h =
    elim (Bool-cases (has_row n.id today w.notices.sent)) [
      | inl marked ↦ rw marked h
      | inr fresh ↦
          let v : World = record w {
            notices = record w.notices { sent = (n.id, today) ∷ w.notices.sent };
          } in
          rw fresh (
            resolve_member-IsOnce n today w.notices.sent fresh gone there discord
              (int_of n.target_discord_id) v (record { sent_is = refl; counts = h }))
    ]
