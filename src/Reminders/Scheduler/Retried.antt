-- ===== src/Reminders/Scheduler/Retried.antt =====
-- When a reminder stays unmarked after the handler, over all branches of it.
use rsl_mom_bot.Prelude.{
  ℕ, ◌≤◌, ◌≡◌, ◌↔◌, ◌⊎◌, refl, sym, ap, ◌∙◌, true, false, not, if◌then◌else◌, ◌&&◌, arith, ◌∷◌,
  Bool-cases, inl, inr,
}
use rsl_mom_bot.Prelude.Exec.{
  Error, Result, ok, err, timeout_error, rate_limited, client_error, http_exception, cancelled,
}
use rsl_mom_bot.Date.{Date}
use rsl_mom_bot.Reminders.SentStore.{has_row}
use rsl_mom_bot.Reminders.SentStore.Laws.{has_row-cons, is_row_self}
use rsl_mom_bot.Reminders.SentStore.ReminderSentStore.{was_sent}
use rsl_mom_bot.Reminders.Models.{Reminder}
use rsl_mom_bot.Reminders.Scheduler.Effects.{World, Discord, posted}
use rsl_mom_bot.Reminders.Scheduler.Handlers.{is_transient, handle_reminder, post_of}
use rsl_mom_bot.Reminders.Scheduler.Delivery.{
  claims, passed_on, after_sending, handle_reminder-sends, handle_reminder_marked,
  handle_reminder_no_channel,
}

-- A timeout, a rate limit, a connection error, or an answer with a status of 500 or more.
abbrev pub IsTransient : Error → Type 0
IsTransient e =
    (e ≡ timeout_error)
    ⊎ (e ≡ rate_limited)
    ⊎ (e ≡ client_error)
    ⊎ ((status : ℕ) × (e ≡ http_exception status) × (500 ≤ status))

IsTransient-true : (e : Error) → IsTransient e → is_transient e ≡ true
unfolding is_transient
IsTransient-true e (inl h) = rw h refl
IsTransient-true e (inr (inl h)) = rw h refl
IsTransient-true e (inr (inr (inl h))) = rw h refl
IsTransient-true e (inr (inr (inr (status, h, n)))) = rw h (ground arith)

error-IsTransient : (e : Error) → is_transient e ≡ true → IsTransient e
unfolding is_transient
error-IsTransient timeout_error h = inl refl
error-IsTransient rate_limited h = inr (inl refl)
error-IsTransient client_error h = inr (inr (inl refl))
error-IsTransient (http_exception status) h = inr (inr (inr (status, refl, ground arith)))
error-IsTransient e h = cc

-- An error that the handler lets through.
abbrev pub IsRaised : Error → Type 0
IsRaised e = IsTransient e ⊎ (e ≡ cancelled)

raised_is_known :
    (x e : Error)
    → (if◌then◌else◌ {A = Result (Unit {0})} (is_transient x) (err x) (ok tt)) ≡ err e
    → (x ≡ e) × (is_transient e ≡ true)
raised_is_known x e h = elim (Bool-cases (is_transient x)) [
  | inl t ↦ let same : x ≡ e = ground (arith, t) in (same, rw (sym same) t)
  | inr f ↦ ground (arith, f)
]

passed_on_iff :
    (outcome : Result (Unit {0})) (e : Error)
    → (passed_on outcome ≡ err e) ↔ ((outcome ≡ err e) × IsRaised e)
passed_on_iff (ok _) e = (λ h. cc, λ h. cc (h.0))
passed_on_iff (err cancelled) e = (λ h. (h, inr cc), λ h. h.0)
passed_on_iff (err x) e = (
  λ h. let (same, t) = raised_is_known x e h in (rw same refl, inl (error-IsTransient e t)),
  λ (h, raised).
      let same : x ≡ e = cc in
      elim raised [
        | inl t ↦
            let k : is_transient x ≡ true = ap is_transient same ∙ IsTransient-true e t in rw k h
        | inr c ↦ cc
      ],
)

claims_iff :
    (outcome : Result (Unit {0}))
    → (claims outcome ≡ false) ↔ ((e : Error) × (outcome ≡ err e) × IsTransient e)
claims_iff (ok _) = (λ h. cc, λ (e, h, t). cc)
claims_iff (err x) = (
  λ h. (x, refl, error-IsTransient x (ground arith)),
  λ (e, h, t).
      let same : x ≡ e = cc in let true_there = IsTransient-true e t in rw (same, true_there) refl,
)

-- The row of a reminder, once its send has ended.
claimed_row :
    (r : Reminder) (today : Date) (w : World) (outcome : Result (Unit {0}))
    → has_row r.id today w.reminder_sent ≡ false
    → has_row r.id today (after_sending r today w outcome).reminder_sent ≡ claims outcome
claimed_row r today w outcome fresh =
    ground (arith, has_row-cons r.id r.id today today w.reminder_sent, is_row_self r.id today)

-- What the handler did, of a reminder with or without its sent row, in a channel that is known or
-- not.
abbrev pub IsHandled : Discord → Reminder → Date → World → Result (Unit {0}) × World → Type 0
IsHandled discord r today w (result, v) =
    let fresh = not (was_sent r.id today w.reminder_sent) in
    let calls = fresh && discord.get_channel w.trace r.channel_id in
    let outcome = discord.send w.trace r.channel_id (post_of r) in
    (v.trace
      ≡ (if calls then posted r.id today r.channel_id (post_of r) outcome ∷ w.trace else w.trace))
    × ((was_sent r.id today v.reminder_sent ≡ false)
        ↔ ((calls ≡ true) × ((e : Error) × (outcome ≡ err e) × IsTransient e)))
    × ((e : Error) → (result ≡ err e) ↔ ((calls ≡ true) × (outcome ≡ err e) × IsRaised e))

-- The handler calls Discord exactly if the reminder has no sent row for the date and its channel is
-- known, with one send of the reminder's post. The reminder has no sent row afterwards exactly if
-- that send was made and ended in a timeout, a rate limit, a connection error or a status of 500 or
-- more; and these errors and a cancellation are all that it raises.
pub handle_reminder-IsHandled :
    (discord : Discord) (r : Reminder) (today : Date) (w : World)
    → IsHandled discord r today w (handle_reminder discord r today w)
unfolding was_sent
handle_reminder-IsHandled discord r today w =
    elim (Bool-cases (has_row r.id today w.reminder_sent)) [
      | inl marked ↦
          rw (handle_reminder_marked discord r today w marked, marked)
            (refl, (λ h. cc, λ h. cc (h.0)), λ e. (λ h. cc, λ h. cc (h.0)))
      | inr fresh ↦ elim (Bool-cases (discord.get_channel w.trace r.channel_id)) [
        | inr unknown ↦
            let row : has_row r.id today ((r.id, today) ∷ w.reminder_sent) ≡ true =
              ground (
                arith,
                has_row-cons r.id r.id today today w.reminder_sent,
                is_row_self r.id today,
              ) in
            rw (handle_reminder_no_channel discord r today w fresh unknown, fresh, unknown, row)
              (refl, (λ h. cc, λ h. cc (h.0)), λ e. (λ h. cc, λ h. cc (h.0)))
        | inl known ↦
            let outcome = discord.send w.trace r.channel_id (post_of r) in
            let row = claimed_row r today w outcome fresh in
            rw (handle_reminder-sends discord r today w fresh known, fresh, known, row)
              (
                refl,
                (λ h. (refl, (claims_iff outcome).0 h), λ (_, h). (claims_iff outcome).1 h),
                λ e. (
                  λ h. (let (o, x) = (passed_on_iff outcome e).0 h in (refl, o, x)),
                  λ (_, o, x). (passed_on_iff outcome e).1 (o, x),
                ),
              )
      ]
    ]
