-- ===== src/Reminders/Scheduler/Selected.antt =====
-- Which rows a round selects, in words of the table and the calendar.
use rsl_mom_bot.Prelude.{
  ℕ, ◌≤◌, String, Option, none, some, eq_iff, ◌=ₛ◌, ◌==◌, ◌≡◌, ◌↔◌, ◌⊎◌, refl, Bool, true, false,
  ◌&&◌, arith, List, [], ◌∷◌, ◌++◌, Bool-cases, Option-cases, inl, inr, In, In-filter, filter, any,
}
use rsl_mom_bot.Prelude.Exec.{ok}
use rsl_mom_bot.Date.{Date}
use rsl_mom_bot.Reminders.Calendar.{
  is_end_of_tank_date, is_tank_week_headsup_date, is_siege_48h_headsup_date,
  is_siege_24h_headsup_date,
}
use rsl_mom_bot.Reminders.SentStore.ReminderSentStore.{was_sent}
use rsl_mom_bot.Reminders.Models.{Reminder}
use rsl_mom_bot.Reminders.Scheduler.Effects.{World}
use rsl_mom_bot.Reminders.Scheduler.Selection.{
  condition_holds, is_eligible, keep, ends_tank_week, same_slot, tank_end_rows, is_suppressed,
  survivors,
}
use rsl_mom_bot.Reminders.Scheduler.Suppression.{
  In-keep, In-any, In-tank_end_rows, same_slot-day, same_slot-due, selected_iff, survivors-keep,
}

-- When a month condition holds on a date.
abbrev pub Fires : Option String → Date → Type 0
Fires none today = Unit
Fires (some cond) today =
    ((cond ≡ "tank_week_headsup") × (is_tank_week_headsup_date today ≡ ok true))
    ⊎ ((cond ≡ "tank_week_end") × (is_end_of_tank_date today ≡ true))
    ⊎ ((cond ≡ "siege_48h_headsup") × (is_siege_48h_headsup_date today ≡ true))
    ⊎ ((cond ≡ "siege_24h_headsup") × (is_siege_24h_headsup_date today ≡ true))

condition-Fires :
    (cond : Option String) (today : Date) → condition_holds cond today ≡ ok true → Fires cond today
unfolding condition_holds
condition-Fires none today h = tt
condition-Fires (some cond) today h = elim (Bool-cases (cond =ₛ "tank_week_headsup")) [
  | inl a ↦ inl ((eq_iff cond "tank_week_headsup").0 a, rw a at h)
  | inr a ↦ elim (Bool-cases (cond =ₛ "tank_week_end")) [
    | inl b ↦ inr (inl ((eq_iff cond "tank_week_end").0 b, from_ok_true _ (rw (a, b) at h)))
    | inr b ↦ elim (Bool-cases (cond =ₛ "siege_48h_headsup")) [
      | inl c ↦
          inr
            (inr (inl ((eq_iff cond "siege_48h_headsup").0 c, from_ok_true _ (rw (a, b, c) at h))))
      | inr c ↦ elim (Bool-cases (cond =ₛ "siege_24h_headsup")) [
        | inl d ↦ inr (
            inr
              (inr ((eq_iff cond "siege_24h_headsup").0 d, from_ok_true _ (rw (a, b, c, d) at h))))
        | inr d ↦ cc (from_ok_true false (rw (a, b, c, d) at h))
      ]
    ]
  ]
]
  where
    from_ok_true : (b : Bool) → ok b ≡ ok true → b ≡ true
    from_ok_true b e = cc

Fires-holds :
    (cond : Option String) (today : Date) → Fires cond today → condition_holds cond today ≡ ok true
unfolding condition_holds
Fires-holds none today h = refl
Fires-holds (some cond) today (inl (c, h)) = rw (c, h) refl
Fires-holds (some cond) today (inr (inl (c, h))) = rw (c, h) refl
Fires-holds (some cond) today (inr (inr (inl (c, h)))) = rw (c, h) refl
Fires-holds (some cond) today (inr (inr (inr (c, h)))) = rw (c, h) refl

-- The date ends a Tank Week, and some row for that has the channel, weekday and time of the row,
-- which has no month condition.
abbrev pub IsReplaced : Date → List Reminder → Reminder → Type 0
IsReplaced today rows r =
    (r.month_condition ≡ none)
    × (is_end_of_tank_date today ≡ true)
    × ((t : Reminder) × In t rows
        × (t.month_condition ≡ some "tank_week_end")
        × (t.channel_id ≡ r.channel_id)
        × (t.weekday ≡ r.weekday)
        × (t.fire_time_utc ≡ r.fire_time_utc))

In-either : (t : Reminder) (xs ys : List Reminder) → In t (xs ++ ys) → In t xs ⊎ In t ys
In-either t [] ys m = inr m
In-either t (x ∷ xs) ys (inl e) = inl (inl e)
In-either t (x ∷ xs) ys (inr m) = elim (In-either t xs ys m) [ inl n ↦ inl (inr n) | inr n ↦ inr n ]

any-In :
    (p : Reminder → Bool) (xs : List Reminder)
    → any p xs ≡ true
    → (t : Reminder) × In t xs × (p t ≡ true)
any-In p [] h = cc
any-In p (x ∷ xs) h = elim (Bool-cases (p x)) [
  | inl e ↦ (x, inl refl, e)
  | inr e ↦ let (t, m, k) = any-In p xs (rw e at h) in (t, inr m, k)
]

ending_condition :
    (t : Reminder) → ends_tank_week t ≡ true → t.month_condition ≡ some "tank_week_end"
ending_condition t h = elim (Option-cases t.month_condition) [
  | inl e ↦ cc (rw e at h)
  | inr (cond, e) ↦
      let same : cond ≡ "tank_week_end" = (eq_iff cond "tank_week_end").0 (rw e at h) in
      rw same at e
]

-- The rows of step 3 are rows of the table for the end of a Tank Week, and the date is one.
tank_end_rows-In :
    (weekday now : ℕ) (today : Date) (w : World) (kept : List Reminder) (t : Reminder)
    → keep today (filter (is_eligible w.reminder_sent weekday now today) w.reminders) ≡ ok kept
    → In t (tank_end_rows weekday today w kept)
    → In t w.reminders
      × (t.month_condition ≡ some "tank_week_end")
      × (is_end_of_tank_date today ≡ true)
unfolding tank_end_rows
tank_end_rows-In weekday now today w kept t k m = elim (Bool-cases (is_end_of_tank_date today)) [
  | inl end ↦ elim (In-either t (filter ends_tank_week kept) _ m) [
    | inl a ↦ from_kept a
    | inr b ↦
        let sent_now : Reminder → Bool =
          λ r. was_sent r.id today w.reminder_sent && ends_tank_week r && (r.weekday == weekday) in
        let (there, passes) = (In-filter sent_now t w.reminders).0 (rw end at b) in
        (there, ending_condition t (ground arith), end)
  ]
  | inr no_end ↦ elim (In-either t (filter ends_tank_week kept) _ m) [
    | inl a ↦ from_kept a
    | inr b ↦ absurd (rw no_end at b)
  ]
]
  where
    end_of_week : Fires (some "tank_week_end") today → is_end_of_tank_date today ≡ true
    end_of_week (inl (c, h)) = cc
    end_of_week (inr (inl (c, h))) = h
    end_of_week (inr (inr (inl (c, h)))) = cc
    end_of_week (inr (inr (inr (c, h)))) = cc

    from_kept :
        In t (filter ends_tank_week kept)
        → In t w.reminders
          × (t.month_condition ≡ some "tank_week_end")
          × (is_end_of_tank_date today ≡ true)
    from_kept a =
        let (n, ends) = (In-filter ends_tank_week t kept).0 a in
        let (q, holds) = (In-keep today t _ kept k).0 n in
        let (there, eligible) =
          (In-filter (is_eligible w.reminder_sent weekday now today) t w.reminders).0 q in
        let c = ending_condition t ends in
        let fires : Fires t.month_condition today = condition-Fires t.month_condition today holds in
        (there, c, end_of_week (rw c at fires))

eligible_iff :
    (weekday now : ℕ) (today : Date) (w : World) (r : Reminder)
    → (is_eligible w.reminder_sent weekday now today r ≡ true) ↔ (
        (r.weekday ≡ weekday)
        × (r.fire_time_utc ≤ now)
        × (was_sent r.id today w.reminder_sent ≡ false))
eligible_iff weekday now today w r =
    (λ h. (ground arith, ground arith, ground arith), λ (d, t, f). ground arith)

slot_iff :
    (r t : Reminder)
    → (same_slot r t ≡ true) ↔ (
        (t.channel_id ≡ r.channel_id)
        × (t.weekday ≡ r.weekday)
        × (t.fire_time_utc ≡ r.fire_time_utc))
slot_iff r t = (λ h. (ground arith, ground arith, ground arith), λ (c, d, f). ground arith)

suppressed_iff :
    (weekday now : ℕ) (today : Date) (w : World) (kept : List Reminder) (r : Reminder)
    → keep today (filter (is_eligible w.reminder_sent weekday now today) w.reminders) ≡ ok kept
    → is_eligible w.reminder_sent weekday now today r ≡ true
    → (is_suppressed (tank_end_rows weekday today w kept) r ≡ true) ↔ IsReplaced today w.reminders r
suppressed_iff weekday now today w kept r k g =
    let ends = tank_end_rows weekday today w kept in
    (
      λ h. elim (Option-cases r.month_condition) [
        | inl plain ↦
            let (t, m, slot) = any-In (same_slot r) ends (rw plain at h) in
            let (there, c, end) = tank_end_rows-In weekday now today w kept t k m in
            let (channel, of_day, at_time) = (slot_iff r t).0 slot in
            (plain, end, (t, there, c, channel, of_day, at_time))
        | inr (cond, e) ↦ cc (rw e at h)
      ],
      λ (plain, end, found).
          let (t, there, c, channel, of_day, at_time) = found in
          let slot = (slot_iff r t).1 (channel, of_day, at_time) in
          let day = same_slot-day w.reminder_sent weekday now today r t g slot in
          let due = same_slot-due w.reminder_sent weekday now today r t g slot in
          let row = In-tank_end_rows weekday now today w kept t k end there c day due in
          rw (plain, In-any (same_slot r) t ends row slot) refl,
    )

-- Where a round selects rows, it selects exactly those of the table for its weekday whose time has
-- come, without a sent row for the date, whose month condition holds on the date, and that are not
-- replaced: on the last day of a Tank Week a row without a month condition is, if some row for that
-- day has its channel, weekday and time.
pub survivors_iff :
    (weekday now : ℕ) (today : Date) (w : World) (rs : List Reminder) (r : Reminder)
    → survivors weekday now today w ≡ ok rs
    → In r rs ↔ (
        In r w.reminders
        × (r.weekday ≡ weekday)
        × (r.fire_time_utc ≤ now)
        × (was_sent r.id today w.reminder_sent ≡ false)
        × Fires r.month_condition today
        × (¬ IsReplaced today w.reminders r))
survivors_iff weekday now today w rs r h =
    let (kept, k) = survivors-keep weekday now today w rs h in
    let chosen = selected_iff weekday now today w rs kept r k h in
    let eligible = eligible_iff weekday now today w r in
    (
      λ m.
          let (there, g, c, s) = chosen.0 m in
          let (d, t, f) = eligible.0 g in
          let replaced = suppressed_iff weekday now today w kept r k g in
          (there, d, t, f, condition-Fires r.month_condition today c, λ x. cc (replaced.1 x, s)),
      λ (there, d, t, f, fires, n).
          let g = eligible.1 (d, t, f) in
          let replaced = suppressed_iff weekday now today w kept r k g in
          chosen.1 (
            there,
            g,
            Fires-holds r.month_condition today fires,
            elim (Bool-cases (is_suppressed (tank_end_rows weekday today w kept) r)) [
              | inl t' ↦ absurd (n (replaced.0 t'))
              | inr f' ↦ f'
            ],
          ),
    )
