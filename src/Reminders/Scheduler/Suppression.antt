-- ===== src/Reminders/Scheduler/Suppression.antt =====
-- Which reminders a round sends, and that the end of a Tank Week replaces the plain reminder.
use rsl_mom_bot.Prelude.{
  ℕ, ◌≡◌, refl, Bool, true, false, not, ◌&&◌, if◌then◌else◌, arith, List, [], ◌∷◌, ◌++◌, ◌==◌, leb,
  Bool-cases, inl, inr, ◌⊎◌, ◌↔◌, In, In-filter, filter, any, some, ap,
}
use rsl_mom_bot.Prelude.Exec.{Result, ok, err, ◌>>=ᵣ◌}
use rsl_mom_bot.Date.{Date}
use rsl_mom_bot.Reminders.Calendar.{is_end_of_tank_date}
use rsl_mom_bot.Reminders.SentStore.{SentTable}
use rsl_mom_bot.Reminders.SentStore.ReminderSentStore.{was_sent}
use rsl_mom_bot.Reminders.Models.{Reminder}
use rsl_mom_bot.Reminders.Scheduler.Effects.{World}
use rsl_mom_bot.Reminders.Scheduler.Selection.{
  condition_holds, is_eligible, keep, ends_tank_week, same_slot, tank_end_rows, is_suppressed,
  survivors,
}

keep-head :
    (today : Date) (r x : Reminder) (xs rest kept : List Reminder) (holds : Bool)
    → condition_holds x.month_condition today ≡ ok holds
    → (In r rest ↔ (In r xs × (condition_holds r.month_condition today ≡ ok true)))
    → kept ≡ (if holds then x ∷ rest else rest)
    → In r kept ↔ (In r (x ∷ xs) × (condition_holds r.month_condition today ≡ ok true))
keep-head today r x xs rest kept true c ih e = rw e (
  elim [ inl m ↦ (inl m, rw m c) | inr m ↦ let (n, k) = ih.0 m in (inr n, k) ],
  λ (m, k). elim m [ inl n ↦ inl n | inr n ↦ inr (ih.1 (n, k)) ],
)
keep-head today r x xs rest kept false c ih e = rw e (
  λ m. let (n, k) = ih.0 m in (inr n, k),
  λ (m, k). elim m [
    | inl n ↦ cc (k, c, ap (λ (q : Reminder). condition_holds q.month_condition today) n)
    | inr n ↦ ih.1 (n, k)
  ],
)

-- The rows that step 2 keeps are those whose condition holds.
pub In-keep :
    (today : Date) (r : Reminder) (xs kept : List Reminder)
    → keep today xs ≡ ok kept
    → In r kept ↔ (In r xs × (condition_holds r.month_condition today ≡ ok true))
unfolding keep
In-keep today r [] [] h = (λ m. absurd m, λ m. absurd m.0)
In-keep today r [] (y ∷ ys) h = cc
In-keep today r (x ∷ xs) kept h =
    step (condition_holds x.month_condition today) (keep today xs) refl (In-keep today r xs) h
  where
    step :
        (c : Result Bool) (rest : Result (List Reminder))
        → condition_holds x.month_condition today ≡ c
        → ((l : List Reminder)
            → rest ≡ ok l
            → In r l ↔ (In r xs × (condition_holds r.month_condition today ≡ ok true)))
        → (c >>=ᵣ λ holds. rest >>=ᵣ λ l. ok (if holds then x ∷ l else l)) ≡ ok kept
        → In r kept ↔ (In r (x ∷ xs) × (condition_holds r.month_condition today ≡ ok true))
    step (err e) rest c ih k = cc
    step (ok b) (err e) c ih k = cc
    step (ok b) (ok l) c ih k = keep-head today r x xs l kept b c (ih l refl) (ground arith)

-- A list that holds an item passing the test.
pub In-any :
    (p : Reminder → Bool) (t : Reminder) (xs : List Reminder)
    → In t xs
    → p t ≡ true
    → any p xs ≡ true
In-any p t [] m h = absurd m
In-any p t (x ∷ xs) m h = elim m [
  | inl e ↦ ground (arith, ap p e)
  | inr n ↦ ground (arith, In-any p t xs n h)
]

In-append : (t : Reminder) (xs ys : List Reminder) → In t xs ⊎ In t ys → In t (xs ++ ys)
In-append t [] ys h = elim h [ inl m ↦ absurd m | inr m ↦ m ]
In-append t (x ∷ xs) ys h = elim h [
  | inl m ↦ elim m [ inl e ↦ inl e | inr n ↦ inr (In-append t xs ys (inl n)) ]
  | inr m ↦ inr (In-append t xs ys (inr m))
]

not-true : (b : Bool) → not b ≡ true → b ≡ false
not-true b h = ground arith

survivors-kept :
    (weekday now : ℕ) (today : Date) (w : World) (rs kept : List Reminder)
    → keep today (filter (is_eligible w.reminder_sent weekday now today) w.reminders) ≡ ok kept
    → survivors weekday now today w ≡ ok rs
    → rs ≡ filter (λ q. not (is_suppressed (tank_end_rows weekday today w kept) q)) kept
unfolding survivors
survivors-kept weekday now today w rs kept k h = ground arith

-- When step 2 succeeds, the rows that a round selects, by the tests of the code.
pub selected_iff :
    (weekday now : ℕ) (today : Date) (w : World) (rs kept : List Reminder) (r : Reminder)
    → keep today (filter (is_eligible w.reminder_sent weekday now today) w.reminders) ≡ ok kept
    → survivors weekday now today w ≡ ok rs
    → In r rs ↔ (
        In r w.reminders
        × (is_eligible w.reminder_sent weekday now today r ≡ true)
        × (condition_holds r.month_condition today ≡ ok true)
        × (is_suppressed (tank_end_rows weekday today w kept) r ≡ false))
selected_iff weekday now today w rs kept r k h =
    let ends = tank_end_rows weekday today w kept in
    let ready = In-filter (is_eligible w.reminder_sent weekday now today) r w.reminders in
    let fired = In-keep today r _ kept k in
    let chosen = In-filter (λ q. not (is_suppressed ends q)) r kept in
    rw (survivors-kept weekday now today w rs kept k h) (
      λ m.
          let (n, s) = chosen.0 m in
          let (q, c) = fired.0 n in let (v, g) = ready.0 q in (v, g, c, not-true _ s),
      λ (v, g, c, s). chosen.1 (fired.1 (ready.1 (v, g), c), rw s refl),
    )

-- Step 2 of a round that selected rows did not raise.
pub survivors-keep :
    (weekday now : ℕ) (today : Date) (w : World) (rs : List Reminder)
    → survivors weekday now today w ≡ ok rs
    → (kept : List Reminder) × (keep today
          (filter (is_eligible w.reminder_sent weekday now today) w.reminders)
        ≡ ok kept)
unfolding survivors
survivors-keep weekday now today w rs h =
    step (keep today (filter (is_eligible w.reminder_sent weekday now today) w.reminders)) h
  where
    step :
        (k : Result (List Reminder))
        → (k >>=ᵣ λ kept.
            ok (filter (λ r. not (is_suppressed (tank_end_rows weekday today w kept) r)) kept))
          ≡ ok rs
        → (kept : List Reminder) × (k ≡ ok kept)
    step (ok kept) e = (kept, refl)
    step (err e) x = cc

-- An end of Tank Week row of this weekday, whose time has come, is among the rows of step 3.
pub In-tank_end_rows :
    (weekday now : ℕ) (today : Date) (w : World) (kept : List Reminder) (t : Reminder)
    → keep today (filter (is_eligible w.reminder_sent weekday now today) w.reminders) ≡ ok kept
    → is_end_of_tank_date today ≡ true
    → In t w.reminders
    → t.month_condition ≡ some "tank_week_end"
    → t.weekday == weekday ≡ true
    → leb t.fire_time_utc now ≡ true
    → In t (tank_end_rows weekday today w kept)
unfolding tank_end_rows condition_holds
In-tank_end_rows weekday now today w kept t k end m ct day due =
    elim (Bool-cases (was_sent t.id today w.reminder_sent)) [
      | inl sent ↦ In-append t (filter ends_tank_week kept) _ (
          inr (
            rw end (
              (In-filter
                  (λ q.
                    was_sent q.id today w.reminder_sent
                    && ends_tank_week q
                    && (q.weekday == weekday))
                  t w.reminders).1
                (m, rw (sent, ct) day))))
      | inr fresh ↦ In-append t _ _ (
          inl (
            (In-filter ends_tank_week t kept).1 (
              (In-keep today t _ kept k).1 (
                (In-filter (is_eligible w.reminder_sent weekday now today) t w.reminders).1
                    (m, rw (day, due, fresh) refl),
                rw (ct, end) refl,
              ),
              rw ct refl,
            )))
    ]

-- A row in the slot of an eligible row is of the same weekday, and its time has come.
pub same_slot-day :
    (sent : SentTable) (weekday now : ℕ) (today : Date) (r t : Reminder)
    → is_eligible sent weekday now today r ≡ true
    → same_slot r t ≡ true
    → t.weekday == weekday ≡ true
same_slot-day sent weekday now today r t g s = ground arith

pub same_slot-due :
    (sent : SentTable) (weekday now : ℕ) (today : Date) (r t : Reminder)
    → is_eligible sent weekday now today r ≡ true
    → same_slot r t ≡ true
    → leb t.fire_time_utc now ≡ true
same_slot-due sent weekday now today r t g s = ground arith
