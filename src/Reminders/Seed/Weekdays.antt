-- ===== src/Reminders/Seed/Weekdays.antt =====
-- The weekdays of the seeded rows against the calendar of their month conditions.
use rsl_mom_bot.Prelude.{
  ◌+◌, ◌%◌, ◌≡◌, sym, ◌∙◌, String, Bool, true, false, ◌==◌, some, List, [], ◌∷◌, All, In, arith,
  ==→eq, Bool-cases, inl, inr,
}
use rsl_mom_bot.Prelude.Exec.{ok}
use rsl_mom_bot.Date.{Date, weekday}
use rsl_mom_bot.Reminders.Calendar.{
  siege_offset, is_end_of_tank_date, is_tank_week_headsup_date, is_siege_48h_headsup_date,
  is_siege_24h_headsup_date,
}
use rsl_mom_bot.Reminders.Calendar.Siege.{siege_offset-eq}
use rsl_mom_bot.Reminders.Models.{Reminder}
use rsl_mom_bot.Reminders.Scheduler.Selection.{condition_holds}
use rsl_mom_bot.Reminders.Seed.Rows.{
  seed_rows, IsSeeded, Seeding, run_seedings, run_seedings-IsSeeded,
}
use rsl_mom_bot.Reminders.Seed.{Bot, NewRow}

-- The Siege began on a Tuesday.
weekday-siege_offset : (today : Date) → weekday today ≡ (siege_offset today + 1) % 7
unfolding weekday
weekday-siege_offset today = omega (arith, siege_offset-eq today)

is_siege_48h-weekday : (today : Date) → is_siege_48h_headsup_date today ≡ true → weekday today ≡ 6
unfolding is_siege_48h_headsup_date
is_siege_48h-weekday today h =
    omega (arith, weekday-siege_offset today, ==→eq (siege_offset today) 12 h)

is_siege_24h-weekday : (today : Date) → is_siege_24h_headsup_date today ≡ true → weekday today ≡ 0
unfolding is_siege_24h_headsup_date
is_siege_24h-weekday today h =
    omega (arith, weekday-siege_offset today, ==→eq (siege_offset today) 13 h)

is_end_of_tank-weekday : (today : Date) → is_end_of_tank_date today ≡ true → weekday today ≡ 1
unfolding is_end_of_tank_date
is_end_of_tank-weekday today h = ground arith

is_tank_week_headsup-weekday :
    (today : Date) → is_tank_week_headsup_date today ≡ ok true → weekday today ≡ 1
unfolding is_tank_week_headsup_date
is_tank_week_headsup-weekday today h = elim (Bool-cases (weekday today == 1)) [
  | inl t ↦ ==→eq (weekday today) 1 t
  | inr f ↦ let never : ok false ≡ ok true = rw (f, is_tank_week_headsup_date) at h in cc
]

In-All : {A : Type 0} (P : A → Type 0) (a : A) (xs : List A) → All P xs → In a xs → P a
In-All P a [] h m = absurd m
In-All P a (x ∷ xs) (h, hs) (inl e) = rw e h
In-All P a (x ∷ xs) (h, hs) (inr m) = In-All P a xs hs m

-- The condition holds only on dates of the weekday of the row.
abbrev IsPlaced : Date → NewRow → Type 0
IsPlaced today n =
    (cond : String)
    → n.month_condition ≡ some cond
    → condition_holds (some cond) today ≡ ok true
    → weekday today ≡ n.weekday

seed_rows-IsPlaced : (today : Date) → All (IsPlaced today) seed_rows
unfolding condition_holds
seed_rows-IsPlaced today =
    let given : (name cond : String) → some name ≡ some cond → cond ≡ name = λ name cond e. cc in
    (
      λ cond e. cc,
      (
        λ cond e. cc,
        (
          λ cond e h.
              is_tank_week_headsup-weekday today (rw (given "tank_week_headsup" cond e) at h),
          (
            λ cond e h.
                is_end_of_tank-weekday today (ok_inj (rw (given "tank_week_end" cond e) at h)),
            (
              λ cond e h.
                  is_siege_48h-weekday today (ok_inj (rw (given "siege_48h_headsup" cond e) at h)),
              (
                λ cond e h.
                    is_siege_24h-weekday today
                      (ok_inj (rw (given "siege_24h_headsup" cond e) at h)),
                tt,
              ),
            ),
          ),
        ),
      ),
    )
  where
    ok_inj : {b : Bool} → ok b ≡ ok true → b ≡ true
    ok_inj h = cc

-- After any boots and migrations from the empty table, whatever the secrets and the guilds are, the
-- month condition of a reminder holds only on dates of the weekday that its row stands on.
pub seeded_weekdays :
    (bot : Bot) (seedings : List Seeding) (r : Reminder) (cond : String) (today : Date)
    → In r (run_seedings bot seedings [])
    → r.month_condition ≡ some cond
    → condition_holds r.month_condition today ≡ ok true
    → weekday today ≡ r.weekday
seeded_weekdays bot seedings r cond today m e h =
    let rows = run_seedings bot seedings [] in
    let (n, new, same_cond, same_day) =
      In-All IsSeeded r rows (run_seedings-IsSeeded bot seedings [] tt) m in
    let placed = In-All (IsPlaced today) n seed_rows (seed_rows-IsPlaced today) new in
    placed cond (sym same_cond ∙ e) (rw e at h) ∙ sym same_day
