-- ===== src/Reminders/Seed/Rows.antt =====
-- Boots and migrations in any order: the rows are those of the source.
use rsl_mom_bot.Prelude.{
  ℕ, ◌≡◌, refl, String, Option, none, some, List, [], ◌∷◌, ◌++◌, All, All-append, In, inl, inr,
}
use rsl_mom_bot.Prelude.Int.{ℤ}
use rsl_mom_bot.Prelude.Exec.{Result, ok, err, continue}
use rsl_mom_bot.Reminders.Models.{Reminder}
use rsl_mom_bot.Reminders.Seed.{
  Bot, Guild, NewRow, base_rows, tank_week_rows, siege_rows, add_row, add_all, by_name,
  insert_missing, insert_all, commit_staged, seed_from, seed_siege_reminders,
  seed_tank_week_reminders, seed_guild, seed_empty, seed_found, after_secrets, maybe_seed_reminders,
}

abbrev pub seed_rows : List NewRow
seed_rows = base_rows ++ tank_week_rows ++ siege_rows

-- The condition and the weekday are those of a row of the source.
abbrev pub IsSeeded : Reminder → Type 0
IsSeeded r =
    (n : NewRow) × In n seed_rows
    × (r.month_condition ≡ n.month_condition)
    × (r.weekday ≡ n.weekday)

abbrev pub IsNew : NewRow → Type 0
IsNew n = In n seed_rows

add_row-IsSeeded :
    (bot : Bot) (channel : ℕ) (role : Option ℕ) (n : NewRow) (rows : List Reminder)
    → IsNew n
    → All IsSeeded rows
    → All IsSeeded (add_row bot channel role n rows)
unfolding add_row
add_row-IsSeeded bot channel role n rows new h =
    All-append IsSeeded rows _ h ((n, new, refl, refl), tt)

add_all-IsSeeded :
    (bot : Bot) (channel : ℕ) (role : Option ℕ) (new : List NewRow) (rows : List Reminder)
    → All IsNew new
    → All IsSeeded rows
    → All IsSeeded (add_all bot channel role new rows)
unfolding add_all
add_all-IsSeeded bot channel role [] rows news h = h
add_all-IsSeeded bot channel role (n ∷ new) rows (is_new, news) h =
    add_all-IsSeeded bot channel role new (add_row bot channel role n rows) news
      (add_row-IsSeeded bot channel role n rows is_new h)

insert_missing-IsSeeded :
    (bot : Bot) (hydra : Reminder) (n : NewRow) (found : Result (Option Reminder))
    (rows : List Reminder)
    → IsNew n
    → All IsSeeded rows
    → All IsSeeded (insert_missing bot hydra n found rows).1
insert_missing-IsSeeded bot hydra n (err e) rows new h = h
insert_missing-IsSeeded bot hydra n (ok (some r)) rows new h = h
insert_missing-IsSeeded bot hydra n (ok none) rows new h =
    add_row-IsSeeded bot hydra.channel_id hydra.role_mention_id n rows new h

continued-IsSeeded :
    (end : Result (Unit {0}) × List Reminder)
    (rest : List Reminder → Result (Unit {0}) × List Reminder)
    → All IsSeeded end.1
    → ((rows : List Reminder) → All IsSeeded rows → All IsSeeded (rest rows).1)
    → All IsSeeded (continue end.0 (λ _. rest) end.1).1
continued-IsSeeded (ok a, rows) rest h k = k rows h
continued-IsSeeded (err e, rows) rest h k = h

insert_all-IsSeeded :
    (bot : Bot) (hydra : Reminder) (new : List NewRow) (rows : List Reminder)
    → All IsNew new
    → All IsSeeded rows
    → All IsSeeded (insert_all bot hydra new rows).1
unfolding insert_all
insert_all-IsSeeded bot hydra [] rows news h = h
insert_all-IsSeeded bot hydra (n ∷ new) rows (is_new, news) h =
    let found = by_name n.name rows in
    continued-IsSeeded (insert_missing bot hydra n found rows) (insert_all bot hydra new)
      (insert_missing-IsSeeded bot hydra n found rows is_new h)
      λ next k. insert_all-IsSeeded bot hydra new next news k

commit_staged-IsSeeded :
    (before : List Reminder) (end : Result (Unit {0}) × List Reminder)
    → All IsSeeded before
    → All IsSeeded end.1
    → All IsSeeded (commit_staged before end).1
commit_staged-IsSeeded before (ok a, staged) h k = k
commit_staged-IsSeeded before (err e, staged) h k = h

seed_from-IsSeeded :
    (bot : Bot) (new : List NewRow) (found : Result (Option Reminder)) (rows : List Reminder)
    → All IsNew new
    → All IsSeeded rows
    → All IsSeeded (seed_from bot new found rows).1
seed_from-IsSeeded bot new (err e) rows news h = h
seed_from-IsSeeded bot new (ok none) rows news h = h
seed_from-IsSeeded bot new (ok (some hydra)) rows news h =
    commit_staged-IsSeeded rows (insert_all bot hydra new rows) h
      (insert_all-IsSeeded bot hydra new rows news h)

base_news : All IsNew base_rows
base_news = (inl refl, (inr (inl refl), tt))

tank_week_news : All IsNew tank_week_rows
tank_week_news = (inr (inr (inl refl)), (inr (inr (inr (inl refl))), tt))

siege_news : All IsNew siege_rows
siege_news = (inr (inr (inr (inr (inl refl)))), (inr (inr (inr (inr (inr (inl refl))))), tt))

seed_found-IsSeeded :
    (bot : Bot) (found : Result (ℕ × ℕ)) → All IsSeeded (seed_found bot found []).1
unfolding seed_found
seed_found-IsSeeded bot (err e) = tt
seed_found-IsSeeded bot (ok ids) =
    let later = All-append IsNew tank_week_rows siege_rows tank_week_news siege_news in
    add_all-IsSeeded bot ids.0 (some ids.1) seed_rows []
      (All-append IsNew base_rows (tank_week_rows ++ siege_rows) base_news later) tt

seed_guild-IsSeeded :
    (bot : Bot) (guild : Option Guild) (channel_name role_name : String)
    → All IsSeeded (seed_guild bot guild channel_name role_name []).1
unfolding seed_guild
seed_guild-IsSeeded bot none channel_name role_name = tt
seed_guild-IsSeeded bot (some guild) channel_name role_name = seed_found-IsSeeded bot _

after_secrets-IsSeeded :
    (bot : Bot) (secrets : Result (ℤ × String × String))
    → All IsSeeded (after_secrets bot secrets []).1
unfolding after_secrets
after_secrets-IsSeeded bot (err e) = tt
after_secrets-IsSeeded bot (ok (guild_id, channel_name, role_name)) =
    seed_guild-IsSeeded bot (bot.get_guild guild_id) channel_name role_name

-- A boot of the bot, and the two migrations.
pub data Seeding : Type 0 where
  boot migrate_tank_week migrate_siege : Seeding

unfoldable pub run_seeding : Bot → Seeding → List Reminder → List Reminder
unfolding maybe_seed_reminders seed_tank_week_reminders seed_siege_reminders
run_seeding bot boot rows = (maybe_seed_reminders bot rows).1
run_seeding bot migrate_tank_week rows = (seed_tank_week_reminders bot rows).1
run_seeding bot migrate_siege rows = (seed_siege_reminders bot rows).1

unfoldable pub run_seedings : Bot → List Seeding → List Reminder → List Reminder
unfolding run_seeding
run_seedings bot [] rows = rows
run_seedings bot (s ∷ seedings) rows = run_seedings bot seedings (run_seeding bot s rows)

run_seeding-IsSeeded :
    (bot : Bot) (s : Seeding) (rows : List Reminder)
    → All IsSeeded rows
    → All IsSeeded (run_seeding bot s rows)
unfolding run_seeding maybe_seed_reminders seed_empty seed_tank_week_reminders seed_siege_reminders
run_seeding-IsSeeded bot boot [] h = after_secrets-IsSeeded bot _
run_seeding-IsSeeded bot boot (r ∷ rows) h = h
run_seeding-IsSeeded bot migrate_tank_week rows h =
    seed_from-IsSeeded bot tank_week_rows (by_name "Hydra" rows) rows tank_week_news h
run_seeding-IsSeeded bot migrate_siege rows h =
    seed_from-IsSeeded bot siege_rows (by_name "Hydra" rows) rows siege_news h

-- Whatever the order of boots and migrations.
pub run_seedings-IsSeeded :
    (bot : Bot) (seedings : List Seeding) (rows : List Reminder)
    → All IsSeeded rows
    → All IsSeeded (run_seedings bot seedings rows)
unfolding run_seedings
run_seedings-IsSeeded bot [] rows h = h
run_seedings-IsSeeded bot (s ∷ seedings) rows h =
    run_seedings-IsSeeded bot seedings (run_seeding bot s rows) (run_seeding-IsSeeded bot s rows h)
