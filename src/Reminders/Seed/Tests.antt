-- ===== src/Reminders/Seed/Tests.antt =====
-- The theorems on the seeding, applied to a guild with the channel and the role of the secrets.
use rsl_mom_bot.Prelude.{
  suc, ◌≡◌, refl, String, ◌=ₛ◌, if◌then◌else◌, none, some, List, [], ◌∷◌, length, inr, inl,
}
use rsl_mom_bot.Prelude.Exec.{Result, ok}
use rsl_mom_bot.Date.{Date, date, weekday}
use rsl_mom_bot.Reminders.Models.{Reminder}
use rsl_mom_bot.Reminders.Seed.{
  Bot, Guild, hydra_template, siege_48h_headsup_template, maybe_seed_reminders,
}
use rsl_mom_bot.Reminders.Seed.Rows.{migrate_siege, boot, run_seedings}
use rsl_mom_bot.Reminders.Seed.Weekdays.{seeded_weekdays}
use rsl_mom_bot.Reminders.Seed.Again.{siege, migrate, migrate_again}

abbrev guild : Guild
guild = record {
  text_channels = record { id = 5; name = "reminders" } ∷ [];
  roles = record { id = 6; name = "Member" } ∷ [];
}

abbrev secret : String → Result String
secret asked =
    if asked =ₛ "guild-id"
    then ok "42"
    else if asked =ₛ "reminder-channel-name"
    then ok "reminders"
    else ok "Member"

abbrev bot : Bot
bot = record {
  load_secret = secret;
  get_guild = λ id. some guild;
  next_id = λ rows. suc (length rows);
}

-- A table of before the Siege rows.
abbrev hydra : Reminder
hydra = record {
  id = 1;
  name = "Hydra";
  channel_id = 5;
  weekday = 1;
  fire_time_utc = 25200;
  message_template = hydra_template;
  role_mention_id = some 6;
  month_condition = none;
}

abbrev headsup : Reminder
headsup = record {
  id = 5;
  name = "Siege 48h Heads-up";
  channel_id = 5;
  weekday = 6;
  fire_time_utc = 36000;
  message_template = siege_48h_headsup_template;
  role_mention_id = some 6;
  month_condition = some "siege_48h_headsup";
}

abbrev seeded : List Reminder
seeded = (maybe_seed_reminders bot []).1

abbrev migrated : List Reminder
migrated = (migrate siege bot (hydra ∷ [])).1

two_rows_more : length migrated ≡ 3
unfolding migrate
two_rows_more = refl

seeded_weekdays_example : weekday (date 2026 7 19) ≡ 6
unfolding run_seedings rsl_mom_bot.Reminders.Scheduler.Selection.condition_holds
    rsl_mom_bot.Reminders.Calendar.is_siege_48h_headsup_date rsl_mom_bot.Date.days_between
    rsl_mom_bot.Date.to_ordinal rsl_mom_bot.Date.days_before_year rsl_mom_bot.Date.days_before_month
    rsl_mom_bot.Date.days_in_month
seeded_weekdays_example =
    seeded_weekdays bot (boot ∷ migrate_siege ∷ []) headsup "siege_48h_headsup" (date 2026 7 19)
      (inr (inr (inr (inr (inl refl))))) refl refl

migrate_again_example : migrate siege bot migrated ≡ (ok tt, migrated)
unfolding migrate
migrate_again_example = migrate_again siege bot bot (hydra ∷ []) migrated refl
