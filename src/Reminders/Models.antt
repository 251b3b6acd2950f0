-- ===== src/Reminders/Models.antt =====
-- src/mom_bot/reminders/models.py: the table of reminders. `created_at` and `updated_at` are audit
-- columns, `delivery_target` is read by no code; all three are left out. A time of day is its
-- number of seconds since midnight.
use rsl_mom_bot.Prelude.{ℕ, String, Option}

pub record Reminder : Type 0 where
  pub id : ℕ
  pub name : String
  pub channel_id : ℕ
  pub weekday : ℕ
  pub fire_time_utc : ℕ
  pub message_template : String
  pub role_mention_id : Option ℕ
  pub month_condition : Option String
