-- ===== src/MemberNotifications/Models.antt =====
-- src/mom_bot/member_notifications/models.py: the two tables. `created_at`, `updated_at` and
-- `sent_at` are audit columns that no code reads, and are left out. A time of day is its number of
-- seconds since midnight.
use rsl_mom_bot.Prelude.{ℕ, String, Bool, List}
use rsl_mom_bot.Date.{Date}
use rsl_mom_bot.Reminders.SentStore.{SentTable}

pub record MemberNotification : Type 0 where
  pub id : ℕ
  pub name : String
  pub target_discord_id : String
  pub anchor_date_utc : Date
  pub fire_time_utc : ℕ
  pub cadence : String
  pub message_template : String
  pub enabled : Bool

-- The rows of both tables, and the next key of the first.
pub record Db : Type 0 where
  pub rows : List MemberNotification
  pub sent : SentTable
  pub next_id : ℕ
