-- ===== src/Reminders/Scheduler/Effects.antt =====
-- What the scheduler reads and writes: the tables, the progress states, and Discord.
use rsl_mom_bot.Prelude.{ℕ, String, Bool, Option, List}
use rsl_mom_bot.Prelude.Exec.{Result}
use rsl_mom_bot.Prelude.Int.{ℤ}
use rsl_mom_bot.Date.{Date}
use rsl_mom_bot.Reminders.Models.{Reminder}
use rsl_mom_bot.Reminders.SentStore.{SentTable}
use rsl_mom_bot.MemberNotifications.Models.{Db}
use rsl_mom_bot.Health.Progress.{States}

-- A channel message: the role that it mentions, with `AllowedMentions(roles=True)`, and the text.
pub record Post : Type 0 where
  pub mention : Option ℕ
  pub text : String

-- The calls to Discord that can raise, each with its outcome. The first two fields say on whose
-- behalf the call was made: the id of the row and the date.
pub data Event : Type 0 where
  posted : ℕ → Date → ℕ → Post → Result (Unit {0}) → Event
  fetched : ℕ → Date → ℤ → Result (Unit {0}) → Event
  messaged : ℕ → Date → ℤ → String → Result (Unit {0}) → Event

-- discord.py, as the code sees it: each answer may depend on all that was called before, the latest
-- first. Nothing is assumed of it.
pub record Discord : Type 0 where
  pub get_channel : List Event → ℕ → Bool
  pub send : List Event → ℕ → Post → Result (Unit {0})
  pub get_member : List Event → ℤ → Bool
  pub fetch_member : List Event → ℤ → Result (Unit {0})
  pub send_dm : List Event → ℤ → String → Result (Unit {0})

pub record World : Type 0 where
  pub reminders : List Reminder
  pub reminder_sent : SentTable
  pub notices : Db
  pub trace : List Event
  pub progress : States
