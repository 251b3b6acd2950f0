-- ===== src/Health/Progress.antt =====
-- src/mom_bot/health/progress.py. The monotonic clock is a number of milliseconds, in place of a
-- float of seconds; the age in the answer is not rounded.
pub mod Endpoint
mod Tests
use rsl_mom_bot.Prelude.{
  ℕ, ◌-◌, Bool, true, false, not, ◌&&◌, leb, if◌then◌else◌, Option, none, some,
}

pub data SchedulerName : Type 0 where
  reminders auto_kick : SchedulerName

pub record Progress : Type 0 where
  pub running : Bool
  pub last_success : Option ℕ
  pub failed : Bool

-- `_states`.
pub record States : Type 0 where
  pub of_reminders : Progress
  pub of_auto_kick : Progress

abbrev pub never : Progress
never = record { running = false; last_success = none; failed = false }

abbrev pub initial : States
initial = record { of_reminders = never; of_auto_kick = never }

abbrev pub state_of : SchedulerName → States → Progress
state_of reminders s = s.of_reminders
state_of auto_kick s = s.of_auto_kick

abbrev set_state : SchedulerName → Progress → States → States
set_state reminders p s = record s { of_reminders = p }
set_state auto_kick p s = record s { of_auto_kick = p }

unfoldable pub started : SchedulerName → States → States
started name s = set_state name (record never { running = true }) s

unfoldable pub succeeded : ℕ → SchedulerName → States → States
succeeded now name s =
    set_state name (record (state_of name s) { last_success = some now; failed = false }) s

unfoldable pub failed : SchedulerName → States → States
failed name s = set_state name (record (state_of name s) { failed = true }) s

unfoldable pub stopped : SchedulerName → States → States
stopped name s = set_state name (record (state_of name s) { running = false }) s

pub data Status : Type 0 where
  is_stopped is_failed is_starting is_stale is_healthy : Status

abbrev pub progress_threshold : ℕ
progress_threshold = 180000

abbrev pub age_of : ℕ → Progress → Option ℕ
age_of now p = elim p.last_success [ none ↦ none | some t ↦ some (now - t) ]

-- The last two branches of the ladder in `snapshot`.
abbrev fresh_or_stale : Option ℕ → Status
fresh_or_stale none = is_starting
fresh_or_stale (some age) = if leb progress_threshold age then is_stale else is_healthy

unfoldable pub status : ℕ → Progress → Status
status now p =
    if not p.running
    then is_stopped
    else if p.failed
    then is_failed
    else fresh_or_stale (age_of now p)

abbrev pub is_ok : Status → Bool
is_ok is_healthy = true
is_ok _ = false

-- The answer of the endpoint: its HTTP status is 200 if `healthy`, else 503.
pub record Snapshot : Type 0 where
  pub healthy : Bool
  pub reminders_status : Status
  pub reminders_age : Option ℕ
  pub auto_kick_status : Status
  pub auto_kick_age : Option ℕ

unfoldable pub snapshot : ℕ → States → Snapshot
unfolding status
snapshot now s = record {
  healthy = is_ok (status now s.of_reminders) && is_ok (status now s.of_auto_kick);
  reminders_status = status now s.of_reminders;
  reminders_age = age_of now s.of_reminders;
  auto_kick_status = status now s.of_auto_kick;
  auto_kick_age = age_of now s.of_auto_kick;
}

unfoldable pub progress_handler : ℕ → States → ℕ
unfolding snapshot
progress_handler now s = if (snapshot now s).healthy then 200 else 503
