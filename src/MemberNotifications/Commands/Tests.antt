-- ===== src/MemberNotifications/Commands/Tests.antt =====
-- The theorems on the commands, applied to an empty table, an officer and a member who is none.
use rsl_mom_bot.Prelude.{
  ℕ, ◌-◌, ◌&&◌, ◌≡◌, refl, Bool, true, false, if◌then◌else◌, List, [], ◌∷◌, Option, none, some,
  filter, leb, ◌=ₛ◌,
}
use rsl_mom_bot.PyText.{codes}
use rsl_mom_bot.Date.{date}
use rsl_mom_bot.MemberNotifications.Models.{Db}
use rsl_mom_bot.MemberNotifications.Service.{is_valid_cadence, is_valid_discord_id, create, get}
use rsl_mom_bot.MemberNotifications.Service.Invariant.{IsValid}
use rsl_mom_bot.MemberNotifications.Commands.{
  Env, Command, created, details, ops_error, add, list, show, remove, parse_time, create_from,
  handle, run_command,
}
use rsl_mom_bot.MemberNotifications.Commands.Validity.{
  run_commands, is_officer_write, run_commands-IsValid,
}
use rsl_mom_bot.MemberNotifications.Commands.Creation.{show-add}

abbrev decimal : ℕ → Option ℕ
decimal c = if leb b'0' c && leb c b'9' then some (c - 48) else none

-- One date and one id are enough here.
abbrev env : Env
env = record {
  fromisoformat = λ text. if text =ₛ "2026-07-07" then some (date 2026 7 7) else none;
  str = λ id. "123";
  decimal = decimal;
  name_le = λ a b. a =ₛ b;
  violation = λ name. "UNIQUE constraint failed: member_notification.name";
}

abbrev empty : Db
empty = record { rows = []; sent = []; next_id = 1 }

empty-IsValid : IsValid empty
empty-IsValid = record { stored = tt; apart = tt; below = tt }

abbrev dues : Command
dues = add 123 "dues" "2026-07-07" "10:00" "weekly" "Pay"

-- A row, an attempt of another member to remove it, a listing and a time that is none.
abbrev commands : List (Bool × Command)
commands =
    (true, dues)
    ∷ (false, remove "dues")
    ∷ (true, list)
    ∷ (true, add 123 "fees" "2026-07-07" "24:00" "weekly" "Pay")
    ∷ []

run_commands-IsValid_example :
    IsValid (run_commands env commands empty)
    × (run_commands env commands empty ≡ run_commands env (filter is_officer_write commands) empty)
run_commands-IsValid_example = run_commands-IsValid env commands empty empty-IsValid

show-add_example :
    let (reply, db') = run_command env true dues empty in
    (reply ≡ created "dues" 123)
    × ((run_command env true (show "dues") db').0
        ≡ details (record {
          id = 1;
          name = "dues";
          target_discord_id = "123";
          anchor_date_utc = date 2026 7 7;
          fire_time_utc = 36000;
          cadence = "weekly";
          message_template = "Pay";
          enabled = true;
        }))
unfolding run_command handle parse_time is_valid_discord_id is_valid_cadence get
    rsl_mom_bot.PyText.int_of rsl_mom_bot.PyText.str_of
show-add_example =
    show-add env 123 "dues" "2026-07-07" "10:00" "weekly" "Pay" (date 2026 7 7) 36000 empty refl
      refl refl refl refl

-- There is no hour 24.
late : parse_time decimal (codes "24:00") ≡ none
unfolding parse_time
late = refl

-- An id that is not canonical is refused by the service, and answered as an internal error.
odd_id : (run_command (record env { str = λ id. "0123" }) true dues empty).0 ≡ ops_error
unfolding run_command handle parse_time create_from create is_valid_discord_id is_valid_cadence
    rsl_mom_bot.PyText.int_of rsl_mom_bot.PyText.str_of
odd_id = refl
