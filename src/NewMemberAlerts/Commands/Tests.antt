-- ===== src/NewMemberAlerts/Commands/Tests.antt =====
-- The theorem on the commands, applied to two officers and a member who is none.
use rsl_mom_bot.Prelude.{String, ◌≡◌, Bool, true, false, List, [], ◌∷◌}
use rsl_mom_bot.NewMemberAlerts.Service.{is_subscribed, list_subscriber_ids}
use rsl_mom_bot.NewMemberAlerts.Service.Laws.{contains_text}
use rsl_mom_bot.NewMemberAlerts.Commands.{Command}
use rsl_mom_bot.NewMemberAlerts.Commands.Wishes.{
  run_commands, last_wish, list_subscriber_ids-run_commands,
}

abbrev by : Bool → String → String → Command
by manage_guild user state = record {
  manage_guild = manage_guild;
  guild_id = "9";
  user_id = user;
  state = state;
}

abbrev commands : List Command
commands =
    by true "5" "on"
    ∷ by true "6" "on"
    ∷ by true "5" "maybe"
    ∷ by false "6" "off"
    ∷ by true "5" "off"
    ∷ []

list_subscriber_ids-run_commands_example :
    contains_text "6" (list_subscriber_ids "9" (run_commands commands [])) ≡ true
unfolding last_wish is_subscribed
list_subscriber_ids-run_commands_example = list_subscriber_ids-run_commands commands "9" "6" [] tt
