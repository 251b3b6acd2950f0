-- ===== src/NewMemberAlerts/Commands.antt =====
-- src/mom_bot/new_member_alerts/commands.py, with the gate of src/mom_bot/discord_authz.py. The
-- replies reach Discord, and the service raises nothing: it has no error of its own.
pub mod Wishes
mod Tests
use rsl_mom_bot.Prelude.{String, Bool, not, ◌||◌, ◌=ₛ◌, if◌then◌else◌, List, [], ◌∷◌}
use rsl_mom_bot.NewMemberAlerts.Service.{Subscription, set_subscription}

pub data Reply : Type 0 where
  officers_only invalid_state : Reply
  now : String → Reply

-- `/notify-new-members` as one user of a guild gives it; `manage_guild` is the user's permission.
pub record Command : Type 0 where
  pub manage_guild : Bool
  pub guild_id : String
  pub user_id : String
  pub state : String

-- `state in {"on", "off"}`.
abbrev pub is_state : String → Bool
is_state state = (state =ₛ "on") || (state =ₛ "off")

unfoldable pub notify_new_members : Command → List Subscription → Reply × List Subscription
notify_new_members c rows =
    if not c.manage_guild
    then (officers_only, rows)
    else if not (is_state c.state)
    then (invalid_state, rows)
    else (now c.state, set_subscription c.guild_id c.user_id (c.state =ₛ "on") rows)
