-- ===== src/NewMemberAlerts/Commands/Wishes.antt =====
-- Whom the listing names after the commands of several users.
use rsl_mom_bot.Prelude.{
  String, ◌≡◌, refl, ◌∙◌, Bool, ◌&&◌, ◌=ₛ◌, if◌then◌else◌, List, [], ◌∷◌, arith,
}
use rsl_mom_bot.NewMemberAlerts.Service.{Subscription, is_subscribed, list_subscriber_ids}
use rsl_mom_bot.NewMemberAlerts.Service.Laws.{
  IsUnique, same_officer, is_subscribed-set_subscription, set_subscription-IsUnique, contains_text,
  list_subscriber_ids-is_subscribed,
}
use rsl_mom_bot.NewMemberAlerts.Commands.{Command, is_state, notify_new_members}

unfoldable pub run_commands : List Command → List Subscription → List Subscription
unfolding notify_new_members
run_commands [] rows = rows
run_commands (c ∷ cs) rows = run_commands cs (notify_new_members c rows).1

-- A command that counts for a member of a guild.
abbrev pub is_wish : String → String → Command → Bool
is_wish g u c = c.manage_guild && is_state c.state && same_officer c.guild_id c.user_id g u

-- What the last such command said, or what was before it.
unfoldable pub last_wish : String → String → List Command → Bool → Bool
last_wish g u [] before = before
last_wish g u (c ∷ cs) before = last_wish g u cs (if is_wish g u c then c.state =ₛ "on" else before)

notify-IsUnique :
    (c : Command) (rows : List Subscription)
    → IsUnique rows
    → IsUnique (notify_new_members c rows).1
unfolding notify_new_members
notify-IsUnique c rows i =
    ground (arith, set_subscription-IsUnique c.guild_id c.user_id (c.state =ₛ "on") rows i)

is_subscribed-notify_new_members :
    (c : Command) (g u : String) (rows : List Subscription)
    → IsUnique rows
    → is_subscribed g u (notify_new_members c rows).1
      ≡ (if is_wish g u c then c.state =ₛ "on" else is_subscribed g u rows)
unfolding notify_new_members
is_subscribed-notify_new_members c g u rows i =
    ground (arith, is_subscribed-set_subscription c.guild_id c.user_id g u (c.state =ₛ "on") rows i)

is_subscribed-run_commands :
    (cs : List Command) (g u : String) (rows : List Subscription)
    → IsUnique rows
    → is_subscribed g u (run_commands cs rows) ≡ last_wish g u cs (is_subscribed g u rows)
unfolding run_commands last_wish
is_subscribed-run_commands [] g u rows i = refl
is_subscribed-run_commands (c ∷ cs) g u rows i =
    is_subscribed-run_commands cs g u _ (notify-IsUnique c rows i)
    ∙ rw (is_subscribed-notify_new_members c g u rows i) refl

-- From a table that holds no pair twice, after any commands of any users, the listing of a guild
-- names a member exactly if the last command of that member in that guild that said on or off, given
-- with the permission, said on; without one, if the member was subscribed at first.
pub list_subscriber_ids-run_commands :
    (cs : List Command) (g u : String) (rows : List Subscription)
    → IsUnique rows
    → contains_text u (list_subscriber_ids g (run_commands cs rows))
      ≡ last_wish g u cs (is_subscribed g u rows)
list_subscriber_ids-run_commands cs g u rows i =
    list_subscriber_ids-is_subscribed g u (run_commands cs rows)
    ∙ is_subscribed-run_commands cs g u rows i
