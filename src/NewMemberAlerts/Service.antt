-- ===== src/NewMemberAlerts/Service.antt =====
-- src/mom_bot/new_member_alerts/service.py, with its table, src/mom_bot/new_member_alerts/models.py.
-- The pair (guild_id, user_id) is UNIQUE. The rows stand in the order of their keys, as the table
-- gives them out; a new row comes last.
pub mod Laws
use rsl_mom_bot.Prelude.{
  String, Bool, true, false, not, ◌&&◌, ◌=ₛ◌, if◌then◌else◌, List, [], ◌∷◌, ◌++◌, any, filter,
}

pub record Subscription : Type 0 where
  pub guild_id : String
  pub user_id : String

abbrev pub is_of : String → String → Subscription → Bool
is_of guild_id user_id r = (r.guild_id =ₛ guild_id) && (r.user_id =ₛ user_id)

-- `session.delete(row)` of the row that was found.
unfoldable pub delete_found : String → String → List Subscription → List Subscription
delete_found guild_id user_id [] = []
delete_found guild_id user_id (r ∷ rows) =
    let rest = delete_found guild_id user_id rows in
    if is_of guild_id user_id r then rows else r ∷ rest

unfoldable pub is_subscribed : String → String → List Subscription → Bool
is_subscribed guild_id user_id rows = any (is_of guild_id user_id) rows

unfoldable pub set_subscription : String → String → Bool → List Subscription → List Subscription
unfolding is_subscribed delete_found
set_subscription guild_id user_id enabled rows =
    let found = is_subscribed guild_id user_id rows in
    if enabled && not found
    then rows ++ record { guild_id = guild_id; user_id = user_id } ∷ []
    else if not enabled && found
    then delete_found guild_id user_id rows
    else rows

unfoldable pub list_subscriber_ids : String → List Subscription → List String
list_subscriber_ids guild_id [] = []
list_subscriber_ids guild_id (r ∷ rows) =
    let rest = list_subscriber_ids guild_id rows in
    if r.guild_id =ₛ guild_id then r.user_id ∷ rest else rest
