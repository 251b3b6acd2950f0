-- ===== src/PostConditions/Commands.antt =====
-- src/mom_bot/post_conditions/commands.py: the three commands, over the client and the view. The
-- replies reach Discord. `discord_id` and `discord_username` are those of the user.
pub mod Editor
mod Tests
use rsl_mom_bot.Prelude.{ℕ, String, List, [], ◌∷◌, map, Option, none}
use rsl_mom_bot.Prelude.Exec.{
  Error, Result, ok, err, Exec, pure, continue, ◌>>=◌, ◌>>=ᵣ◌, cancelled, siege_web_not_found,
}
use rsl_mom_bot.PostConditions.Models.{Condition}
use rsl_mom_bot.PostConditions.Client.{World, SiegeWeb, Other, list_catalog, get_my_preferences}
use rsl_mom_bot.PostConditions.Grouping.{group_by_meta}
use rsl_mom_bot.PostConditions.Embed.{build_grouped_embed}
use rsl_mom_bot.PostConditions.GridView.{View, Embed, build_embed_for_current_page}
use rsl_mom_bot.PostConditions.GridView.Clicks.{init_view}

-- An embed is given by its description.
pub data Reply : Type 0 where
  not_registered ops_error no_conditions no_preferences : Reply
  shown : List ℕ → Reply
  editor : View → Embed → Reply

-- The embed of conditions that are all selected.
abbrev grouped : List Condition → Reply
grouped conditions =
    shown (build_grouped_embed (group_by_meta conditions) (map (λ c. c.id) conditions))

abbrev catalog_reply : Result (List Condition) → Result Reply
catalog_reply (ok []) = ok no_conditions
catalog_reply (ok (c ∷ cs)) = ok (grouped (c ∷ cs))
catalog_reply (err cancelled) = err cancelled
catalog_reply (err _) = ok ops_error

-- `others` is what runs while a caller waits for the lock of the catalog.
unfoldable pub post_conditions_catalog : SiegeWeb → List Other → Exec World Reply
post_conditions_catalog web others w =
    let (result, w') = list_catalog web others none w in (catalog_reply result, w')

-- The handlers of the other two commands for what siege-web answers.
abbrev refusal : Error → Result Reply
refusal siege_web_not_found = ok not_registered
refusal cancelled = err cancelled
refusal _ = ok ops_error

abbrev preferences_reply : Result (List Condition) → Result Reply
preferences_reply (ok []) = ok no_preferences
preferences_reply (ok (c ∷ cs)) = ok (grouped (c ∷ cs))
preferences_reply (err e) = refusal e

unfoldable pub post_conditions_get : SiegeWeb → List ℕ → List ℕ → Exec World Reply
post_conditions_get web discord_id discord_username w =
    let (result, w') = get_my_preferences web discord_id discord_username w in
    (preferences_reply result, w')

-- The two calls of `post_conditions_set`.
unfoldable pub fetch_both :
    SiegeWeb → List Other → List ℕ → List ℕ → Exec World (List Condition × List Condition)
fetch_both web others discord_id discord_username = list_catalog web others none >>= λ catalog.
    get_my_preferences web discord_id discord_username >>= λ prefs. pure (catalog, prefs)

unfoldable pub open_editor :
    List ℕ → List ℕ → Result (List Condition × List Condition) → Result Reply
open_editor discord_id discord_username (ok (catalog, prefs)) =
    init_view catalog (map (λ p. p.id) prefs) discord_id discord_username >>=ᵣ λ view.
    build_embed_for_current_page view >>=ᵣ λ embed. ok (editor view embed)
open_editor discord_id discord_username (err e) = refusal e

unfoldable pub post_conditions_set : SiegeWeb → List Other → List ℕ → List ℕ → Exec World Reply
post_conditions_set web others discord_id discord_username w =
    let (result, w') = fetch_both web others discord_id discord_username w in
    (open_editor discord_id discord_username result, w')
