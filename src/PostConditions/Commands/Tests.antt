-- ===== src/PostConditions/Commands/Tests.antt =====
-- The theorem on the editor, applied to a catalog of two conditions and a user who prefers one.
use rsl_mom_bot.Prelude.{◌≡◌, refl, ◌&&◌, ◌==◌, none, List, [], ◌∷◌, map, contains, any}
use rsl_mom_bot.Prelude.Exec.{Result, ok}
use rsl_mom_bot.PyText.{codes}
use rsl_mom_bot.PostConditions.Models.{Condition}
use rsl_mom_bot.PostConditions.Client.{
  Response, World, SiegeWeb, list_catalog, get_my_preferences, set_my_preferences,
}
use rsl_mom_bot.PostConditions.GridView.{View, Embed, build_embed_for_current_page}
use rsl_mom_bot.PostConditions.GridView.Clicks.{
  toggle, save, init_view, click, click_all, saved_ids,
}
use rsl_mom_bot.PostConditions.GridView.Selections.{after_clicks}
use rsl_mom_bot.PostConditions.Commands.{
  Reply, editor, fetch_both, open_editor, post_conditions_set,
}
use rsl_mom_bot.PostConditions.Commands.Editor.{post_conditions_set_lem}

abbrev orcs : Condition
orcs = record {
  id = 7;
  condition_type = "faction";
  description = "Only Orc Champions can be used.";
}

abbrev void : Condition
void = record {
  id = 8;
  condition_type = "affinity";
  description = "Only Void Champions can be used.";
}

abbrev of : List Condition → Result Response
of conditions = ok (record { status = 200; retry_after = none; body = ok conditions })

-- The first request is that for the catalog.
abbrev web : SiegeWeb
web = record {
  base_url = codes "https://rslsiege.com";
  token = codes "t";
  answer = λ log req. elim log [ [] ↦ of (orcs ∷ void ∷ []) | _ ↦ of (void ∷ []) ];
  latency = λ log req. 500;
  float = λ text. none;
  pause = λ f. 0;
}

abbrev world : World
world = record { clock = 0; log = []; cache = []; session = none }

abbrev command : Result Reply × World
command = post_conditions_set web [] (codes "1") (codes "ann") world

abbrev blank : View
blank = record {
  pages = [];
  page_index = 0;
  selections = [];
  discord_id = [];
  discord_username = [];
  components = [];
}

abbrev opened : Result Reply → View × Embed
opened (ok (editor v embed)) = (v, embed)
opened _ = (blank, record { title = []; description = [] })

opens_editor : command.0 ≡ ok (editor (opened command.0).0 (opened command.0).1)
unfolding post_conditions_set fetch_both open_editor list_catalog get_my_preferences init_view
    build_embed_for_current_page rsl_mom_bot.PostConditions.DiscordDisplay.short_label
opens_editor = refl

post_conditions_set_lem_example :
    (catalog : List Condition) × (prefs : List Condition) × ((list_catalog web [] none world).0
      ≡ ok catalog)
    × ((get_my_preferences web (codes "1") (codes "ann") (list_catalog web [] none world).1).0
        ≡ ok prefs)
    × (let s =
          click_all web
            (toggle 7 ∷ [])
            (record { view = (opened command.0).0; world = command.1 }) in
        let ids = saved_ids s.view.selections in
        let at_first = any (λ c. c.id == 7) catalog && contains 7 (map (λ p. p.id) prefs) in
        ((click web save s).1.world
          ≡ (set_my_preferences web (codes "1") (codes "ann") ids s.world).1)
        × (contains 7 ids ≡ after_clicks 7 at_first (toggle 7 ∷ [])))
post_conditions_set_lem_example =
    post_conditions_set_lem web [] (codes "1") (codes "ann") world command.1 (opened command.0).0
      (opened command.0).1 (toggle 7 ∷ []) 7 opens_editor
