-- ===== src/PostConditions/GridView/Tests.antt =====
-- The theorems on the view and the embed, applied to a catalog of two conditions.
use rsl_mom_bot.Prelude.{◌≡◌, refl, false, none, List, [], ◌∷◌, contains}
use rsl_mom_bot.Prelude.Exec.{Result, ok, err}
use rsl_mom_bot.PyText.{codes}
use rsl_mom_bot.PostConditions.Models.{Condition}
use rsl_mom_bot.PostConditions.Client.{Response, World, SiegeWeb, set_my_preferences}
use rsl_mom_bot.PostConditions.GridView.{View, next}
use rsl_mom_bot.PostConditions.GridView.Clicks.{
  Click, toggle, navigate, save, Session, init_view, click, click_all, saved_ids,
}
use rsl_mom_bot.PostConditions.GridView.Components.{IsGrid, buttons_fit}
use rsl_mom_bot.PostConditions.GridView.Paging.{IsOnPage, stays-IsOnPage}
use rsl_mom_bot.PostConditions.GridView.Selections.{save_sends_selected}

abbrev orcs : Condition
orcs = record {
  id = 7;
  condition_type = "faction";
  description = "Only Orc Champions can be used.";
}

abbrev void : Condition
void = record {
  id = 8;
  condition_type = "affinity";
  description = "Only Void Champions can be used.";
}

abbrev catalog : List Condition
catalog = orcs ∷ void ∷ []

abbrev view_of : Result View → View
view_of (ok v) = v
view_of (err e) = record {
  pages = [];
  page_index = 0;
  selections = [];
  discord_id = [];
  discord_username = [];
  components = [];
}

abbrev start : View
start = view_of (init_view catalog (7 ∷ []) (codes "1") (codes "ann"))

abbrev given : Response
given = record { status = 200; retry_after = none; body = ok (void ∷ []) }

abbrev web : SiegeWeb
web = record {
  base_url = codes "https://rslsiege.com";
  token = codes "t";
  answer = λ log req. ok given;
  latency = λ log req. 500;
  float = λ text. none;
  pause = λ f. 0;
}

abbrev world : World
world = record { clock = 0; log = []; cache = []; session = none }

abbrev clicks : List Click
clicks = toggle 7 ∷ navigate next ∷ toggle 8 ∷ navigate next ∷ []

abbrev session : Session
session = record { view = start; world = world }

starts : init_view catalog (7 ∷ []) (codes "1") (codes "ann") ≡ ok start
unfolding init_view rsl_mom_bot.PostConditions.DiscordDisplay.short_label
starts = refl

saves_void : saved_ids (click_all web clicks session).view.selections ≡ 8 ∷ []
unfolding init_view click_all rsl_mom_bot.PostConditions.DiscordDisplay.short_label
saves_void = refl

buttons_fit_example : IsGrid (click_all web clicks session).view
buttons_fit_example =
    buttons_fit web catalog (7 ∷ []) (codes "1") (codes "ann") start world clicks starts

stays-IsOnPage_example : IsOnPage (click_all web clicks session).view
stays-IsOnPage_example =
    stays-IsOnPage web catalog (7 ∷ []) (codes "1") (codes "ann") start world clicks starts

save_sends_selected_example :
    let s = click_all web clicks session in
    let ids = saved_ids s.view.selections in
    ((click web save s).1.world ≡ (set_my_preferences web (codes "1") (codes "ann") ids s.world).1)
    × (contains 7 ids ≡ false)
save_sends_selected_example =
    save_sends_selected web catalog (7 ∷ []) (codes "1") (codes "ann") start world clicks 7 starts
