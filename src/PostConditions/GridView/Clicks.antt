-- ===== src/PostConditions/GridView/Clicks.antt =====
-- src/mom_bot/post_conditions/views.py: the start of a view, and the callbacks of its buttons.
use rsl_mom_bot.Prelude.{
  ℕ, ◌+◌, ◌-◌, Bool, true, false, not, ltb, if◌then◌else◌, List, [], ◌∷◌, map, filter, length,
}
use rsl_mom_bot.Prelude.Exec.{
  Error, Result, ok, err, Exec, siege_web_auth, siege_web_not_found, siege_web_validation,
  siege_web_rate_limit, ◌>>=ᵣ◌,
}
use rsl_mom_bot.PyText.{codes}
use rsl_mom_bot.PostConditions.Models.{Condition}
use rsl_mom_bot.PostConditions.Client.{World, SiegeWeb, set_my_preferences}
use rsl_mom_bot.PostConditions.GridLayout.{default_page_size, split_by_meta_group}
use rsl_mom_bot.PostConditions.GridView.{
  Direction, prev, next, Selections, View, Embed, is_on, set_selection, seed_selections,
  build_components, build_embed_for_current_page,
}

-- `__init__`, with the pages of the catalog.
unfoldable pub init_view : List Condition → List ℕ → List ℕ → List ℕ → Result View
unfolding split_by_meta_group seed_selections build_components
init_view catalog preferences discord_id discord_username =
    split_by_meta_group catalog default_page_size >>=ᵣ λ pages.
    let v : View = record {
      pages = pages;
      page_index = 0;
      selections = seed_selections catalog preferences [];
      discord_id = discord_id;
      discord_username = discord_username;
      components = [];
    } in
    let (result, built) = build_components v in result >>=ᵣ λ _. ok built

pub data Click : Type 0 where
  toggle : ℕ → Click
  navigate : Direction → Click
  save cancel : Click

-- The reply to a click: the edited message, with or without its buttons, or a prompt.
pub data Reply : Type 0 where
  edited : Embed → Bool → Reply
  try_again cancelled_message : Reply

-- The view and the client that it saves with.
pub record Session : Type 0 where
  pub view : View
  pub world : World

abbrev edit : Bool → Result Embed → Result Reply
edit is_open (ok embed) = ok (edited embed is_open)
edit is_open (err e) = err e

-- `_build_components`, then the reply with the embed of the page.
unfoldable pub refresh : Exec Session Reply
unfolding build_components build_embed_for_current_page
refresh s =
    let (result, built) = build_components s.view in
    (result >>=ᵣ λ _. edit true (build_embed_for_current_page built), record s { view = built })

unfoldable pub toggle_selection : ℕ → View → View
unfolding is_on set_selection
toggle_selection cid v = record v {
  selections = set_selection cid (not (is_on cid v.selections)) v.selections;
}

unfoldable pub turn_page : Direction → View → View
turn_page prev v = if ltb 0 v.page_index then record v { page_index = v.page_index - 1 } else v
turn_page next v =
    if ltb (v.page_index + 1) (length v.pages)
    then record v { page_index = v.page_index + 1 }
    else v

-- `[cid for cid, on in selections.items() if on]`.
unfoldable pub saved_ids : Selections → List ℕ
saved_ids selections = map (λ item. item.0) (filter (λ item. item.1) selections)

-- `SiegeWebError` and its subclasses.
abbrev pub is_siege_web_error : Error → Bool
is_siege_web_error siege_web_auth = true
is_siege_web_error siege_web_not_found = true
is_siege_web_error siege_web_validation = true
is_siege_web_error siege_web_rate_limit = true
is_siege_web_error _ = false

-- What follows the PUT.
unfoldable pub after_save : Result (List Condition) → View → Result Reply
unfolding build_embed_for_current_page
after_save (err e) v = if is_siege_web_error e then ok try_again else err e
after_save (ok _) v = edit false (
    build_embed_for_current_page v >>=ᵣ λ embed.
    ok (record embed { title = codes "Preferences saved" }))

-- The callback of the button.
unfoldable pub click : SiegeWeb → Click → Exec Session Reply
unfolding refresh toggle_selection turn_page saved_ids set_my_preferences after_save
click web (toggle cid) s = refresh (record s { view = toggle_selection cid s.view })
click web (navigate d) s = refresh (record s { view = turn_page d s.view })
click web save s =
    let (result, w) =
      set_my_preferences web s.view.discord_id s.view.discord_username (saved_ids s.view.selections)
        s.world in
    (after_save result s.view, record s { world = w })
click web cancel s = (ok cancelled_message, s)

-- Clicks one after the other, whatever is replied.
unfoldable pub click_all : SiegeWeb → List Click → Session → Session
unfolding click
click_all web [] s = s
click_all web (c ∷ clicks) s = click_all web clicks (click web c s).1
