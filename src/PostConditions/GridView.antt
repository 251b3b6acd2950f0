-- ===== src/PostConditions/GridView.antt =====
-- src/mom_bot/post_conditions/views.py: the button grid, with the callbacks of its buttons. What
-- Discord answers to a reply is left out, and the timeout of the view.
pub mod Clicks
pub mod Paging
pub mod Components
pub mod Selections
mod Tests
use rsl_mom_bot.Prelude.{
  ℕ, zero, suc, ◌+◌, ◌-◌, ◌/◌, String, Bool, true, false, not, ◌&&◌, ◌||◌, ◌==◌, ◌=ₛ◌, leb, ltb,
  if◌then◌else◌, Option, none, some, List, [], ◌∷◌, ◌++◌, map, filter, any, length, contains,
}
use rsl_mom_bot.Prelude.Int.{pos}
use rsl_mom_bot.Prelude.Exec.{
  Error, Result, ok, err, Exec, pure, raise, ◌>>=◌, ◌>>◌, ◌>>=ᵣ◌, index_error, siege_web_auth,
  siege_web_not_found, siege_web_validation, siege_web_rate_limit,
}
use rsl_mom_bot.PyText.{codes, str_of}
use rsl_mom_bot.PostConditions.Models.{Condition}
use rsl_mom_bot.PostConditions.Client.{World, SiegeWeb, set_my_preferences}
use rsl_mom_bot.PostConditions.Grouping.{Buckets}
use rsl_mom_bot.PostConditions.GridLayout.{GridPage, default_page_size, split_by_meta_group}
use rsl_mom_bot.PostConditions.DiscordDisplay.{short_label}
use rsl_mom_bot.PostConditions.Embed.{build_grouped_embed}

pub data Direction : Type 0 where
  prev next : Direction

-- A button; `nav` holds whether it is disabled. The last three stand in row 4.
pub data Button : Type 0 where
  toggle_button : ℕ → String → ℕ → Bool → Button
  nav_button : Direction → Bool → Button
  save_button cancel_button : Button

-- `_selections`, by its items.
abbrev pub Selections : Type 0
Selections = List (ℕ × Bool)

-- `PostConditionsGridView`.
pub record View : Type 0 where
  pub pages : List GridPage
  pub page_index : ℕ
  pub selections : Selections
  pub discord_id : List ℕ
  pub discord_username : List ℕ
  pub components : List Button

-- `selections.get(cid, False)`.
unfoldable pub is_on : ℕ → Selections → Bool
is_on cid [] = false
is_on cid ((c, on) ∷ rest) = if c == cid then on else is_on cid rest

-- `selections[cid] = on`.
unfoldable pub set_selection : ℕ → Bool → Selections → Selections
set_selection cid on [] = (cid, on) ∷ []
set_selection cid on ((c, old) ∷ rest) =
    let later = set_selection cid on rest in if c == cid then (c, on) ∷ rest else (c, old) ∷ later

-- `{c.id: c.id in preferences for c in catalog}`, into a dict.
unfoldable pub seed_selections : List Condition → List ℕ → Selections → Selections
unfolding set_selection
seed_selections [] preferences selections = selections
seed_selections (c ∷ catalog) preferences selections =
    seed_selections catalog preferences (set_selection c.id (contains c.id preferences) selections)

abbrev pub page_at : ℕ → List GridPage → Option GridPage
page_at i [] = none
page_at i (page ∷ pages) = if i == 0 then some page else page_at (i - 1) pages

-- `self._pages[self._page_index]`.
abbrev current_page : View → Result GridPage
current_page v = elim (page_at v.page_index v.pages) [
  | some page ↦ ok page
  | none ↦ err index_error
]

abbrev pub add_item : Button → Exec View Unit
add_item b v = (ok tt, record v { components = v.components ++ b ∷ [] })

-- One button, by its label; a `KeyError` ends the loop.
abbrev pub add_toggle : ℕ → Condition → Result String → Exec View Unit → Exec View Unit
add_toggle i cond (err e) rest v = (err e, v)
add_toggle i cond (ok label) rest v =
    (add_item (toggle_button cond.id label (i / 5) (is_on cond.id v.selections)) >> rest) v

-- The loop over the conditions of the page, from the i-th.
unfoldable pub add_toggles : ℕ → List Condition → Exec View Unit
add_toggles i [] v = (ok tt, v)
add_toggles i (cond ∷ conds) v =
    let rest = add_toggles (i + 1) conds in add_toggle i cond (short_label cond) rest v

unfoldable pub nav_row : View → List Button
nav_row v =
    nav_button prev (v.page_index == 0)
    ∷ save_button
    ∷ cancel_button
    ∷ nav_button next (leb (length v.pages) (v.page_index + 1))
    ∷ []

abbrev pub add_nav_row : Exec View Unit
add_nav_row v = (ok tt, record v { components = v.components ++ nav_row v })

-- The buttons of a page.
abbrev pub fill_page : Result GridPage → Exec View Unit
fill_page (err e) = raise e
fill_page (ok page) = add_toggles 0 page.conditions >> add_nav_row

abbrev pub show_page : List GridPage → Exec View Unit
show_page [] v = (ok tt, v)
show_page (page ∷ pages) v = fill_page (current_page v) v

unfoldable pub build_components : Exec View Unit
unfolding add_toggles nav_row
build_components v = show_page v.pages (record v { components = [] })

-- `id_to_meta.get(cid)`: the group of the last page that shows the condition.
unfoldable pub id_to_meta : ℕ → List GridPage → Option String
id_to_meta cid [] = none
id_to_meta cid (page ∷ pages) = elim (id_to_meta cid pages) [
  | some meta ↦ some meta
  | none ↦ if any (λ c. c.id == cid) page.conditions then some page.meta_label else none
]

-- `out.setdefault(meta, set()).add(cid)`.
unfoldable pub add_id : String → ℕ → List (String × List ℕ) → List (String × List ℕ)
add_id meta cid [] = (meta, cid ∷ []) ∷ []
add_id meta cid ((m, ids) ∷ out) =
    let later = add_id meta cid out in
    if m =ₛ meta then (m, ids ++ cid ∷ []) ∷ out else (m, ids) ∷ later

unfoldable pub flat_to_meta_keyed :
    Selections → List GridPage → List (String × List ℕ) → List (String × List ℕ)
unfolding id_to_meta add_id
flat_to_meta_keyed [] pages out = out
flat_to_meta_keyed ((cid, on) ∷ rest) pages out = flat_to_meta_keyed rest pages (
    if not on
    then out
    else elim (id_to_meta cid pages) [ none ↦ out | some meta ↦ add_id meta cid out ])

-- The page is merged into the section of its group.
unfoldable pub add_page : GridPage → Buckets → Buckets
add_page page [] = (page.meta_label, page.conditions) ∷ []
add_page page ((m, conds) ∷ out) =
    let later = add_page page out in
    if m =ₛ page.meta_label then (m, conds ++ page.conditions) ∷ out else (m, conds) ∷ later

unfoldable pub summary_pages : List GridPage → Buckets → Buckets
unfolding add_page
summary_pages [] out = out
summary_pages (page ∷ pages) out = summary_pages pages (add_page page out)

abbrev flat_ids : List (String × List ℕ) → List ℕ
flat_ids [] = []
flat_ids ((m, ids) ∷ selections) = ids ++ flat_ids selections

-- The description of `build_summary_embed`.
unfoldable pub build_summary_embed : Buckets → List (String × List ℕ) → List ℕ
unfolding build_grouped_embed
build_summary_embed pages selections = build_grouped_embed pages (flat_ids selections)

pub record Embed : Type 0 where
  pub title : List ℕ
  pub description : List ℕ

abbrev page_title : View → GridPage → List ℕ
page_title v page =
    codes "Editing — "
    ++ page.label
    ++ codes " (page "
    ++ str_of (pos (v.page_index + 1))
    ++ codes "/"
    ++ str_of (pos (length v.pages))
    ++ codes ")"

unfoldable pub build_embed_for_current_page : View → Result Embed
unfolding flat_to_meta_keyed summary_pages build_summary_embed
build_embed_for_current_page v =
    let description =
      build_summary_embed (summary_pages v.pages []) (flat_to_meta_keyed v.selections v.pages []) in
    elim v.pages [
      | [] ↦ ok (record { title = codes "Preferences"; description = description })
      | _ ↦
          (current_page v >>=ᵣ λ page.
          ok (record { title = page_title v page; description = description }))
    ]
