-- ===== src/PostConditions/GridView/Paging.antt =====
-- Rebuilding the buttons leaves the rest of a view as it is; and the page that is shown.
use rsl_mom_bot.Prelude.{
  ℕ, ◌+◌, ◌/◌, String, ◌<◌, ◌≡◌, refl, sym, ltb, List, [], ◌∷◌, length, arith, Bool-cases, ◌⊎◌, inl,
  inr,
}
use rsl_mom_bot.Prelude.Exec.{Error, Result, ok, err, continue, ◌>>=ᵣ◌}
use rsl_mom_bot.PostConditions.Models.{Condition}
use rsl_mom_bot.PostConditions.Client.{World, SiegeWeb}
use rsl_mom_bot.PostConditions.GridLayout.{GridPage, default_page_size, split_by_meta_group}
use rsl_mom_bot.PostConditions.DiscordDisplay.{short_label}
use rsl_mom_bot.PostConditions.GridView.{
  Direction, prev, next, View, toggle_button, is_on, seed_selections, current_page, add_item,
  add_toggle, show_page, add_toggles, add_nav_row, build_components, fill_page,
}
use rsl_mom_bot.PostConditions.GridView.Clicks.{
  Click, toggle, navigate, save, cancel, Session, init_view, refresh, toggle_selection, turn_page,
  click, click_all,
}

-- Only the buttons may differ.
abbrev pub IsRebuilt : View → View → Type 0
IsRebuilt v v' =
    (v'.pages ≡ v.pages)
    × (v'.page_index ≡ v.page_index)
    × (v'.selections ≡ v.selections)
    × (v'.discord_id ≡ v.discord_id)
    × (v'.discord_username ≡ v.discord_username)

add_toggle-IsRebuilt :
    (i : ℕ) (cond : Condition) (label : Result String) (rest : View → Result Unit × View) (v : View)
    → ((w : View) → IsRebuilt w (rest w).1)
    → IsRebuilt v (add_toggle i cond label rest v).1
add_toggle-IsRebuilt i cond (err e) rest v h = (refl, refl, refl, refl, refl)
add_toggle-IsRebuilt i cond (ok label) rest v h =
    h (add_item (toggle_button cond.id label (i / 5) (is_on cond.id v.selections)) v).1

add_toggles-IsRebuilt :
    (i : ℕ) (conds : List Condition) (v : View) → IsRebuilt v (add_toggles i conds v).1
unfolding add_toggles
add_toggles-IsRebuilt i [] v = (refl, refl, refl, refl, refl)
add_toggles-IsRebuilt i (c ∷ conds) v =
    add_toggle-IsRebuilt i c (short_label c) (add_toggles (i + 1) conds) v
      λ w. add_toggles-IsRebuilt (i + 1) conds w

continue-IsRebuilt :
    (v : View) (end : Result Unit × View)
    → IsRebuilt v end.1
    → IsRebuilt v (continue end.0 (λ _. add_nav_row) end.1).1
continue-IsRebuilt v (ok a, w) h = h
continue-IsRebuilt v (err e, w) h = h

fill_page-IsRebuilt : (page : Result GridPage) (v : View) → IsRebuilt v (fill_page page v).1
fill_page-IsRebuilt (err e) v = (refl, refl, refl, refl, refl)
fill_page-IsRebuilt (ok page) v =
    continue-IsRebuilt v (add_toggles 0 page.conditions v)
      (add_toggles-IsRebuilt 0 page.conditions v)

show_page-IsRebuilt : (pages : List GridPage) (v : View) → IsRebuilt v (show_page pages v).1
show_page-IsRebuilt [] v = (refl, refl, refl, refl, refl)
show_page-IsRebuilt (page ∷ pages) v = fill_page-IsRebuilt (current_page v) v

pub build_components-IsRebuilt : (v : View) → IsRebuilt v (build_components v).1
unfolding build_components
build_components-IsRebuilt v = show_page-IsRebuilt v.pages (record v { components = [] })

-- The index is that of a page, where there are pages.
abbrev pub IsOnPage : View → Type 0
IsOnPage v = (v.pages ≡ []) ⊎ (v.page_index < length v.pages)

IsOnPage-rebuilt : (v v' : View) → IsRebuilt v v' → IsOnPage v → IsOnPage v'
IsOnPage-rebuilt v v' (pages, index, _, _, _) h = rw (pages, index) h

turn_page-IsOnPage : (d : Direction) (v : View) → IsOnPage v → IsOnPage (turn_page d v)
unfolding turn_page
turn_page-IsOnPage prev v (inl e) = elim (Bool-cases (ltb 0 v.page_index)) [
  | inl t ↦ rw t (inl e)
  | inr f ↦ rw f (inl e)
]
turn_page-IsOnPage prev v (inr h) = elim (Bool-cases (ltb 0 v.page_index)) [
  | inl t ↦ rw t (inr (omega (arith, h)))
  | inr f ↦ rw f (inr h)
]
turn_page-IsOnPage next v h = elim (Bool-cases (ltb (v.page_index + 1) (length v.pages))) [
  | inl t ↦ rw t (inr (ground arith))
  | inr f ↦ rw f h
]

click-IsOnPage :
    (web : SiegeWeb) (c : Click) (s : Session) → IsOnPage s.view → IsOnPage (click web c s).1.view
unfolding click refresh toggle_selection
click-IsOnPage web (toggle cid) s h =
    let v = toggle_selection cid s.view in
    IsOnPage-rebuilt v (build_components v).1 (build_components-IsRebuilt v) h
click-IsOnPage web (navigate d) s h =
    let v = turn_page d s.view in
    IsOnPage-rebuilt v (build_components v).1 (build_components-IsRebuilt v)
      (turn_page-IsOnPage d s.view h)
click-IsOnPage web save s h = h
click-IsOnPage web cancel s h = h

pub click_all-IsOnPage :
    (web : SiegeWeb) (clicks : List Click) (s : Session)
    → IsOnPage s.view
    → IsOnPage (click_all web clicks s).view
unfolding click_all
click_all-IsOnPage web [] s h = h
click_all-IsOnPage web (c ∷ clicks) s h =
    click_all-IsOnPage web clicks (click web c s).1 (click-IsOnPage web c s h)

-- What `__init__` starts from, where it returns.
abbrev pub IsStart : List Condition → List ℕ → List ℕ → List ℕ → View → Type 0
IsStart catalog preferences discord_id discord_username v =
    (split_by_meta_group catalog default_page_size ≡ ok v.pages)
    × (v.page_index ≡ 0)
    × (v.selections ≡ seed_selections catalog preferences [])
    × (v.discord_id ≡ discord_id)
    × (v.discord_username ≡ discord_username)
    × ((start : View) × ((build_components start).1 ≡ v) × (start.pages ≡ v.pages))

built_lem : (result : Result Unit) (built v : View) → (result >>=ᵣ λ _. ok built) ≡ ok v → built ≡ v
built_lem (ok a) built v h = cc
built_lem (err e) built v h = cc

Result-cases : {A : Type 0} (r : Result A) → ((a : A) × (r ≡ ok a)) ⊎ ((e : Error) × (r ≡ err e))
Result-cases (ok a) = inl (a, refl)
Result-cases (err e) = inr (e, refl)

pub init_view-IsStart :
    (catalog : List Condition) (preferences discord_id discord_username : List ℕ) (v : View)
    → init_view catalog preferences discord_id discord_username ≡ ok v
    → IsStart catalog preferences discord_id discord_username v
unfolding init_view
init_view-IsStart catalog preferences discord_id discord_username v h =
    elim (Result-cases (split_by_meta_group catalog default_page_size)) [
      | inr (e, r) ↦ let raised : err e ≡ ok v = rw (r, init_view) at h in cc
      | inl (pages, r) ↦
          let start : View = record {
            pages = pages;
            page_index = 0;
            selections = seed_selections catalog preferences [];
            discord_id = discord_id;
            discord_username = discord_username;
            components = [];
          } in
          let end = build_components start in
          let same = built_lem end.0 end.1 v (rw (r, init_view) at h) in
          let (p, i, s, d, u) = build_components-IsRebuilt start in
          rw (sym same) (rw p r, i, s, d, u, (start, refl, sym p))
    ]

-- After any clicks on a new view the page index is that of one of its pages, if it has pages.
pub stays-IsOnPage :
    (web : SiegeWeb) (catalog : List Condition) (preferences d u : List ℕ) (v : View) (w : World)
    (clicks : List Click)
    → init_view catalog preferences d u ≡ ok v
    → IsOnPage (click_all web clicks (record { view = v; world = w })).view
stays-IsOnPage web catalog preferences d u v w clicks h =
    let (_, index, _, _, _, _) = init_view-IsStart catalog preferences d u v h in
    click_all-IsOnPage web clicks (record { view = v; world = w })
      (first_page v.pages v.page_index index)
  where
    first_page : (pages : List GridPage) (i : ℕ) → i ≡ 0 → (pages ≡ []) ⊎ (i < length pages)
    first_page [] i e = inl refl
    first_page (p ∷ pages) i e = inr (omega (arith, e))
