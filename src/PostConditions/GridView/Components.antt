-- ===== src/PostConditions/GridView/Components.antt =====
-- The buttons of a view: what Discord allows in one view, and the width of the labels.
use rsl_mom_bot.Prelude.{
  ℕ, ◌+◌, ◌-◌, ◌/◌, ◌≤◌, ◌<◌, ◌≡◌, refl, sym, String, ◌==◌, some, List, [], ◌∷◌, filter, length,
  length-append, All, All-append, All-map, arith, Bool-cases, Option-cases, inl, inr,
}
use rsl_mom_bot.Prelude.Exec.{Result, ok, err, continue, index_error}
use rsl_mom_bot.PostConditions.Models.{Condition}
use rsl_mom_bot.PostConditions.Client.{SiegeWeb, World}
use rsl_mom_bot.PostConditions.Grouping.Laws.{is_known}
use rsl_mom_bot.PostConditions.GridLayout.{GridPage, default_page_size}
use rsl_mom_bot.PostConditions.GridLayout.Pages.{IsPage}
use rsl_mom_bot.PostConditions.GridLayout.Complete.{IsSplit, split_by_meta_group_lem}
use rsl_mom_bot.PostConditions.DiscordDisplay.{short_label, IsShort, short_label-IsShort}
use rsl_mom_bot.PostConditions.GridView.{
  Direction, prev, next, View, Button, toggle_button, is_on, page_at, current_page, add_item,
  add_toggle, add_toggles, nav_row, add_nav_row, fill_page, show_page, build_components,
}
use rsl_mom_bot.PostConditions.GridView.Clicks.{
  Click, toggle, navigate, save, cancel, Session, init_view, refresh, toggle_selection, turn_page,
  click, click_all,
}
use rsl_mom_bot.PostConditions.GridView.Paging.{build_components-IsRebuilt, init_view-IsStart}

-- A toggle stands in the rows 0 to 3, which the row of the other buttons does not use, and its
-- label is short.
abbrev pub IsPlaced : Button → Type 0
IsPlaced (toggle_button cid label row on) = (row ≤ 3) × IsShort label
IsPlaced _ = Unit

abbrev IsGridOf : ℕ → View → Type 0
IsGridOf n v = (length v.components ≤ n) × All IsPlaced v.components

-- At most 20 toggles and the 4 other buttons.
abbrev pub IsGrid : View → Type 0
IsGrid v = IsGridOf 24 v

abbrev IsSmallPage : GridPage → Type 0
IsSmallPage page = length page.conditions ≤ default_page_size

add_item-IsGridOf :
    (n : ℕ) (b : Button) (v : View) → IsPlaced b → IsGridOf n v → IsGridOf (n + 1) (add_item b v).1
add_item-IsGridOf n b v placed (few, all) = (
  omega (arith, few, length-append v.components (b ∷ [])),
  All-append IsPlaced v.components (b ∷ []) all (placed, tt),
)

add_toggle-IsGridOf :
    (i size : ℕ) (cond : Condition) (label : Result String) (rest : View → Result Unit × View)
    (v : View)
    → ((given : String) → label ≡ ok given → IsShort given)
    → i < default_page_size
    → i ≤ size
    → IsGridOf i v
    → ((w : View) → IsGridOf (i + 1) w → IsGridOf size (rest w).1)
    → IsGridOf size (add_toggle i cond label rest v).1
add_toggle-IsGridOf i size cond (err e) rest v short few larger (h, all) k =
    (omega (arith, h, larger), all)
add_toggle-IsGridOf i size cond (ok label) rest v short few larger h k =
    let b = toggle_button cond.id label (i / 5) (is_on cond.id v.selections) in
    k (add_item b v).1 (add_item-IsGridOf i b v (omega (arith, few), short label refl) h)

add_toggles-IsGridOf :
    (i size : ℕ) (conds : List Condition) (v : View)
    → size ≡ i + length conds
    → size ≤ default_page_size
    → IsGridOf i v
    → IsGridOf size (add_toggles i conds v).1
unfolding add_toggles
add_toggles-IsGridOf i size [] v e few (h, all) = (omega (arith, e, h), all)
add_toggles-IsGridOf i size (c ∷ conds) v e few h =
    add_toggle-IsGridOf i size c (short_label c) (add_toggles (i + 1) conds) v
      (short_label-IsShort c) (omega (arith, e, few)) (omega (arith, e)) h
      λ w k. add_toggles-IsGridOf (i + 1) size conds w (omega (arith, e)) few k

nav_row_continued :
    (end : Result Unit × View)
    → IsGridOf default_page_size end.1
    → IsGrid (continue end.0 (λ _. add_nav_row) end.1).1
unfolding nav_row
nav_row_continued (ok a, v) (few, all) = (
  omega (arith, few, length-append v.components (nav_row v)),
  All-append IsPlaced v.components (nav_row v) all (tt, (tt, (tt, (tt, tt)))),
)
nav_row_continued (err e, v) (few, all) = (omega (arith, few), all)

fill_page-IsGrid :
    (page : Result GridPage) (v : View)
    → ((p : GridPage) → page ≡ ok p → IsSmallPage p)
    → v.components ≡ []
    → IsGrid (fill_page page v).1
fill_page-IsGrid (err e) v small empty = rw empty (omega arith, tt)
fill_page-IsGrid (ok page) v small empty =
    let end = add_toggles 0 page.conditions v in
    let start : IsGridOf 0 v = rw empty (omega arith, tt) in
    let (few, all) =
      add_toggles-IsGridOf 0 (length page.conditions) page.conditions v (omega arith)
        (small page refl) start in
    nav_row_continued end (omega (arith, few, small page refl), all)

page_at-All :
    (P : GridPage → Type 0) (i : ℕ) (pages : List GridPage) (page : GridPage)
    → All P pages
    → page_at i pages ≡ some page
    → P page
page_at-All P i [] page h e = cc
page_at-All P i (p ∷ pages) page (h, hs) e = elim (Bool-cases (i == 0)) [
  | inl t ↦
      let found : some p ≡ some page = rw t at e in let same : p ≡ page = cc in rw (sym same) h
  | inr f ↦ page_at-All P (i - 1) pages page hs (rw f at e)
]

current_page-small :
    (v : View) (page : GridPage)
    → All IsSmallPage v.pages
    → current_page v ≡ ok page
    → IsSmallPage page
current_page-small v page h e = elim (Option-cases (page_at v.page_index v.pages)) [
  | inl n ↦ let raised : err index_error ≡ ok page = rw (n, current_page) at e in cc
  | inr (p, f) ↦
      let found : ok p ≡ ok page = rw (f, current_page) at e in
      let same : p ≡ page = cc in rw (sym same) (page_at-All IsSmallPage v.page_index v.pages p h f)
]

show_page-IsGrid :
    (pages : List GridPage) (v : View)
    → All IsSmallPage v.pages
    → v.components ≡ []
    → IsGrid (show_page pages v).1
show_page-IsGrid [] v small empty = rw empty (omega arith, tt)
show_page-IsGrid (p ∷ pages) v small empty =
    fill_page-IsGrid (current_page v) v (λ page e. current_page-small v page small e) empty

-- A view of small pages with the buttons that fit.
abbrev IsFitting : View → Type 0
IsFitting v = All IsSmallPage v.pages × IsGrid v

build_components-IsFitting : (v : View) → All IsSmallPage v.pages → IsFitting (build_components v).1
unfolding build_components
build_components-IsFitting v small =
    let (pages, _, _, _, _) = build_components-IsRebuilt v in
    (rw pages small, show_page-IsGrid v.pages (record v { components = [] }) small refl)

turn_page-pages : (d : Direction) (v : View) → (turn_page d v).pages ≡ v.pages
unfolding turn_page
turn_page-pages prev v = ground arith
turn_page-pages next v = ground arith

click-IsFitting :
    (web : SiegeWeb) (c : Click) (s : Session) → IsFitting s.view → IsFitting (click web c s).1.view
unfolding click refresh toggle_selection
click-IsFitting web (toggle cid) s (small, h) =
    build_components-IsFitting (toggle_selection cid s.view) small
click-IsFitting web (navigate d) s (small, h) =
    build_components-IsFitting (turn_page d s.view) (rw turn_page-pages small)
click-IsFitting web save s h = h
click-IsFitting web cancel s h = h

click_all-IsFitting :
    (web : SiegeWeb) (clicks : List Click) (s : Session)
    → IsFitting s.view
    → IsFitting (click_all web clicks s).view
unfolding click_all
click_all-IsFitting web [] s h = h
click_all-IsFitting web (c ∷ clicks) s h =
    click_all-IsFitting web clicks (click web c s).1 (click-IsFitting web c s h)

split-small :
    (known : List Condition) (pages : List GridPage)
    → IsSplit default_page_size known (ok pages)
    → All IsSmallPage pages
split-small known pages (sized, _) =
    All-map (IsPage default_page_size) IsSmallPage pages (λ page (_, few, _, _). few) sized

fits_from_start :
    (catalog : List Condition) (preferences discord_id discord_username : List ℕ) (v : View)
    → init_view catalog preferences discord_id discord_username ≡ ok v
    → IsFitting v
fits_from_start catalog preferences discord_id discord_username v h =
    let (split, _, _, _, _, (start, built, pages)) =
      init_view-IsStart catalog preferences discord_id discord_username v h in
    let any_split = split_by_meta_group_lem catalog default_page_size (omega arith) in
    let sized = rw split at any_split in
    let small = split-small (filter is_known catalog) v.pages sized in
    rw (sym built) (build_components-IsFitting start (rw pages small))

-- After any clicks on a view of any catalog it has at most 24 buttons; a toggle stands in the rows
-- 0 to 3 and its label has at most 25 characters.
pub buttons_fit :
    (web : SiegeWeb) (catalog : List Condition) (preferences discord_id discord_username : List ℕ)
    (v : View) (w : World) (clicks : List Click)
    → init_view catalog preferences discord_id discord_username ≡ ok v
    → IsGrid (click_all web clicks (record { view = v; world = w })).view
buttons_fit web catalog preferences discord_id discord_username v w clicks h =
    let start = fits_from_start catalog preferences discord_id discord_username v h in
    (click_all-IsFitting web clicks (record { view = v; world = w }) start).1
