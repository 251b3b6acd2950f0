-- ===== src/PostConditions/GridView/Selections.antt =====
-- What a view selects after any clicks, and what its Save button sends.
use rsl_mom_bot.Prelude.{
  ℕ, ◌≡◌, refl, sym, ◌∙◌, Bool, true, false, not, ◌&&◌, ◌||◌, ◌==◌, if◌then◌else◌, List, [], ◌∷◌,
  map, contains, any, arith, ==→eq, Bool-cases, inl, inr,
}
use rsl_mom_bot.Prelude.Exec.{ok}
use rsl_mom_bot.PostConditions.Models.{Condition}
use rsl_mom_bot.PostConditions.Client.{World, SiegeWeb, set_my_preferences}
use rsl_mom_bot.PostConditions.GridView.{
  Direction, prev, next, Selections, View, is_on, set_selection, seed_selections, build_components,
}
use rsl_mom_bot.PostConditions.GridView.Paging.{
  IsRebuilt, build_components-IsRebuilt, init_view-IsStart,
}
use rsl_mom_bot.PostConditions.GridView.Clicks.{
  Click, toggle, navigate, save, cancel, Session, init_view, refresh, toggle_selection, turn_page,
  saved_ids, click, click_all,
}

is_on-set_selection :
    (a cid : ℕ) (on : Bool) (sels : Selections)
    → is_on a (set_selection cid on sels) ≡ (if cid == a then on else is_on a sels)
unfolding is_on set_selection
is_on-set_selection a cid on [] = ground arith
is_on-set_selection a cid on ((c, old) ∷ sels) = ground (arith, is_on-set_selection a cid on sels)

-- No id stands twice.
abbrev IsOnce : Selections → Type 0
IsOnce [] = Unit
IsOnce ((c, on) ∷ sels) = (contains c (map (λ item. item.0) sels) ≡ false) × IsOnce sels

ids-set_selection :
    (a cid : ℕ) (on : Bool) (sels : Selections)
    → contains a (map (λ item. item.0) (set_selection cid on sels))
      ≡ ((a == cid) || contains a (map (λ item. item.0) sels))
unfolding set_selection
ids-set_selection a cid on [] = ground arith
ids-set_selection a cid on ((c, old) ∷ sels) = ground (arith, ids-set_selection a cid on sels)

set_selection-IsOnce :
    (cid : ℕ) (on : Bool) (sels : Selections) → IsOnce sels → IsOnce (set_selection cid on sels)
unfolding set_selection
set_selection-IsOnce cid on [] h = (refl, tt)
set_selection-IsOnce cid on ((c, old) ∷ sels) (h, hs) = elim (Bool-cases (c == cid)) [
  | inl t ↦ rw t (h, hs)
  | inr f ↦
      rw f (ground (arith, ids-set_selection c cid on sels), set_selection-IsOnce cid on sels hs)
]

-- What Save sends is what is on.
saved_absent :
    (a : ℕ) (sels : Selections)
    → contains a (map (λ item. item.0) sels) ≡ false
    → contains a (saved_ids sels) ≡ false
unfolding saved_ids
saved_absent a [] h = refl
saved_absent a ((c, on) ∷ sels) h = ground (arith, saved_absent a sels)

contains-saved_ids :
    (a : ℕ) (sels : Selections) → IsOnce sels → contains a (saved_ids sels) ≡ is_on a sels
unfolding saved_ids is_on
contains-saved_ids a [] h = refl
contains-saved_ids a ((c, on) ∷ sels) (h, hs) =
    ground (arith, contains-saved_ids a sels hs, saved_absent c sels h)

seed_selections-IsOnce :
    (catalog : List Condition) (preferences : List ℕ) (sels : Selections)
    → IsOnce sels
    → IsOnce (seed_selections catalog preferences sels)
unfolding seed_selections
seed_selections-IsOnce [] preferences sels h = h
seed_selections-IsOnce (c ∷ catalog) preferences sels h =
    let on = contains c.id preferences in
    seed_selections-IsOnce catalog preferences (set_selection c.id on sels)
      (set_selection-IsOnce c.id on sels h)

if_same : (b x : Bool) → (if b then x else x) ≡ x
if_same true x = refl
if_same false x = refl

is_on-seed_selections :
    (a : ℕ) (catalog : List Condition) (preferences : List ℕ) (sels : Selections)
    → is_on a (seed_selections catalog preferences sels)
      ≡ (if any (λ c. c.id == a) catalog then contains a preferences else is_on a sels)
unfolding seed_selections
is_on-seed_selections a [] preferences sels = refl
is_on-seed_selections a (c ∷ catalog) preferences sels =
    let on = contains c.id preferences in
    let later = is_on-seed_selections a catalog preferences (set_selection c.id on sels) in
    elim (Bool-cases (c.id == a)) [
      | inl t ↦
          let same = ==→eq c.id a t in
          rw (later, is_on-set_selection a c.id on sels, t, same)
            (if_same (any (λ x. x.id == a) catalog) (contains a preferences))
      | inr f ↦ rw (later, is_on-set_selection a c.id on sels, f) refl
    ]

-- Whether a condition is on after the clicks: each of its toggles turns it round.
abbrev pub after_clicks : ℕ → Bool → List Click → Bool
after_clicks a on [] = on
after_clicks a on (toggle cid ∷ clicks) = after_clicks a (if cid == a then not on else on) clicks
after_clicks a on (_ ∷ clicks) = after_clicks a on clicks

turn_page-selections : (d : Direction) (v : View) → (turn_page d v).selections ≡ v.selections
unfolding turn_page
turn_page-selections prev v = ground arith
turn_page-selections next v = ground arith

toggled_on :
    (a cid : ℕ) (sels : Selections)
    → is_on a (set_selection cid (not (is_on cid sels)) sels)
      ≡ (if cid == a then not (is_on a sels) else is_on a sels)
toggled_on a cid sels = elim (Bool-cases (cid == a)) [
  | inl t ↦
      let same = ==→eq cid a t in
      rw (is_on-set_selection a cid (not (is_on cid sels)) sels, t, same) refl
  | inr f ↦ rw (is_on-set_selection a cid (not (is_on cid sels)) sels, f) refl
]

-- A view that belongs to the user, of which each id stands once and `a` is on or off.
abbrev IsSelected : ℕ → Bool → List ℕ → List ℕ → View → Type 0
IsSelected a on discord_id discord_username v =
    IsOnce v.selections
    × (is_on a v.selections ≡ on)
    × (v.discord_id ≡ discord_id)
    × (v.discord_username ≡ discord_username)

IsSelected-rebuilt :
    (a : ℕ) (on : Bool) (discord_id discord_username : List ℕ) (v v' : View)
    → IsRebuilt v v'
    → IsSelected a on discord_id discord_username v
    → IsSelected a on discord_id discord_username v'
IsSelected-rebuilt a on discord_id discord_username v v' (_, _, sels, ids, names) (h, k, p, q) =
    (rw sels h, rw sels k, ids ∙ p, names ∙ q)

turn_page-user :
    (d : Direction) (v : View)
    → ((turn_page d v).discord_id ≡ v.discord_id)
      × ((turn_page d v).discord_username ≡ v.discord_username)
unfolding turn_page
turn_page-user prev v = ground arith
turn_page-user next v = ground arith

after_toggle :
    (a cid : ℕ) (on : Bool) (discord_id discord_username : List ℕ) (v : View)
    → IsSelected a on discord_id discord_username v
    → let turned = if cid == a then not on else on in
      IsSelected a turned discord_id discord_username (toggle_selection cid v)
unfolding toggle_selection
after_toggle a cid on discord_id discord_username v (h, k, p, q) = (
  set_selection-IsOnce cid (not (is_on cid v.selections)) v.selections h,
  rw (sym k) (toggled_on a cid v.selections),
  p,
  q,
)

after_turn :
    (a : ℕ) (on : Bool) (discord_id discord_username : List ℕ) (d : Direction) (v : View)
    → IsSelected a on discord_id discord_username v
    → IsSelected a on discord_id discord_username (turn_page d v)
after_turn a on discord_id discord_username d v (h, k, p, q) =
    let (ids, names) = turn_page-user d v in
    let sels = turn_page-selections d v in (rw sels h, rw sels k, ids ∙ p, names ∙ q)

click_all-IsSelected :
    (web : SiegeWeb) (a : ℕ) (on : Bool) (discord_id discord_username : List ℕ)
    (clicks : List Click) (s : Session)
    → IsSelected a on discord_id discord_username s.view
    → IsSelected a
        (after_clicks a on clicks)
        discord_id
        discord_username
        (click_all web clicks s).view
unfolding click_all click refresh
click_all-IsSelected web a on d u [] s h = h
click_all-IsSelected web a on d u (toggle cid ∷ clicks) s h =
    let turned = if cid == a then not on else on in
    let v = toggle_selection cid s.view in
    click_all-IsSelected web a turned d u clicks (click web (toggle cid) s).1 (
      IsSelected-rebuilt a turned d u v (build_components v).1 (build_components-IsRebuilt v)
        (after_toggle a cid on d u s.view h))
click_all-IsSelected web a on d u (navigate way ∷ clicks) s h =
    let v = turn_page way s.view in
    click_all-IsSelected web a on d u clicks (click web (navigate way) s).1 (
      IsSelected-rebuilt a on d u v (build_components v).1 (build_components-IsRebuilt v)
        (after_turn a on d u way s.view h))
click_all-IsSelected web a on d u (save ∷ clicks) s h =
    click_all-IsSelected web a on d u clicks (click web save s).1 h
click_all-IsSelected web a on d u (cancel ∷ clicks) s h =
    click_all-IsSelected web a on d u clicks (click web cancel s).1 h

if_and : (b x : Bool) → (if b then x else false) ≡ (b && x)
if_and true x = refl
if_and false x = refl

-- Save makes the PUT of the user of the view.
click_save :
    (web : SiegeWeb) (s : Session) (d u : List ℕ)
    → s.view.discord_id ≡ d
    → s.view.discord_username ≡ u
    → (click web save s).1.world
      ≡ (set_my_preferences web d u (saved_ids s.view.selections) s.world).1
unfolding click
click_save web s d u p q = rw (sym p, sym q) refl

-- After any clicks, Save makes the PUT of the user with a list of ids that holds a condition exactly
-- if it is on: it stands in the catalog and the preferences and was toggled an even number of times,
-- or is missing in one of them and was toggled an odd number of times. Turning pages, saving and
-- cancelling change nothing in this.
pub save_sends_selected :
    (web : SiegeWeb) (catalog : List Condition) (preferences d u : List ℕ) (v : View) (w : World)
    (clicks : List Click) (a : ℕ)
    → init_view catalog preferences d u ≡ ok v
    → let s = click_all web clicks (record { view = v; world = w }) in
      let ids = saved_ids s.view.selections in
      let at_first = any (λ c. c.id == a) catalog && contains a preferences in
      ((click web save s).1.world ≡ (set_my_preferences web d u ids s.world).1)
      × (contains a ids ≡ after_clicks a at_first clicks)
unfolding is_on
save_sends_selected web catalog preferences d u v w clicks a h =
    let s0 : Session = record { view = v; world = w } in
    let s = click_all web clicks s0 in
    let in_catalog = any (λ c. c.id == a) catalog in
    let at_first = in_catalog && contains a preferences in
    let (_, _, sels, is_d, is_u, _) = init_view-IsStart catalog preferences d u v h in
    let seeded = is_on-seed_selections a catalog preferences [] in
    let on_first : is_on a v.selections ≡ at_first =
      rw sels (seeded ∙ if_and in_catalog (contains a preferences)) in
    let start : IsSelected a at_first d u v =
      (rw sels (seed_selections-IsOnce catalog preferences [] tt), on_first, is_d, is_u) in
    let (once, on, same_d, same_u) = click_all-IsSelected web a at_first d u clicks s0 start in
    (click_save web s d u same_d same_u, contains-saved_ids a s.view.selections once ∙ on)
