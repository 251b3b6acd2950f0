-- ===== src/PostConditions/Commands/Editor.antt =====
-- The editor that `/post-conditions-set` opens, and what its Save button sends.
use rsl_mom_bot.Prelude.{ℕ, ◌≡◌, refl, ◌∙◌, ◌&&◌, ◌==◌, List, none, map, contains, any}
use rsl_mom_bot.Prelude.Exec.{
  Error, Result, ok, err, Exec, pure, continue, ◌>>=◌, ◌>>=ᵣ◌, overflow_error, value_error,
  duplicate_notification, notification_not_found, invalid_discord_id, integrity_error, config_error,
  forbidden, not_found, timeout_error, rate_limited, client_error, http_exception, cancelled,
  key_error, index_error, http_status, siege_web_auth, siege_web_not_found, siege_web_validation,
  siege_web_rate_limit, other_error,
}
use rsl_mom_bot.PostConditions.Models.{Condition}
use rsl_mom_bot.PostConditions.Client.{
  World, SiegeWeb, Other, list_catalog, get_my_preferences, set_my_preferences,
}
use rsl_mom_bot.PostConditions.GridView.{View, Embed, build_embed_for_current_page}
use rsl_mom_bot.PostConditions.GridView.Clicks.{Click, save, init_view, saved_ids, click, click_all}
use rsl_mom_bot.PostConditions.GridView.Selections.{after_clicks, save_sends_selected}
use rsl_mom_bot.PostConditions.Commands.{
  editor, refusal, fetch_both, open_editor, post_conditions_set,
}

-- A refusal opens no editor.
no_editor : (x : Error) (v : View) (embed : Embed) → refusal x ≡ ok (editor v embed) → ⊥
no_editor overflow_error v embed e = cc
no_editor value_error v embed e = cc
no_editor duplicate_notification v embed e = cc
no_editor notification_not_found v embed e = cc
no_editor invalid_discord_id v embed e = cc
no_editor integrity_error v embed e = cc
no_editor config_error v embed e = cc
no_editor forbidden v embed e = cc
no_editor not_found v embed e = cc
no_editor timeout_error v embed e = cc
no_editor rate_limited v embed e = cc
no_editor client_error v embed e = cc
no_editor (http_exception n) v embed e = cc
no_editor cancelled v embed e = cc
no_editor key_error v embed e = cc
no_editor index_error v embed e = cc
no_editor (http_status n) v embed e = cc
no_editor siege_web_auth v embed e = cc
no_editor siege_web_not_found v embed e = cc
no_editor siege_web_validation v embed e = cc
no_editor siege_web_rate_limit v embed e = cc
no_editor other_error v embed e = cc

from_ok :
    {A B : Type 0} (r : Result A) (f : A → Result B) (b : B)
    → (r >>=ᵣ f) ≡ ok b
    → (a : A) × (r ≡ ok a) × (f a ≡ ok b)
from_ok (ok a) f b e = (a, refl, e)
from_ok (err x) f b e = cc

-- Where an editor opens, both calls returned, and it shows a new view of what they returned.
opens :
    (d u : List ℕ) (r : Result (List Condition × List Condition)) (v : View) (embed : Embed)
    → open_editor d u r ≡ ok (editor v embed)
    → (both : List Condition × List Condition) × (r ≡ ok both)
      × (init_view both.0 (map (λ p. p.id) both.1) d u ≡ ok v)
unfolding open_editor
opens d u (err x) v embed e = elim (no_editor x v embed e) [ ]
opens d u (ok (catalog, prefs)) v embed e =
    let (view, started, rest) =
      from_ok (init_view catalog (map (λ p. p.id) prefs) d u)
        (λ view. build_embed_for_current_page view >>=ᵣ λ embed. ok (editor view embed))
        (editor v embed) e in
    let (built, _, same) =
      from_ok (build_embed_for_current_page view) (λ embed. ok (editor view embed)) (editor v embed)
        rest in
    ((catalog, prefs), refl, cc)

continued :
    {S A B : Type 0} (r : Result A) (f : A → Exec S B) (s : S) (b : B)
    → (continue r f s).0 ≡ ok b
    → (a : A) × (r ≡ ok a) × ((f a s).0 ≡ ok b)
continued (ok a) f s b e = (a, refl, e)
continued (err x) f s b e = cc

-- Where both calls returned, the first gave the catalog, and the second, made after it, the
-- preferences.
fetched :
    (web : SiegeWeb) (others : List Other) (d u : List ℕ) (w : World)
    (catalog prefs : List Condition)
    → (fetch_both web others d u w).0 ≡ ok (catalog, prefs)
    → ((list_catalog web others none w).0 ≡ ok catalog)
      × ((get_my_preferences web d u (list_catalog web others none w).1).0 ≡ ok prefs)
unfolding fetch_both
fetched web others d u w catalog prefs e =
    let w1 = (list_catalog web others none w).1 in
    let after : List Condition → Exec World (List Condition × List Condition) =
      λ c. get_my_preferences web d u >>= λ p. pure (c, p) in
    let (c, is_c, rest) =
      continued (list_catalog web others none w).0 after w1 (catalog, prefs) e in
    let (p, is_p, same) =
      continued (get_my_preferences web d u w1).0 (λ p. pure (c, p))
        (get_my_preferences web d u w1).1 (catalog, prefs) rest in
    (is_c ∙ cc, is_p ∙ cc)

-- If `/post-conditions-set` opens an editor, then the client gave a catalog and, after it, the
-- preferences of the user; and after any clicks on the editor, its Save makes the PUT of that user
-- with a list of ids that holds a condition exactly if it is on: it is on at first if it stands in
-- both, and each of its toggles turns it round.
pub post_conditions_set_lem :
    (web : SiegeWeb) (others : List Other) (d u : List ℕ) (w w' : World) (v : View) (embed : Embed)
    (clicks : List Click) (a : ℕ)
    → (post_conditions_set web others d u w).0 ≡ ok (editor v embed)
    → (catalog : List Condition) × (prefs : List Condition) × ((list_catalog web others none w).0
        ≡ ok catalog)
      × ((get_my_preferences web d u (list_catalog web others none w).1).0 ≡ ok prefs)
      × (let s = click_all web clicks (record { view = v; world = w' }) in
          let ids = saved_ids s.view.selections in
          let at_first = any (λ c. c.id == a) catalog && contains a (map (λ p. p.id) prefs) in
          ((click web save s).1.world ≡ (set_my_preferences web d u ids s.world).1)
          × (contains a ids ≡ after_clicks a at_first clicks))
unfolding post_conditions_set
post_conditions_set_lem web others d u w w' v embed clicks a e =
    let ((catalog, prefs), both, started) = opens d u (fetch_both web others d u w).0 v embed e in
    let (is_catalog, is_prefs) = fetched web others d u w catalog prefs both in
    (
      catalog,
      prefs,
      is_catalog,
      is_prefs,
      save_sends_selected web catalog (map (λ p. p.id) prefs) d u v w' clicks a started,
    )
