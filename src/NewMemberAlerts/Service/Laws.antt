-- ===== src/NewMemberAlerts/Service/Laws.antt =====
-- What the subscriptions are after a change, and whom the listing names.
use rsl_mom_bot.Prelude.{
  String, ◌≡◌, refl, Bool, false, not, ◌&&◌, ◌||◌, ◌=ₛ◌, if◌then◌else◌, List, [], ◌∷◌, ◌++◌, any,
  arith, eq_iff,
}
use rsl_mom_bot.NewMemberAlerts.Service.{
  Subscription, is_of, delete_found, is_subscribed, set_subscription, list_subscriber_ids,
}

-- No guild and user stand twice: the UNIQUE constraint.
abbrev pub IsUnique : List Subscription → Type 0
IsUnique [] = Unit
IsUnique (r ∷ rows) = (any (is_of r.guild_id r.user_id) rows ≡ false) × IsUnique rows

-- Are the two pairs the same officer of the same guild?
abbrev pub same_officer : String → String → String → String → Bool
same_officer g u h v = (g =ₛ h) && (u =ₛ v)

any-append :
    (g u h v : String) (rows : List Subscription)
    → any (is_of h v) (rows ++ record { guild_id = g; user_id = u } ∷ [])
      ≡ (same_officer g u h v || any (is_of h v) rows)
any-append g u h v [] = ground arith
any-append g u h v (r ∷ rows) = ground (arith, any-append g u h v rows)

any-delete_found :
    (g u h v : String) (rows : List Subscription)
    → IsUnique rows
    → any (is_of h v) (delete_found g u rows) ≡ (not (same_officer g u h v) && any (is_of h v) rows)
unfolding delete_found
any-delete_found g u h v [] i = ground arith
any-delete_found g u h v (r ∷ rows) i = ground (
  arith,
  eq_iff r.guild_id g,
  eq_iff r.user_id u,
  eq_iff g h,
  eq_iff u v,
  eq_iff r.guild_id h,
  eq_iff r.user_id v,
  any-delete_found g u h v rows i.1,
)

-- Of a table that holds no pair twice: after a change the officer is subscribed exactly if the
-- change enabled it, and every other officer is as before.
pub is_subscribed-set_subscription :
    (g u h v : String) (enabled : Bool) (rows : List Subscription)
    → IsUnique rows
    → is_subscribed h v (set_subscription g u enabled rows)
      ≡ (if same_officer g u h v then enabled else is_subscribed h v rows)
unfolding is_subscribed set_subscription
is_subscribed-set_subscription g u h v enabled rows i =
    ground (arith, eq_iff g h, eq_iff u v, any-append g u h v rows, any-delete_found g u h v rows i)

IsUnique-append :
    (g u : String) (rows : List Subscription)
    → IsUnique rows
    → any (is_of g u) rows ≡ false
    → IsUnique (rows ++ record { guild_id = g; user_id = u } ∷ [])
IsUnique-append g u [] i n = (refl, tt)
IsUnique-append g u (r ∷ rows) i n = ground (
  arith,
  eq_iff g r.guild_id,
  eq_iff u r.user_id,
  any-append g u r.guild_id r.user_id rows,
  IsUnique-append g u rows i.1,
)

IsUnique-delete_found :
    (g u : String) (rows : List Subscription) → IsUnique rows → IsUnique (delete_found g u rows)
unfolding delete_found
IsUnique-delete_found g u [] i = tt
IsUnique-delete_found g u (r ∷ rows) i =
    ground (
      arith,
      any-delete_found g u r.guild_id r.user_id rows i.1,
      IsUnique-delete_found g u rows i.1,
    )

-- A change of a table that holds no pair twice leaves one that holds no pair twice.
pub set_subscription-IsUnique :
    (g u : String) (enabled : Bool) (rows : List Subscription)
    → IsUnique rows
    → IsUnique (set_subscription g u enabled rows)
unfolding set_subscription is_subscribed
set_subscription-IsUnique g u enabled rows i =
    ground (arith, IsUnique-append g u rows i, IsUnique-delete_found g u rows i)

abbrev pub contains_text : String → List String → Bool
contains_text a [] = false
contains_text a (x ∷ xs) = (x =ₛ a) || contains_text a xs

-- The listing of a guild names exactly its subscribed officers.
pub list_subscriber_ids-is_subscribed :
    (g u : String) (rows : List Subscription)
    → contains_text u (list_subscriber_ids g rows) ≡ is_subscribed g u rows
unfolding list_subscriber_ids is_subscribed
list_subscriber_ids-is_subscribed g u [] = refl
list_subscriber_ids-is_subscribed g u (r ∷ rows) =
    ground (arith, list_subscriber_ids-is_subscribed g u rows)
