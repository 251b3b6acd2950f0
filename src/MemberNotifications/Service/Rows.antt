-- ===== src/MemberNotifications/Service/Rows.antt =====
-- What a row and a list of rows satisfy, and the writes that keep it.
use rsl_mom_bot.Prelude.{
  ℕ, ◌+◌, ◌<◌, String, ◌≡◌, refl, Bool, true, false, ◌||◌, ◌==◌, List, [], ◌∷◌, ◌++◌, All, any,
  filter, find?, arith, eq_iff, some,
}
use rsl_mom_bot.MemberNotifications.Models.{MemberNotification}
use rsl_mom_bot.MemberNotifications.Service.{
  is_valid_cadence, is_valid_discord_id, has_name, on_minute, Field, has_bad_cadence,
  has_bad_target, set_field, set_fields, replace,
}

-- What a stored row satisfies.
abbrev pub IsStored : MemberNotification → Type 0
IsStored r =
    (is_valid_cadence r.cadence ≡ true)
    × (is_valid_discord_id r.target_discord_id ≡ true)
    × (on_minute r.fire_time_utc ≡ true)

abbrev pub has_id : ℕ → MemberNotification → Bool
has_id id r = r.id == id

-- No name and no key stands twice.
abbrev pub IsApart : List MemberNotification → Type 0
IsApart [] = Unit
IsApart (r ∷ rows) =
    (any (has_name r.name) rows ≡ false) × (any (has_id r.id) rows ≡ false) × IsApart rows

abbrev pub IsBelow : ℕ → List MemberNotification → Type 0
IsBelow n rows = All (λ r. r.id < n) rows

pub stored-append :
    (rows : List MemberNotification) (r : MemberNotification)
    → All IsStored rows
    → IsStored r
    → All IsStored (rows ++ r ∷ [])
stored-append [] r h k = (k, tt)
stored-append (x ∷ rows) r h k = (h.0, stored-append rows r h.1 k)

pub IsBelow-append :
    (n : ℕ) (rows : List MemberNotification) (r : MemberNotification)
    → IsBelow n rows
    → r.id ≡ n
    → IsBelow (n + 1) (rows ++ r ∷ [])
IsBelow-append n [] r h k = (omega arith, tt)
IsBelow-append n (x ∷ rows) r h k = (omega arith, IsBelow-append n rows r h.1 k)

pub any-append :
    (p : MemberNotification → Bool) (rows : List MemberNotification) (r : MemberNotification)
    → any p (rows ++ r ∷ []) ≡ (any p rows || p r)
any-append p [] r = ground arith
any-append p (x ∷ rows) r = ground (arith, any-append p rows r)

pub IsApart-append :
    (n : ℕ) (rows : List MemberNotification) (r : MemberNotification)
    → IsApart rows
    → IsBelow n rows
    → r.id ≡ n
    → any (has_name r.name) rows ≡ false
    → IsApart (rows ++ r ∷ [])
IsApart-append n [] r h b k f = (refl, refl, tt)
IsApart-append n (x ∷ rows) r h b k f = ground (
  arith,
  any-append (has_name x.name) rows r,
  any-append (has_id x.id) rows r,
  eq_iff x.name r.name,
  eq_iff r.name x.name,
  IsApart-append n rows r h.2 b.1 k,
)

pub any-filter :
    (p q : MemberNotification → Bool) (rows : List MemberNotification)
    → any p rows ≡ false
    → any p (filter q rows) ≡ false
any-filter p q [] h = refl
any-filter p q (x ∷ rows) h = ground (arith, any-filter p q rows)

pub stored-filter :
    (q : MemberNotification → Bool) (rows : List MemberNotification)
    → All IsStored rows
    → All IsStored (filter q rows)
stored-filter q [] h = tt
stored-filter q (x ∷ rows) h = ground (arith, stored-filter q rows h.1)

pub IsApart-filter :
    (q : MemberNotification → Bool) (rows : List MemberNotification)
    → IsApart rows
    → IsApart (filter q rows)
IsApart-filter q [] h = tt
IsApart-filter q (x ∷ rows) h = ground (
  arith,
  any-filter (has_name x.name) q rows,
  any-filter (has_id x.id) q rows,
  IsApart-filter q rows h.2,
)

pub IsBelow-filter :
    (n : ℕ) (q : MemberNotification → Bool) (rows : List MemberNotification)
    → IsBelow n rows
    → IsBelow n (filter q rows)
IsBelow-filter n q [] h = tt
IsBelow-filter n q (x ∷ rows) h = ground (arith, IsBelow-filter n q rows h.1)

-- The fields that no keyword argument can change.
pub set_fields_keeps :
    (fs : List Field) (r : MemberNotification)
    → ((set_fields fs r).name ≡ r.name) × ((set_fields fs r).id ≡ r.id)
unfolding set_fields
set_fields_keeps [] r = (refl, refl)
set_fields_keeps (Field.other key ∷ fs) r = set_fields_keeps fs r
set_fields_keeps (f ∷ fs) r = set_fields_keeps fs (set_field f r)

-- Checked arguments leave a row with a known cadence and a canonical Discord id.
pub set_fields-stored :
    (fs : List Field) (r : MemberNotification)
    → any has_bad_cadence fs ≡ false
    → any has_bad_target fs ≡ false
    → (is_valid_cadence r.cadence ≡ true) × (is_valid_discord_id r.target_discord_id ≡ true)
    → (is_valid_cadence (set_fields fs r).cadence ≡ true)
      × (is_valid_discord_id (set_fields fs r).target_discord_id ≡ true)
unfolding set_fields
set_fields-stored [] r c t h = h
set_fields-stored (f ∷ fs) r c t h = ground (arith, set_fields-stored fs (set_field f r))

pub stored-replace :
    (name : String) (new : MemberNotification) (rows : List MemberNotification)
    → All IsStored rows
    → IsStored new
    → All IsStored (replace name new rows)
unfolding replace
stored-replace name new [] h k = tt
stored-replace name new (x ∷ rows) h k = ground (arith, stored-replace name new rows h.1 k)

-- A row of the name is where `get` found it.
pub stored-find :
    (name : String) (r : MemberNotification) (rows : List MemberNotification)
    → All IsStored rows
    → find? (has_name name) rows ≡ some r
    → IsStored r
stored-find name r [] h e = cc
stored-find name r (x ∷ rows) h e = ground (arith, stored-find name r rows h.1)

-- Where no row has the name, nothing is replaced.
pub replace_absent :
    (name : String) (new : MemberNotification) (rows : List MemberNotification)
    → any (has_name name) rows ≡ false
    → replace name new rows ≡ rows
unfolding replace
replace_absent name new [] h = refl
replace_absent name new (x ∷ rows) h = ground (arith, replace_absent name new rows)

module _ (name : String) (row new : MemberNotification) (same_name : new.name ≡ name)
    (same_id : new.id ≡ row.id) where
  pub any_id-replace :
      (id : ℕ) (rows : List MemberNotification)
      → IsApart rows
      → find? (has_name name) rows ≡ some row
      → any (has_id id) (replace name new rows) ≡ any (has_id id) rows
  unfolding replace
  any_id-replace id [] a e = refl
  any_id-replace id (x ∷ rows) a e =
      ground (arith, eq_iff x.name name, replace_absent name new rows, any_id-replace id rows a.2)

  pub any_name-replace :
      (k : String) (rows : List MemberNotification)
      → any (has_name k) (replace name new rows) ≡ any (has_name k) rows
  unfolding replace
  any_name-replace k [] = refl
  any_name-replace k (x ∷ rows) = ground (arith, eq_iff x.name name, any_name-replace k rows)

  pub IsApart-replace :
      (rows : List MemberNotification)
      → IsApart rows
      → find? (has_name name) rows ≡ some row
      → IsApart (replace name new rows)
  unfolding replace
  IsApart-replace [] a e = tt
  IsApart-replace (x ∷ rows) a e = ground (
    arith,
    eq_iff x.name name,
    any_name-replace x.name rows,
    any_id-replace x.id rows a.2,
    replace_absent name new rows,
    IsApart-replace rows a.2,
  )

  pub IsBelow-replace :
      (n : ℕ) (rows : List MemberNotification)
      → IsBelow n rows
      → find? (has_name name) rows ≡ some row
      → IsApart rows
      → IsBelow n (replace name new rows)
  unfolding replace
  IsBelow-replace n [] b e a = tt
  IsBelow-replace n (x ∷ rows) b e a =
      ground (arith, eq_iff x.name name, replace_absent name new rows, IsBelow-replace n rows b.1)

pub find?-name :
    (name : String) (row : MemberNotification) (rows : List MemberNotification)
    → find? (has_name name) rows ≡ some row
    → row.name ≡ name
find?-name name row [] e = cc
find?-name name row (x ∷ rows) e = ground (arith, eq_iff x.name name, find?-name name row rows)
