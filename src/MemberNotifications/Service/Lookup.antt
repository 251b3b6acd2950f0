-- ===== src/MemberNotifications/Service/Lookup.antt =====
-- What `get` returns after a write that did not raise.
use rsl_mom_bot.Prelude.{
  ℕ, String, ◌≡◌, refl, Bool, true, false, not, ◌==◌, ◌=ₛ◌, if◌then◌else◌, List, [], ◌∷◌, ◌++◌, any,
  filter, find?, arith, eq_iff, Option, none, some, ◌∙◌, Option-cases, inl, inr,
}
use rsl_mom_bot.Prelude.Exec.{ok}
use rsl_mom_bot.Date.{Date}
use rsl_mom_bot.MemberNotifications.Models.{MemberNotification, Db}
use rsl_mom_bot.MemberNotifications.Service.{
  has_name, is_valid_cadence, is_valid_discord_id, on_minute, create, get, Field, set_fields,
  replace, write_fields, update, delete_found, delete,
}
use rsl_mom_bot.MemberNotifications.Service.Invariant.{IsValid}
use rsl_mom_bot.MemberNotifications.Service.Rows.{IsApart, set_fields_keeps, find?-name, has_id}

find?-append :
    (j : String) (rows : List MemberNotification) (r : MemberNotification)
    → any (has_name r.name) rows ≡ false
    → find? (has_name j) (rows ++ r ∷ [])
      ≡ (if r.name =ₛ j then some r else find? (has_name j) rows)
find?-append j [] r h = refl
find?-append j (x ∷ rows) r h =
    ground (arith, eq_iff x.name j, eq_iff r.name j, eq_iff x.name r.name, find?-append j rows r)

-- After a `create` that returned a row, `get` of its name returns that row, which holds what was
-- given; `get` of any other name returns what it did before.
pub get-create :
    (violation : String → String) (name target : String) (anchor : Date) (time : ℕ)
    (cadence message : String) (enabled : Bool) (db : Db) (row : MemberNotification) (j : String)
    → (create violation name target anchor time cadence message enabled db).0 ≡ ok row
    → (get j (create violation name target anchor time cadence message enabled db).1
        ≡ (if name =ₛ j then some row else get j db))
      × (row.name ≡ name)
      × (row.anchor_date_utc ≡ anchor)
      × (row.cadence ≡ cadence)
      × (row.enabled ≡ enabled)
unfolding create get
get-create violation name target anchor time cadence message enabled db row j h =
    ground (arith, find?-append j db.rows new)
  where
    new : MemberNotification
    new = record {
      id = db.next_id;
      name = name;
      target_discord_id = target;
      anchor_date_utc = anchor;
      fire_time_utc = time;
      cadence = cadence;
      message_template = message;
      enabled = enabled;
    }

find?-replace_other :
    (name j : String) (new : MemberNotification) (rows : List MemberNotification)
    → new.name ≡ name
    → (name =ₛ j) ≡ false
    → find? (has_name j) (replace name new rows) ≡ find? (has_name j) rows
unfolding replace
find?-replace_other name j new [] h n = refl
find?-replace_other name j new (x ∷ rows) h n =
    ground (arith, eq_iff x.name name, find?-replace_other name j new rows h n)

find?-replace_self :
    (name : String) (new row : MemberNotification) (rows : List MemberNotification)
    → new.name ≡ name
    → find? (has_name name) rows ≡ some row
    → find? (has_name name) (replace name new rows) ≡ some new
unfolding replace
find?-replace_self name new row [] h e = cc
find?-replace_self name new row (x ∷ rows) h e =
    ground (arith, eq_iff name name, find?-replace_self name new row rows h)

update_passes :
    (name : String) (fields : List Field) (db : Db) (row : MemberNotification)
    → (update name fields db).0 ≡ ok row
    → update name fields db ≡ write_fields name fields (get name db) db
unfolding update
update_passes name fields db row h = ground arith

write_fields_found :
    (name : String) (fields : List Field) (db : Db) (row : MemberNotification) (j : String)
    (o : Option MemberNotification)
    → find? (has_name name) db.rows ≡ o
    → (write_fields name fields o db).0 ≡ ok row
    → (old : MemberNotification) × (o ≡ some old)
      × (row ≡ set_fields fields old)
      × (find? (has_name j) (write_fields name fields o db).1.rows
          ≡ (if name =ₛ j then some row else find? (has_name j) db.rows))
unfolding write_fields
write_fields_found name fields db row j none e h = cc
write_fields_found name fields db row j (some old) e h =
    let new = set_fields fields old in
    let named = (set_fields_keeps fields old).0 ∙ find?-name name old db.rows e in
    (
      old,
      refl,
      ground arith,
      ground (
        arith,
        eq_iff name j,
        find?-replace_other name j new db.rows named,
        find?-replace_self name new old db.rows named e,
      ),
    )

-- After an `update` that returned a row, the row is the old row of that name with the given fields
-- set; `get` of the name returns it, and `get` of any other name returns what it did before.
pub get-update :
    (name : String) (fields : List Field) (db : Db) (row : MemberNotification) (j : String)
    → (update name fields db).0 ≡ ok row
    → (old : MemberNotification) × (get name db ≡ some old)
      × (row ≡ set_fields fields old)
      × (get j (update name fields db).1 ≡ (if name =ₛ j then some row else get j db))
unfolding get
get-update name fields db row j h =
    let same = update_passes name fields db row h in
    rw same
      (write_fields_found name fields db row j (find? (has_name name) db.rows) refl (rw same at h))

find?_absent :
    (j : String) (rows : List MemberNotification)
    → any (has_name j) rows ≡ false
    → find? (has_name j) rows ≡ none
find?_absent j [] h = refl
find?_absent j (x ∷ rows) h = ground (arith, find?_absent j rows)

filter_absent :
    (id : ℕ) (rows : List MemberNotification)
    → any (has_id id) rows ≡ false
    → filter (λ r. not (r.id == id)) rows ≡ rows
filter_absent id [] h = refl
filter_absent id (x ∷ rows) h = ground (arith, filter_absent id rows)

find?-id :
    (name : String) (row : MemberNotification) (rows : List MemberNotification)
    → find? (has_name name) rows ≡ some row
    → any (has_id row.id) rows ≡ true
find?-id name row [] h = cc
find?-id name row (x ∷ rows) h = ground (arith, find?-id name row rows)

find?-remove :
    (name j : String) (row : MemberNotification) (rows : List MemberNotification)
    → IsApart rows
    → find? (has_name name) rows ≡ some row
    → find? (has_name j) (filter (λ r. not (r.id == row.id)) rows)
      ≡ (if name =ₛ j then none else find? (has_name j) rows)
find?-remove name j row [] a h = cc
find?-remove name j row (x ∷ rows) a h = ground (
  arith,
  eq_iff x.name name,
  eq_iff x.name j,
  eq_iff name j,
  filter_absent row.id rows,
  find?_absent name rows,
  find?-id name row rows,
  find?-remove name j row rows a.2,
)

-- After a `delete` that raised nothing, `get` of the name returns nothing, and `get` of any other
-- name returns what it did before.
pub get-delete :
    (name j : String) (db : Db)
    → IsValid db
    → (delete name db).0 ≡ ok tt
    → get j (delete name db).1 ≡ (if name =ₛ j then none else get j db)
unfolding delete delete_found get
get-delete name j db v h = elim (Option-cases (find? (has_name name) db.rows)) [
  | inl e ↦ ground arith
  | inr (row, e) ↦ rw (e, delete_found) (find?-remove name j row db.rows v.apart e)
]

-- A name that finds nothing has no row.
pub any_absent :
    (j : String) (rows : List MemberNotification)
    → find? (has_name j) rows ≡ none
    → any (has_name j) rows ≡ false
any_absent j [] h = refl
any_absent j (x ∷ rows) h = ground (arith, any_absent j rows)

-- Of a known cadence, a canonical Discord id, a time on the minute and a name that no row has,
-- `create` returns a row of what it was given, and `get` of the name returns that row afterwards.
pub create_succeeds :
    (violation : String → String) (name target : String) (anchor : Date) (time : ℕ)
    (cadence message : String) (enabled : Bool) (db : Db)
    → is_valid_cadence cadence ≡ true
    → is_valid_discord_id target ≡ true
    → on_minute time ≡ true
    → get name db ≡ none
    → let (r, db') = create violation name target anchor time cadence message enabled db in
      let row : MemberNotification = record {
        id = db.next_id;
        name = name;
        target_discord_id = target;
        anchor_date_utc = anchor;
        fire_time_utc = time;
        cadence = cadence;
        message_template = message;
        enabled = enabled;
      } in
      (r ≡ ok row) × (get name db' ≡ some row)
unfolding create get
create_succeeds violation name target anchor time cadence message enabled db c t m n =
    let row : MemberNotification = record {
      id = db.next_id;
      name = name;
      target_discord_id = target;
      anchor_date_utc = anchor;
      fire_time_utc = time;
      cadence = cadence;
      message_template = message;
      enabled = enabled;
    } in
    let free = any_absent name db.rows n in
    let same = (eq_iff name name).1 refl in
    (ground arith, ground (arith, same, find?-append name db.rows row))
