-- ===== src/MemberNotifications/Service/Refinement.antt =====
-- The service against a map from names to notifications: the table, its order and its look-ups are
-- an implementation of that map.
use mathlib.Core.Path.{ap₂}
use rsl_mom_bot.Prelude.{
  ◌+◌, String, ◌≡◌, refl, sym, ap, ◌∙◌, true, false, if◌then◌else◌, List, [], ◌∷◌, ◌++◌, any, find?,
  arith, none, some, Option-cases, Bool-cases, inl, inr,
}
use rsl_mom_bot.Prelude.Exec.{
  Error, Result, ok, err, value_error, duplicate_notification, notification_not_found,
  invalid_discord_id, integrity_error,
}
use rsl_mom_bot.PyText.{is_substring}
use rsl_mom_bot.MemberNotifications.Models.{MemberNotification, Db}
use rsl_mom_bot.MemberNotifications.Service.{
  has_name, is_valid_cadence, is_valid_discord_id, name_unique_marker, on_minute, create, get,
  Field, is_other, has_bad_cadence, has_bad_target, set_fields, replace, write_fields, update,
  remove, delete_found, delete,
}
use rsl_mom_bot.MemberNotifications.Service.Contract.{
  Args, Call, Contract, with_name, new_notification, add_where, drop_where, add_to, change_in,
  service_create, Implements, Agrees, call, promised, run_calls, run_promised, add, change, drop,
  row, done,
}
use rsl_mom_bot.MemberNotifications.Service.Invariant.{
  IsValid, create-Commits, update-Commits, delete-Commits,
}
use rsl_mom_bot.MemberNotifications.Service.Lookup.{any_absent, get-create, get-update, get-delete}

found_any :
    (name : String) (rows : List MemberNotification) (r : MemberNotification)
    → find? (has_name name) rows ≡ some r
    → any (has_name name) rows ≡ true
found_any name [] r h = cc
found_any name (x ∷ rows) r h = ground (arith, found_any name rows r)

taken_any :
    (name : String) (db : Db) (r : MemberNotification)
    → get name db ≡ some r
    → any (has_name name) db.rows ≡ true
unfolding get
taken_any name db r h = found_any name db.rows r h

free_any : (name : String) (db : Db) → get name db ≡ none → any (has_name name) db.rows ≡ false
unfolding get
free_any name db h = any_absent name db.rows h

-- A call that is refused on both sides.
refused-Agrees :
    {A : Type 0} (e : Error) (c : Contract) (db : Db) (spec : Result A × Contract)
    (end : Result A × Db)
    → Implements c db
    → spec ≡ (err e, c)
    → end ≡ (err e, db)
    → Agrees spec end
refused-Agrees e c db spec end h p q = rw (p, q) (refl, h)

-- A new row under a name that is free.
added-Agrees :
    (violation : String → String) (a : Args) (c : Contract) (db : Db)
    → Implements c db
    → c.lookup a.name ≡ none
    → service_create violation a db ≡ (
      ok (new_notification db.next_id a),
      record db { rows = db.rows ++ new_notification db.next_id a ∷ []; next_id = db.next_id + 1 },
    )
    → Agrees (add_where violation a c none) (service_create violation a db)
added-Agrees violation a c db (ids, same, valid) free done_so =
    let new = new_notification db.next_id a in
    let end : Db = record db { rows = db.rows ++ new ∷ []; next_id = db.next_id + 1 } in
    let kept =
      create-Commits violation a.name a.target a.anchor a.time a.cadence a.message a.enabled db
        valid in
    let still : IsValid end = rw done_so at kept in
    rw done_so (
      rw ids refl,
      (
        rw ids refl,
        λ j.
            let (found, _, _, _, _) =
              get-create violation a.name a.target a.anchor a.time a.cadence a.message a.enabled db
                new j (rw done_so refl) in
            rw (sym ids, sym (same j)) (rw done_so at found),
        still,
      ),
    )

add-Agrees :
    (violation : String → String) (a : Args) (c : Contract) (db : Db)
    → Implements c db
    → Agrees (add_to violation a c) (service_create violation a db)
unfolding add_to create
add-Agrees violation a c db h =
    let end = service_create violation a db in
    let spec = add_to violation a c in
    elim (Bool-cases (is_valid_cadence a.cadence)) [
      | inr f ↦
          refused-Agrees value_error c db spec end h (rw (add_to, f) refl) (rw (create, f) refl)
      | inl t ↦ elim (Bool-cases (is_valid_discord_id a.target)) [
        | inr f ↦
            refused-Agrees invalid_discord_id c db spec end h (rw (add_to, t, f) refl)
              (rw (create, t, f) refl)
        | inl t2 ↦ elim (Bool-cases (on_minute a.time)) [
          | inr f ↦
              refused-Agrees integrity_error c db spec end h (rw (add_to, t, t2, f) refl)
                (rw (create, t, t2, f) refl)
          | inl t3 ↦ elim (Option-cases (get a.name db)) [
            | inr (r, e) ↦
                let here = sym (h.1 a.name) ∙ e in
                let taken = taken_any a.name db r e in
                refused-Agrees
                  (if is_substring name_unique_marker (violation a.name)
                    then duplicate_notification
                    else integrity_error)
                  c db spec end h (rw (add_to, t, t2, t3, here) refl)
                  (rw (create, t, t2, t3, taken) refl)
            | inl e ↦
                let here = sym (h.1 a.name) ∙ e in
                let free = free_any a.name db e in
                let as_spec : spec ≡ add_where violation a c none =
                  rw (add_to, t, t2, t3, here) refl in
                rw as_spec
                  (added-Agrees violation a c db h here (rw (create, t, t2, t3, free) refl))
          ]
        ]
      ]
    ]

-- The new fields of a row under its name.
changed-Agrees :
    (name : String) (fields : List Field) (c : Contract) (db : Db) (old : MemberNotification)
    → Implements c db
    → get name db ≡ some old
    → let new = set_fields fields old in
      (update name fields db ≡ (ok new, record db { rows = replace name new db.rows }))
      → Agrees (ok new, record c { lookup = with_name name (some new) c }) (update name fields db)
changed-Agrees name fields c db old (ids, same, valid) here done_so =
    let new = set_fields fields old in
    let end : Db = record db { rows = replace name new db.rows } in
    let kept = update-Commits name fields db valid in
    let still : IsValid end = rw done_so at kept in
    rw done_so (
      refl,
      (
        ids,
        λ j.
            let (_, _, _, found) = get-update name fields db new j (rw done_so refl) in
            rw (sym (same j)) (rw done_so at found),
        still,
      ),
    )

change-Agrees :
    (name : String) (fields : List Field) (c : Contract) (db : Db)
    → Implements c db
    → Agrees (change_in name fields c) (update name fields db)
unfolding change_in update
change-Agrees name fields c db h =
    let end = update name fields db in
    let spec = change_in name fields c in
    elim (Bool-cases (any is_other fields)) [
      | inl t ↦
          refused-Agrees value_error c db spec end h (rw (change_in, t) refl) (rw (update, t) refl)
      | inr f ↦ elim (Bool-cases (any has_bad_cadence fields)) [
        | inl t ↦
            refused-Agrees value_error c db spec end h (rw (change_in, f, t) refl)
              (rw (update, f, t) refl)
        | inr f2 ↦ elim (Bool-cases (any has_bad_target fields)) [
          | inl t ↦
              refused-Agrees invalid_discord_id c db spec end h (rw (change_in, f, f2, t) refl)
                (rw (update, f, f2, t) refl)
          | inr f3 ↦ elim (Option-cases (get name db)) [
            | inl e ↦
                let here = sym (h.1 name) ∙ e in
                refused-Agrees notification_not_found c db spec end h
                  (rw (change_in, f, f2, f3, here) refl)
                  (rw (update, f, f2, f3, e, write_fields) refl)
            | inr (old, e) ↦
                let here = sym (h.1 name) ∙ e in
                let new = set_fields fields old in
                elim (Bool-cases (on_minute new.fire_time_utc)) [
                  | inr g ↦
                      refused-Agrees integrity_error c db spec end h
                        (rw (change_in, f, f2, f3, here, g) refl)
                        (rw (update, f, f2, f3, e, write_fields, g) refl)
                  | inl g ↦
                      let as_spec : spec
                          ≡ (ok new, record c { lookup = with_name name (some new) c }) =
                        rw (change_in, f, f2, f3, here, g) refl in
                      rw as_spec (
                        changed-Agrees name fields c db old h e
                          (rw (update, f, f2, f3, e, write_fields, g) refl))
                ]
          ]
        ]
      ]
    ]

drop-Agrees :
    (name : String) (c : Contract) (db : Db)
    → Implements c db
    → Agrees (drop_where name c (c.lookup name)) (delete name db)
unfolding delete
drop-Agrees name c db h = elim (Option-cases (get name db)) [
  | inl e ↦ let here = sym (h.1 name) ∙ e in rw (here, delete, e, delete_found) (refl, h)
  | inr (old, e) ↦
      let (ids, same, valid) = h in
      let here = sym (same name) ∙ e in
      let done_so : delete name db ≡ (ok tt, remove old db) = rw (delete, e, delete_found) refl in
      let kept = delete-Commits name db valid in
      let still : IsValid (remove old db) = rw done_so at kept in
      rw (here, done_so)
        (
          refl,
          (
            ids,
            λ j.
                let found = get-delete name j db valid (rw done_so refl) in
                rw (sym (same j)) (rw done_so at found),
            still,
          ),
        )
]

call-Implements :
    (violation : String → String) (x : Call) (c : Contract) (db : Db)
    → Implements c db
    → ((call violation x db).0 ≡ (promised violation x c).0)
      × Implements (promised violation x c).1 (call violation x db).1
unfolding call promised
call-Implements violation (add a) c db h =
    let (same, next) = add-Agrees violation a c db h in (ap row same, next)
call-Implements violation (change name fields) c db h =
    let (same, next) = change-Agrees name fields c db h in (ap row same, next)
call-Implements violation (drop name) c db h =
    let (same, next) = drop-Agrees name c db h in (ap done same, next)

-- From a table that implements a map of names, any calls of `create`, `update` and `delete` give the
-- answers that the map gives, errors included, and leave a valid table that implements the map that
-- the calls leave; `get` of a name is then a look-up in that map.
pub run_calls_refines :
    (violation : String → String) (calls : List Call) (c : Contract) (db : Db)
    → Implements c db
    → ((run_calls violation calls db).0 ≡ (run_promised violation calls c).0)
      × Implements (run_promised violation calls c).1 (run_calls violation calls db).1
unfolding run_calls run_promised
run_calls_refines violation [] c db h = (refl, h)
run_calls_refines violation (x ∷ calls) c db h =
    let (same, next) = call-Implements violation x c db h in
    let (rest, end) =
      run_calls_refines violation calls (promised violation x c).1 (call violation x db).1 next in
    (ap₂ ◌∷◌ same rest, end)
