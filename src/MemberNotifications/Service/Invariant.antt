-- ===== src/MemberNotifications/Service/Invariant.antt =====
-- What the writing methods keep true of the table, and that a method that raises changes nothing.
use rsl_mom_bot.Prelude.{
  ℕ, String, ◌≡◌, refl, Bool, false, not, ◌==◌, List, All, any, find?, arith, Option, none, some,
  Option-cases, inl, inr, ◌∙◌,
}
use rsl_mom_bot.Prelude.Exec.{Result, ok, err}
use rsl_mom_bot.Date.{Date}
use rsl_mom_bot.MemberNotifications.Models.{MemberNotification, Db}
use rsl_mom_bot.MemberNotifications.Service.{
  has_name, create, get, Field, has_bad_cadence, has_bad_target, set_fields, write_fields, update,
  delete_found, delete,
}
use rsl_mom_bot.MemberNotifications.Service.Rows.{
  IsStored, IsApart, IsBelow, IsApart-append, IsApart-filter, IsApart-replace, IsBelow-append,
  IsBelow-filter, IsBelow-replace, find?-name, set_fields-stored, set_fields_keeps, stored-append,
  stored-filter, stored-find, stored-replace,
}

pub record IsValid (db : Db) : Type 0 where
  pub stored : All IsStored db.rows
  pub apart : IsApart db.rows
  pub below : IsBelow db.next_id db.rows

-- What a call that began at `db` has done: it kept the invariant, or raised and changed nothing.
abbrev pub Commits : {A : Type 0} → Db → Result A × Db → Type 0
Commits db (ok _, db') = IsValid db'
Commits db (err _, db') = db' ≡ db

pub Commits-IsValid :
    {A : Type 0} (db : Db) (end : Result A × Db) → IsValid db → Commits db end → IsValid end.1
Commits-IsValid db (ok a, db') v c = c
Commits-IsValid db (err e, db') v c = rw c v

-- `create` keeps the invariant: every stored row has a known cadence, a canonical Discord id and a
-- time on the minute, no two rows share a name or a key. If it raises, nothing has changed.
pub create-Commits :
    (violation : String → String) (name target : String) (anchor : Date) (time : ℕ)
    (cadence message : String) (enabled : Bool) (db : Db)
    → IsValid db
    → Commits db (create violation name target anchor time cadence message enabled db)
unfolding create
create-Commits violation name target anchor time cadence message enabled db v = ground (
  arith,
  stored-append db.rows (row),
  IsApart-append db.next_id db.rows row,
  IsBelow-append db.next_id db.rows row,
)
  where
    row : MemberNotification
    row = record {
      id = db.next_id;
      name = name;
      target_discord_id = target;
      anchor_date_utc = anchor;
      fire_time_utc = time;
      cadence = cadence;
      message_template = message;
      enabled = enabled;
    }

delete_found-Commits :
    (o : Option MemberNotification) (db : Db) → IsValid db → Commits db (delete_found o db)
unfolding delete_found
delete_found-Commits none db v = refl
delete_found-Commits (some row) db v =
    let keep : MemberNotification → Bool = λ r. not (r.id == row.id) in
    record {
      stored = stored-filter keep db.rows v.stored;
      apart = IsApart-filter keep db.rows v.apart;
      below = IsBelow-filter db.next_id keep db.rows v.below;
    }

-- `delete` keeps the invariant; of a name that is not there it raises and changes nothing.
pub delete-Commits : (name : String) (db : Db) → IsValid db → Commits db (delete name db)
unfolding delete
delete-Commits name db v = delete_found-Commits (get name db) db v

write_fields-Commits :
    (name : String) (fs : List Field) (db : Db)
    → IsValid db
    → any has_bad_cadence fs ≡ false
    → any has_bad_target fs ≡ false
    → Commits db (write_fields name fs (get name db) db)
unfolding write_fields get
write_fields-Commits name fs db v c t = elim (Option-cases (find? (has_name name) db.rows)) [
  | inl e ↦ rw e
  | inr (row, e) ↦
      let new = set_fields fs row in
      let keeps = set_fields_keeps fs row in
      let named = keeps.0 ∙ find?-name name row db.rows e in
      let stored = stored-find name row db.rows v.stored e in
      rw e (
        ground (
          arith,
          set_fields-stored fs row c t (stored.0, stored.1),
          stored-replace name new db.rows v.stored,
          IsApart-replace name row new named keeps.1 db.rows v.apart e,
          IsBelow-replace name row new named keeps.1 db.next_id db.rows v.below e v.apart,
        ))
]

-- `update` keeps the invariant, whatever the keyword arguments; if it raises, nothing has changed.
pub update-Commits :
    (name : String) (fields : List Field) (db : Db)
    → IsValid db
    → Commits db (update name fields db)
unfolding update
update-Commits name fields db v = ground (arith, write_fields-Commits name fields db v)
