-- ===== src/Reminders/Scheduler/Removed.antt =====
-- The keys of removed notifications, and what calls of the service do to the sent rows of a key.
use rsl_mom_bot.Prelude.{
  ℕ, ◌<◌, String, ◌≡◌, refl, sym, ◌∙◌, Bool, true, false, not, ◌&&◌, ◌||◌, ◌==◌, ltb, arith, List,
  [], ◌∷◌, any, filter, find?, some, Option-cases, Bool-cases, ==→eq, inl, inr,
}
use rsl_mom_bot.Date.{Date}
use rsl_mom_bot.Reminders.SentStore.{SentTable, has_row}
use rsl_mom_bot.MemberNotifications.Models.{MemberNotification, Db}
use rsl_mom_bot.MemberNotifications.Service.{
  has_name, create, get, Field, set_fields, write_fields, update, is_sent_of, remove, delete_found,
  delete,
}
use rsl_mom_bot.MemberNotifications.Service.Rows.{
  has_id, IsBelow, any-append, any-filter, any_id-replace, set_fields_keeps, find?-name,
}
use rsl_mom_bot.MemberNotifications.Service.Contract.{
  Args, Call, add, change, drop, service_create, call,
}
use rsl_mom_bot.MemberNotifications.Service.Invariant.{
  IsValid, Commits-IsValid, create-Commits, update-Commits, delete-Commits,
}

-- A key that was given out, and has no row any more.
abbrev pub is_removed : ℕ → Db → Bool
is_removed id db = ltb id db.next_id && not (any (has_id id) db.rows)

abbrev pub is_settled : ℕ → Date → Db → Bool
is_settled id day db = has_row id day db.sent || is_removed id db

create-settled :
    (violation : String → String) (a : Args) (db : Db) (id : ℕ) (day : Date)
    → is_settled id day db ≡ true
    → is_settled id day (service_create violation a db).1 ≡ true
unfolding create
create-settled violation a db id day h = ground (arith, any-append (has_id id) db.rows row)
  where
    row : MemberNotification
    row = record {
      id = db.next_id;
      name = a.name;
      target_discord_id = a.target;
      anchor_date_utc = a.anchor;
      fire_time_utc = a.time;
      cadence = a.cadence;
      message_template = a.message;
      enabled = a.enabled;
    }

write_fields-settled :
    (name : String) (fs : List Field) (db : Db) (id : ℕ) (day : Date)
    → IsValid db
    → is_settled id day db ≡ true
    → is_settled id day (write_fields name fs (get name db) db).1 ≡ true
unfolding write_fields get
write_fields-settled name fs db id day v h = elim (Option-cases (find? (has_name name) db.rows)) [
  | inl e ↦ rw e h
  | inr (row, e) ↦
      let new = set_fields fs row in
      let keeps = set_fields_keeps fs row in
      let named = keeps.0 ∙ find?-name name row db.rows e in
      rw e (ground (arith, any_id-replace name row new named keeps.1 id db.rows v.apart e))
]

update-settled :
    (name : String) (fields : List Field) (db : Db) (id : ℕ) (day : Date)
    → IsValid db
    → is_settled id day db ≡ true
    → is_settled id day (update name fields db).1 ≡ true
unfolding update
update-settled name fields db id day v h =
    ground (arith, write_fields-settled name fields db id day v)

has_row-filter :
    (key id : ℕ) (day : Date) (rows : SentTable)
    → (key == id) ≡ false
    → has_row id day (filter (λ s. not (is_sent_of key s)) rows) ≡ has_row id day rows
unfolding has_row
has_row-filter key id day [] h = refl
has_row-filter key id day (s ∷ rows) h = ground (arith, has_row-filter key id day rows)

no_key :
    (key : ℕ) (rows : List MemberNotification)
    → any (has_id key) (filter (λ r. not (r.id == key)) rows) ≡ false
no_key key [] = refl
no_key key (r ∷ rows) = ground (arith, no_key key rows)

found_below :
    (n : ℕ) (name : String) (row : MemberNotification) (rows : List MemberNotification)
    → IsBelow n rows
    → find? (has_name name) rows ≡ some row
    → row.id < n
found_below n name row [] b e = cc
found_below n name row (x ∷ rows) b e = ground (arith, found_below n name row rows b.1)

remove-settled :
    (row : MemberNotification) (db : Db) (id : ℕ) (day : Date)
    → row.id < db.next_id
    → is_settled id day db ≡ true
    → is_settled id day (remove row db) ≡ true
remove-settled row db id day below h = elim (Bool-cases (row.id == id)) [
  | inl e ↦
      let same = ==→eq row.id id e in rw (sym same) (ground (arith, no_key row.id db.rows, below))
  | inr f ↦ ground (
    arith,
    has_row-filter row.id id day db.sent f,
    any-filter (has_id id) (λ r. not (r.id == row.id)) db.rows,
  )
]

delete-settled :
    (name : String) (db : Db) (id : ℕ) (day : Date)
    → IsValid db
    → is_settled id day db ≡ true
    → is_settled id day (delete name db).1 ≡ true
unfolding delete delete_found get
delete-settled name db id day v h = elim (Option-cases (find? (has_name name) db.rows)) [
  | inl e ↦ rw e h
  | inr (row, e) ↦
      rw e (remove-settled row db id day (found_below db.next_id name row db.rows v.below e) h)
]

-- A call of the service leaves a key settled: its sent row is there, or its row is gone for good.
pub call-settled :
    (violation : String → String) (c : Call) (db : Db) (id : ℕ) (day : Date)
    → IsValid db
    → is_settled id day db ≡ true
    → is_settled id day (call violation c db).1 ≡ true
unfolding call
call-settled violation (add a) db id day v h = create-settled violation a db id day h
call-settled violation (change name fields) db id day v h = update-settled name fields db id day v h
call-settled violation (drop name) db id day v h = delete-settled name db id day v h

pub call-IsValid :
    (violation : String → String) (c : Call) (db : Db)
    → IsValid db
    → IsValid (call violation c db).1
unfolding call
call-IsValid violation (add a) db v =
    Commits-IsValid db (service_create violation a db) v
      (create-Commits violation a.name a.target a.anchor a.time a.cadence a.message a.enabled db v)
call-IsValid violation (change name fields) db v =
    Commits-IsValid db (update name fields db) v (update-Commits name fields db v)
call-IsValid violation (drop name) db v =
    Commits-IsValid db (delete name db) v (delete-Commits name db v)
