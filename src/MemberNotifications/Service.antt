-- ===== src/MemberNotifications/Service.antt =====
-- src/mom_bot/member_notifications/service.py. Each method opens one session: it commits, or
-- raises and leaves the tables alone.
pub mod Due
pub mod Rows
pub mod Invariant
pub mod Lookup
pub mod Contract
pub mod Refinement
mod Tests
use rsl_mom_bot.Prelude.{
  ℕ, ◌+◌, ◌%◌, String, Bool, true, false, not, ◌&&◌, ◌||◌, ◌==◌, ◌=ₛ◌, ltb, if◌then◌else◌, Option,
  none, some, List, [], ◌∷◌, ◌++◌, filter, find?, any,
}
use rsl_mom_bot.Prelude.Exec.{
  Result, ok, err, Exec, pure, raise, ◌>>=◌, ◌>>◌, ◌>>=ᵣ◌, value_error, duplicate_notification,
  notification_not_found, invalid_discord_id, integrity_error,
}
use rsl_mom_bot.PyText.{codes, int_of, str_of, codes_eq, is_substring}
use rsl_mom_bot.Date.{Date}
use rsl_mom_bot.Reminders.SentStore.{SentTable}
use rsl_mom_bot.Reminders.SentStore.MemberNotificationSentStore
use rsl_mom_bot.MemberNotifications.Models.{MemberNotification, Db}
use rsl_mom_bot.MemberNotifications.Schedule.{is_occurrence_date}

-- `cadence in _VALID_CADENCES`.
unfoldable pub is_valid_cadence : String → Bool
is_valid_cadence c = (c =ₛ "weekly") || (c =ₛ "biweekly") || (c =ₛ "monthly")

-- `_validate_discord_id`, which raises `InvalidDiscordIdError` where this is false.
unfoldable pub is_valid_discord_id : String → Bool
is_valid_discord_id value = elim (int_of value) [
  | none ↦ false
  | some z ↦ not (value =ₛ "") && codes_eq (str_of z) (codes value)
]

abbrev pub name_unique_marker : String
name_unique_marker = "member_notification.name"

abbrev pub has_name : String → MemberNotification → Bool
has_name name r = r.name =ₛ name

-- The CHECK `ck_member_notification_fire_time_no_seconds` of the migration.
abbrev pub on_minute : ℕ → Bool
on_minute t = t % 60 == 0

-- `violation` is the text of the database driver's error about a second row of one name. A key is
-- given out by a row that is stored only; a sequence of PostgreSQL also leaves out that of an INSERT
-- that is refused.
unfoldable pub create :
    (String → String)
    → String
    → String
    → Date
    → ℕ
    → String
    → String
    → Bool
    → Exec Db MemberNotification
unfolding is_valid_cadence is_valid_discord_id
create violation name target anchor time cadence message enabled db =
    let row : MemberNotification = record {
      id = db.next_id;
      name = name;
      target_discord_id = target;
      anchor_date_utc = anchor;
      fire_time_utc = time;
      cadence = cadence;
      message_template = message;
      enabled = enabled;
    } in
    if not (is_valid_cadence cadence)
    then (err value_error, db)
    else if not (is_valid_discord_id target)
    then (err invalid_discord_id, db)
    else if not (on_minute time)
    then (err integrity_error, db)
    else if any (has_name name) db.rows
    then (
      err (
          if is_substring name_unique_marker (violation name)
          then duplicate_notification
          else integrity_error),
      db,
    )
    else (ok row, record db { rows = db.rows ++ row ∷ []; next_id = db.next_id + 1 })

unfoldable pub get : String → Db → Option MemberNotification
get name db = find? (has_name name) db.rows

-- One keyword argument of `update`; `other` is a key outside `_MUTABLE_FIELDS`.
pub data Field : Type 0 where
  target_discord_id : String → Field
  anchor_date_utc : Date → Field
  fire_time_utc : ℕ → Field
  cadence : String → Field
  message_template : String → Field
  enabled : Bool → Field
  other : String → Field

abbrev pub is_other : Field → Bool
is_other (Field.other key) = true
is_other _ = false

abbrev pub has_bad_cadence : Field → Bool
has_bad_cadence (Field.cadence c) = not (is_valid_cadence c)
has_bad_cadence _ = false

abbrev pub has_bad_target : Field → Bool
has_bad_target (Field.target_discord_id t) = not (is_valid_discord_id t)
has_bad_target _ = false

-- `setattr(row, field_name, value)`.
abbrev pub set_field : Field → MemberNotification → MemberNotification
set_field (Field.target_discord_id t) r = record r { target_discord_id = t }
set_field (Field.anchor_date_utc d) r = record r { anchor_date_utc = d }
set_field (Field.fire_time_utc t) r = record r { fire_time_utc = t }
set_field (Field.cadence c) r = record r { cadence = c }
set_field (Field.message_template m) r = record r { message_template = m }
set_field (Field.enabled b) r = record r { enabled = b }
set_field (Field.other key) r = r

unfoldable pub set_fields : List Field → MemberNotification → MemberNotification
set_fields [] r = r
set_fields (f ∷ fs) r = set_fields fs (set_field f r)

-- The row of that name is written back; names are unique.
unfoldable pub replace :
    String → MemberNotification → List MemberNotification → List MemberNotification
replace name new [] = []
replace name new (r ∷ rows) = (if has_name name r then new else r) ∷ replace name new rows

-- The end of `update`, once the row was looked up.
unfoldable pub write_fields :
    String → List Field → Option MemberNotification → Exec Db MemberNotification
unfolding set_fields replace
write_fields name fields none db = (err notification_not_found, db)
write_fields name fields (some row) db =
    let new = set_fields fields row in
    if not (on_minute new.fire_time_utc)
    then (err integrity_error, db)
    else (ok new, record db { rows = replace name new db.rows })

unfoldable pub update : String → List Field → Exec Db MemberNotification
unfolding is_valid_cadence is_valid_discord_id get write_fields
update name fields db =
    if any is_other fields
    then (err value_error, db)
    else if any has_bad_cadence fields
    then (err value_error, db)
    else if any has_bad_target fields
    then (err invalid_discord_id, db)
    else write_fields name fields (get name db) db

-- ON DELETE CASCADE takes the row's sent log along.
abbrev pub is_sent_of : ℕ → ℕ × Date → Bool
is_sent_of id (j, _) = id == j

abbrev pub remove : MemberNotification → Db → Db
remove row db = record db {
  rows = filter (λ r. not (r.id == row.id)) db.rows;
  sent = filter (λ s. not (is_sent_of row.id s)) db.sent;
}

-- The end of `delete`, once the row was looked up.
unfoldable pub delete_found : Option MemberNotification → Exec Db (Unit {0})
delete_found none db = (err notification_not_found, db)
delete_found (some row) db = (ok tt, remove row db)

unfoldable pub delete : String → Exec Db (Unit {0})
unfolding get delete_found
delete name db = delete_found (get name db) db

-- The SQL filter of `list_due`: enabled, and not sent for today's occurrence.
abbrev pub is_candidate : SentTable → Date → MemberNotification → Bool
is_candidate sent today r = r.enabled && not (MemberNotificationSentStore.was_sent r.id today sent)

-- The Python loop of `list_due`.
unfoldable pub collect_due : Date → ℕ → List MemberNotification → Result (List MemberNotification)
collect_due today now [] = ok []
collect_due today now (r ∷ rows) =
    let rest = collect_due today now rows in
    if ltb now r.fire_time_utc
    then rest
    else is_occurrence_date r.anchor_date_utc r.cadence today >>=ᵣ λ occurs.
        rest >>=ᵣ λ due. ok (if occurs then r ∷ due else due)

unfoldable pub list_due : Date → ℕ → Db → Result (List MemberNotification)
unfolding collect_due
list_due today now db = collect_due today now (filter (is_candidate db.sent today) db.rows)
