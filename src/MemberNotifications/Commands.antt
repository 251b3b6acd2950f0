-- ===== src/MemberNotifications/Commands.antt =====
-- src/mom_bot/member_notifications/commands.py, with the gate of src/mom_bot/discord_authz.py. The
-- replies reach Discord. `date.fromisoformat`, `str(member.id)`, the decimal digits of Unicode, the order of names in the database
-- and the text of its driver are parameters.
pub mod Validity
pub mod Times
pub mod Creation
mod Tests
use rsl_mom_bot.Prelude.{
  ℕ, ◌+◌, ◌-◌, ◌*◌, String, Bool, true, false, not, ◌&&◌, ◌||◌, ◌==◌, ltb, if◌then◌else◌, Option,
  none, some, List, [], ◌∷◌, ◌++◌,
}
use rsl_mom_bot.Prelude.Exec.{
  Error, Result, ok, err, duplicate_notification, notification_not_found,
}
use rsl_mom_bot.PyText.{codes}
use rsl_mom_bot.Date.{Date}
use rsl_mom_bot.MemberNotifications.Models.{MemberNotification, Db}
use rsl_mom_bot.MemberNotifications.Service.{Field, is_valid_cadence, create, get, update, delete}

pub record Env : Type 0 where
  pub fromisoformat : String → Option Date
  pub str : ℕ → String
  -- the value of a character that `\d` stands for, in any script
  pub decimal : ℕ → Option ℕ
  -- `a <= b` in the ORDER BY of the database
  pub name_le : String → String → Bool
  pub violation : String → String

-- A number of two digits.
abbrev pub two_digits : Option ℕ → Option ℕ → Option ℕ
two_digits (some x) (some y) = some (x * 10 + y)
two_digits _ _ = none

abbrev pub time_of : Option ℕ → Option ℕ → Option ℕ
time_of (some hour) (some minute) =
    if ltb 23 hour || ltb 59 minute then none else some (hour * 3600 + minute * 60)
time_of _ _ = none

-- `datetime.time(hour, minute, 0)` of a text that matches `^\d{2}:\d{2}$`.
abbrev pub clock_time : (ℕ → Option ℕ) → ℕ → ℕ → ℕ → ℕ → ℕ → Option ℕ
clock_time decimal a b colon c d =
    if colon == b':'
    then time_of (two_digits (decimal a) (decimal b)) (two_digits (decimal c) (decimal d))
    else none

-- `_parse_time`, in seconds. The `$` of the pattern also stands before a newline at the end, which
-- `int` then strips.
unfoldable pub parse_time : (ℕ → Option ℕ) → List ℕ → Option ℕ
parse_time decimal (a ∷ b ∷ colon ∷ c ∷ d ∷ []) = clock_time decimal a b colon c d
parse_time decimal (a ∷ b ∷ colon ∷ c ∷ d ∷ e ∷ []) =
    if e == b'\n' then clock_time decimal a b colon c d else none
parse_time decimal _ = none

pub data Reply : Type 0 where
  officers_only invalid_date invalid_time invalid_cadence ops_error : Reply
  created : String → ℕ → Reply
  already_exists not_found updated removed : String → Reply
  listing : List MemberNotification → Reply
  none_configured : Reply
  details : MemberNotification → Reply

-- A command with its options; `member` is the id of the member that was picked.
pub data Command : Type 0 where
  add : ℕ → String → String → String → String → String → Command
  list : Command
  show : String → Command
  change :
      String
      → Option ℕ
      → Option String
      → Option String
      → Option String
      → Option String
      → Option Bool
      → Command
  remove : String → Command

abbrev add_reply : String → ℕ → Result MemberNotification → Reply
add_reply name member (ok row) = created name member
add_reply name member (err duplicate_notification) = already_exists name
add_reply name member (err _) = ops_error

-- The call of the service in `member_notify_add`.
unfoldable pub create_from : Env → ℕ → String → Date → ℕ → String → String → Db → Reply × Db
create_from env member name date time cadence message db =
    let (result, db') =
      create env.violation name (env.str member) date time cadence message true db in
    (add_reply name member result, db')

-- `member_notify_add`, after the date was parsed, and after the time was.
abbrev pub add_at : Env → ℕ → String → String → String → Date → Option ℕ → Db → Reply × Db
add_at env member name cadence message date none db = (invalid_time, db)
add_at env member name cadence message date (some time) db =
    if not (is_valid_cadence cadence)
    then (invalid_cadence, db)
    else create_from env member name date time cadence message db

abbrev pub add_on : Env → ℕ → String → String → String → Option ℕ → Option Date → Db → Reply × Db
add_on env member name cadence message time none db = (invalid_date, db)
add_on env member name cadence message time (some date) db =
    add_at env member name cadence message date time db

-- `ORDER BY name`.
abbrev pub insert_by :
    (String → String → Bool)
    → MemberNotification
    → List MemberNotification
    → List MemberNotification
insert_by le r [] = r ∷ []
insert_by le r (x ∷ rows) =
    let rest = insert_by le r rows in if le r.name x.name then r ∷ x ∷ rows else x ∷ rest

unfoldable pub list_all :
    (String → String → Bool) → List MemberNotification → List MemberNotification
list_all le [] = []
list_all le (r ∷ rows) = insert_by le r (list_all le rows)

abbrev list_reply : List MemberNotification → Reply
list_reply [] = none_configured
list_reply (r ∷ rows) = listing (r ∷ rows)

abbrev show_reply : String → Option MemberNotification → Reply
show_reply name none = not_found name
show_reply name (some row) = details row

-- The keyword arguments of `update`: an option that is not given gives none, and one that does not
-- parse gives the reply that refuses it.
pub data Fields : Type 0 where
  given : List Field → Fields
  refused : Reply → Fields

abbrev and_then : Fields → Fields → Fields
and_then (given fields) (given more) = given (fields ++ more)
and_then (given fields) (refused reply) = refused reply
and_then (refused reply) later = refused reply

abbrev parsed : {A : Type 0} → Reply → (A → Field) → Option A → Fields
parsed reply field none = refused reply
parsed reply field (some a) = given (field a ∷ [])

abbrev optional : {A : Type 0} → (A → Fields) → Option A → Fields
optional fields none = given []
optional fields (some a) = fields a

-- The checks of `member_notify_update`.
unfoldable pub update_fields :
    Env
    → Option ℕ
    → Option String
    → Option String
    → Option String
    → Option String
    → Option Bool
    → Fields
update_fields env member start_date time cadence message enabled =
    and_then (optional (λ m. given (Field.target_discord_id (env.str m) ∷ [])) member) (
      and_then
        (optional (λ d. parsed invalid_date Field.anchor_date_utc (env.fromisoformat d)) start_date)
        (and_then
          (optional
            (λ t. parsed invalid_time Field.fire_time_utc (parse_time env.decimal (codes t))) time)
          (and_then
            (optional
              (λ c.
                if not (is_valid_cadence c)
                then refused invalid_cadence
                else given (Field.cadence c ∷ []))
              cadence)
            (and_then (optional (λ m. given (Field.message_template m ∷ [])) message)
              (optional (λ b. given (Field.enabled b ∷ [])) enabled)))))

abbrev update_reply : String → Result MemberNotification → Reply
update_reply name (ok row) = updated name
update_reply name (err notification_not_found) = not_found name
update_reply name (err _) = ops_error

abbrev pub update_with : String → Fields → Db → Reply × Db
update_with name (refused reply) db = (reply, db)
update_with name (given fields) db =
    let (result, db') = update name fields db in (update_reply name result, db')

abbrev remove_reply : String → Result (Unit {0}) → Reply
remove_reply name (ok _) = removed name
remove_reply name (err notification_not_found) = not_found name
remove_reply name (err _) = ops_error

abbrev member_notify_add : Env → ℕ → String → String → String → String → String → Db → Reply × Db
member_notify_add env member name start_date time cadence message db =
    add_on env member name cadence message (parse_time env.decimal (codes time))
      (env.fromisoformat start_date) db

abbrev member_notify_list : Env → Db → Reply × Db
member_notify_list env db = (list_reply (list_all env.name_le db.rows), db)

abbrev member_notify_get : String → Db → Reply × Db
member_notify_get name db = (show_reply name (get name db), db)

abbrev member_notify_update :
    Env
    → String
    → Option ℕ
    → Option String
    → Option String
    → Option String
    → Option String
    → Option Bool
    → Db
    → Reply × Db
member_notify_update env name member start_date time cadence message enabled db =
    update_with name (update_fields env member start_date time cadence message enabled) db

abbrev member_notify_remove : String → Db → Reply × Db
member_notify_remove name db = let (result, db') = delete name db in (remove_reply name result, db')

-- The commands that `register` attaches.
unfoldable pub handle : Env → Command → Db → Reply × Db
handle env (add member name start_date time cadence message) db =
    member_notify_add env member name start_date time cadence message db
handle env list db = member_notify_list env db
handle env (show name) db = member_notify_get name db
handle env (change name member start_date time cadence message enabled) db =
    member_notify_update env name member start_date time cadence message enabled db
handle env (remove name) db = member_notify_remove name db

-- `require_manage_guild`: `manage_guild` is the permission of the user.
unfoldable pub run_command : Env → Bool → Command → Db → Reply × Db
run_command env manage_guild command db =
    if not manage_guild then (officers_only, db) else handle env command db
