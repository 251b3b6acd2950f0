-- ===== src/MemberNotifications/Service/Contract.antt =====
-- What src/mom_bot/member_notifications/service.py promises: a map from names to notifications, with
-- the answers of its calls.
use rsl_mom_bot.Prelude.{
  ℕ, ◌+◌, String, ◌≡◌, Bool, not, ◌=ₛ◌, if◌then◌else◌, List, [], ◌∷◌, any, Option, none, some,
}
use rsl_mom_bot.Prelude.Exec.{
  Error, Result, ok, err, value_error, duplicate_notification, notification_not_found,
  invalid_discord_id, integrity_error,
}
use rsl_mom_bot.PyText.{is_substring}
use rsl_mom_bot.Date.{Date}
use rsl_mom_bot.MemberNotifications.Models.{MemberNotification, Db}
use rsl_mom_bot.MemberNotifications.Service.{
  is_valid_cadence, is_valid_discord_id, name_unique_marker, on_minute, create, get, Field,
  is_other, has_bad_cadence, has_bad_target, set_fields, update, delete,
}
use rsl_mom_bot.MemberNotifications.Service.Invariant.{IsValid}

-- The arguments of `create`.
pub record Args : Type 0 where
  pub name : String
  pub target : String
  pub anchor : Date
  pub time : ℕ
  pub cadence : String
  pub message : String
  pub enabled : Bool

pub data Call : Type 0 where
  add : Args → Call
  change : String → List Field → Call
  drop : String → Call

pub data Answer : Type 0 where
  row : Result MemberNotification → Answer
  done : Result (Unit {0}) → Answer

-- The contract: what each name stands for, and the next key.
pub record Contract : Type 0 where
  pub next_id : ℕ
  pub lookup : String → Option MemberNotification

abbrev pub with_name :
    String → Option MemberNotification → Contract → String → Option MemberNotification
with_name name value c j = if name =ₛ j then value else c.lookup j

abbrev pub refused : {A : Type 0} → Error → Contract → Result A × Contract
refused e c = (err e, c)

abbrev pub new_notification : ℕ → Args → MemberNotification
new_notification key a = record {
  id = key;
  name = a.name;
  target_discord_id = a.target;
  anchor_date_utc = a.anchor;
  fire_time_utc = a.time;
  cadence = a.cadence;
  message_template = a.message;
  enabled = a.enabled;
}

abbrev pub add_where :
    (String → String)
    → Args
    → Contract
    → Option MemberNotification
    → Result MemberNotification × Contract
add_where violation a c (some taken) =
    refused
      (if is_substring name_unique_marker (violation a.name)
        then duplicate_notification
        else integrity_error)
      c
add_where violation a c none =
    let new = new_notification c.next_id a in
    (ok new, record { next_id = c.next_id + 1; lookup = with_name a.name (some new) c })

abbrev pub change_where :
    String
    → List Field
    → Contract
    → Option MemberNotification
    → Result MemberNotification × Contract
change_where name fields c none = refused notification_not_found c
change_where name fields c (some old) =
    let new = set_fields fields old in
    if not (on_minute new.fire_time_utc)
    then refused integrity_error c
    else (ok new, record c { lookup = with_name name (some new) c })

abbrev pub drop_where : String → Contract → Option MemberNotification → Result (Unit {0}) × Contract
drop_where name c none = refused notification_not_found c
drop_where name c (some old) = (ok tt, record c { lookup = with_name name none c })

unfoldable pub add_to : (String → String) → Args → Contract → Result MemberNotification × Contract
add_to violation a c =
    if not (is_valid_cadence a.cadence)
    then refused value_error c
    else if not (is_valid_discord_id a.target)
    then refused invalid_discord_id c
    else if not (on_minute a.time)
    then refused integrity_error c
    else add_where violation a c (c.lookup a.name)

unfoldable pub change_in : String → List Field → Contract → Result MemberNotification × Contract
change_in name fields c =
    if any is_other fields
    then refused value_error c
    else if any has_bad_cadence fields
    then refused value_error c
    else if any has_bad_target fields
    then refused invalid_discord_id c
    else change_where name fields c (c.lookup name)

abbrev pub service_create : (String → String) → Args → Db → Result MemberNotification × Db
service_create violation a db =
    create violation a.name a.target a.anchor a.time a.cadence a.message a.enabled db

-- The table implements the map.
abbrev pub Implements : Contract → Db → Type 0
Implements c db = (db.next_id ≡ c.next_id) × ((j : String) → get j db ≡ c.lookup j) × IsValid db

-- The same answer, and the table implements the map afterwards.
abbrev pub Agrees : {A : Type 0} → Result A × Contract → Result A × Db → Type 0
Agrees (r, c) (r', db) = (r' ≡ r) × Implements c db

-- One call of the service, and the same call of the contract.
unfoldable pub call : (String → String) → Call → Db → Answer × Db
unfolding create update delete
call violation (add a) db = let (r, db') = service_create violation a db in (row r, db')
call violation (change name fields) db = let (r, db') = update name fields db in (row r, db')
call violation (drop name) db = let (r, db') = delete name db in (done r, db')

unfoldable pub promised : (String → String) → Call → Contract → Answer × Contract
unfolding add_to change_in
promised violation (add a) c = let (r, c') = add_to violation a c in (row r, c')
promised violation (change name fields) c = let (r, c') = change_in name fields c in (row r, c')
promised violation (drop name) c = let (r, c') = drop_where name c (c.lookup name) in (done r, c')

unfoldable pub run_calls : (String → String) → List Call → Db → List Answer × Db
unfolding call
run_calls violation [] db = ([], db)
run_calls violation (x ∷ calls) db =
    let (answer, db') = call violation x db in
    let (answers, end) = run_calls violation calls db' in (answer ∷ answers, end)

unfoldable pub run_promised : (String → String) → List Call → Contract → List Answer × Contract
unfolding promised
run_promised violation [] c = ([], c)
run_promised violation (x ∷ calls) c =
    let (answer, c') = promised violation x c in
    let (answers, end) = run_promised violation calls c' in (answer ∷ answers, end)
