-- ===== src/MemberNotifications/Commands/Creation.antt =====
-- What `/member-notify-add` stores, and `/member-notify-get` then shows.
use rsl_mom_bot.Prelude.{ℕ, String, ◌≡◌, refl, true, none, some, inl, inr, Option-cases}
use rsl_mom_bot.PyText.{codes}
use rsl_mom_bot.Date.{Date}
use rsl_mom_bot.MemberNotifications.Models.{Db}
use rsl_mom_bot.MemberNotifications.Service.{is_valid_cadence, is_valid_discord_id, get}
use rsl_mom_bot.MemberNotifications.Service.Lookup.{create_succeeds}
use rsl_mom_bot.MemberNotifications.Commands.{
  Env, created, not_found, details, add, show, parse_time, create_from, handle, run_command,
}
use rsl_mom_bot.MemberNotifications.Commands.Times.{parse_time-bounds}

shown_absent :
    (env : Env) (name : String) (db : Db)
    → (run_command env true (show name) db).0 ≡ not_found name
    → get name db ≡ none
unfolding run_command handle
shown_absent env name db e = elim (Option-cases (get name db)) [ inl n ↦ n | inr (row, h) ↦ cc ]

-- If the date and the time are read, the cadence is known, and no notification of the name is shown,
-- then an officer's `/member-notify-add` is answered by its success, and `/member-notify-get` shows
-- a notification of what was given, enabled. `str` of the member's id is canonical.
pub show-add :
    (env : Env) (member : ℕ) (name start_date time cadence message : String) (date : Date)
    (seconds : ℕ) (db : Db)
    → is_valid_discord_id (env.str member) ≡ true
    → env.fromisoformat start_date ≡ some date
    → parse_time env.decimal (codes time) ≡ some seconds
    → is_valid_cadence cadence ≡ true
    → (run_command env true (show name) db).0 ≡ not_found name
    → let (reply, db') =
        run_command env true (add member name start_date time cadence message) db in
      (reply ≡ created name member)
      × ((run_command env true (show name) db').0
          ≡ details (record {
            id = db.next_id;
            name = name;
            target_discord_id = env.str member;
            anchor_date_utc = date;
            fire_time_utc = seconds;
            cadence = cadence;
            message_template = message;
            enabled = true;
          }))
unfolding run_command handle create_from
show-add env member name start_date time cadence message date seconds db i d t c n =
    let minute = parse_time-bounds env.decimal (codes time) seconds t in
    let (answer, stored) =
      create_succeeds env.violation name (env.str member) date seconds cadence message true db c i
        (rw minute.0 refl) (shown_absent env name db n) in
    rw (d, t, c, answer, stored) (refl, refl)
