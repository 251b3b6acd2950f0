-- ===== src/MemberNotifications/Commands/Validity.antt =====
-- What commands, of any users, make of the table.
use rsl_mom_bot.Prelude.{
  ℕ, String, ◌≡◌, refl, ◌∙◌, Bool, true, false, ◌&&◌, List, [], ◌∷◌, filter, Option, none, some,
  Bool-cases, inl, inr,
}
use rsl_mom_bot.Prelude.Exec.{Result}
use rsl_mom_bot.PyText.{codes}
use rsl_mom_bot.Date.{Date}
use rsl_mom_bot.MemberNotifications.Models.{MemberNotification, Db}
use rsl_mom_bot.MemberNotifications.Service.{is_valid_cadence, create, update, delete}
use rsl_mom_bot.MemberNotifications.Service.Invariant.{
  IsValid, Commits, Commits-IsValid, create-Commits, update-Commits, delete-Commits,
}
use rsl_mom_bot.MemberNotifications.Commands.{
  Env, Command, add, list, show, change, remove, Fields, given, refused, create_from, add_at,
  add_on, parse_time, update_fields, update_with, handle, run_command,
}

-- The table after commands, each with whether its user may manage the guild.
unfoldable pub run_commands : Env → List (Bool × Command) → Db → Db
unfolding run_command
run_commands env [] db = db
run_commands env ((manage_guild, command) ∷ cs) db =
    run_commands env cs (run_command env manage_guild command db).1

abbrev pub writes : Command → Bool
writes list = false
writes (show name) = false
writes _ = true

-- A command that writes, of a user who may manage the guild.
abbrev pub is_officer_write : Bool × Command → Bool
is_officer_write (manage_guild, command) = manage_guild && writes command

add_at-IsValid :
    (env : Env) (member : ℕ) (name cadence message : String) (date : Date) (time : Option ℕ)
    (db : Db)
    → IsValid db
    → IsValid (add_at env member name cadence message date time db).1
unfolding create_from
add_at-IsValid env member name cadence message date none db v = v
add_at-IsValid env member name cadence message date (some time) db v =
    elim (Bool-cases (is_valid_cadence cadence)) [
      | inl e ↦ rw e (Commits-IsValid db end v c)
      | inr e ↦ rw e v
    ]
  where
    end : Result MemberNotification × Db
    end = create env.violation name (env.str member) date time cadence message true db

    c : Commits db end
    c = create-Commits env.violation name (env.str member) date time cadence message true db v

add_on-IsValid :
    (env : Env) (member : ℕ) (name cadence message : String) (time : Option ℕ) (date : Option Date)
    (db : Db)
    → IsValid db
    → IsValid (add_on env member name cadence message time date db).1
add_on-IsValid env member name cadence message time none db v = v
add_on-IsValid env member name cadence message time (some date) db v =
    add_at-IsValid env member name cadence message date time db v

update_with-IsValid :
    (name : String) (fields : Fields) (db : Db)
    → IsValid db
    → IsValid (update_with name fields db).1
update_with-IsValid name (refused reply) db v = v
update_with-IsValid name (given fields) db v =
    Commits-IsValid db (update name fields db) v (update-Commits name fields db v)

handle-IsValid :
    (env : Env) (command : Command) (db : Db) → IsValid db → IsValid (handle env command db).1
unfolding handle
handle-IsValid env (add member name start_date time cadence message) db v =
    add_on-IsValid env member name cadence message (parse_time env.decimal (codes time))
      (env.fromisoformat start_date) db v
handle-IsValid env list db v = v
handle-IsValid env (show name) db v = v
handle-IsValid env (change name member start_date time cadence message enabled) db v =
    update_with-IsValid name (update_fields env member start_date time cadence message enabled) db v
handle-IsValid env (remove name) db v =
    Commits-IsValid db (delete name db) v (delete-Commits name db v)

run_command-IsValid :
    (env : Env) (manage_guild : Bool) (command : Command) (db : Db)
    → IsValid db
    → IsValid (run_command env manage_guild command db).1
unfolding run_command
run_command-IsValid env false command db v = v
run_command-IsValid env true command db v = handle-IsValid env command db v

-- Any other command leaves the table alone.
unchanged :
    (env : Env) (manage_guild : Bool) (command : Command) (db : Db)
    → is_officer_write (manage_guild, command) ≡ false
    → (run_command env manage_guild command db).1 ≡ db
unfolding run_command handle
unchanged env false command db e = refl
unchanged env true (add member name start_date time cadence message) db e = cc
unchanged env true list db e = refl
unchanged env true (show name) db e = refl
unchanged env true (change name member start_date time cadence message enabled) db e = cc
unchanged env true (remove name) db e = cc

-- From a valid table, any commands of any users leave a valid table, and it is the one that the
-- writing commands of the officers among them leave on their own.
pub run_commands-IsValid :
    (env : Env) (cs : List (Bool × Command)) (db : Db)
    → IsValid db
    → IsValid (run_commands env cs db)
      × (run_commands env cs db ≡ run_commands env (filter is_officer_write cs) db)
unfolding run_commands
run_commands-IsValid env [] db v = (v, refl)
run_commands-IsValid env ((manage_guild, command) ∷ cs) db v =
    let rest = run_commands-IsValid env cs _ (run_command-IsValid env manage_guild command db v) in
    elim (Bool-cases (is_officer_write (manage_guild, command))) [
      | inl e ↦ rw e rest
      | inr e ↦ (rest.0, rw e (rest.1 ∙ rw (unchanged env manage_guild command db e) refl))
    ]
