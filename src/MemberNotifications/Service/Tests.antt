-- ===== src/MemberNotifications/Service/Tests.antt =====
-- The theorems on the service, applied to a table that starts empty.
use rsl_mom_bot.Prelude.{◌≤◌, ◌≡◌, ◌↔◌, refl, String, true, false, List, [], ◌∷◌, none, In}
use rsl_mom_bot.Prelude.Exec.{Result, ok}
use rsl_mom_bot.Date.{Date, date}
use rsl_mom_bot.Reminders.SentStore.MemberNotificationSentStore
use rsl_mom_bot.MemberNotifications.Models.{MemberNotification, Db}
use rsl_mom_bot.MemberNotifications.Schedule.{is_occurrence_date}
use rsl_mom_bot.MemberNotifications.Service.{
  is_valid_cadence, is_valid_discord_id, create, get, Field, set_fields, update, delete, list_due,
}
use rsl_mom_bot.MemberNotifications.Service.Due.{list_due_iff}
use rsl_mom_bot.MemberNotifications.Service.Contract.{
  Args, Call, add, change, drop, Contract, Implements, run_calls, run_promised,
}
use rsl_mom_bot.MemberNotifications.Service.Refinement.{run_calls_refines}
use rsl_mom_bot.MemberNotifications.Service.Invariant.{IsValid}

abbrev tuesday : Date
tuesday = date 2026 7 7

abbrev empty : Db
empty = record { rows = []; sent = []; next_id = 1 }

empty-IsValid : IsValid empty
empty-IsValid = record { stored = tt; apart = tt; below = tt }

-- The text of SQLite's driver for a second row of one name.
abbrev violation : String → String
violation name = "UNIQUE constraint failed: member_notification.name"

abbrev dues : MemberNotification
dues = record {
  id = 1;
  name = "dues";
  target_discord_id = "123";
  anchor_date_utc = tuesday;
  fire_time_utc = 36000;
  cadence = "weekly";
  message_template = "Pay";
  enabled = true;
}

abbrev one_row : Db
one_row = record { rows = dues ∷ []; sent = []; next_id = 2 }

abbrev created : Result MemberNotification × Db
created = create violation "dues" "123" tuesday 36000 "weekly" "Pay" true empty

creates : created ≡ (ok dues, one_row)
unfolding create rsl_mom_bot.PyText.int_of rsl_mom_bot.PyText.str_of
creates = refl

abbrev given : Args
given = record {
  name = "dues";
  target = "123";
  anchor = tuesday;
  time = 36000;
  cadence = "weekly";
  message = "Pay";
  enabled = true;
}

-- A row, a second one of its name, a change, and two deletions.
abbrev calls : List Call
calls =
    add given
    ∷ add given
    ∷ change "dues" (Field.enabled false ∷ [])
    ∷ drop "dues"
    ∷ drop "dues"
    ∷ []

abbrev nothing : Contract
nothing = record { next_id = 1; lookup = λ name. none }

run_calls_refines_example :
    ((run_calls violation calls empty).0 ≡ (run_promised violation calls nothing).0)
    × Implements (run_promised violation calls nothing).1 (run_calls violation calls empty).1
unfolding get
run_calls_refines_example =
    run_calls_refines violation calls nothing empty (refl, λ name. refl, empty-IsValid)

list_due_iff_example :
    (due : List MemberNotification) × (list_due tuesday 36005 one_row ≡ ok due)
    × (In dues due ↔ (
        In dues (dues ∷ [])
        × (true ≡ true)
        × (MemberNotificationSentStore.was_sent 1 tuesday [] ≡ false)
        × (36000 ≤ 36005)
        × (is_occurrence_date tuesday "weekly" tuesday ≡ ok true)))
unfolding rsl_mom_bot.MemberNotifications.Service.is_valid_cadence
list_due_iff_example = list_due_iff tuesday 36005 one_row dues (refl, tt)
