-- ===== src/Reminders/SentStore.antt =====
-- src/mom_bot/reminders/sent_store.py, over the UNIQUE constraints of the two tables of sent
-- rows. A table is the list of its rows (id, date); `sent_at` and the surrogate key are left out.
pub mod Laws
pub mod ReminderSentStore
pub mod MemberNotificationSentStore
use rsl_mom_bot.Prelude.{ℕ, ◌==◌, if◌then◌else◌, Bool, true, false, ◌&&◌, ◌||◌, List, [], ◌∷◌}
use rsl_mom_bot.Date.{Date, date_eq}

abbrev pub SentTable : Type 0
SentTable = List (ℕ × Date)

-- Does the row belong to this id and date?
abbrev pub is_row : ℕ → Date → ℕ × Date → Bool
is_row id day (j, e) = (id == j) && date_eq day e

-- `SELECT ... WHERE id = :id AND date = :day LIMIT 1` finds a row.
unfoldable pub has_row : ℕ → Date → SentTable → Bool
has_row id day [] = false
has_row id day (r ∷ rows) = is_row id day r || has_row id day rows

-- `DELETE` of the first row that is found, if there is one.
unfoldable pub delete_row : ℕ → Date → SentTable → SentTable
delete_row id day [] = []
delete_row id day (r ∷ rows) = if is_row id day r then rows else r ∷ delete_row id day rows

-- `INSERT` and `COMMIT`: with the result false for the `IntegrityError` of a second row for one id
-- and date, after which the transaction is rolled back.
unfoldable pub insert_row : ℕ → Date → SentTable → Bool × SentTable
unfolding has_row
insert_row id day rows = if has_row id day rows then (false, rows) else (true, (id, day) ∷ rows)
