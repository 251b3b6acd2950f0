-- ===== src/Reminders/SentStore/MemberNotificationSentStore.antt =====
-- The class `MemberNotificationSentStore`.
use rsl_mom_bot.Prelude.{ℕ, Bool}
use rsl_mom_bot.Date.{Date}
use rsl_mom_bot.Reminders.SentStore.{SentTable, has_row, delete_row, insert_row}

unfoldable pub mark_sent : ℕ → Date → SentTable → Bool × SentTable
mark_sent = insert_row

unfoldable pub unmark : ℕ → Date → SentTable → SentTable
unmark = delete_row

unfoldable pub was_sent : ℕ → Date → SentTable → Bool
was_sent = has_row
