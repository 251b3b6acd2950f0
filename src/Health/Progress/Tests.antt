-- ===== src/Health/Progress/Tests.antt =====
-- The theorems on the progress endpoint, applied to short histories of calls.
use rsl_mom_bot.Prelude.{◌<◌, ◌≡◌, ◌↔◌, refl, true, false, some, List, [], ◌∷◌}
use rsl_mom_bot.Health.Progress.{reminders, auto_kick, state_of, progress_handler}
use rsl_mom_bot.Health.Progress.Endpoint.{Call, start, succeed, after, progress_handler_iff}

abbrev both_ran : List Call
both_ran = succeed 2000 auto_kick ∷ succeed 1000 reminders ∷ start auto_kick ∷ start reminders ∷ []

reminders_ran : (state_of reminders (after both_ran)).last_success ≡ some 1000
unfolding after
reminders_ran = refl

auto_kick_ran : (state_of auto_kick (after both_ran)).last_success ≡ some 2000
unfolding after
auto_kick_ran = refl

progress_handler_iff_example : (progress_handler 60000 (after both_ran) ≡ 200) ↔ (
    ((state_of reminders (after both_ran)).running ≡ true)
    × ((state_of reminders (after both_ran)).failed ≡ false)
    × (60000 < 181000)
    × ((state_of auto_kick (after both_ran)).running ≡ true)
    × ((state_of auto_kick (after both_ran)).failed ≡ false)
    × (60000 < 182000))
progress_handler_iff_example =
    progress_handler_iff 60000 (after both_ran) 1000 2000 reminders_ran auto_kick_ran
