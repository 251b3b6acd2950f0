-- ===== src/Health/Progress/Endpoint.antt =====
-- When a scheduler is reported healthy, after any history of calls.
use rsl_mom_bot.Prelude.{ℕ, ◌+◌, ◌<◌, ◌≡◌, ◌↔◌, true, false, some, arith, List, [], ◌∷◌}
use rsl_mom_bot.Health.Progress.{
  SchedulerName, reminders, auto_kick, States, initial, state_of, started, succeeded, failed,
  stopped, progress_handler,
}

-- The calls that the schedulers make, with the clock of a success.
pub data Call : Type 0 where
  start : SchedulerName → Call
  succeed : ℕ → SchedulerName → Call
  fail : SchedulerName → Call
  stop : SchedulerName → Call

unfoldable pub apply : Call → States → States
unfolding started succeeded failed stopped
apply (start n) s = started n s
apply (succeed t n) s = succeeded t n s
apply (fail n) s = failed n s
apply (stop n) s = stopped n s

-- The state after a history of calls, the latest first.
unfoldable pub after : List Call → States
unfolding apply
after [] = initial
after (c ∷ cs) = apply c (after cs)

-- The endpoint answers 200 exactly when both schedulers run, the last outcome of each was no
-- failure, and each had a success less than 180 seconds ago.
pub progress_handler_iff :
    (now : ℕ) (s : States) (t u : ℕ)
    → (state_of reminders s).last_success ≡ some t
    → (state_of auto_kick s).last_success ≡ some u
    → (progress_handler now s ≡ 200) ↔ (
        ((state_of reminders s).running ≡ true)
        × ((state_of reminders s).failed ≡ false)
        × (now < t + 180000)
        × ((state_of auto_kick s).running ≡ true)
        × ((state_of auto_kick s).failed ≡ false)
        × (now < u + 180000))
unfolding progress_handler
progress_handler_iff now s t u h k = ground arith

-- Right after any history, a scheduler that fails, stops, or has just started is not healthy:
-- the endpoint answers 503, whatever the other scheduler did.
pub progress_handler_unwell :
    (now : ℕ) (n : SchedulerName) (cs : List Call)
    → (progress_handler now (after (fail n ∷ cs)) ≡ 503)
      × (progress_handler now (after (stop n ∷ cs)) ≡ 503)
      × (progress_handler now (after (start n ∷ cs)) ≡ 503)
unfolding progress_handler after
progress_handler_unwell now reminders cs = ground arith
progress_handler_unwell now auto_kick cs = ground arith
