-- ===== src/MemberActivity/AutoKick/Tests.antt =====
-- The theorem on kicks, applied to a member who joined and was silent for a day.
use rsl_mom_bot.Prelude.{refl, true, [], ◌∷◌}
use rsl_mom_bot.Prelude.Exec.{ok, err, forbidden}
use rsl_mom_bot.MemberActivity.AutoKick.{World, join, message, handle_other, Guild, sweep}
use rsl_mom_bot.MemberActivity.AutoKick.Log.{Fair}
use rsl_mom_bot.MemberActivity.AutoKick.Safety.{
  Reach, here, next, swept, wrote, kicked_only_when_silent,
}

abbrev guild : Guild
guild = record {
  get_member = λ log member. true;
  fetch_member = λ log member. ok tt;
  send = λ log member. err forbidden;
  kick = λ log member. ok tt;
  during_fetch = λ log. [];
  during_send = λ log. message 9 6 5000 ∷ [];
  during_kick = λ log. [];
}

abbrev start : World
start = record { rows = []; log = [] }

-- Members 5 and 6 join; member 6 posts while member 5 is told of the kick.
abbrev two_joined : World
two_joined = handle_other (join 9 6 1000) (handle_other (join 9 5 1000) start)

abbrev after_a_day : World
after_a_day = (sweep guild 86400001000 two_joined).1

history : Reach start after_a_day
history =
    next
      (next (next here (wrote (join 9 5 1000) start))
        (wrote (join 9 6 1000) (handle_other (join 9 5 1000) start)))
      (swept guild 86400001000 two_joined)

kicked_only_when_silent_example : Fair after_a_day.log
kicked_only_when_silent_example = kicked_only_when_silent start after_a_day refl refl history
