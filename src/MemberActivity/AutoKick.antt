-- ===== src/MemberActivity/AutoKick.antt =====
-- src/mom_bot/member_activity/scheduler.py: one sweep of the auto-kick scheduler. While a call to
-- Discord is awaited, the handlers of joins and messages in src/mom_bot/main.py may write to the
-- table. Log lines, the progress calls and the sleeps are left out; the database does not fail.
pub mod Log
pub mod Safety
mod Tests
use rsl_mom_bot.Prelude.{
  ℕ, Bool, true, false, not, ◌&&◌, ◌==◌, if◌then◌else◌, Option, none, some, List, [], ◌∷◌,
}
use rsl_mom_bot.Prelude.Exec.{
  Error, Result, ok, err, Exec, pure, raise, ◌>>=◌, ◌>>◌, forbidden, not_found, http_exception,
  cancelled,
}
use rsl_mom_bot.MemberActivity.Service.{
  MemberActivity, is_silent, record_join, record_first_message, list_stale, get_tracking,
  remove_tracking,
}

-- What happened, the latest first: a join and a message of a member, as the handlers recorded
-- them, and a kick, with the join that it was for, the clock of the sweep and its outcome.
pub data Event : Type 0 where
  joined : ℕ → ℕ → ℕ → Event
  messaged : ℕ → ℕ → ℕ → Event
  kicked : ℕ → ℕ → ℕ → ℕ → Result (Unit {0}) → Event

pub record World : Type 0 where
  pub rows : List MemberActivity
  pub log : List Event

-- A write of another handler: `on_member_join` and `on_message`.
pub data Other : Type 0 where
  join : ℕ → ℕ → ℕ → Other
  message : ℕ → ℕ → ℕ → Other

unfoldable pub handle_other : Other → World → World
handle_other (join g m at) w = record {
  rows = record_join g m at w.rows;
  log = joined g m at ∷ w.log;
}
handle_other (message g m at) w = record {
  rows = record_first_message g m at w.rows;
  log = messaged g m at ∷ w.log;
}

unfoldable pub meanwhile : List Other → World → World
unfolding handle_other
meanwhile [] w = w
meanwhile (o ∷ others) w = meanwhile others (handle_other o w)

-- discord.py, and what the other handlers write while each call is awaited. All of it may depend
-- on what happened before.
pub record Guild : Type 0 where
  pub get_member : List Event → ℕ → Bool
  pub fetch_member : List Event → ℕ → Result (Unit {0})
  pub send : List Event → ℕ → Result (Unit {0})
  pub kick : List Event → ℕ → Result (Unit {0})
  pub during_fetch : List Event → List Other
  pub during_send : List Event → List Other
  pub during_kick : List Event → List Other

-- `_safe_remove_tracking`.
abbrev pub safe_remove_tracking : MemberActivity → Exec World (Unit {0})
safe_remove_tracking a w =
    (ok tt, record w { rows = remove_tracking a.guild_id a.member_id w.rows })

-- The second look at the row, just before the kick: is the member still silent since that join?
abbrev pub is_unchanged : MemberActivity → Option MemberActivity → Bool
is_unchanged a none = false
is_unchanged a (some current) = is_silent current && (current.joined_at == a.joined_at)

module _ (guild : Guild) (now : ℕ) where
  unfoldable pub after_kick : MemberActivity → Result (Unit {0}) → Exec World (Unit {0})
  after_kick a (err cancelled) = raise cancelled
  after_kick a _ = safe_remove_tracking a

  abbrev pub call_kick : MemberActivity → Exec World (Result (Unit {0}))
  call_kick a w =
      let outcome = guild.kick w.log a.member_id in
      (
        ok outcome,
        meanwhile (guild.during_kick w.log)
            (record w { log = kicked a.guild_id a.member_id a.joined_at now outcome ∷ w.log }),
      )

  -- From the second look on.
  unfoldable pub kick_if_unchanged : MemberActivity → Exec World (Unit {0})
  unfolding after_kick
  kick_if_unchanged a w =
      if is_unchanged a (get_tracking a.guild_id a.member_id w.rows)
      then (call_kick a >>= after_kick a) w
      else (ok tt, w)

  -- Only a cancellation ends the attempt after the direct message.
  unfoldable pub after_send : MemberActivity → Result (Unit {0}) → Exec World (Unit {0})
  unfolding kick_if_unchanged
  after_send a (err cancelled) = raise cancelled
  after_send a _ = kick_if_unchanged a

  unfoldable pub notify_and_kick : MemberActivity → Exec World (Unit {0})
  unfolding after_send
  notify_and_kick a w =
      after_send a (guild.send w.log a.member_id) (meanwhile (guild.during_send w.log) w)

  -- The `except` clauses of `fetch_member`: any other exception goes through.
  unfoldable pub after_fetch : MemberActivity → Result (Unit {0}) → Exec World (Unit {0})
  unfolding notify_and_kick
  after_fetch a (ok _) = notify_and_kick a
  after_fetch a (err not_found) = safe_remove_tracking a
  after_fetch a (err forbidden) = pure tt
  after_fetch a (err (http_exception status)) = pure tt
  after_fetch a (err e) = raise e

  unfoldable pub process_member : MemberActivity → Exec World (Unit {0})
  unfolding after_fetch
  process_member a w =
      if guild.get_member w.log a.member_id
      then notify_and_kick a w
      else after_fetch a (guild.fetch_member w.log a.member_id)
          (meanwhile (guild.during_fetch w.log) w)

  unfoldable pub process_all : List MemberActivity → Exec World (Unit {0})
  unfolding process_member
  process_all [] = pure tt
  process_all (a ∷ rest) = process_member a >>= λ _. process_all rest

  -- The body of the loop of `_run_loop`, when the bot is ready.
  unfoldable pub sweep : Exec World (Unit {0})
  unfolding process_all
  sweep w = process_all (list_stale now w.rows) w
