-- ===== src/MemberActivity/AutoKick/Safety.antt =====
-- Only a member who joined at least 24 hours ago and posted nothing since is kicked.
use rsl_mom_bot.Prelude.{ℕ, ◌+◌, ◌≤◌, ◌≡◌, refl, List, [], ◌∷◌, All, arith, Bool-cases, inl, inr}
use rsl_mom_bot.Prelude.Exec.{
  Result, ok, err, Exec, continue, cancelled, not_found, forbidden, http_exception,
}
use rsl_mom_bot.MemberActivity.Service.{
  MemberActivity, inactivity_window, is_stale, list_stale, get_tracking,
}
use rsl_mom_bot.MemberActivity.AutoKick.{
  kicked, World, Other, handle_other, meanwhile, Guild, is_unchanged, after_kick, kick_if_unchanged,
  after_send, notify_and_kick, after_fetch, process_member, process_all, sweep,
}
use rsl_mom_bot.MemberActivity.AutoKick.Log.{
  silent_since, Fair, IsSound, handle_other-IsSound, meanwhile-IsSound, remove-IsSound,
  unchanged-silent,
}

module _ (guild : Guild) (now : ℕ) where
  after_kick-IsSound :
      (a : MemberActivity) (outcome : Result (Unit {0})) (w : World)
      → IsSound w
      → IsSound (after_kick guild now a outcome w).1
  unfolding after_kick
  after_kick-IsSound a (err cancelled) w s = s
  after_kick-IsSound a (ok _) w s = remove-IsSound a w s
  after_kick-IsSound a (err e) w s = remove-IsSound a w s

  kick-IsSound :
      (a : MemberActivity) (w : World)
      → a.joined_at + inactivity_window ≤ now
      → IsSound w
      → IsSound (kick_if_unchanged guild now a w).1
  unfolding kick_if_unchanged silent_since
  kick-IsSound a w old s =
      elim (Bool-cases (is_unchanged a (get_tracking a.guild_id a.member_id w.rows))) [
        | inr changed ↦ rw changed s
        | inl same ↦
            let outcome = guild.kick w.log a.member_id in
            let w' : World = record w {
              log = kicked a.guild_id a.member_id a.joined_at now outcome ∷ w.log;
            } in
            let sound : IsSound w' = record {
              told = s.told;
              fair = (unchanged-silent a _ _ same (s.told a.guild_id a.member_id), old, s.fair);
            } in
            rw same (
              after_kick-IsSound a outcome (meanwhile (guild.during_kick w.log) w')
                (meanwhile-IsSound (guild.during_kick w.log) w' sound))
      ]

  after_send-IsSound :
      (a : MemberActivity) (outcome : Result (Unit {0})) (w : World)
      → a.joined_at + inactivity_window ≤ now
      → IsSound w
      → IsSound (after_send guild now a outcome w).1
  unfolding after_send
  after_send-IsSound a (err cancelled) w old s = s
  after_send-IsSound a (ok _) w old s = kick-IsSound a w old s
  after_send-IsSound a (err e) w old s = kick-IsSound a w old s

  notify-IsSound :
      (a : MemberActivity) (w : World)
      → a.joined_at + inactivity_window ≤ now
      → IsSound w
      → IsSound (notify_and_kick guild now a w).1
  unfolding notify_and_kick
  notify-IsSound a w old s =
      after_send-IsSound a (guild.send w.log a.member_id) (meanwhile (guild.during_send w.log) w)
        old (meanwhile-IsSound (guild.during_send w.log) w s)

  after_fetch-IsSound :
      (a : MemberActivity) (outcome : Result (Unit {0})) (w : World)
      → a.joined_at + inactivity_window ≤ now
      → IsSound w
      → IsSound (after_fetch guild now a outcome w).1
  unfolding after_fetch
  after_fetch-IsSound a (ok _) w old s = notify-IsSound a w old s
  after_fetch-IsSound a (err not_found) w old s = remove-IsSound a w s
  after_fetch-IsSound a (err forbidden) w old s = s
  after_fetch-IsSound a (err (http_exception status)) w old s = s
  after_fetch-IsSound a (err e) w old s = s

  process_member-IsSound :
      (a : MemberActivity) (w : World)
      → a.joined_at + inactivity_window ≤ now
      → IsSound w
      → IsSound (process_member guild now a w).1
  unfolding process_member
  process_member-IsSound a w old s = elim (Bool-cases (guild.get_member w.log a.member_id)) [
    | inl known ↦ rw known (notify-IsSound a w old s)
    | inr unknown ↦ rw unknown (
        after_fetch-IsSound a (guild.fetch_member w.log a.member_id)
          (meanwhile (guild.during_fetch w.log) w) old
          (meanwhile-IsSound (guild.during_fetch w.log) w s))
  ]

  continue-IsSound :
      (f : Exec World (Unit {0})) (r : Result (Unit {0})) (w : World)
      → IsSound w
      → ((v : World) → IsSound v → IsSound (f v).1)
      → IsSound (continue r (λ _. f) w).1
  continue-IsSound f (ok _) w s k = k w s
  continue-IsSound f (err e) w s k = s

  process_all-IsSound :
      (stale : List MemberActivity) (w : World)
      → All (λ a. a.joined_at + inactivity_window ≤ now) stale
      → IsSound w
      → IsSound (process_all guild now stale w).1
  unfolding process_all
  process_all-IsSound [] w old s = s
  process_all-IsSound (a ∷ rest) w old s =
      let (r, v) = process_member guild now a w in
      continue-IsSound (process_all guild now rest) r v (process_member-IsSound a w old.0 s)
        (λ u su. process_all-IsSound rest u old.1 su)

  list_stale-old :
      (rows : List MemberActivity)
      → All (λ a. a.joined_at + inactivity_window ≤ now) (list_stale now rows)
  unfolding list_stale
  list_stale-old [] = tt
  list_stale-old (r ∷ rows) = elim (Bool-cases (is_stale now r)) [
    | inl stale ↦ rw stale (ground arith, list_stale-old rows)
    | inr fresh ↦ rw fresh (list_stale-old rows)
  ]

  sweep-IsSound : (w : World) → IsSound w → IsSound (sweep guild now w).1
  unfolding sweep
  sweep-IsSound w s = process_all-IsSound (list_stale now w.rows) w (list_stale-old w.rows) s

-- What happens to the table: a sweep, however it ends, or a write of another handler.
pub data Step : World → World → Type 0 where
  swept : (guild : Guild) (now : ℕ) (w : World) → Step w (sweep guild now w).1
  wrote : (o : Other) (w : World) → Step w (handle_other o w)

pub data Reach (w : World) : World → Type 0 where
  here : Reach w w
  next : {u v : World} → Reach w u → Step u v → Reach w v

Step-IsSound : {u v : World} → Step u v → IsSound u → IsSound v
Step-IsSound (swept guild now w) s = sweep-IsSound guild now w s
Step-IsSound (wrote o w) s = handle_other-IsSound o w s

Reach-IsSound : {w v : World} → IsSound w → Reach w v → IsSound v
Reach-IsSound s here = s
Reach-IsSound s (next r st) = Step-IsSound st (Reach-IsSound s r)

-- From an empty table, after any sweeps and any joins and messages, before, between and during
-- them, and whatever Discord answers: each member that was kicked had last joined at least 24 hours
-- before the clock of that sweep, and had no message recorded since that join.
pub kicked_only_when_silent : (w v : World) → w.rows ≡ [] → w.log ≡ [] → Reach w v → Fair v.log
unfolding get_tracking
kicked_only_when_silent w v no_rows no_log r = (Reach-IsSound start r).fair
  where
    start : IsSound w
    start = record { told = λ g m. rw (no_rows, get_tracking) refl; fair = rw no_log tt }
