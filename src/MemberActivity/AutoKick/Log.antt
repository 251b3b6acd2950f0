-- ===== src/MemberActivity/AutoKick/Log.antt =====
-- What a log of joins, messages and kicks says of a member, and that the table agrees with it.
use rsl_mom_bot.Prelude.{
  ℕ, ◌+◌, ◌≤◌, ◌≡◌, refl, Bool, true, not, ◌||◌, ◌==◌, if◌then◌else◌, Option, none, some, List, [],
  ◌∷◌, arith,
}
use rsl_mom_bot.MemberActivity.Service.{MemberActivity, inactivity_window, is_silent, get_tracking}
use rsl_mom_bot.MemberActivity.Service.Lookup.{
  same_member, with_message, get_tracking-record_join, get_tracking-record_first_message,
  get_tracking-remove_tracking,
}
use rsl_mom_bot.MemberActivity.AutoKick.{
  Event, joined, messaged, kicked, World, Other, join, message, handle_other, meanwhile,
  safe_remove_tracking, is_unchanged,
}

-- The time of the member's last join, if no message came after it.
unfoldable pub silent_since : ℕ → ℕ → List Event → Option ℕ
silent_since g m [] = none
silent_since g m (joined h n at ∷ log) =
    let before = silent_since g m log in if same_member h n g m then some at else before
silent_since g m (messaged h n at ∷ log) =
    let before = silent_since g m log in if same_member h n g m then none else before
silent_since g m (kicked h n at now outcome ∷ log) = silent_since g m log

-- At the time of each kick the member had joined at least the window before the clock of the
-- sweep, and had posted nothing since.
abbrev pub Fair : List Event → Type 0
Fair [] = Unit
Fair (joined h n at ∷ log) = Fair log
Fair (messaged h n at ∷ log) = Fair log
Fair (kicked g m at now outcome ∷ log) =
    (silent_since g m log ≡ some at) × (at + inactivity_window ≤ now) × Fair log

-- A row without a first message says since when the member has been silent.
abbrev pub tells : Option MemberActivity → Option ℕ → Bool
tells none since = true
tells (some r) none = not (is_silent r)
tells (some r) (some at) = not (is_silent r) || (r.joined_at == at)

pub record IsSound (w : World) : Type 0 where
  pub told : (g m : ℕ) → tells (get_tracking g m w.rows) (silent_since g m w.log) ≡ true
  pub fair : Fair w.log

told-message : (at : ℕ) (r : Option MemberActivity) → tells (with_message at r) none ≡ true
told-message at none = refl
told-message at (some r) = ground arith

pub handle_other-IsSound : (o : Other) (w : World) → IsSound w → IsSound (handle_other o w)
unfolding handle_other silent_since
handle_other-IsSound (join g m at) w s = record {
  told = λ h n. rw (get_tracking-record_join g m at h n w.rows) (ground (arith, s.told h n));
  fair = s.fair;
}
handle_other-IsSound (message g m at) w s = record {
  told = λ h n.
      rw (get_tracking-record_first_message g m at h n w.rows)
        (ground (arith, told-message at (get_tracking h n w.rows), s.told h n));
  fair = s.fair;
}

pub meanwhile-IsSound : (others : List Other) (w : World) → IsSound w → IsSound (meanwhile others w)
unfolding meanwhile
meanwhile-IsSound [] w s = s
meanwhile-IsSound (o ∷ others) w s =
    meanwhile-IsSound others (handle_other o w) (handle_other-IsSound o w s)

pub remove-IsSound :
    (a : MemberActivity) (w : World) → IsSound w → IsSound (safe_remove_tracking a w).1
remove-IsSound a w s = record {
  told = λ h n.
      rw (get_tracking-remove_tracking a.guild_id a.member_id h n w.rows)
        (ground (arith, s.told h n));
  fair = s.fair;
}

-- The second look of the scheduler shows that the member is silent since that join.
pub unchanged-silent :
    (a : MemberActivity) (current : Option MemberActivity) (since : Option ℕ)
    → is_unchanged a current ≡ true
    → tells current since ≡ true
    → since ≡ some a.joined_at
unchanged-silent a none since u t = cc
unchanged-silent a (some r) none u t = ground arith
unchanged-silent a (some r) (some at) u t = ground arith
