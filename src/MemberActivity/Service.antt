-- ===== src/MemberActivity/Service.antt =====
-- src/mom_bot/member_activity/service.py, with its table, src/mom_bot/member_activity/models.py.
-- A timestamp is a number of microseconds. The pair (guild_id, member_id) is UNIQUE.
pub mod Lookup
use rsl_mom_bot.Prelude.{
  ℕ, ◌+◌, Bool, true, false, not, ◌&&◌, ◌==◌, leb, if◌then◌else◌, Option, none, some, List, [], ◌∷◌,
  filter, find?,
}

pub record MemberActivity : Type 0 where
  pub guild_id : ℕ
  pub member_id : ℕ
  pub joined_at : ℕ
  pub first_message_at : Option ℕ

-- 24 hours.
abbrev pub inactivity_window : ℕ
inactivity_window = 86400000000

abbrev pub is_of : ℕ → ℕ → MemberActivity → Bool
is_of guild_id member_id r = (r.guild_id == guild_id) && (r.member_id == member_id)

abbrev pub is_silent : MemberActivity → Bool
is_silent r = elim r.first_message_at [ none ↦ true | some at ↦ false ]

unfoldable pub record_join : ℕ → ℕ → ℕ → List MemberActivity → List MemberActivity
record_join guild_id member_id joined_at [] =
    record {
      guild_id = guild_id;
      member_id = member_id;
      joined_at = joined_at;
      first_message_at = none;
    }
    ∷ []
record_join guild_id member_id joined_at (r ∷ rows) =
    let rest = record_join guild_id member_id joined_at rows in
    if is_of guild_id member_id r
    then record r { joined_at = joined_at; first_message_at = none } ∷ rows
    else r ∷ rest

unfoldable pub record_first_message : ℕ → ℕ → ℕ → List MemberActivity → List MemberActivity
record_first_message guild_id member_id at [] = []
record_first_message guild_id member_id at (r ∷ rows) =
    (if is_of guild_id member_id r && is_silent r
      then record r { first_message_at = some at }
      else r)
    ∷ record_first_message guild_id member_id at rows

-- `joined_at <= now - INACTIVITY_WINDOW`.
abbrev pub is_stale : ℕ → MemberActivity → Bool
is_stale now r = is_silent r && leb (r.joined_at + inactivity_window) now

unfoldable pub list_stale : ℕ → List MemberActivity → List MemberActivity
list_stale now rows = filter (is_stale now) rows

unfoldable pub get_tracking : ℕ → ℕ → List MemberActivity → Option MemberActivity
get_tracking guild_id member_id rows = find? (is_of guild_id member_id) rows

unfoldable pub remove_tracking : ℕ → ℕ → List MemberActivity → List MemberActivity
remove_tracking guild_id member_id rows = filter (λ r. not (is_of guild_id member_id r)) rows
