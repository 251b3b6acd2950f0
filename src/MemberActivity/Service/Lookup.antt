-- ===== src/MemberActivity/Service/Lookup.antt =====
-- What `get_tracking` finds after each write.
use rsl_mom_bot.Prelude.{
  ℕ, ◌≡◌, Bool, true, ◌&&◌, ◌==◌, if◌then◌else◌, Option, none, some, List, [], ◌∷◌, arith,
  Bool-cases, inl, inr,
}
use rsl_mom_bot.MemberActivity.Service.{
  MemberActivity, is_of, is_silent, record_join, record_first_message, get_tracking,
  remove_tracking,
}

-- Are the two pairs the same member of the same guild?
abbrev pub same_member : ℕ → ℕ → ℕ → ℕ → Bool
same_member g m h n = (g == h) && (m == n)

abbrev pub joined_row : ℕ → ℕ → ℕ → MemberActivity
joined_row g m at = record { guild_id = g; member_id = m; joined_at = at; first_message_at = none }

is_of→eq :
    (g m : ℕ) (r : MemberActivity) → is_of g m r ≡ true → (r.guild_id ≡ g) × (r.member_id ≡ m)
is_of→eq g m r h = ground arith

-- After a join the member's row is a fresh one; the rows of other members are what they were.
pub get_tracking-record_join :
    (g m at h n : ℕ) (rows : List MemberActivity)
    → get_tracking h n (record_join g m at rows)
      ≡ (if same_member g m h n then some (joined_row g m at) else get_tracking h n rows)
unfolding get_tracking record_join
get_tracking-record_join g m at h n [] = ground arith
get_tracking-record_join g m at h n (r ∷ rows) = elim (Bool-cases (is_of g m r)) [
  | inl e ↦ let (p, q) = is_of→eq g m r e in rw (e, p, q) (ground arith)
  | inr e ↦ ground (arith, get_tracking-record_join g m at h n rows)
]

-- The row with the first message written, if there was none.
abbrev pub with_message : ℕ → Option MemberActivity → Option MemberActivity
with_message at none = none
with_message at (some r) = some (if is_silent r then record r { first_message_at = some at } else r)

pub get_tracking-record_first_message :
    (g m at h n : ℕ) (rows : List MemberActivity)
    → get_tracking h n (record_first_message g m at rows) ≡ (
        if same_member g m h n
        then with_message at (get_tracking h n rows)
        else get_tracking h n rows)
unfolding get_tracking record_first_message
get_tracking-record_first_message g m at h n [] = ground arith
get_tracking-record_first_message g m at h n (r ∷ rows) =
    ground (arith, get_tracking-record_first_message g m at h n rows)

pub get_tracking-remove_tracking :
    (g m h n : ℕ) (rows : List MemberActivity)
    → get_tracking h n (remove_tracking g m rows)
      ≡ (if same_member g m h n then none else get_tracking h n rows)
unfolding get_tracking remove_tracking
get_tracking-remove_tracking g m h n [] = ground arith
get_tracking-remove_tracking g m h n (r ∷ rows) =
    ground (arith, get_tracking-remove_tracking g m h n rows)
