-- ===== src/Sidecar/RoleSync/Order.antt =====
-- The order of texts, and the stored row after an UPSERT.
use rsl_mom_bot.Prelude.{
  ℕ, String, ◌≡◌, refl, false, ◌=ₛ◌, if◌then◌else◌, some, List, [], ◌∷◌, find?, arith, eq_iff,
}
use rsl_mom_bot.PyText.{codes, codes_lt}
use rsl_mom_bot.Sidecar.RoleSync.{text_lt, MemberRoleSyncState, has_discord_id, upsert_state}

codes_lt_irrefl : (xs : List ℕ) → codes_lt xs xs ≡ false
codes_lt_irrefl [] = refl
codes_lt_irrefl (x ∷ xs) = ground (arith, codes_lt_irrefl xs)

pub text_lt_irrefl : (a : String) → text_lt a a ≡ false
unfolding text_lt
text_lt_irrefl a = codes_lt_irrefl (codes a)

codes_lt_trans :
    (xs ys zs : List ℕ) → codes_lt ys xs ≡ false → codes_lt zs ys ≡ false → codes_lt zs xs ≡ false
codes_lt_trans [] ys zs h k = refl
codes_lt_trans (x ∷ xs) [] zs h k = cc
codes_lt_trans (x ∷ xs) (y ∷ ys) [] h k = cc
codes_lt_trans (x ∷ xs) (y ∷ ys) (z ∷ zs) h k = ground (arith, codes_lt_trans xs ys zs)

-- "Not before" is transitive.
pub text_lt_trans :
    (a b c : String) → text_lt b a ≡ false → text_lt c b ≡ false → text_lt c a ≡ false
unfolding text_lt
text_lt_trans a b c h k = codes_lt_trans (codes a) (codes b) (codes c) h k

pub find?-upsert_state :
    (id : String) (new : MemberRoleSyncState) (states : List MemberRoleSyncState)
    → find? (has_discord_id id) (upsert_state new states)
      ≡ (if new.discord_id =ₛ id then some new else find? (has_discord_id id) states)
unfolding upsert_state
find?-upsert_state id new [] = ground arith
find?-upsert_state id new (s ∷ rest) = ground (
  arith,
  eq_iff new.discord_id id,
  eq_iff s.discord_id id,
  eq_iff s.discord_id new.discord_id,
  find?-upsert_state id new rest,
)
