-- ===== src/MemberNotifications/Commands/Times.antt =====
-- The times that the commands read.
use rsl_mom_bot.Prelude.{ℕ, ◌+◌, ◌*◌, ◌%◌, ◌<◌, ◌≡◌, Option, none, some, List, [], ◌∷◌, arith}
use rsl_mom_bot.MemberNotifications.Commands.{two_digits, time_of, clock_time, parse_time}

minutes : (h m : ℕ) → (h * 3600 + m * 60) % 60 ≡ 0
minutes h m = omega arith

time_of-bounds :
    (hour minute : Option ℕ) (t : ℕ) → time_of hour minute ≡ some t → (t % 60 ≡ 0) × (t < 86400)
time_of-bounds none minute t e = cc
time_of-bounds (some h) none t e = cc
time_of-bounds (some h) (some m) t e = ground (arith, minutes h m)

clock_time-bounds :
    (decimal : ℕ → Option ℕ) (a b colon c d t : ℕ)
    → clock_time decimal a b colon c d ≡ some t
    → (t % 60 ≡ 0) × (t < 86400)
clock_time-bounds decimal a b colon c d t e = ground (
  arith,
  time_of-bounds (two_digits (decimal a) (decimal b)) (two_digits (decimal c) (decimal d)) t,
)

-- A text that is read as a time gives one on the minute, before midnight.
pub parse_time-bounds :
    (decimal : ℕ → Option ℕ) (text : List ℕ) (t : ℕ)
    → parse_time decimal text ≡ some t
    → (t % 60 ≡ 0) × (t < 86400)
unfolding parse_time
parse_time-bounds decimal [] t e = cc
parse_time-bounds decimal (a ∷ []) t e = cc
parse_time-bounds decimal (a ∷ b ∷ []) t e = cc
parse_time-bounds decimal (a ∷ b ∷ colon ∷ []) t e = cc
parse_time-bounds decimal (a ∷ b ∷ colon ∷ c ∷ []) t e = cc
parse_time-bounds decimal (a ∷ b ∷ colon ∷ c ∷ d ∷ []) t e =
    clock_time-bounds decimal a b colon c d t e
parse_time-bounds decimal (a ∷ b ∷ colon ∷ c ∷ d ∷ e' ∷ []) t e =
    ground (arith, clock_time-bounds decimal a b colon c d t)
parse_time-bounds decimal (a ∷ b ∷ colon ∷ c ∷ d ∷ e' ∷ f ∷ rest) t e = cc
