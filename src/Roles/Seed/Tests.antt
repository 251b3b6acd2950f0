-- ===== src/Roles/Seed/Tests.antt =====
-- The theorems on seeding, applied to a guild in which one day role was created anew.
use rsl_mom_bot.Prelude.{◌≡◌, refl, none, some, List, [], ◌∷◌, inr}
use rsl_mom_bot.Roles.Models.{DayRoleMap, Role, Guild}
use rsl_mom_bot.Roles.Service.{load_day_role_map, role_of_day}
use rsl_mom_bot.Roles.Seed.{attack_days, seed_days}
use rsl_mom_bot.Roles.Seed.Laws.{wanted, role_of_day-seed_days, seed_days_again}

abbrev created : Role
created = record { id = 21; name = "Siege - Day 2 Attacker"; position = 3 }

abbrev guild : Guild
guild = record { id = 9; roles = created ∷ []; get_member = λ member. none; top_position = 8 }

abbrev rows : List DayRoleMap
rows = wanted 5 9 2 20 "Siege - Day 2 Attacker" ∷ []

role_of_day-seed_days_example :
    role_of_day 2 (load_day_role_map 9 (seed_days 7 guild attack_days rows)) ≡ some 21
role_of_day-seed_days_example = role_of_day-seed_days 7 guild rows 2 created (inr refl) refl

seed_days_again_example :
    seed_days 8 guild attack_days (seed_days 7 guild attack_days rows)
    ≡ seed_days 7 guild attack_days rows
seed_days_again_example = seed_days_again 7 8 guild rows
