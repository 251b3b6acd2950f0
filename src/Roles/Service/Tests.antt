-- ===== src/Roles/Service/Tests.antt =====
-- The theorems on day roles, applied to a guild with the two day roles and a member with the first.
use rsl_mom_bot.Prelude.{
  ℕ, ◌≡◌, ◌↔◌, ◌⊎◌, refl, true, false, not, ◌&&◌, ◌||◌, none, some, List, [], ◌∷◌, contains, In,
  inl, inr, arith,
}
use rsl_mom_bot.Prelude.Exec.{ok, err, config_error}
use rsl_mom_bot.Prelude.Int.{pos}
use rsl_mom_bot.Roles.Models.{
  DayRoleMap, is_applied, RoleSyncResult, Role, Guild, RoleApi, RoleWorld,
}
use rsl_mom_bot.Roles.Service.{load_day_role_map, role_of_day, apply_day_role, run_preflight}
use rsl_mom_bot.Roles.Service.Outcome.{replay, holds, apply_day_role-accounts}
use rsl_mom_bot.Roles.Service.Swap.{OthersHave, applied_assign_swaps}
use rsl_mom_bot.Roles.Service.Preflight.{Misplaced, run_preflight_iff}

abbrev row : ℕ → ℕ → DayRoleMap
row day role = record {
  guild_id = 9;
  day_number = day;
  discord_role_id = role;
  role_display_name = "Siege";
  updated_at = 0;
}

abbrev rows : List DayRoleMap
rows = row 1 10 ∷ row 2 20 ∷ []

abbrev live_role : ℕ → Role
live_role id = record { id = id; name = "Siege"; position = 3 }

abbrev first_day_role : List ℕ
first_day_role = 5 ∷ 10 ∷ []

abbrev guild : Guild
guild = record {
  id = 9;
  roles = live_role 10 ∷ live_role 20 ∷ [];
  get_member = λ member. some first_day_role;
  top_position = 8;
}

abbrev api : RoleApi
api = record { add_roles = λ calls member role. ok tt; remove_roles = λ calls member role. ok tt }

abbrev world : RoleWorld
world = record { calls = []; emitted = [] }

abbrev swapped : RoleSyncResult
swapped = record { status = is_applied; added = 20 ∷ []; removed = 10 ∷ []; reason = none }

assigned : (apply_day_role api guild guild none rows (pos 123) true (some 2) world).0 ≡ ok swapped
unfolding apply_day_role
assigned = refl

apply_day_role-accounts_example :
    holds
      (pos 123)
      first_day_role
      10
      (apply_day_role api guild guild none rows (pos 123) true (some 2) world).1.calls
    ≡ (contains 10 (20 ∷ [])
        || (holds (pos 123) first_day_role 10 [] && not (contains 10 (10 ∷ []))))
apply_day_role-accounts_example =
    apply_day_role-accounts (pos 123) first_day_role 10 api guild guild none rows true (some 2)
      world swapped assigned

second_day : role_of_day 2 (load_day_role_map 9 rows) ≡ some 20
unfolding role_of_day load_day_role_map
second_day = refl

loaded : load_day_role_map 9 rows ≡ (1, 10) ∷ (2, 20) ∷ []
unfolding load_day_role_map
loaded = refl

others : OthersHave 2 10 (load_day_role_map 9 rows)
others = rw loaded (inr refl, (inl refl, tt))

first_day : In (1, 10) (load_day_role_map 9 rows)
first_day = rw loaded (inl refl)

cached : some first_day_role ≡ some (replay (pos 123) [] first_day_role)
unfolding replay
cached = refl

applied_assign_swaps_example :
    (holds
        (pos 123)
        first_day_role
        20
        (apply_day_role api guild guild none rows (pos 123) true (some 2) world).1.calls
      ≡ true)
    × (holds
          (pos 123)
          first_day_role
          10
          (apply_day_role api guild guild none rows (pos 123) true (some 2) world).1.calls
        ≡ false)
applied_assign_swaps_example =
    applied_assign_swaps api guild guild none rows (pos 123) first_day_role 2 1 20 10 world swapped
      second_day others first_day (omega arith) (omega arith) cached assigned refl

run_preflight_iff_example :
    ((run_preflight guild rows ≡ ok tt) ⊎ (run_preflight guild rows ≡ err config_error))
    × ((run_preflight guild rows ≡ err config_error) ↔ Misplaced guild rows)
run_preflight_iff_example = run_preflight_iff guild rows
