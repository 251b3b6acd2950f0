-- ===== src/Roles/Seed.antt =====
-- src/mom_bot/roles/seed.py. The name of a role is found by `name_of_day`, the constant template
-- of the source for the days 1 and 2.
pub mod Laws
mod Tests
use rsl_mom_bot.Prelude.{
  ℕ, String, Bool, not, ◌&&◌, ◌==◌, ◌=ₛ◌, if◌then◌else◌, Option, none, some, List, [], ◌∷◌, ◌++◌,
  find?,
}
use rsl_mom_bot.Roles.Models.{DayRoleMap, Role, Guild}

abbrev pub attack_days : List ℕ
attack_days = 1 ∷ 2 ∷ []

-- `DAY_ROLE_NAME_TEMPLATE.format(day=day)` on the attack days.
abbrev pub name_of_day : ℕ → String
name_of_day day = if day == 1 then "Siege - Day 1 Attacker" else "Siege - Day 2 Attacker"

abbrev pub is_key : ℕ → ℕ → DayRoleMap → Bool
is_key guild_id day r = (r.guild_id == guild_id) && (r.day_number == day)

-- The row of that key is written back.
unfoldable pub set_row : DayRoleMap → List DayRoleMap → List DayRoleMap
set_row new [] = []
set_row new (r ∷ rows) =
    (if is_key new.guild_id new.day_number r then new else r) ∷ set_row new rows

-- `_upsert_day_role`, with its four branches, once the row was looked up. `now` is the time of the
-- database, which each INSERT and UPDATE stores in `updated_at`.
unfoldable pub upsert_found :
    ℕ → ℕ → ℕ → ℕ → String → Option DayRoleMap → List DayRoleMap → List DayRoleMap
unfolding set_row
upsert_found now guild_id day role_id role_name none rows =
    rows
    ++ record {
      guild_id = guild_id;
      day_number = day;
      discord_role_id = role_id;
      role_display_name = role_name;
      updated_at = now;
    }
      ∷ []
upsert_found now guild_id day role_id role_name (some existing) rows =
    if not (existing.discord_role_id == role_id)
    then set_row
        (record existing {
          discord_role_id = role_id;
          role_display_name = role_name;
          updated_at = now;
        })
        rows
    else if not (existing.role_display_name =ₛ role_name)
    then set_row (record existing { role_display_name = role_name; updated_at = now }) rows
    else rows

unfoldable pub upsert_day_role : ℕ → ℕ → ℕ → ℕ → String → List DayRoleMap → List DayRoleMap
unfolding upsert_found
upsert_day_role now guild_id day role_id role_name rows =
    upsert_found now guild_id day role_id role_name (find? (is_key guild_id day) rows) rows

abbrev pub has_role_name : String → Role → Bool
has_role_name name r = r.name =ₛ name

-- One pass of the inner loop, with the role found by name.
unfoldable pub seed_found : ℕ → Guild → ℕ → Option Role → List DayRoleMap → List DayRoleMap
unfolding upsert_day_role
seed_found now guild day none rows = rows
seed_found now guild day (some role) rows = upsert_day_role now guild.id day role.id role.name rows

unfoldable pub seed_days : ℕ → Guild → List ℕ → List DayRoleMap → List DayRoleMap
unfolding seed_found
seed_days now guild [] rows = rows
seed_days now guild (day ∷ days) rows =
    seed_days now guild days
      (seed_found now guild day (find? (has_role_name (name_of_day day)) guild.roles) rows)

-- `seed_day_role_map`, over `client.guilds`.
unfoldable pub seed_day_role_map : ℕ → List Guild → List DayRoleMap → List DayRoleMap
unfolding seed_days
seed_day_role_map now [] rows = rows
seed_day_role_map now (guild ∷ guilds) rows =
    seed_day_role_map now guilds (seed_days now guild attack_days rows)
