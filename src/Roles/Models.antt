-- ===== src/Roles/Models.antt =====
-- src/mom_bot/roles/models.py, the results of src/mom_bot/roles/service.py, and Discord as that
-- file uses it. A time is a number.
use rsl_mom_bot.Prelude.{ℕ, String, Option, List}
use rsl_mom_bot.Prelude.Exec.{Result}
use rsl_mom_bot.Prelude.Int.{ℤ}

-- A row; the pair of the first two columns is the key.
pub record DayRoleMap : Type 0 where
  pub guild_id : ℕ
  pub day_number : ℕ
  pub discord_role_id : ℕ
  pub role_display_name : String
  -- the time of the last INSERT or UPDATE
  pub updated_at : ℕ

pub data Status : Type 0 where
  is_applied is_skipped is_partial is_failed : Status

-- The reason codes of the wire contract.
pub data Reason : Type 0 where
  member_not_in_guild role_not_seeded already_has_role already_lacks_role : Reason
  remove_of_other_day_failed_403 stale_write : Reason

-- `last_assigned_at`, which the service never sets, is a field of the sidecar's answer only.
pub record RoleSyncResult : Type 0 where
  pub status : Status
  pub added : List ℕ
  pub removed : List ℕ
  pub reason : Option Reason

pub record Role : Type 0 where
  pub id : ℕ
  pub name : String
  pub position : ℕ

-- `discord.Guild`, as its caches answer: `get_member` gives the ids of the member's roles.
pub record Guild : Type 0 where
  pub id : ℕ
  pub roles : List Role
  pub get_member : ℤ → Option (List ℕ)
  pub top_position : ℕ

-- A call that changes the roles of a member, with its outcome.
pub data RoleCall : Type 0 where
  add_call : ℤ → ℕ → Result (Unit {0}) → RoleCall
  remove_call : ℤ → ℕ → Result (Unit {0}) → RoleCall

-- How discord.py answers such a call; it may depend on the calls before, the latest first.
pub record RoleApi : Type 0 where
  pub add_roles : List RoleCall → ℤ → ℕ → Result (Unit {0})
  pub remove_roles : List RoleCall → ℤ → ℕ → Result (Unit {0})

-- The calls so far, and `_hierarchy_loss_emitted`.
pub record RoleWorld : Type 0 where
  pub calls : List RoleCall
  pub emitted : List ℕ
