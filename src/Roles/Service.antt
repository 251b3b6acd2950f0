-- ===== src/Roles/Service.antt =====
-- src/mom_bot/roles/service.py. The guild's caches may change while a call to Discord is awaited:
-- `later` is the guild as `_maybe_emit_hierarchy_loss` sees it. Log lines are left out, but for the
-- error that is logged once for a role, which is recorded in `emitted`.
pub mod Outcome
pub mod Swap
pub mod Preflight
mod Tests
use rsl_mom_bot.Prelude.{
  ℕ, ◌+◌, String, Bool, true, false, not, ◌&&◌, ◌==◌, leb, if◌then◌else◌, Option, none, some, List,
  [], ◌∷◌, contains, find?,
}
use rsl_mom_bot.Prelude.Exec.{
  Error, Result, ok, err, Exec, pure, raise, ◌>>=◌, ◌>>◌, value_error, forbidden, config_error,
}
use rsl_mom_bot.Prelude.Int.{ℤ}
use rsl_mom_bot.PyText.{codes, codes_eq, str_of}
use rsl_mom_bot.Roles.Models.{
  DayRoleMap, Status, is_applied, is_skipped, is_partial, is_failed, Reason, member_not_in_guild,
  role_not_seeded, already_has_role, already_lacks_role, remove_of_other_day_failed_403,
  RoleSyncResult, Role, Guild, RoleCall, add_call, remove_call, RoleApi, RoleWorld,
}

-- A `dict` from days to roles, in order.
abbrev pub DayMap : Type 0
DayMap = List (ℕ × ℕ)

unfoldable pub load_day_role_map : ℕ → List DayRoleMap → DayMap
load_day_role_map guild_id [] = []
load_day_role_map guild_id (r ∷ rows) =
    let rest = load_day_role_map guild_id rows in
    if r.guild_id == guild_id then (r.day_number, r.discord_role_id) ∷ rest else rest

-- `day_map[day]`, where `none` is a day that is not in it.
unfoldable pub role_of_day : ℕ → DayMap → Option ℕ
role_of_day day [] = none
role_of_day day ((d, role) ∷ rest) = if d == day then some role else role_of_day day rest

abbrev pub has_role_id : ℕ → Role → Bool
has_role_id id r = r.id == id

-- `guild.get_role(id)`.
abbrev pub get_role : Guild → ℕ → Option Role
get_role guild id = find? (has_role_id id) guild.roles

abbrev pub skipped : Reason → RoleSyncResult
skipped reason = record { status = is_skipped; added = []; removed = []; reason = some reason }

-- The loop that looks for a role of another day that the member holds. The `next(...)` in it
-- finds that role, since its id is one of the member's.
unfoldable pub other_day_role : ℕ → DayMap → List ℕ → Option ℕ
other_day_role day [] held = none
other_day_role day ((d, role) ∷ rest) held =
    if not (d == day) && contains role held then some role else other_day_role day rest held

-- What the lookups at the head of both handlers find: the target role and the member's role ids.
pub data Target : Type 0 where
  missing : Reason → Target
  found : ℕ → List ℕ → Target

unfoldable pub find_target : Guild → ℤ → Option ℕ → DayMap → Target
unfolding role_of_day
find_target guild member none day_map = missing role_not_seeded
find_target guild member (some day) day_map = elim (role_of_day day day_map) [
  | none ↦ missing role_not_seeded
  | some role ↦ elim (get_role guild role) [
    | none ↦ missing role_not_seeded
    | some live ↦ elim (guild.get_member member) [
      | none ↦ missing member_not_in_guild
      | some held ↦ found role held
    ]
  ]
]

abbrev emit_if : Bool → ℕ → RoleWorld → RoleWorld
emit_if true role w = record w { emitted = role ∷ w.emitted }
emit_if false role w = w

-- `_maybe_emit_hierarchy_loss`.
unfoldable pub maybe_emit_hierarchy_loss : Guild → ℕ → RoleWorld → RoleWorld
maybe_emit_hierarchy_loss later role w =
    if contains role w.emitted then w else elim (get_role later role) [
      | none ↦ w
      | some live ↦ emit_if (leb later.top_position live.position) role w
    ]

-- `str(discord_id) == os.environ.get("MOM_BOT_FORCE_PARTIAL_FOR_DISCORD_ID")`.
abbrev pub is_forced : Option String → ℤ → Bool
is_forced none member = false
is_forced (some value) member = codes_eq (str_of member) (codes value)

module _ (api : RoleApi) (guild later : Guild) where
  abbrev pub call_add : ℤ → ℕ → Exec RoleWorld (Result (Unit {0}))
  call_add member role w =
      let outcome = api.add_roles w.calls member role in
      (ok outcome, record w { calls = add_call member role outcome ∷ w.calls })

  abbrev pub call_remove : ℤ → ℕ → Exec RoleWorld (Result (Unit {0}))
  call_remove member role w =
      let outcome = api.remove_roles w.calls member role in
      (ok outcome, record w { calls = remove_call member role outcome ∷ w.calls })

  -- After a 403 on the target role.
  abbrev pub fail_with : List ℕ → ℕ → Exec RoleWorld RoleSyncResult
  fail_with removed role w = (
    ok (record { status = is_failed; added = []; removed = removed; reason = none }),
    maybe_emit_hierarchy_loss later role w,
  )

  -- What follows `add_roles`: `removed` lists the role that was removed before it, and
  -- `remove_failed` says that its removal was refused.
  unfoldable pub after_add : List ℕ → Bool → ℕ → Result (Unit {0}) → Exec RoleWorld RoleSyncResult
  unfolding maybe_emit_hierarchy_loss
  after_add removed remove_failed role (err forbidden) = fail_with removed role
  after_add removed remove_failed role (err e) = raise e
  after_add removed true role (ok _) = pure (record {
    status = is_partial;
    added = role ∷ [];
    removed = [];
    reason = some remove_of_other_day_failed_403;
  })
  after_add removed false role (ok _) =
      pure (record { status = is_applied; added = role ∷ []; removed = removed; reason = none })

  unfoldable pub add_target : ℤ → List ℕ → Bool → ℕ → Exec RoleWorld RoleSyncResult
  unfolding after_add
  add_target member removed remove_failed role =
      call_add member role >>= after_add removed remove_failed role

  -- What follows the removal of the other day's role.
  unfoldable pub after_remove_other : ℤ → ℕ → ℕ → Result (Unit {0}) → Exec RoleWorld RoleSyncResult
  unfolding add_target
  after_remove_other member role other (ok _) = add_target member (other ∷ []) false role
  after_remove_other member role other (err forbidden) = add_target member [] true role
  after_remove_other member role other (err e) = raise e

  -- The removal of the other day's role, if there is one: `forced` is the test seam, which raises
  -- in place of the call.
  unfoldable pub swap_roles : Bool → ℤ → ℕ → Option ℕ → Exec RoleWorld RoleSyncResult
  unfolding after_remove_other
  swap_roles forced member role none = add_target member [] false role
  swap_roles true member role (some other) = after_remove_other member role other (err forbidden)
  swap_roles false member role (some other) =
      call_remove member other >>= after_remove_other member role other

  unfoldable pub assign_found : Bool → ℤ → ℕ → DayMap → Target → Exec RoleWorld RoleSyncResult
  unfolding swap_roles other_day_role
  assign_found forced member day day_map (missing reason) = pure (skipped reason)
  assign_found forced member day day_map (found role held) =
      if contains role held
      then pure (skipped already_has_role)
      else swap_roles forced member role (other_day_role day day_map held)

  -- `_handle_assign`.
  unfoldable pub handle_assign : Bool → ℤ → ℕ → DayMap → Exec RoleWorld RoleSyncResult
  unfolding assign_found find_target
  handle_assign forced member day day_map =
      assign_found forced member day day_map (find_target guild member (some day) day_map)

  unfoldable pub after_unassign : ℕ → Result (Unit {0}) → Exec RoleWorld RoleSyncResult
  unfolding maybe_emit_hierarchy_loss
  after_unassign role (ok _) =
      pure (record { status = is_applied; added = []; removed = role ∷ []; reason = none })
  after_unassign role (err forbidden) = fail_with [] role
  after_unassign role (err e) = raise e

  unfoldable pub unassign_found : ℤ → Target → Exec RoleWorld RoleSyncResult
  unfolding after_unassign
  unassign_found member (missing reason) = pure (skipped reason)
  unassign_found member (found role held) =
      if contains role held
      then call_remove member role >>= after_unassign role
      else pure (skipped already_lacks_role)

  -- `_handle_unassign`.
  unfoldable pub handle_unassign : ℤ → Option ℕ → DayMap → Exec RoleWorld RoleSyncResult
  unfolding unassign_found find_target
  handle_unassign member day day_map = unassign_found member (find_target guild member day day_map)

  -- `apply_day_role`: `assigns` says which of the two actions it is.
  unfoldable pub apply_day_role :
      Option String → List DayRoleMap → ℤ → Bool → Option ℕ → Exec RoleWorld RoleSyncResult
  unfolding load_day_role_map handle_assign handle_unassign
  apply_day_role forced rows member true none = raise value_error
  apply_day_role forced rows member true (some day) =
      handle_assign (is_forced forced member) member day (load_day_role_map guild.id rows)
  apply_day_role forced rows member false day =
      handle_unassign member day (load_day_role_map guild.id rows)

-- Is the mapped role one that the bot cannot manage?
abbrev pub is_violation : Guild → ℕ × ℕ → Bool
is_violation guild (day, role) = elim (get_role guild role) [
  | none ↦ false
  | some live ↦ leb guild.top_position live.position
]

-- The loop of `run_preflight`, which counts the violations.
unfoldable pub count_violations : Guild → DayMap → ℕ → ℕ
count_violations guild [] n = n
count_violations guild (m ∷ rest) n =
    count_violations guild rest (if is_violation guild m then n + 1 else n)

unfoldable pub run_preflight : Guild → List DayRoleMap → Result (Unit {0})
unfolding load_day_role_map count_violations
run_preflight guild rows =
    if count_violations guild (load_day_role_map guild.id rows) 0 == 0
    then ok tt
    else err config_error
