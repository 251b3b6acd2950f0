-- ===== src/Sidecar/RoleSync/Tests.antt =====
-- The theorems on role-sync requests, applied to an assignment of the second day.
use rsl_mom_bot.Prelude.{◌≡◌, refl, true, none, some, List, [], ◌∷◌}
use rsl_mom_bot.Prelude.Exec.{ok, err, forbidden}
use rsl_mom_bot.Roles.Models.{DayRoleMap, is_applied, Guild, RoleApi}
use rsl_mom_bot.Sidecar.RoleSync.{
  RoleSyncRequest, RoleSyncResponse, MemberRoleSyncState, SyncWorld, stored_of, role_sync, text_lt,
}
use rsl_mom_bot.Sidecar.RoleSync.Replay.{role_sync_again}
use rsl_mom_bot.Sidecar.RoleSync.Monotone.{Later, none_yet, then_one, last_assigned_at_monotone}

abbrev rows : List DayRoleMap
rows =
    record {
      guild_id = 9;
      day_number = 2;
      discord_role_id = 20;
      role_display_name = "Siege";
      updated_at = 0;
    }
    ∷ []

abbrev guild : Guild
guild = record {
  id = 9;
  roles = record { id = 20; name = "Siege"; position = 3 } ∷ [];
  get_member = λ member. some [];
  top_position = 8;
}

abbrev api : RoleApi
api = record { add_roles = λ calls member role. ok tt; remove_roles = λ calls member role. ok tt }

-- A Discord that by then refuses everything.
abbrev refusing : RoleApi
refusing = record {
  add_roles = λ calls member role. err forbidden;
  remove_roles = λ calls member role. err forbidden;
}

abbrev request : RoleSyncRequest
request = record {
  discord_id = "123";
  day_number = some 2;
  assigns = true;
  assigned_at = "2026-07-07T10:00:00Z";
  correlation_id = "a";
}

abbrev older : RoleSyncRequest
older = record request { assigned_at = "2026-07-07T09:00:00Z" }

abbrev start : SyncWorld
start = record { states = []; discord = record { calls = []; emitted = [] } }

abbrev response : RoleSyncResponse
response = record {
  status = is_applied;
  added = 20 ∷ [];
  removed = [];
  reason = none;
  last_assigned_at = none;
}

abbrev served : SyncWorld
served = (role_sync api guild guild none rows request start).1

answered : (role_sync api guild guild none rows request start).0 ≡ ok response
unfolding role_sync rsl_mom_bot.PyText.int_of rsl_mom_bot.Roles.Service.apply_day_role
answered = refl

role_sync_again_example :
    role_sync refusing guild guild none [] request served ≡ (ok response, served)
role_sync_again_example =
    role_sync_again api refusing guild guild guild guild none none rows [] request start response
      answered

abbrev stored : MemberRoleSyncState
stored = record {
  discord_id = "123";
  last_assigned_at = "2026-07-07T10:00:00Z";
  last_assigns = true;
  last_day_number = some 2;
  last_correlation_id = "a";
  last_response_status = is_applied;
  last_response_added = some (20 ∷ []);
  last_response_removed = some [];
  last_response_reason = none;
}

is_stored : stored_of "123" served ≡ some stored
unfolding role_sync rsl_mom_bot.PyText.int_of rsl_mom_bot.Roles.Service.apply_day_role
is_stored = refl

is_older : text_lt older.assigned_at stored.last_assigned_at ≡ true
unfolding text_lt
is_older = refl

last_assigned_at_monotone_example :
    Later "123" stored (role_sync api guild guild none rows older served).1
last_assigned_at_monotone_example =
    last_assigned_at_monotone "123" stored served
      (role_sync api guild guild none rows older served).1 is_stored
      (then_one api guild guild none rows older served none_yet)
