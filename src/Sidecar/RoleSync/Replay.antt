-- ===== src/Sidecar/RoleSync/Replay.antt =====
-- A request that is sent again gets the same response, and nothing is done for it.
use rsl_mom_bot.Prelude.{ℕ, String, ◌≡◌, refl, true, Option, none, some, List, find?, arith, eq_iff}
use rsl_mom_bot.Prelude.Exec.{Result, ok, err}
use rsl_mom_bot.Prelude.Int.{ℤ}
use rsl_mom_bot.PyText.{int_of}
use rsl_mom_bot.Roles.Models.{DayRoleMap, RoleSyncResult, Guild, RoleApi, RoleWorld}
use rsl_mom_bot.Roles.Service.{apply_day_role}
use rsl_mom_bot.Sidecar.RoleSync.{
  RoleSyncRequest, RoleSyncResponse, MemberRoleSyncState, SyncWorld, has_discord_id, stored_of,
  key_matches, stored_response, early_response, state_of, upsert_state, response_of, after_service,
  resolved_day, call_service, fresh_write, answer, role_sync,
}
use rsl_mom_bot.Sidecar.RoleSync.Order.{find?-upsert_state}

key_matches_self :
    (body : RoleSyncRequest) (result : RoleSyncResult)
    → key_matches body (state_of body result) ≡ true
key_matches_self body result = ground (arith, eq_iff body.assigned_at body.assigned_at)

early_response-state_of :
    (body : RoleSyncRequest) (result : RoleSyncResult)
    → early_response body (some (state_of body result)) ≡ some (response_of result)
unfolding early_response stored_response
early_response-state_of body result = rw (key_matches_self body result) refl

module _ (api api' : RoleApi) (guild later guild' later' : Guild) (forced forced' : Option String)
    (rows rows' : List DayRoleMap) where
  -- The row that a fresh write leaves answers the request.
  after_write :
      (body : RoleSyncRequest) (states : List MemberRoleSyncState) (r : Result RoleSyncResult)
      (discord : RoleWorld) (resp : RoleSyncResponse)
      → (after_service body states (r, discord)).0 ≡ ok resp
      → let w' = (after_service body states (r, discord)).1 in
        role_sync api' guild' later' forced' rows' body w' ≡ (ok resp, w')
  unfolding after_service role_sync answer
  after_write body states (ok result) discord resp h =
      let new = state_of body result in
      let found : find? (has_discord_id body.discord_id) (upsert_state new states) ≡ some new =
        rw
          (
            find?-upsert_state body.discord_id new states,
            (eq_iff body.discord_id body.discord_id).1 refl,
          )
          refl in
      rw (found, early_response-state_of body result) (ground arith)
  after_write body states (err e) discord resp h = cc

  after_call :
      (body : RoleSyncRequest) (day : Option ℕ) (member : Option ℤ) (w : SyncWorld)
      (resp : RoleSyncResponse)
      → (call_service api guild later forced rows body day member w).0 ≡ ok resp
      → let w' = (call_service api guild later forced rows body day member w).1 in
        role_sync api' guild' later' forced' rows' body w' ≡ (ok resp, w')
  unfolding call_service
  after_call body day none w resp h = cc
  after_call body day (some member) w resp h =
      let (r, discord) =
        apply_day_role api guild later forced rows member body.assigns day w.discord in
      after_write body w.states r discord resp h

  after_fresh :
      (body : RoleSyncRequest) (stored : Option MemberRoleSyncState) (day : Option (Option ℕ))
      (w : SyncWorld) (resp : RoleSyncResponse)
      → stored_of body.discord_id w ≡ stored
      → early_response body stored ≡ none
      → resolved_day body stored ≡ day
      → (fresh_write api guild later forced rows body day w).0 ≡ ok resp
      → let w' = (fresh_write api guild later forced rows body day w).1 in
        role_sync api' guild' later' forced' rows' body w' ≡ (ok resp, w')
  unfolding role_sync answer fresh_write
  after_fresh body stored none w resp s e d h = rw (s, e, d) (ground arith)
  after_fresh body stored (some day) w resp s e d h =
      after_call body day (int_of body.discord_id) w resp h

  after_answer :
      (body : RoleSyncRequest) (stored : Option MemberRoleSyncState)
      (early : Option RoleSyncResponse) (w : SyncWorld) (resp : RoleSyncResponse)
      → stored_of body.discord_id w ≡ stored
      → early_response body stored ≡ early
      → (answer api guild later forced rows body stored early w).0 ≡ ok resp
      → let w' = (answer api guild later forced rows body stored early w).1 in
        role_sync api' guild' later' forced' rows' body w' ≡ (ok resp, w')
  unfolding role_sync answer
  after_answer body stored (some r) w resp s e h = rw (s, e) (ground arith)
  after_answer body stored none w resp s e h =
      after_fresh body stored (resolved_day body stored) w resp s e refl h

  -- If a request got a response, the same request sent again right afterwards gets the same
  -- response, calls neither the service nor Discord and changes no row, whatever the day map, the
  -- guild and Discord are by then.
  pub role_sync_again :
      (body : RoleSyncRequest) (w : SyncWorld) (resp : RoleSyncResponse)
      → (role_sync api guild later forced rows body w).0 ≡ ok resp
      → let w' = (role_sync api guild later forced rows body w).1 in
        role_sync api' guild' later' forced' rows' body w' ≡ (ok resp, w')
  unfolding role_sync answer
  role_sync_again body w resp h =
      let stored = stored_of body.discord_id w in
      after_answer body stored (early_response body stored) w resp refl refl h
