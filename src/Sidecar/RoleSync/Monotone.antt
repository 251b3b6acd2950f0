-- ===== src/Sidecar/RoleSync/Monotone.antt =====
-- Stale requests are refused, so that the stored timestamp of a member never goes back.
use rsl_mom_bot.Prelude.{
  ℕ, String, ◌≡◌, refl, true, false, ◌=ₛ◌, Option, none, some, List, find?, arith, eq_iff,
  Bool-cases, inl, inr, ◌∙◌,
}
use rsl_mom_bot.Prelude.Exec.{Result, ok, err}
use rsl_mom_bot.Prelude.Int.{ℤ}
use rsl_mom_bot.PyText.{int_of}
use rsl_mom_bot.Roles.Models.{DayRoleMap, RoleSyncResult, Guild, RoleApi, RoleWorld}
use rsl_mom_bot.Roles.Service.{apply_day_role}
use rsl_mom_bot.Sidecar.RoleSync.{
  RoleSyncRequest, RoleSyncResponse, MemberRoleSyncState, SyncWorld, has_discord_id, stored_of,
  key_matches, stale_response, stale_check, early_response, state_of, after_service, resolved_day,
  call_service, fresh_write, answer, role_sync, text_lt,
}
use rsl_mom_bot.Sidecar.RoleSync.Order.{text_lt_irrefl, text_lt_trans, find?-upsert_state}

-- A request with the stored timestamp is not stale.
key_matches-lt :
    (body : RoleSyncRequest) (s : MemberRoleSyncState)
    → key_matches body s ≡ true
    → text_lt body.assigned_at s.last_assigned_at ≡ false
key_matches-lt body s h =
    let same : s.last_assigned_at ≡ body.assigned_at =
      ground (arith, eq_iff s.last_assigned_at body.assigned_at) in
    rw same (text_lt_irrefl body.assigned_at)

early_response_stale :
    (body : RoleSyncRequest) (s : MemberRoleSyncState)
    → text_lt body.assigned_at s.last_assigned_at ≡ true
    → early_response body (some s) ≡ some (stale_response s)
unfolding early_response stale_check
early_response_stale body s h = ground (arith, key_matches-lt body s)

early_response-none :
    (body : RoleSyncRequest) (s : MemberRoleSyncState)
    → early_response body (some s) ≡ none
    → text_lt body.assigned_at s.last_assigned_at ≡ false
unfolding early_response stale_check
early_response-none body s h = ground (arith, key_matches-lt body s)

-- The stored row of `id` after a step is not of an earlier time than the row s.
abbrev pub Later : String → MemberRoleSyncState → SyncWorld → Type 0
Later id s w =
    (t : MemberRoleSyncState) × (stored_of id w ≡ some t)
    × (text_lt t.last_assigned_at s.last_assigned_at ≡ false)

stays :
    (id : String) (s : MemberRoleSyncState) (w : SyncWorld) → stored_of id w ≡ some s → Later id s w
stays id s w e = (s, e, text_lt_irrefl s.last_assigned_at)

module _ (api : RoleApi) (guild later : Guild) (forced : Option String)
    (rows : List DayRoleMap) where
  -- A request older than the stored row of its member is refused: the response says so and gives
  -- the stored time, and nothing changes.
  pub role_sync_stale :
      (body : RoleSyncRequest) (w : SyncWorld) (s : MemberRoleSyncState)
      → stored_of body.discord_id w ≡ some s
      → text_lt body.assigned_at s.last_assigned_at ≡ true
      → role_sync api guild later forced rows body w ≡ (ok (stale_response s), w)
  unfolding role_sync answer
  role_sync_stale body w s e h = rw (e, early_response_stale body s h) refl

  after_service-Later :
      (body : RoleSyncRequest) (id : String) (s : MemberRoleSyncState)
      (states : List MemberRoleSyncState) (r : Result RoleSyncResult) (discord : RoleWorld)
      → find? (has_discord_id id) states ≡ some s
      → (body.discord_id ≡ id → text_lt body.assigned_at s.last_assigned_at ≡ false)
      → Later id s (after_service body states (r, discord)).1
  unfolding after_service
  after_service-Later body id s states (err x) discord e h =
      (s, e, text_lt_irrefl s.last_assigned_at)
  after_service-Later body id s states (ok result) discord e h =
      let new = state_of body result in
      let now = find?-upsert_state id new states in
      elim (Bool-cases (body.discord_id =ₛ id)) [
        | inl same ↦ (new, rw same at now, h ((eq_iff body.discord_id id).0 same))
        | inr other ↦ (s, rw other at now ∙ e, text_lt_irrefl s.last_assigned_at)
      ]

  fresh_write-Later :
      (body : RoleSyncRequest) (day : Option (Option ℕ)) (id : String) (s : MemberRoleSyncState)
      (w : SyncWorld)
      → stored_of id w ≡ some s
      → (body.discord_id ≡ id → text_lt body.assigned_at s.last_assigned_at ≡ false)
      → Later id s (fresh_write api guild later forced rows body day w).1
  unfolding fresh_write call_service
  fresh_write-Later body none id s w e h = stays id s w e
  fresh_write-Later body (some day) id s w e h = step (int_of body.discord_id)
    where
      step :
          (member : Option ℤ)
          → Later id s (call_service api guild later forced rows body day member w).1
      step none = stays id s w e
      step (some m) =
          let (r, discord) =
            apply_day_role api guild later forced rows m body.assigns day w.discord in
          after_service-Later body id s w.states r discord e h

  answer-Later :
      (body : RoleSyncRequest) (early : Option RoleSyncResponse) (id : String)
      (s : MemberRoleSyncState) (w : SyncWorld)
      → early_response body (stored_of body.discord_id w) ≡ early
      → stored_of id w ≡ some s
      → Later id s (answer api guild later forced rows body (stored_of body.discord_id w) early w).1
  unfolding answer early_response
  answer-Later body (some r) id s w x e = stays id s w e
  answer-Later body none id s w x e =
      fresh_write-Later body (resolved_day body (stored_of body.discord_id w)) id s w e
        (λ same. early_response-none body s (rw (same, e) at x))

  role_sync-Later :
      (body : RoleSyncRequest) (id : String) (s : MemberRoleSyncState) (w : SyncWorld)
      → stored_of id w ≡ some s
      → Later id s (role_sync api guild later forced rows body w).1
  unfolding role_sync
  role_sync-Later body id s w e =
      answer-Later body (early_response body (stored_of body.discord_id w)) id s w refl e

-- Requests served one after another, with whatever Discord, guild and day map each one meets.
pub data Served (w : SyncWorld) : SyncWorld → Type 0 where
  none_yet : Served w w
  then_one :
      (api : RoleApi) (guild later : Guild) (forced : Option String) (rows : List DayRoleMap)
      (body : RoleSyncRequest) (v : SyncWorld)
      → Served w v
      → Served w (role_sync api guild later forced rows body v).1

-- After any requests, the row of a member that had one is still there, with a timestamp that is
-- not earlier.
pub last_assigned_at_monotone :
    (id : String) (s : MemberRoleSyncState) (w v : SyncWorld)
    → stored_of id w ≡ some s
    → Served w v
    → Later id s v
last_assigned_at_monotone id s w v e none_yet = stays id s w e
last_assigned_at_monotone id s w v e (then_one api guild later forced rows body u r) =
    let (t, f, le) = last_assigned_at_monotone id s w u e r in
    let (t', f', le') = role_sync-Later api guild later forced rows body id t u f in
    (t', f', text_lt_trans s.last_assigned_at t.last_assigned_at t'.last_assigned_at le le')
