-- ===== src/Sidecar/RoleSync.antt =====
-- `role_sync` of src/mom_bot/sidecar/app.py, with its table, src/mom_bot/sidecar/models.py. The
-- lock of each member makes a request one step. A column of JSON text is modelled by what
-- `json.loads` reads from it, `none` where that raises. Spans and log lines are left out.
pub mod Order
pub mod Monotone
pub mod Replay
mod Tests
use rsl_mom_bot.Prelude.{
  ℕ, String, Bool, true, false, not, ◌&&◌, ◌||◌, ◌==◌, ◌=ₛ◌, ltb, if◌then◌else◌, Option, none, some,
  List, [], ◌∷◌, ◌++◌, find?,
}
use rsl_mom_bot.Prelude.Exec.{Error, Result, ok, err, Exec, value_error}
use rsl_mom_bot.Prelude.Int.{ℤ}
use rsl_mom_bot.PyText.{codes, codes_lt, int_of}
use rsl_mom_bot.Roles.Models.{
  DayRoleMap, Status, is_skipped, Reason, already_lacks_role, stale_write, RoleSyncResult, Guild,
  RoleApi, RoleWorld,
}
use rsl_mom_bot.Roles.Service.{apply_day_role}

-- `a < b` on texts, by code points from the left.
unfoldable pub text_lt : String → String → Bool
text_lt a b = codes_lt (codes a) (codes b)

-- The fields of a request that the handler reads: `assigns` is its action. `siege_id` is only
-- logged, `correlation_id` only logged and stored.
pub record RoleSyncRequest : Type 0 where
  pub discord_id : String
  pub day_number : Option ℕ
  pub assigns : Bool
  pub assigned_at : String
  pub correlation_id : String

-- `_validate_day_number_conditionality`: the day is there exactly for an assignment.
abbrev pub is_some : Option ℕ → Bool
is_some none = false
is_some (some day) = true

abbrev pub is_well_formed : RoleSyncRequest → Bool
is_well_formed body =
    if body.assigns then is_some body.day_number else not (is_some body.day_number)

pub record RoleSyncResponse : Type 0 where
  pub status : Status
  pub added : List ℕ
  pub removed : List ℕ
  pub reason : Option Reason
  pub last_assigned_at : Option String

-- A row of `member_role_sync_state`.
pub record MemberRoleSyncState : Type 0 where
  pub discord_id : String
  pub last_assigned_at : String
  pub last_assigns : Bool
  pub last_day_number : Option ℕ
  pub last_correlation_id : String
  pub last_response_status : Status
  pub last_response_added : Option (List ℕ)
  pub last_response_removed : Option (List ℕ)
  pub last_response_reason : Option Reason

pub record SyncWorld : Type 0 where
  pub states : List MemberRoleSyncState
  pub discord : RoleWorld

abbrev pub has_discord_id : String → MemberRoleSyncState → Bool
has_discord_id id s = s.discord_id =ₛ id

-- `session.get(MemberRoleSyncState, id)`.
abbrev pub stored_of : String → SyncWorld → Option MemberRoleSyncState
stored_of id w = find? (has_discord_id id) w.states

-- `a == b` on days and on actions.
abbrev pub same_day : Option ℕ → Option ℕ → Bool
same_day none none = true
same_day (some a) (some b) = a == b
same_day _ _ = false

abbrev pub same_action : Bool → Bool → Bool
same_action true b = b
same_action false b = not b

abbrev pub key_matches : RoleSyncRequest → MemberRoleSyncState → Bool
key_matches body stored =
    (stored.last_assigned_at =ₛ body.assigned_at)
    && same_action stored.last_assigns body.assigns
    && same_day stored.last_day_number body.day_number

-- The stored response, unless one of its two JSON columns is corrupt.
unfoldable pub stored_response : MemberRoleSyncState → Option RoleSyncResponse
stored_response stored = elim stored.last_response_added [
  | none ↦ none
  | some added ↦ elim stored.last_response_removed [
    | none ↦ none
    | some removed ↦ some (record {
      status = stored.last_response_status;
      added = added;
      removed = removed;
      reason = stored.last_response_reason;
      last_assigned_at = none;
    })
  ]
]

abbrev pub stale_response : MemberRoleSyncState → RoleSyncResponse
stale_response stored = record {
  status = is_skipped;
  added = [];
  removed = [];
  reason = some stale_write;
  last_assigned_at = some stored.last_assigned_at;
}

-- Step 2: `none` goes on to the fresh write.
unfoldable pub stale_check : RoleSyncRequest → MemberRoleSyncState → Option RoleSyncResponse
unfolding text_lt
stale_check body stored =
    if text_lt body.assigned_at stored.last_assigned_at then some (stale_response stored) else none

-- Steps 1 and 2.
unfoldable pub early_response :
    RoleSyncRequest → Option MemberRoleSyncState → Option RoleSyncResponse
unfolding stored_response stale_check
early_response body none = none
early_response body (some stored) =
    if key_matches body stored
    then elim (stored_response stored) [
      | some response ↦ some response
      | none ↦ stale_check body stored
    ]
    else stale_check body stored

-- The row that the UPSERT writes.
abbrev pub state_of : RoleSyncRequest → RoleSyncResult → MemberRoleSyncState
state_of body result = record {
  discord_id = body.discord_id;
  last_assigned_at = body.assigned_at;
  last_assigns = body.assigns;
  last_day_number = body.day_number;
  last_correlation_id = body.correlation_id;
  last_response_status = result.status;
  last_response_added = some result.added;
  last_response_removed = some result.removed;
  last_response_reason = result.reason;
}

unfoldable pub upsert_state :
    MemberRoleSyncState → List MemberRoleSyncState → List MemberRoleSyncState
upsert_state new [] = new ∷ []
upsert_state new (s ∷ rest) =
    let rest' = upsert_state new rest in
    if has_discord_id new.discord_id s then new ∷ rest else s ∷ rest'

abbrev pub response_of : RoleSyncResult → RoleSyncResponse
response_of result = record {
  status = result.status;
  added = result.added;
  removed = result.removed;
  reason = result.reason;
  last_assigned_at = none;
}

-- After the service returned or raised.
unfoldable pub after_service :
    RoleSyncRequest
    → List MemberRoleSyncState
    → Result RoleSyncResult × RoleWorld
    → Result RoleSyncResponse × SyncWorld
unfolding upsert_state
after_service body states (ok result, discord) = (
  ok (response_of result),
  record { states = upsert_state (state_of body result) states; discord = discord },
)
after_service body states (err e, discord) = (err e, record { states = states; discord = discord })

-- The answer to an unassignment of a member without a stored day.
abbrev pub lacks_role : RoleSyncResponse
lacks_role = record {
  status = is_skipped;
  added = [];
  removed = [];
  reason = some already_lacks_role;
  last_assigned_at = none;
}

-- `prior_day_number`.
abbrev pub prior_day : Option MemberRoleSyncState → Option ℕ
prior_day none = none
prior_day (some stored) = stored.last_day_number

-- The day of step 3: `none` returns without a call of the service.
unfoldable pub resolved_day : RoleSyncRequest → Option MemberRoleSyncState → Option (Option ℕ)
resolved_day body stored =
    if not body.assigns && not (is_some body.day_number)
    then elim (prior_day stored) [ none ↦ none | some day ↦ some (some day) ]
    else some body.day_number

module _ (api : RoleApi) (guild later : Guild) (forced : Option String)
    (rows : List DayRoleMap) where
  unfoldable pub call_service :
      RoleSyncRequest → Option ℕ → Option ℤ → Exec SyncWorld RoleSyncResponse
  unfolding after_service
  call_service body day none w = (err value_error, w)
  call_service body day (some member) w =
      after_service body w.states
        (apply_day_role api guild later forced rows member body.assigns day w.discord)

  -- Step 3.
  unfoldable pub fresh_write : RoleSyncRequest → Option (Option ℕ) → Exec SyncWorld RoleSyncResponse
  unfolding call_service
  fresh_write body none w = (ok lacks_role, w)
  fresh_write body (some day) w = call_service body day (int_of body.discord_id) w

  -- The rest of the handler, after the early returns of steps 1 and 2.
  unfoldable pub answer :
      RoleSyncRequest
      → Option MemberRoleSyncState
      → Option RoleSyncResponse
      → Exec SyncWorld RoleSyncResponse
  unfolding fresh_write resolved_day
  answer body stored (some response) w = (ok response, w)
  answer body stored none w = fresh_write body (resolved_day body stored) w

  unfoldable pub role_sync : RoleSyncRequest → Exec SyncWorld RoleSyncResponse
  unfolding early_response answer
  role_sync body w =
      let stored = stored_of body.discord_id w in answer body stored (early_response body stored) w
