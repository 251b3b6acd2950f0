-- ===== src/PostConditions/Client.antt =====
-- src/mom_bot/post_conditions/client.py: the client of siege-web. The clock is in milliseconds, and
-- so are the values that `float` reads from a header. The bot token is a parameter.
pub mod Retry
pub mod Cache
mod Tests
use rsl_mom_bot.Prelude.{
  ℕ, ◌+◌, ◌-◌, String, Bool, true, false, not, ◌||◌, ◌==◌, ltb, if◌then◌else◌, Option, none, some,
  List, [], ◌∷◌, ◌++◌, find?, filter,
}
use rsl_mom_bot.Prelude.Int.{ℤ, pos, negsuc, eq_ℤ}
use rsl_mom_bot.Prelude.Exec.{
  Error, Result, ok, err, Exec, pure, raise, ◌>>=◌, ◌>>◌, siege_web_auth, siege_web_not_found,
  siege_web_validation, siege_web_rate_limit,
}
use rsl_mom_bot.PyText.{codes}
use rsl_mom_bot.PostConditions.Models.{Condition}

-- What `float(text)` may give: not a number, an infinity, or a number, here in thousandths.
pub data PyFloat : Type 0 where
  nan : PyFloat
  infinite : Bool → PyFloat
  millis : ℤ → PyFloat

pub data Method : Type 0 where
  get put : Method

-- One request; `json` holds the ids of its `post_condition_ids`.
pub record Request : Type 0 where
  pub method : Method
  pub url : List ℕ
  pub headers : Option (List (List ℕ × List ℕ))
  pub params : Option ℤ
  pub json : Option (List ℕ)

-- A response: the body is what `resp.json()` gives.
pub record Response : Type 0 where
  pub status : ℕ
  pub retry_after : Option String
  pub body : Result (List Condition)

-- What the client did, the latest first: a request, with its answer and the clock after it, and a
-- sleep.
pub data Event : Type 0 where
  sent : Request → Result Response → ℕ → Event
  slept : PyFloat → Event

-- An entry of `_catalog_cache`.
pub record Entry : Type 0 where
  pub level : Option ℤ
  pub stored_at : ℕ
  pub payload : List Condition

-- `session` holds whether the session is closed.
pub record World : Type 0 where
  pub clock : ℕ
  pub log : List Event
  pub cache : List Entry
  pub session : Option Bool

-- siege-web and the libraries: the answer to a request and the time it takes, after the events so
-- far; `float` of Python, and the time that a sleep takes.
pub record SiegeWeb : Type 0 where
  pub base_url : List ℕ
  pub token : List ℕ
  pub answer : List Event → Request → Result Response
  pub latency : List Event → Request → ℕ
  pub float : String → Option PyFloat
  pub pause : PyFloat → ℕ

-- `_RETRY_BACKOFF_SCHEDULE`, `_RETRY_AFTER_MAX` and `_CATALOG_CACHE_TTL`.
abbrev pub retry_backoff_schedule : List ℕ
retry_backoff_schedule = 1000 ∷ 2000 ∷ 4000 ∷ []

abbrev pub retry_after_max : ℕ
retry_after_max = 30000

abbrev pub catalog_cache_ttl : ℕ
catalog_cache_ttl = 600000

-- `value <= 0 or value > _RETRY_AFTER_MAX`; a comparison with NaN is false.
abbrev pub is_refused : PyFloat → Bool
is_refused nan = false
is_refused (infinite positive) = true
is_refused (millis (pos n)) = (n == 0) || ltb retry_after_max n
is_refused (millis (negsuc n)) = true

unfoldable pub parse_retry_after : SiegeWeb → Option String → Option PyFloat
parse_retry_after web none = none
parse_retry_after web (some raw) = elim (web.float raw) [
  | none ↦ none
  | some value ↦ if is_refused value then none else some value
]

unfoldable pub raise_for_status : ℕ → Result (Unit {0})
raise_for_status status =
    if status == 401
    then err siege_web_auth
    else if status == 404
    then err siege_web_not_found
    else if status == 422
    then err siege_web_validation
    else ok tt

-- A response whose status is not 429.
unfoldable pub read_response : Response → Result (List Condition)
unfolding raise_for_status
read_response resp = elim (raise_for_status resp.status) [ ok _ ↦ resp.body | err e ↦ err e ]

unfoldable pub get_session : Exec World Unit
get_session w = (ok tt, record w { session = some false })

unfoldable pub close : Exec World Unit
close w = (ok tt, record w { session = none })

unfoldable pub sleep : SiegeWeb → PyFloat → Exec World Unit
sleep web f w = (ok tt, record w { clock = w.clock + web.pause f; log = slept f ∷ w.log })

-- The request on the wire.
unfoldable pub send : SiegeWeb → Request → Exec World (Result Response)
send web req w =
    let answer = web.answer w.log req in
    let now = w.clock + web.latency w.log req in
    (ok answer, record w { clock = now; log = sent req answer now ∷ w.log })

-- `retry_after if retry_after is not None else _RETRY_BACKOFF_SCHEDULE[attempt]`.
unfoldable pub sleep_for : SiegeWeb → Response → ℕ → PyFloat
unfolding parse_retry_after
sleep_for web resp backoff = elim (parse_retry_after web resp.retry_after) [
  | some f ↦ f
  | none ↦ millis (pos backoff)
]

-- After one attempt: `retry` is the rest of the loop, and `none` on the last attempt.
unfoldable pub after_attempt :
    Option (Response → Exec World (List Condition)) → Result Response → Exec World (List Condition)
unfolding read_response
after_attempt retry (err e) w = (err e, w)
after_attempt retry (ok resp) w =
    if not (resp.status == 429)
    then (read_response resp, w)
    else elim retry [ none ↦ (err siege_web_rate_limit, w) | some next ↦ next resp w ]

-- The attempts that the rest of the schedule allows.
unfoldable pub attempts : SiegeWeb → Request → List ℕ → Exec World (List Condition)
unfolding send after_attempt sleep sleep_for
attempts web req [] = send web req >>= after_attempt none
attempts web req (backoff ∷ schedule) =
    let rest = attempts web req schedule in
    send web req >>= after_attempt (some λ resp. sleep web (sleep_for web resp backoff) >> rest)

unfoldable pub call_with_retry : SiegeWeb → Request → Exec World (List Condition)
unfolding get_session attempts
call_with_retry web req = get_session >> attempts web req retry_backoff_schedule

abbrev pub bearer : SiegeWeb → List ℕ × List ℕ
bearer web = (codes "Authorization", codes "Bearer " ++ web.token)

-- `_auth_headers`.
unfoldable pub auth_headers : SiegeWeb → List ℕ → List ℕ → List (List ℕ × List ℕ)
auth_headers web discord_id discord_username =
    bearer web
    ∷ (codes "X-Acting-Discord-Id", discord_id)
    ∷ (codes "X-Acting-Discord-Username", discord_username)
    ∷ []

abbrev pub same_level : Option ℤ → Option ℤ → Bool
same_level none none = true
same_level (some a) (some b) = eq_ℤ a b
same_level _ _ = false

abbrev pub catalog_request : SiegeWeb → Option ℤ → Request
catalog_request web level = record {
  method = get;
  url = web.base_url ++ codes "/api/post-conditions";
  headers = some (bearer web ∷ []);
  params = level;
  json = none;
}

-- The cached payload of a level, if it is younger than the TTL.
unfoldable pub cached : Option ℤ → World → Option (List Condition)
cached level w = elim (find? (λ e. same_level e.level level) w.cache) [
  | none ↦ none
  | some e ↦ if ltb (w.clock - e.stored_at) catalog_cache_ttl then some e.payload else none
]

-- `_catalog_cache[level] = (monotonic(), result)`.
unfoldable pub store : Option ℤ → List Condition → Exec World (List Condition)
store level result w = (
  ok result,
  record w {
    cache =
        record { level = level; stored_at = w.clock; payload = result }
        ∷ filter (λ e. not (same_level e.level level)) w.cache;
  },
)

-- The part of `list_catalog` under the lock.
unfoldable pub fetch_locked : SiegeWeb → Option ℤ → Exec World (List Condition)
unfolding cached call_with_retry store
fetch_locked web level w = elim (cached level w) [
  | some payload ↦ (ok payload, w)
  | none ↦ (call_with_retry web (catalog_request web level) >>= store level) w
]

-- What happens while the lock is awaited: time passes, and other callers hold it.
pub data Other : Type 0 where
  elapsed : ℕ → Other
  locked : Option ℤ → Other

unfoldable pub meanwhile : SiegeWeb → List Other → World → World
unfolding fetch_locked
meanwhile web [] w = w
meanwhile web (elapsed n ∷ others) w = meanwhile web others (record w { clock = w.clock + n })
meanwhile web (locked level ∷ others) w = meanwhile web others (fetch_locked web level w).1

unfoldable pub list_catalog : SiegeWeb → List Other → Option ℤ → Exec World (List Condition)
unfolding cached meanwhile fetch_locked
list_catalog web others level w = elim (cached level w) [
  | some payload ↦ (ok payload, w)
  | none ↦ fetch_locked web level (meanwhile web others w)
]

abbrev pub preferences_request : SiegeWeb → Method → List ℕ → List ℕ → Option (List ℕ) → Request
preferences_request web method discord_id discord_username json = record {
  method = method;
  url = web.base_url ++ codes "/api/members/me/preferences";
  headers = some (auth_headers web discord_id discord_username);
  params = none;
  json = json;
}

unfoldable pub get_my_preferences : SiegeWeb → List ℕ → List ℕ → Exec World (List Condition)
unfolding auth_headers call_with_retry
get_my_preferences web discord_id discord_username =
    call_with_retry web (preferences_request web get discord_id discord_username none)

unfoldable pub set_my_preferences :
    SiegeWeb → List ℕ → List ℕ → List ℕ → Exec World (List Condition)
unfolding auth_headers call_with_retry
set_my_preferences web discord_id discord_username ids =
    call_with_retry web (preferences_request web put discord_id discord_username (some ids))
