-- ===== src/Sidecar/Endpoints.antt =====
-- src/mom_bot/sidecar/app.py: the endpoints of the sidecar but for role_sync, which is in RoleSync,
-- with the handlers that translate what Discord raises. A name is lowered as an ASCII text.
pub mod Gate
pub mod Sends
mod Tests
use rsl_mom_bot.Prelude.{
  ℕ, ◌-◌, ◌==◌, ◌++◌, String, Bool, true, false, not, ◌&&◌, ◌=ₛ◌, ltb, if◌then◌else◌, Option, none,
  some, List, [], ◌∷◌, map, filter, find?, any,
}
use rsl_mom_bot.Prelude.Int.{ℤ}
use rsl_mom_bot.Prelude.Exec.{
  Error, Result, ok, err, Exec, ◌>>=ᵣ◌, http_status, forbidden, not_found, http_exception,
  timeout_error, index_error, value_error,
}
use rsl_mom_bot.PyText.{codes, codes_eq, is_digit, int_of}
use rsl_mom_bot.Sidecar.Auth.{lower, require_bearer}

pub record Role : Type 0 where
  pub id : ℕ
  pub name : String

pub record Member : Type 0 where
  pub id : ℕ
  pub name : String
  pub display_name : String
  pub roles : List Role

pub record Channel : Type 0 where
  pub id : ℕ
  pub name : String

-- The calls to Discord, the latest first.
pub data Call : Type 0 where
  fetch_member : ℤ → Call
  send_dm : Member → String → Call
  send_text : Channel → String → Call
  send_image : Channel → String → Call

-- The guild with its caches, what Discord answers after the calls so far, and the version and
-- what the environment gives. An image is answered with the addresses of the attachments.
pub record App : Type 0 where
  pub api_key : List ℕ
  pub members : List Member
  pub channels : List Channel
  pub is_ready : List Call → Bool
  pub package_version : List ℕ
  pub build_number : List ℕ
  pub git_sha : List ℕ
  pub fetch : List Call → ℤ → Result Member
  pub send : List Call → Call → Result (List String)

pub data Request : Type 0 where
  get_version get_health get_members : Request
  get_member : String → Request
  notify : String → String → Request
  post_message : String → String → Request
  -- the channel, and the name of the file if it has one
  post_image : String → Option String → Request

pub data Body : Type 0 where
  version_is : List ℕ → Body
  health_is : Bool → Body
  members_are : List (ℕ × String × String) → Body
  is_member : ℕ → String → String → List Role → Body
  no_member : Body
  sent : Body
  sent_image : String → Body
  -- the generic text of an error
  detail : Body

pub record Response : Type 0 where
  pub status : ℕ
  pub body : Body

abbrev pub respond : ℕ → Body → Response
respond code content = record { status = code; body = content }

-- The exception handlers; another exception ends the request as an error 500 of the server.
unfoldable pub translate : Error → Response
translate forbidden = respond 403 detail
translate not_found = respond 502 detail
translate (http_exception n) = if ltb n 500 then respond 502 detail else respond 503 detail
translate timeout_error = respond 503 detail
translate (http_status n) = respond n detail
translate _ = respond 500 detail

-- An endpoint: what it returns or raises.
abbrev Endpoint : Type 0
Endpoint = Exec (List Call) Response

-- A call that sends, and the rest of the endpoint.
unfoldable pub send_call : App → Call → (List String → Result Response) → Endpoint
send_call app call next log = (app.send log call >>=ᵣ next, call ∷ log)

abbrev pub is_everyone : Role → Bool
is_everyone r = r.name =ₛ "@everyone"

unfoldable pub member_info : Result Member → Result Response
member_info (ok m) =
    ok (
      respond 200
        (is_member m.id m.name m.display_name (filter (λ r. not (is_everyone r)) m.roles)))
member_info (err not_found) = ok (respond 200 no_member)
member_info (err e) = err e

-- The pattern `^\d+$` of the path.
abbrev pub is_snowflake : List ℕ → Bool
is_snowflake [] = false
is_snowflake (c ∷ cs) = not (any (λ d. not (is_digit d)) (c ∷ cs))

-- `get_member`, on the number in the path.
unfoldable pub look_up_member : App → Option ℤ → Endpoint
unfolding member_info
look_up_member app none log = (err value_error, log)
look_up_member app (some id) log = (member_info (app.fetch log id), fetch_member id ∷ log)

-- `notify`, with the member that was found.
unfoldable pub notify_member : App → String → Option Member → Endpoint
unfolding send_call
notify_member app message none log = (err (http_status 404), log)
notify_member app message (some m) log =
    send_call app (send_dm m message) (λ _. ok (respond 200 sent)) log

-- `post_message`, with the channel that was found.
unfoldable pub post_to : App → String → Option Channel → Endpoint
unfolding send_call
post_to app message none log = (err (http_status 404), log)
post_to app message (some c) log =
    send_call app (send_text c message) (λ _. ok (respond 200 sent)) log

-- `message.attachments[0].url`.
abbrev pub first_url : List String → Result Response
first_url [] = err index_error
first_url (url ∷ urls) = ok (respond 200 (sent_image url))

abbrev pub filename_or_default : Option String → String
filename_or_default none = "image.png"
filename_or_default (some filename) = if filename =ₛ "" then "image.png" else filename

-- `post_image`, with the channel that was found.
unfoldable pub post_image_to : App → Option String → Option Channel → Endpoint
unfolding send_call
post_image_to app filename none log = (err (http_status 404), log)
post_image_to app filename (some c) log =
    send_call app (send_image c (filename_or_default filename)) first_url log

abbrev pub has_username : String → Member → Bool
has_username username m = codes_eq (lower (codes m.name)) (lower (codes username))

abbrev pub has_channel_name : String → Channel → Bool
has_channel_name channel_name c = c.name =ₛ channel_name

abbrev pub take_codes : ℕ → List ℕ → List ℕ
take_codes n [] = []
take_codes n (c ∷ cs) = let rest = take_codes (n - 1) cs in if n == 0 then [] else c ∷ rest

abbrev pub is_given : List ℕ → Bool
is_given [] = false
is_given (c ∷ cs) = true

-- The text of `version`.
abbrev pub version_text : App → List ℕ
version_text app =
    if is_given app.build_number && is_given app.git_sha
    then app.package_version
      ++ codes "+"
      ++ app.build_number
      ++ codes "."
      ++ take_codes 7 app.git_sha
    else app.package_version

-- The endpoint, after its dependencies.
unfoldable pub endpoint : App → Request → Endpoint
unfolding look_up_member notify_member post_to post_image_to
endpoint app get_version log = (ok (respond 200 (version_is (version_text app))), log)
endpoint app get_health log = (ok (respond 200 (health_is (app.is_ready log))), log)
endpoint app get_members log =
    (ok (respond 200 (members_are (map (λ m. (m.id, m.name, m.display_name)) app.members))), log)
endpoint app (get_member id) log =
    if is_snowflake (codes id)
    then look_up_member app (int_of id) log
    else (err (http_status 422), log)
endpoint app (notify username message) log =
    notify_member app message (find? (has_username username) app.members) log
endpoint app (post_message channel_name message) log =
    post_to app message (find? (has_channel_name channel_name) app.channels) log
endpoint app (post_image channel_name filename) log =
    post_image_to app filename (find? (has_channel_name channel_name) app.channels) log

abbrev pub is_public : Request → Bool
is_public get_version = true
is_public get_health = true
is_public _ = false

-- The answer to what an endpoint returned or raised.
abbrev pub answer : Result Response → Response
answer (ok response) = response
answer (err e) = translate e

abbrev pub answered : Result Response × List Call → Response × List Call
answered (result, log) = (answer result, log)

-- How a request ends, by the check of its header.
abbrev pub gated : Result (Unit {0}) → Response × List Call → List Call → Response × List Call
gated (ok _) run log = run
gated (err e) run log = (translate e, log)

-- The dependencies of a route, then its endpoint.
unfoldable pub serve : App → Option (List ℕ) → Request → List Call → Response × List Call
unfolding require_bearer endpoint translate
serve app authorization request log =
    let run = answered (endpoint app request log) in
    if is_public request then run else gated (require_bearer app.api_key authorization) run log
