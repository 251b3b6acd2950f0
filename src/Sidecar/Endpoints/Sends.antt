-- ===== src/Sidecar/Endpoints/Sends.antt =====
-- The call to Discord that a request makes, and what it answers then.
use rsl_mom_bot.Prelude.{
  ℕ, ◌<◌, ◌≤◌, String, ◌≡◌, ◌≢◌, refl, sym, Bool, true, false, not, ltb, ◌=ₛ◌, eq_iff, arith,
  Option, none, some, List, [], ◌∷◌, filter, find?, In, Bool-cases, ◌⊎◌, inl, inr,
}
use rsl_mom_bot.Prelude.Int.{ℤ}
use rsl_mom_bot.Prelude.Exec.{
  Error, Result, ok, err, forbidden, not_found, http_exception, http_status, timeout_error, ◌>>=ᵣ◌,
}
use rsl_mom_bot.PyText.{codes, int_of}
use rsl_mom_bot.Sidecar.Auth.{lower, require_bearer}
use rsl_mom_bot.Sidecar.Auth.Laws.{codes_eq→eq}
use rsl_mom_bot.Sidecar.Endpoints.{
  App, Call, fetch_member, send_dm, send_text, send_image, Member, Channel, Request, get_version,
  get_health, get_members, get_member, notify, post_message, post_image, Body, sent, sent_image,
  is_member, no_member, Response, respond, detail, translate, send_call, member_info, is_snowflake,
  look_up_member, notify_member, post_to, post_image_to, first_url, filename_or_default,
  has_username, has_channel_name, endpoint, is_public, answer, answered, gated, serve,
}
use rsl_mom_bot.Sidecar.Endpoints.Gate.{translate_detail}

-- The name of the file that is sent.
abbrev IsFilename : Option String → String → Type 0
IsFilename none name = name ≡ "image.png"
IsFilename (some given) name =
    ((given ≡ "") × (name ≡ "image.png")) ⊎ ((given ≢ "") × (name ≡ given))

-- The call that a request asks for.
abbrev pub IsAsked : App → Request → Call → Type 0
IsAsked app (get_member id) (fetch_member n) = int_of id ≡ some n
IsAsked app (notify username message) (send_dm m text) =
    In m app.members × (lower (codes m.name) ≡ lower (codes username)) × (text ≡ message)
IsAsked app (post_message name message) (send_text c text) =
    In c app.channels × (c.name ≡ name) × (text ≡ message)
IsAsked app (post_image name given) (send_image c filename) =
    In c app.channels × (c.name ≡ name) × IsFilename given filename
IsAsked _ _ _ = ⊥

-- The status for what Discord raises.
abbrev pub IsErrorStatus : Error → ℕ → Type 0
IsErrorStatus forbidden status = status ≡ 403
IsErrorStatus not_found status = status ≡ 502
IsErrorStatus (http_exception n) status =
    ((n < 500) × (status ≡ 502)) ⊎ ((500 ≤ n) × (status ≡ 503))
IsErrorStatus timeout_error status = status ≡ 503
IsErrorStatus (http_status n) status = status ≡ n
IsErrorStatus _ status = status ≡ 500

abbrev IsError : Error → Response → Type 0
IsError e response = (response.body ≡ detail) × IsErrorStatus e response.status

abbrev AnswersFetch : Result Member → Response → Type 0
AnswersFetch (ok m) response =
    response
    ≡ respond 200
        (is_member m.id m.name m.display_name (filter (λ r. not (r.name =ₛ "@everyone")) m.roles))
AnswersFetch (err not_found) response = response ≡ respond 200 no_member
AnswersFetch (err e) response = IsError e response

-- Of an image, Discord answers with the address of the attachment.
abbrev AnswersSend : Call → Result (List String) → Response → Type 0
AnswersSend (send_image c filename) (ok []) response = response ≡ respond 500 detail
AnswersSend (send_image c filename) (ok (url ∷ urls)) response =
    response ≡ respond 200 (sent_image url)
AnswersSend call (ok urls) response = response ≡ respond 200 sent
AnswersSend call (err e) response = IsError e response

abbrev pub IsAnswer : App → List Call → Call → Response → Type 0
IsAnswer app log (fetch_member id) response = AnswersFetch (app.fetch log id) response
IsAnswer app log call response = AnswersSend call (app.send log call) response

-- Does the answer report what Discord did?
abbrev pub reports : Body → Bool
reports sent = true
reports (sent_image url) = true
reports (is_member id name display_name roles) = true
reports no_member = true
reports _ = false

-- No call, and an answer that reports none; or the call that was asked for, and its answer.
abbrev pub IsServed : App → Request → List Call → Response × List Call → Type 0
IsServed app request log (response, after) =
    ((after ≡ log) × (reports response.body ≡ false))
    ⊎ ((call : Call) × IsAsked app request call
        × (after ≡ call ∷ log)
        × IsAnswer app log call response)

translate-IsError : (e : Error) → IsError e (translate e)
unfolding translate
translate-IsError (http_exception n) = elim (Bool-cases (ltb n 500)) [
  | inl t ↦ rw t (refl, inl (ground arith, refl))
  | inr f ↦ rw f (refl, inr (ground arith, refl))
]
translate-IsError forbidden = (refl, refl)
translate-IsError not_found = (refl, refl)
translate-IsError timeout_error = (refl, refl)
translate-IsError (http_status n) = (refl, refl)
translate-IsError _ = (refl, refl)

unreported : (e : Error) → reports (translate e).body ≡ false
unreported e = rw (translate_detail e) refl

find?-In :
    {A : Type 0} (p : A → Bool) (xs : List A) (a : A) → find? p xs ≡ some a → In a xs × (p a ≡ true)
find?-In p [] a h = cc
find?-In p (x ∷ xs) a h = elim (Bool-cases (p x)) [
  | inl t ↦
      let found : some x ≡ some a = rw t at h in
      let same : x ≡ a = cc in (inl (sym same), rw (sym same) t)
  | inr f ↦ let (m, k) = find?-In p xs a (rw f at h) in (inr m, k)
]

answers_fetch : (result : Result Member) → AnswersFetch result (answer (member_info result))
unfolding member_info
answers_fetch (ok m) = refl
answers_fetch (err not_found) = refl
answers_fetch (err e) = translate-IsError e

fetch-IsServed :
    (app : App) (id : String) (n : Option ℤ) (log : List Call)
    → int_of id ≡ n
    → IsServed app (get_member id) log (answered (look_up_member app n log))
unfolding look_up_member
fetch-IsServed app id none log h = inl (refl, unreported _)
fetch-IsServed app id (some n) log h =
    inr (fetch_member n, h, refl, answers_fetch (app.fetch log n))

answers_dm :
    (m : Member) (text : String) (result : Result (List String))
    → AnswersSend (send_dm m text) result (answer (result >>=ᵣ λ _. ok (respond 200 sent)))
answers_dm m text (ok urls) = refl
answers_dm m text (err e) = translate-IsError e

answers_text :
    (c : Channel) (text : String) (result : Result (List String))
    → AnswersSend (send_text c text) result (answer (result >>=ᵣ λ _. ok (respond 200 sent)))
answers_text c text (ok urls) = refl
answers_text c text (err e) = translate-IsError e

answers_image :
    (c : Channel) (filename : String) (result : Result (List String))
    → AnswersSend (send_image c filename) result (answer (result >>=ᵣ first_url))
unfolding translate
answers_image c filename (ok []) = refl
answers_image c filename (ok (url ∷ urls)) = refl
answers_image c filename (err e) = translate-IsError e

notify-IsServed :
    (app : App) (username message : String) (found : Option Member) (log : List Call)
    → find? (has_username username) app.members ≡ found
    → IsServed app (notify username message) log (answered (notify_member app message found log))
unfolding notify_member send_call
notify-IsServed app username message none log h = inl (refl, unreported _)
notify-IsServed app username message (some m) log h =
    let (there, named) = find?-In (has_username username) app.members m h in
    inr (
      send_dm m message,
      (there, codes_eq→eq (lower (codes m.name)) (lower (codes username)) named, refl),
      refl,
      answers_dm m message (app.send log (send_dm m message)),
    )

post-IsServed :
    (app : App) (name message : String) (found : Option Channel) (log : List Call)
    → find? (has_channel_name name) app.channels ≡ found
    → IsServed app (post_message name message) log (answered (post_to app message found log))
unfolding post_to send_call
post-IsServed app name message none log h = inl (refl, unreported _)
post-IsServed app name message (some c) log h =
    let (there, named) = find?-In (has_channel_name name) app.channels c h in
    inr (
      send_text c message,
      (there, (eq_iff c.name name).0 named, refl),
      refl,
      answers_text c message (app.send log (send_text c message)),
    )

default-IsFilename : (given : Option String) → IsFilename given (filename_or_default given)
default-IsFilename none = refl
default-IsFilename (some given) = elim (Bool-cases (given =ₛ "")) [
  | inl t ↦ rw t (inl ((eq_iff given "").0 t, refl))
  | inr f ↦ rw f (inr (λ e. cc ((eq_iff given "").1 e, f), refl))
]

image-IsServed :
    (app : App) (name : String) (given : Option String) (found : Option Channel) (log : List Call)
    → find? (has_channel_name name) app.channels ≡ found
    → IsServed app (post_image name given) log (answered (post_image_to app given found log))
unfolding post_image_to send_call
image-IsServed app name given none log h = inl (refl, unreported _)
image-IsServed app name given (some c) log h =
    let (there, named) = find?-In (has_channel_name name) app.channels c h in
    let filename = filename_or_default given in
    inr (
      send_image c filename,
      (there, (eq_iff c.name name).0 named, default-IsFilename given),
      refl,
      answers_image c filename (app.send log (send_image c filename)),
    )

endpoint-IsServed :
    (app : App) (request : Request) (log : List Call)
    → IsServed app request log (answered (endpoint app request log))
unfolding endpoint
endpoint-IsServed app get_version log = inl (refl, refl)
endpoint-IsServed app get_health log = inl (refl, refl)
endpoint-IsServed app get_members log = inl (refl, refl)
endpoint-IsServed app (get_member id) log = elim (Bool-cases (is_snowflake (codes id))) [
  | inl t ↦ rw t (fetch-IsServed app id (int_of id) log refl)
  | inr f ↦ rw f (inl (refl, unreported _))
]
endpoint-IsServed app (notify username message) log =
    notify-IsServed app username message _ log refl
endpoint-IsServed app (post_message name message) log = post-IsServed app name message _ log refl
endpoint-IsServed app (post_image name given) log = image-IsServed app name given _ log refl

gated-IsServed :
    (app : App) (request : Request) (log : List Call) (check : Result (Unit {0}))
    (run : Response × List Call)
    → IsServed app request log run
    → IsServed app request log (gated check run log)
gated-IsServed app request log (ok a) run h = h
gated-IsServed app request log (err e) run h = inl (refl, unreported e)

-- A request makes no call to Discord and its answer reports none, or it makes one: the one that it
-- asks for, to a member or channel of the guild by that name, with its message. Then it is answered
-- by 200 with what Discord did, a member that is not there included; by 403 if that is forbidden,
-- 502 for another status below 500, 503 for one of 500 or more and for a timeout, the status of an
-- HTTPException of the server itself, and by 500 for anything else.
pub serve-IsServed :
    (app : App) (authorization : Option (List ℕ)) (request : Request) (log : List Call)
    → IsServed app request log (serve app authorization request log)
unfolding serve
serve-IsServed app authorization request log =
    let run = answered (endpoint app request log) in
    let served = endpoint-IsServed app request log in
    elim (Bool-cases (is_public request)) [
      | inl t ↦ rw t served
      | inr f ↦
          rw f
            (gated-IsServed app request log (require_bearer app.api_key authorization) run served)
    ]
