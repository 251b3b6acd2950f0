-- ===== src/Sidecar/Endpoints/Gate.antt =====
-- The bearer check in front of the endpoints.
use rsl_mom_bot.Prelude.{
  ℕ, ◌≡◌, ◌≢◌, refl, Bool, true, false, not, ◌&&◌, if◌then◌else◌, Option, none, some, List, [], ◌∷◌,
  ◌++◌, ltb, Bool-cases, ◌⊎◌, inl, inr,
}
use rsl_mom_bot.Prelude.Exec.{
  Error, Result, ok, err, http_exception, http_status, other_error, ◌>>=ᵣ◌,
}
use rsl_mom_bot.PyText.{codes, codes_eq}
use rsl_mom_bot.Sidecar.Auth.{
  is_ascii, lower, partition_space, compare_digest, check_token, require_bearer,
}
use rsl_mom_bot.Sidecar.Auth.Laws.{IsBearer, require_bearer_iff}
use rsl_mom_bot.Sidecar.Endpoints.{
  App, Call, Request, get_version, get_health, Response, detail, translate, endpoint, is_public,
  answered, gated, serve,
}

-- Each error gives the generic text.
pub translate_detail : (e : Error) → (translate e).body ≡ detail
unfolding translate
translate_detail (http_exception n) = elim (Bool-cases (ltb n 500)) [
  | inl t ↦ rw t refl
  | inr f ↦ rw f refl
]
translate_detail _ = refl

-- The statuses with which the check refuses.
abbrev pub IsRefusal : ℕ → Type 0
IsRefusal code = (code ≡ 403) ⊎ (code ≡ 401) ⊎ (code ≡ 500)

abbrev IsRefused : Result (Unit {0}) → Type 0
IsRefused (ok _) = Unit
IsRefused (err e) = IsRefusal (translate e).status

token-IsRefused :
    (accepted : Result Bool)
    → ((e : Error) → accepted ≡ err e → e ≡ other_error)
    → IsRefused (accepted >>=ᵣ λ a. if not a then err (http_status 401) else ok tt)
unfolding translate
token-IsRefused (ok true) h = tt
token-IsRefused (ok false) h = inr (inl refl)
token-IsRefused (err e) h = let same = h e refl in rw same (inr (inr refl))

digest_errors :
    (a b : Bool) (e : Error) → (if a then ok b else err other_error) ≡ err e → e ≡ other_error
digest_errors true b e h = cc
digest_errors false b e h = cc

token_errors :
    (scheme_fits : Bool) (digest : Result Bool) (e : Error)
    → ((x : Error) → digest ≡ err x → x ≡ other_error)
    → (if not scheme_fits then ok false else digest) ≡ err e
    → e ≡ other_error
token_errors true digest e k h = k e h
token_errors false digest e k h = cc

check_token_errors :
    (scheme token key : List ℕ) (e : Error) → check_token scheme token key ≡ err e → e ≡ other_error
check_token_errors scheme token key e h =
    token_errors (codes_eq (lower scheme) (codes "bearer")) (compare_digest token key) e
      (λ x k. digest_errors (is_ascii token && is_ascii key) (codes_eq token key) x k) h

require_bearer-IsRefused :
    (key : List ℕ) (authorization : Option (List ℕ)) → IsRefused (require_bearer key authorization)
unfolding require_bearer translate
require_bearer-IsRefused key none = inl refl
require_bearer-IsRefused key (some authorization) =
    let (scheme, token) = partition_space authorization in
    token-IsRefused (check_token scheme token key) λ e h. check_token_errors scheme token key e h

gated-eq :
    (check : Result (Unit {0})) (run : Response × List Call) (log : List Call)
    → IsRefused check
    → check ≢ ok tt
    → ((gated check run log).1 ≡ log)
      × IsRefusal (gated check run log).0.status
      × ((gated check run log).0.body ≡ detail)
gated-eq (ok a) run log h n = absurd (n refl)
gated-eq (err e) run log h n = (refl, h, translate_detail e)

-- The check and then the endpoint.
pub serve-gated :
    (app : App) (authorization : Option (List ℕ)) (request : Request) (log : List Call)
    → is_public request ≡ false
    → serve app authorization request log
      ≡ gated (require_bearer app.api_key authorization) (answered (endpoint app request log)) log
unfolding serve
serve-gated app authorization request log h = rw h refl

-- The header that a client with the key sends.
abbrev pub Passes : List ℕ → Option (List ℕ) → Type 0
Passes key none = ⊥
Passes key (some header) = (scheme : List ℕ) × IsBearer scheme × (header ≡ scheme ++ b' ' ∷ key)

check-Passes :
    (key : List ℕ) (authorization : Option (List ℕ))
    → is_ascii key ≡ true
    → ¬ (key ≡ [])
    → require_bearer key authorization ≡ ok tt
    → Passes key authorization
unfolding require_bearer
check-Passes key none ascii n h = cc
check-Passes key (some header) ascii n h = (require_bearer_iff key header ascii n).0 h

-- All routes but two are behind the check.
is_public_only :
    (request : Request) → request ≢ get_version → request ≢ get_health → is_public request ≡ false
is_public_only get_version v h = absurd (v refl)
is_public_only get_health v h = absurd (h refl)
is_public_only request v h = refl

-- With an ASCII key that is not empty: a request for anything but the version and the health, whose
-- header is not the word `bearer` in any case, a space and the key, makes no call to Discord, and is
-- answered with 403, 401 or 500 and the generic text of an error.
pub serve_refused :
    (app : App) (authorization : Option (List ℕ)) (request : Request) (log : List Call)
    → is_ascii app.api_key ≡ true
    → ¬ (app.api_key ≡ [])
    → request ≢ get_version
    → request ≢ get_health
    → ¬ Passes app.api_key authorization
    → let (response, after) = serve app authorization request log in
      (after ≡ log) × IsRefusal response.status × (response.body ≡ detail)
serve_refused app authorization request log ascii key version health n =
    let check = require_bearer app.api_key authorization in
    let run = answered (endpoint app request log) in
    rw (serve-gated app authorization request log (is_public_only request version health)) (
      gated-eq check run log (require_bearer-IsRefused app.api_key authorization)
        (λ h. n (check-Passes app.api_key authorization ascii key h)))
