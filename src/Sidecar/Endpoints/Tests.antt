-- ===== src/Sidecar/Endpoints/Tests.antt =====
-- The theorems on the gate and the endpoints, applied to a post to a channel.
use rsl_mom_bot.Prelude.{ℕ, ◌≡◌, ◌≢◌, ◌↔◌, refl, true, none, some, List, [], ◌∷◌, ◌++◌}
use rsl_mom_bot.Prelude.Exec.{ok, err, other_error, forbidden}
use rsl_mom_bot.PyText.{codes}
use rsl_mom_bot.Sidecar.Auth.{require_bearer}
use rsl_mom_bot.Sidecar.Auth.Laws.{IsBearer, require_bearer_iff}
use rsl_mom_bot.Sidecar.Endpoints.{
  App, send_text, Channel, Request, get_version, version_is, post_message, respond, detail, serve,
}
use rsl_mom_bot.Sidecar.Endpoints.Gate.{IsRefusal, Passes, serve_refused}
use rsl_mom_bot.Sidecar.Endpoints.Sends.{IsServed, serve-IsServed}

abbrev siege : Channel
siege = record { id = 3; name = "siege" }

-- Discord forbids the post.
abbrev app : App
app = record {
  api_key = codes "k3y";
  members = [];
  channels = siege ∷ [];
  is_ready = λ log. true;
  package_version = codes "0.0.1";
  build_number = codes "42";
  git_sha = codes "abcdef1234";
  fetch = λ log id. err other_error;
  send = λ log call. err forbidden;
}

abbrev request : Request
request = post_message "siege" "hello"

-- The version of a build.
built_version :
    (serve app none get_version []).0 ≡ respond 200 (version_is (codes "0.0.1+42.abcdef1"))
unfolding serve
built_version = refl

forbidden_post :
    serve app (some (codes "BEARER k3y")) request []
    ≡ (respond 403 detail, send_text siege "hello" ∷ [])
unfolding serve
forbidden_post = refl

require_bearer_iff_example :
    (require_bearer (codes "k3y") (some (codes "Bearer k3y")) ≡ ok tt)
    ↔ ((scheme : List ℕ) × IsBearer scheme × (codes "Bearer k3y" ≡ scheme ++ b' ' ∷ codes "k3y"))
require_bearer_iff_example = require_bearer_iff (codes "k3y") (codes "Bearer k3y") refl λ e. cc

wrong_key : ¬ Passes (codes "k3y") (some (codes "Bearer k4y"))
wrong_key (scheme, bearer, whole) =
    let passed : require_bearer (codes "k3y") (some (codes "Bearer k4y")) ≡ ok tt =
      (require_bearer_iff (codes "k3y") (codes "Bearer k4y") refl λ e. cc).1
        (scheme, bearer, whole) in
    refused passed
  where
    refused : require_bearer (codes "k3y") (some (codes "Bearer k4y")) ≢ ok tt
    refused e = unfold require_bearer in cc

serve_refused_example :
    let (response, after) = serve app (some (codes "Bearer k4y")) request [] in
    (after ≡ []) × IsRefusal response.status × (response.body ≡ detail)
serve_refused_example =
    serve_refused app (some (codes "Bearer k4y")) request [] refl (λ e. cc) (λ e. cc) (λ e. cc)
      wrong_key

serve-IsServed_example : IsServed app request [] (serve app (some (codes "BEARER k3y")) request [])
serve-IsServed_example = serve-IsServed app (some (codes "BEARER k3y")) request []
