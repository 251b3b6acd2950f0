-- ===== src/PostConditions/Client/Tests.antt =====
-- The theorems on the client, applied where siege-web answers 429 first and then a catalog.
use rsl_mom_bot.Prelude.{◌≡◌, refl, none, some, List, [], ◌∷◌, arith}
use rsl_mom_bot.Prelude.Int.{pos}
use rsl_mom_bot.Prelude.Exec.{ok, siege_web_rate_limit, err}
use rsl_mom_bot.PyText.{codes}
use rsl_mom_bot.PostConditions.Models.{Condition}
use rsl_mom_bot.PostConditions.Client.{
  millis, Response, World, SiegeWeb, locked, elapsed, catalog_request, call_with_retry,
  fetch_locked, list_catalog, meanwhile,
}
use rsl_mom_bot.PostConditions.Client.Retry.{IsTrail, call_with_retry_lem}
use rsl_mom_bot.PostConditions.Client.Cache.Freshness.{
  Step, catalog, wait, save, run, IsServed, list_catalog_fresh,
}
use rsl_mom_bot.PostConditions.Client.Cache.SingleFlight.{list_catalog_shared}

abbrev orcs : List Condition
orcs = record { id = 7; condition_type = "faction"; description = "Only Orcs" } ∷ []

abbrev busy : Response
busy = record { status = 429; retry_after = some "12"; body = ok [] }

abbrev given : Response
given = record { status = 200; retry_after = none; body = ok orcs }

-- Refused at first, and then answered, in half a second each.
abbrev web : SiegeWeb
web = record {
  base_url = codes "https://rslsiege.com";
  token = codes "t";
  answer = λ log req. elim log [ [] ↦ ok busy | _ ↦ ok given ];
  latency = λ log req. 500;
  float = λ text. some (millis (pos 12000));
  pause = λ f. 12000;
}

-- Refused always.
abbrev refusing : SiegeWeb
refusing = record web { answer = λ log req. ok busy }

abbrev start : World
start = record { clock = 0; log = []; cache = []; session = none }

gives_up : (call_with_retry refusing (catalog_request web none) start).0 ≡ err siege_web_rate_limit
unfolding call_with_retry
gives_up = refl

call_with_retry_lem_example :
    IsTrail (catalog_request web none) 3 [] (call_with_retry web (catalog_request web none) start)
call_with_retry_lem_example = call_with_retry_lem web (catalog_request web none) start

abbrev steps : List Step
steps = catalog [] none ∷ save (codes "1") (codes "ann") (7 ∷ []) ∷ wait 1000 ∷ []

list_catalog_fresh_example :
    IsServed web none orcs (list_catalog web [] none (run web steps start)).1
unfolding run list_catalog
list_catalog_fresh_example = list_catalog_fresh web start steps [] none orcs refl refl

list_catalog_shared_example :
    list_catalog web (locked none ∷ elapsed 5 ∷ []) none start
    ≡ (ok orcs, meanwhile web (elapsed 5 ∷ []) (fetch_locked web none start).1)
unfolding fetch_locked list_catalog meanwhile
list_catalog_shared_example =
    list_catalog_shared web (elapsed 5 ∷ []) none start orcs refl refl (omega arith)
