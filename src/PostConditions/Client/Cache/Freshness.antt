-- ===== src/PostConditions/Client/Cache/Freshness.antt =====
-- Where the catalogs come from: each was fetched for its level, less than ten minutes ago.
use rsl_mom_bot.Prelude.{
  ℕ, ◌≤◌, ◌<◌, ◌+◌, ◌-◌, ◌≡◌, refl, sym, ◌∙◌, Bool, not, Option, none, some, List, [], ◌∷◌, ◌++◌,
  find?, All, All-map, All-filter, find?-All, In, In-append, arith, ltb, ltb→lt, Bool-cases,
  Option-cases, inl, inr,
}
use rsl_mom_bot.Prelude.Int.{ℤ}
use rsl_mom_bot.Prelude.Exec.{Result, ok, err, continue}
use rsl_mom_bot.PostConditions.Models.{Condition}
use rsl_mom_bot.PostConditions.Client.{
  Request, Response, Event, sent, Entry, World, SiegeWeb, Other, elapsed, locked, same_level,
  catalog_request, catalog_cache_ttl, cached, store, fetch_locked, meanwhile, list_catalog,
  call_with_retry, get_my_preferences, set_my_preferences, close,
}
use rsl_mom_bot.PostConditions.Client.Retry.{outcome, call_with_retry_lem}
use rsl_mom_bot.PostConditions.Client.Cache.{same_level→eq, OnlyWaits, call_with_retry-OnlyWaits}

-- The log holds an answer, at that time, to a catalog request of the level, and the answer gives
-- the payload.
abbrev pub IsFetched : SiegeWeb → List Event → Option ℤ → ℕ → List Condition → Type 0
IsFetched web log level at payload =
    (resp : Response) × In (sent (catalog_request web level) (ok resp) at) log
    × (outcome (ok resp) ≡ ok payload)

abbrev IsKnown : SiegeWeb → World → Entry → Type 0
IsKnown web w e = IsFetched web w.log e.level e.stored_at e.payload × (e.stored_at ≤ w.clock)

abbrev pub IsFresh : SiegeWeb → World → Type 0
IsFresh web w = All (IsKnown web w) w.cache

-- The payload was fetched for the level less than the TTL ago.
abbrev pub IsServed : SiegeWeb → Option ℤ → List Condition → World → Type 0
IsServed web level payload w =
    (at : ℕ) × IsFetched web w.log level at payload × (w.clock < at + catalog_cache_ttl)

-- How a catalog call may end.
abbrev IsAnswer : SiegeWeb → Option ℤ → Result (List Condition) × World → Type 0
IsAnswer web level (ok payload, w) = IsFresh web w × IsServed web level payload w
IsAnswer web level (err e, w) = IsFresh web w

-- The log grew and time passed.
abbrev IsLater : World → World → Type 0
IsLater w w' = (new : List Event) × (w'.log ≡ new ++ w.log) × OnlyWaits w w'

call_with_retry-IsLater :
    (web : SiegeWeb) (req : Request) (w : World) → IsLater w (call_with_retry web req w).1
call_with_retry-IsLater web req w =
    let (last, retried, log, _, _, _, _, _) = call_with_retry_lem web req w in
    (
      sent req last (call_with_retry web req w).1.clock ∷ retried,
      log,
      call_with_retry-OnlyWaits web req w,
    )

IsFresh-later : (web : SiegeWeb) (w w' : World) → IsLater w w' → IsFresh web w → IsFresh web w'
IsFresh-later web w w' (new, log, (cache, clock)) h = rw cache (
    All-map (IsKnown web w) (IsKnown web w') w.cache
      (λ e ((resp, m, gives), old).
        ((resp, rw log (In-append _ new w.log m), gives), omega (arith, old, clock)))
      h)

call_with_retry-IsFresh :
    (web : SiegeWeb) (req : Request) (w : World)
    → IsFresh web w
    → IsFresh web (call_with_retry web req w).1
call_with_retry-IsFresh web req w h =
    IsFresh-later web w (call_with_retry web req w).1 (call_with_retry-IsLater web req w) h

IsFetched-by :
    (web : SiegeWeb) (level : Option ℤ) (log : List Event) (at : ℕ) (payload : List Condition)
    (last : Result Response)
    → In (sent (catalog_request web level) last at) log
    → outcome last ≡ ok payload
    → IsFetched web log level at payload
IsFetched-by web level log at payload (ok resp) m h = (resp, m, h)
IsFetched-by web level log at payload (err e) m h = cc

-- What a call of the loop returns was just fetched.
call_with_retry-IsFetched :
    (web : SiegeWeb) (level : Option ℤ) (w : World) (payload : List Condition)
    → (call_with_retry web (catalog_request web level) w).0 ≡ ok payload
    → let w' = (call_with_retry web (catalog_request web level) w).1 in
      IsFetched web w'.log level w'.clock payload
call_with_retry-IsFetched web level w payload h =
    let w' = (call_with_retry web (catalog_request web level) w).1 in
    let (last, retried, log, gives, _, _, _, _) =
      call_with_retry_lem web (catalog_request web level) w in
    IsFetched-by web level w'.log w'.clock payload last (rw log (inl refl)) (sym gives ∙ h)

-- A look-up that succeeds.
cached-IsServed :
    (web : SiegeWeb) (level : Option ℤ) (w : World) (payload : List Condition)
    → IsFresh web w
    → cached level w ≡ some payload
    → IsServed web level payload w
unfolding cached
cached-IsServed web level w payload fresh h =
    let here : Entry → Bool = λ e. same_level e.level level in
    elim (Option-cases (find? here w.cache)) [
      | inl e ↦ let none_found : none ≡ some payload = rw (e, cached) at h in cc
      | inr (entry, e) ↦
          let (((resp, m, gives), old), at_level) =
            find?-All (IsKnown web w) here w.cache entry fresh e in
          let same = same_level→eq entry.level level at_level in
          elim (Bool-cases (ltb (w.clock - entry.stored_at) catalog_cache_ttl)) [
            | inl young ↦
                let found : some entry.payload ≡ some payload = rw (e, cached, young) at h in
                let same_payload : entry.payload ≡ payload = cc in
                let bound = ltb→lt _ _ young in
                (
                  entry.stored_at,
                  rw (sym same, sym same_payload) (resp, m, gives),
                  omega (arith, bound, old),
                )
            | inr stale ↦ let none_found : none ≡ some payload = rw (e, cached, stale) at h in cc
          ]
    ]

-- What is stored was fetched now, and the other entries stay known.
store-IsAnswer :
    (web : SiegeWeb) (level : Option ℤ) (payload : List Condition) (w : World)
    → IsFresh web w
    → IsFetched web w.log level w.clock payload
    → IsAnswer web level (store level payload w)
unfolding store
store-IsAnswer web level payload w fresh fetched =
    let others = All-filter (IsKnown web w) (λ e. not (same_level e.level level)) w.cache fresh in
    (((fetched, omega arith), others), (w.clock, fetched, omega arith))

continued-IsAnswer :
    (web : SiegeWeb) (level : Option ℤ) (result : Result (List Condition)) (w : World)
    → IsFresh web w
    → ((payload : List Condition) → result ≡ ok payload → IsFetched web w.log level w.clock payload)
    → IsAnswer web level (continue result (store level) w)
continued-IsAnswer web level (ok payload) w fresh h =
    store-IsAnswer web level payload w fresh (h payload refl)
continued-IsAnswer web level (err e) w fresh h = fresh

fetch_locked-IsAnswer :
    (web : SiegeWeb) (level : Option ℤ) (w : World)
    → IsFresh web w
    → IsAnswer web level (fetch_locked web level w)
unfolding fetch_locked
fetch_locked-IsAnswer web level w fresh = elim (Option-cases (cached level w)) [
  | inr (payload, e) ↦ rw (e, fetch_locked) (fresh, cached-IsServed web level w payload fresh e)
  | inl e ↦
      let called = call_with_retry web (catalog_request web level) w in
      let later = call_with_retry-IsFresh web (catalog_request web level) w fresh in
      rw (e, fetch_locked)
        (continued-IsAnswer web level called.0 called.1 later
          (call_with_retry-IsFetched web level w))
]

IsFresh-answer :
    (web : SiegeWeb) (level : Option ℤ) (end : Result (List Condition) × World)
    → IsAnswer web level end
    → IsFresh web end.1
IsFresh-answer web level (ok payload, w) h = h.0
IsFresh-answer web level (err e, w) h = h

meanwhile-IsFresh :
    (web : SiegeWeb) (others : List Other) (w : World)
    → IsFresh web w
    → IsFresh web (meanwhile web others w)
unfolding meanwhile
meanwhile-IsFresh web [] w fresh = fresh
meanwhile-IsFresh web (elapsed n ∷ others) w fresh =
    let w1 : World = record w { clock = w.clock + n } in
    meanwhile-IsFresh web others w1 (IsFresh-later web w w1 ([], refl, (refl, omega arith)) fresh)
meanwhile-IsFresh web (locked level ∷ others) w fresh =
    let end = fetch_locked web level w in
    meanwhile-IsFresh web others end.1
      (IsFresh-answer web level end (fetch_locked-IsAnswer web level w fresh))

list_catalog-IsAnswer :
    (web : SiegeWeb) (others : List Other) (level : Option ℤ) (w : World)
    → IsFresh web w
    → IsAnswer web level (list_catalog web others level w)
unfolding list_catalog
list_catalog-IsAnswer web others level w fresh = elim (Option-cases (cached level w)) [
  | inr (payload, e) ↦ rw (e, list_catalog) (fresh, cached-IsServed web level w payload fresh e)
  | inl e ↦
      rw (e, list_catalog)
        (fetch_locked-IsAnswer web level (meanwhile web others w)
          (meanwhile-IsFresh web others w fresh))
]

-- What the commands do with the client.
pub data Step : Type 0 where
  catalog : List Other → Option ℤ → Step
  read : List ℕ → List ℕ → Step
  save : List ℕ → List ℕ → List ℕ → Step
  wait : ℕ → Step
  close_session : Step

unfoldable pub take_step : SiegeWeb → Step → World → World
unfolding list_catalog get_my_preferences set_my_preferences close
take_step web (catalog others level) w = (list_catalog web others level w).1
take_step web (read id username) w = (get_my_preferences web id username w).1
take_step web (save id username ids) w = (set_my_preferences web id username ids w).1
take_step web (wait n) w = record w { clock = w.clock + n }
take_step web close_session w = (close w).1

unfoldable pub run : SiegeWeb → List Step → World → World
unfolding take_step
run web [] w = w
run web (s ∷ steps) w = run web steps (take_step web s w)

take_step-IsFresh :
    (web : SiegeWeb) (s : Step) (w : World) → IsFresh web w → IsFresh web (take_step web s w)
unfolding take_step get_my_preferences set_my_preferences close
take_step-IsFresh web (catalog others level) w h =
    IsFresh-answer web level _ (list_catalog-IsAnswer web others level w h)
take_step-IsFresh web (read id username) w h = call_with_retry-IsFresh web _ w h
take_step-IsFresh web (save id username ids) w h = call_with_retry-IsFresh web _ w h
take_step-IsFresh web (wait n) w h =
    IsFresh-later web w (record w { clock = w.clock + n }) ([], refl, (refl, omega arith)) h
take_step-IsFresh web close_session w h = h

run-IsFresh :
    (web : SiegeWeb) (steps : List Step) (w : World) → IsFresh web w → IsFresh web (run web steps w)
unfolding run
run-IsFresh web [] w h = h
run-IsFresh web (s ∷ steps) w h =
    run-IsFresh web steps (take_step web s w) (take_step-IsFresh web s w h)

served :
    (web : SiegeWeb) (level : Option ℤ) (payload : List Condition)
    (end : Result (List Condition) × World)
    → IsAnswer web level end
    → end.0 ≡ ok payload
    → IsServed web level payload end.1
served web level payload (ok given, w) h e = let same : given ≡ payload = cc in rw (sym same) h.1
served web level payload (err error, w) h e = cc

-- From a client with an empty cache, after any calls of it and whatever siege-web answers, a catalog
-- that `list_catalog` returns was given by a successful answer to a catalog request of its level,
-- less than ten minutes before.
pub list_catalog_fresh :
    (web : SiegeWeb) (start : World) (steps : List Step) (others : List Other) (level : Option ℤ)
    (payload : List Condition)
    → start.cache ≡ []
    → (list_catalog web others level (run web steps start)).0 ≡ ok payload
    → IsServed web level payload (list_catalog web others level (run web steps start)).1
list_catalog_fresh web start steps others level payload empty h =
    let w = run web steps start in
    let nothing : IsFresh web start = rw empty tt in
    let known = run-IsFresh web steps start nothing in
    served web level payload _ (list_catalog-IsAnswer web others level w known) h
