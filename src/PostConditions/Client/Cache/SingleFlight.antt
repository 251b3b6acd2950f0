-- ===== src/PostConditions/Client/Cache/SingleFlight.antt =====
-- Callers that wait for the lock while a catalog is fetched: they share its answer.
use rsl_mom_bot.Prelude.{
  ℕ, ◌≤◌, ◌<◌, ◌+◌, ◌-◌, ◌≡◌, refl, ap, Bool, false, not, Option, none, some, List, [], ◌∷◌, find?,
  filter, arith, lt→ltb, Bool-cases, Option-cases, inl, inr,
}
use rsl_mom_bot.Prelude.Int.{ℤ}
use rsl_mom_bot.Prelude.Exec.{Result, ok, err, continue}
use rsl_mom_bot.PostConditions.Models.{Condition}
use rsl_mom_bot.PostConditions.Client.{
  Entry, World, SiegeWeb, Other, elapsed, locked, same_level, catalog_request, catalog_cache_ttl,
  cached, store, fetch_locked, meanwhile, list_catalog, call_with_retry,
}
use rsl_mom_bot.PostConditions.Client.Cache.{
  same_level→eq, same_level_refl, call_with_retry-OnlyWaits,
}

abbrev at_level : Option ℤ → Entry → Bool
at_level level e = same_level e.level level

-- The cache holds that payload of the level, stored at that time.
abbrev pub IsStored : Option ℤ → ℕ → List Condition → World → Type 0
IsStored level at payload w =
    (e : Entry) × (find? (at_level level) w.cache ≡ some e)
    × (e.stored_at ≡ at)
    × (e.payload ≡ payload)

-- A fresh entry is what a look-up gives.
IsStored-cached :
    (level : Option ℤ) (at : ℕ) (payload : List Condition) (w : World)
    → IsStored level at payload w
    → w.clock < at + catalog_cache_ttl
    → cached level w ≡ some payload
unfolding cached
IsStored-cached level at payload w (e, found, when, what) h =
    let young = lt→ltb (w.clock - e.stored_at) catalog_cache_ttl (omega (arith, when, h)) in
    rw (found, cached, young) (ap some what)

-- Storing another level leaves the entry.
find?-others :
    (level other : Option ℤ) (cache : List Entry)
    → same_level other level ≡ false
    → find? (at_level level) (filter (λ e. not (same_level e.level other)) cache)
      ≡ find? (at_level level) cache
find?-others level other [] h = refl
find?-others level other (x ∷ cache) h = elim (Bool-cases (same_level x.level other)) [
  | inl e ↦
      let x_is_other = same_level→eq x.level other e in
      let not_here : same_level x.level level ≡ false = rw x_is_other h in
      rw (e, not_here) (find?-others level other cache h)
  | inr e ↦ rw (e, find?-others level other cache h) refl
]

store-IsStored :
    (level other : Option ℤ) (at : ℕ) (payload : List Condition) (result : Result (List Condition))
    (w : World)
    → same_level other level ≡ false
    → IsStored level at payload w
    → IsStored level at payload (continue result (store other) w).1
unfolding store
store-IsStored level other at payload (err error) w h stored = stored
store-IsStored level other at payload (ok given) w h (e, found, when, what) =
    (e, rw (h, find?-others level other w.cache h) found, when, what)

-- A look-up or a fetch under the lock leaves a fresh entry as it is.
fetch_locked-IsStored :
    (web : SiegeWeb) (level other : Option ℤ) (at : ℕ) (payload : List Condition) (w : World)
    → IsStored level at payload w
    → w.clock < at + catalog_cache_ttl
    → IsStored level at payload (fetch_locked web other w).1
unfolding fetch_locked
fetch_locked-IsStored web level other at payload w stored young =
    elim (Option-cases (cached other w)) [
      | inr (_, e) ↦ rw (e, fetch_locked) stored
      | inl e ↦ elim (Bool-cases (same_level other level)) [
        | inl same ↦
            let other_is_level = same_level→eq other level same in
            let found = IsStored-cached level at payload w stored young in
            let missed : cached level w ≡ none = rw other_is_level at e in cc
        | inr different ↦
            let called = call_with_retry web (catalog_request web other) w in
            let (kept, _) = call_with_retry-OnlyWaits web (catalog_request web other) w in
            rw (e, fetch_locked)
              (store-IsStored level other at payload called.0 called.1 different (rw kept stored))
      ]
    ]

continued_clock :
    (level : Option ℤ) (result : Result (List Condition)) (w : World)
    → w.clock ≤ (continue result (store level) w).1.clock
unfolding store
continued_clock level (ok given) w = omega arith
continued_clock level (err error) w = omega arith

fetch_locked_clock :
    (web : SiegeWeb) (level : Option ℤ) (w : World) → w.clock ≤ (fetch_locked web level w).1.clock
unfolding fetch_locked
fetch_locked_clock web level w = elim (Option-cases (cached level w)) [
  | inr (_, e) ↦ rw (e, fetch_locked) (omega arith)
  | inl e ↦
      let called = call_with_retry web (catalog_request web level) w in
      let (_, passed) = call_with_retry-OnlyWaits web (catalog_request web level) w in
      rw (e, fetch_locked) (omega (arith, passed, continued_clock level called.0 called.1))
]

meanwhile_clock :
    (web : SiegeWeb) (others : List Other) (w : World) → w.clock ≤ (meanwhile web others w).clock
unfolding meanwhile
meanwhile_clock web [] w = omega arith
meanwhile_clock web (elapsed n ∷ others) w =
    omega (arith, meanwhile_clock web others (record w { clock = w.clock + n }))
meanwhile_clock web (locked level ∷ others) w =
    omega (
      arith,
      fetch_locked_clock web level w,
      meanwhile_clock web others (fetch_locked web level w).1,
    )

meanwhile-IsStored :
    (web : SiegeWeb) (others : List Other) (level : Option ℤ) (at : ℕ) (payload : List Condition)
    (w : World)
    → IsStored level at payload w
    → (meanwhile web others w).clock < at + catalog_cache_ttl
    → IsStored level at payload (meanwhile web others w)
unfolding meanwhile
meanwhile-IsStored web [] level at payload w stored young = stored
meanwhile-IsStored web (elapsed n ∷ others) level at payload w stored young =
    meanwhile-IsStored web others level at payload (record w { clock = w.clock + n }) stored young
meanwhile-IsStored web (locked other ∷ others) level at payload w stored young =
    let w1 = (fetch_locked web other w).1 in
    let early : w.clock < at + catalog_cache_ttl =
      omega (arith, young, fetch_locked_clock web other w, meanwhile_clock web others w1) in
    meanwhile-IsStored web others level at payload w1
      (fetch_locked-IsStored web level other at payload w stored early) young

stored_by :
    (level : Option ℤ) (payload : List Condition) (result : Result (List Condition)) (w : World)
    → let end = continue result (store level) w in
      (end.0 ≡ ok payload) → IsStored level end.1.clock payload end.1
unfolding store
stored_by level payload (ok given) w h =
    let same : given ≡ payload = cc in
    (
      record { level = level; stored_at = w.clock; payload = given },
      rw (same_level_refl level) refl,
      refl,
      same,
    )
stored_by level payload (err error) w h = cc

-- A caller that waits for the lock while another caller fetches the catalog of its level gets the
-- payload of that fetch and sends nothing itself, whoever else holds the lock in between, if it gets
-- the lock less than ten minutes after the fetch.
pub list_catalog_shared :
    (web : SiegeWeb) (others : List Other) (level : Option ℤ) (w : World) (payload : List Condition)
    → cached level w ≡ none
    → (fetch_locked web level w).0 ≡ ok payload
    → let first = (fetch_locked web level w).1 in
      ((meanwhile web others first).clock < first.clock + catalog_cache_ttl)
      → list_catalog web (locked level ∷ others) level w ≡ (ok payload, meanwhile web others first)
unfolding list_catalog meanwhile
list_catalog_shared web others level w payload missed fetched young =
    let called = call_with_retry web (catalog_request web level) w in
    let first = (fetch_locked web level w).1 in
    let after = meanwhile web others first in
    let stored : IsStored level first.clock payload first =
      rw (fetch_locked, missed)
        (stored_by level payload called.0 called.1 (rw (fetch_locked, missed) at fetched)) in
    let kept = meanwhile-IsStored web others level first.clock payload first stored young in
    let found = IsStored-cached level first.clock payload after kept young in
    let hit : fetch_locked web level after ≡ (ok payload, after) = rw (fetch_locked, found) refl in
    rw (missed, list_catalog) hit
