-- ===== src/PostConditions/Client/Retry.antt =====
-- What one call of `_call_with_retry` sends, how long it sleeps, and what it returns.
use mathlib.Core.List.{append_assoc}
use rsl_mom_bot.Prelude.{
  ℕ, suc, ◌+◌, ◌≤◌, ◌<◌, ◌≡◌, refl, Bool, true, false, ◌==◌, if◌then◌else◌, Option, none, some,
  List, [], ◌∷◌, ◌++◌, length, filter, All, All-append, arith, Bool-cases, Option-cases, ◌⊎◌, inl,
  inr, length-append,
}
use rsl_mom_bot.Prelude.Int.{pos, negsuc}
use rsl_mom_bot.Prelude.Exec.{
  Result, ok, err, siege_web_auth, siege_web_not_found, siege_web_validation, siege_web_rate_limit,
}
use rsl_mom_bot.PostConditions.Models.{Condition}
use rsl_mom_bot.PostConditions.Client.{
  PyFloat, nan, infinite, millis, Request, Response, Event, sent, slept, World, SiegeWeb,
  is_refused, parse_retry_after, raise_for_status, read_response, get_session, sleep, send,
  sleep_for, after_attempt, attempts, call_with_retry, retry_backoff_schedule, retry_after_max,
}

-- The rate-limit answer.
abbrev pub is_limited : Result Response → Bool
is_limited (ok resp) = resp.status == 429
is_limited (err e) = false

-- What a caller gets for an answer.
abbrev pub outcome : Result Response → Result (List Condition)
outcome (err e) = err e
outcome (ok resp) =
    if resp.status == 429
    then err siege_web_rate_limit
    else if resp.status == 401
    then err siege_web_auth
    else if resp.status == 404
    then err siege_web_not_found
    else if resp.status == 422
    then err siege_web_validation
    else resp.body

-- A sleep of more than 0 and at most 30 seconds; nothing is known of one that is not a number.
abbrev pub IsBounded : PyFloat → Type 0
IsBounded nan = Unit
IsBounded (infinite positive) = ⊥
IsBounded (millis (pos n)) = (0 < n) × (n ≤ retry_after_max)
IsBounded (millis (negsuc n)) = ⊥

-- An event before the last attempt: the request was refused with 429, or a bounded sleep.
abbrev pub IsRetry : Request → Event → Type 0
IsRetry req (sent r answer at) = (r ≡ req) × (is_limited answer ≡ true)
IsRetry req (slept f) = IsBounded f

abbrev pub is_sent : Event → Bool
is_sent (sent r answer at) = true
is_sent (slept f) = false

abbrev pub requests : List Event → ℕ
requests events = length (filter is_sent events)

-- The events of a call whose loop may retry `n` times: those before the last attempt, and it.
abbrev pub IsTrail : Request → ℕ → List Event → Result (List Condition) × World → Type 0
IsTrail req n before (result, after) =
    (last : Result Response) × (retried : List Event) × (after.log
      ≡ sent req last after.clock ∷ (retried ++ before))
    × (result ≡ outcome last)
    × All (IsRetry req) retried
    × (requests retried ≤ n)
    × (length retried ≡ requests retried + requests retried)
    × ((is_limited last ≡ false) ⊎ (requests retried ≡ n))

requests-append : (xs ys : List Event) → requests (xs ++ ys) ≡ requests xs + requests ys
requests-append [] ys = omega arith
requests-append (x ∷ xs) ys = ground (arith, requests-append xs ys)

is_refused-IsBounded : (f : PyFloat) → is_refused f ≡ false → IsBounded f
is_refused-IsBounded nan h = tt
is_refused-IsBounded (infinite positive) h = cc
is_refused-IsBounded (millis (pos n)) h = (ground arith, ground arith)
is_refused-IsBounded (millis (negsuc n)) h = cc

parsed-IsBounded :
    (backoff : ℕ) (o : Option PyFloat)
    → IsBounded (millis (pos backoff))
    → let parsed : Option PyFloat = elim o [
      | none ↦ none
      | some v ↦ if is_refused v then none else some v
    ] in
      let chosen : PyFloat = elim parsed [ some f ↦ f | none ↦ millis (pos backoff) ] in
      IsBounded chosen
parsed-IsBounded backoff none h = h
parsed-IsBounded backoff (some f) h = elim (Bool-cases (is_refused f)) [
  | inl r ↦ rw r h
  | inr r ↦ rw r (is_refused-IsBounded f r)
]

sleep_for-IsBounded :
    (web : SiegeWeb) (resp : Response) (backoff : ℕ)
    → IsBounded (millis (pos backoff))
    → IsBounded (sleep_for web resp backoff)
unfolding sleep_for parse_retry_after
sleep_for-IsBounded web resp backoff h = elim (Option-cases resp.retry_after) [
  | inl e ↦ simp (e, sleep_for, parse_retry_after) h
  | inr (raw, e) ↦
      simp (e, sleep_for, parse_retry_after) (parsed-IsBounded backoff (web.float raw) h)
]

outcome-read_response :
    (resp : Response) → (resp.status == 429) ≡ false → read_response resp ≡ outcome (ok resp)
unfolding read_response raise_for_status
outcome-read_response resp h = ground arith

-- A trail, after one refused attempt and its sleep.
IsTrail-later :
    (req : Request) (n at : ℕ) (answer : Result Response) (f : PyFloat) (before : List Event)
    (end : Result (List Condition) × World)
    → is_limited answer ≡ true
    → IsBounded f
    → IsTrail req n (slept f ∷ sent req answer at ∷ before) end
    → IsTrail req (suc n) before end
IsTrail-later req n at answer f before end limited bounded
      (last, retried, log, result, kept, few, paired, full) =
    let first = slept f ∷ sent req answer at ∷ [] in
    let counts : requests (retried ++ first) ≡ requests retried + 1 =
      requests-append retried first in
    (
      last,
      retried ++ first,
      rw append_assoc log,
      result,
      All-append (IsRetry req) retried first kept (bounded, ((refl, limited), tt)),
      omega (arith, counts, few),
      omega (arith, counts, paired, length-append retried first),
      elim full [ inl l ↦ inl l | inr k ↦ inr (omega (arith, counts, k)) ],
    )

-- The last attempt that the schedule allows.
IsTrail-last :
    (req : Request) (answer : Result Response) (before : List Event) (w : World)
    → w.log ≡ sent req answer w.clock ∷ before
    → IsTrail req 0 before (after_attempt none answer w)
unfolding after_attempt
IsTrail-last req (err e) before w h = (err e, [], h, refl, tt, omega arith, refl, inl refl)
IsTrail-last req (ok resp) before w h = elim (Bool-cases (resp.status == 429)) [
  | inl e ↦ rw e (ok resp, [], h, rw e refl, tt, omega arith, refl, inr refl)
  | inr e ↦ rw e (ok resp, [], h, outcome-read_response resp e, tt, omega arith, refl, inl e)
]

-- An attempt that may be followed by `next`.
IsTrail-next :
    (req : Request) (n : ℕ) (answer : Result Response) (before : List Event) (w : World)
    (next : Response → World → Result (List Condition) × World) (f : Response → PyFloat)
    → w.log ≡ sent req answer w.clock ∷ before
    → ((resp : Response) → IsBounded (f resp))
    → ((resp : Response)
        → IsTrail req n (slept (f resp) ∷ sent req answer w.clock ∷ before) (next resp w))
    → IsTrail req (suc n) before (after_attempt (some next) answer w)
unfolding after_attempt
IsTrail-next req n (err e) before w next f h bounded later =
    (err e, [], h, refl, tt, omega arith, refl, inl refl)
IsTrail-next req n (ok resp) before w next f h bounded later =
    elim (Bool-cases (resp.status == 429)) [
      | inl e ↦ rw e (
          IsTrail-later req n w.clock (ok resp) (f resp) before (next resp w) e (bounded resp)
            (later resp))
      | inr e ↦ rw e (ok resp, [], h, outcome-read_response resp e, tt, omega arith, refl, inl e)
    ]

attempts-IsTrail :
    (web : SiegeWeb) (req : Request) (schedule : List ℕ) (w : World)
    → All (λ b. IsBounded (millis (pos b))) schedule
    → IsTrail req (length schedule) w.log (attempts web req schedule w)
unfolding attempts send sleep
attempts-IsTrail web req [] w h =
    let answer = web.answer w.log req in
    let w1 = (send web req w).1 in IsTrail-last req answer w.log w1 refl
attempts-IsTrail web req (b ∷ schedule) w (h, hs) =
    let answer = web.answer w.log req in
    let w1 = (send web req w).1 in
    IsTrail-next req (length schedule) answer w.log w1 _ (λ resp. sleep_for web resp b) refl
      (λ resp. sleep_for-IsBounded web resp b h)
      (λ resp. attempts-IsTrail web req schedule (sleep web (sleep_for web resp b) w1).1 hs)

-- A call ends: it sends its request at most four times, sleeps once before each repetition, more
-- than 0 and at most 30 seconds if the time is a number, repeats only what was refused with 429, and
-- gives the outcome of the last answer, which is itself a 429 only after four attempts.
pub call_with_retry_lem :
    (web : SiegeWeb) (req : Request) (w : World) → IsTrail req 3 w.log (call_with_retry web req w)
unfolding call_with_retry get_session
call_with_retry_lem web req w =
    let bounds : (b : ℕ) → 0 < b → b ≤ retry_after_max → IsBounded (millis (pos b)) =
      λ b p q. (p, q) in
    attempts-IsTrail web req retry_backoff_schedule (record w { session = some false })
      (
        bounds 1000 (omega arith) (omega arith),
        (bounds 2000 (omega arith) (omega arith), (bounds 4000 (omega arith) (omega arith), tt)),
      )
