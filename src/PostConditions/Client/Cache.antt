-- ===== src/PostConditions/Client/Cache.antt =====
-- The catalog cache over the calls of the client: what an entry was fetched by, and its age.
pub mod Freshness
pub mod SingleFlight
use rsl_mom_bot.Prelude.{
  ℕ, ◌≤◌, ◌+◌, ◌≡◌, refl, ap, Bool, true, false, not, ◌==◌, Option, none, some, List, [], ◌∷◌, ◌++◌,
  find?, All, In, arith, Bool-cases, ==→eq, ==_refl, ◌⊎◌, inl, inr,
}
use rsl_mom_bot.Prelude.Int.{ℤ, pos, negsuc, eq_ℤ, eq_ℤ_refl}
use rsl_mom_bot.Prelude.Exec.{Result, ok, err, ◌>>◌}
use rsl_mom_bot.PostConditions.Models.{Condition}
use rsl_mom_bot.PostConditions.Client.{
  Request, Response, World, SiegeWeb, same_level, after_attempt, attempts, call_with_retry,
  retry_backoff_schedule, get_session, send, sleep, sleep_for,
}

eq_ℤ→eq : (a b : ℤ) → eq_ℤ a b ≡ true → a ≡ b
eq_ℤ→eq (pos a) (pos b) h = ap pos (==→eq a b h)
eq_ℤ→eq (negsuc a) (negsuc b) h = ap negsuc (==→eq a b h)
eq_ℤ→eq (pos a) (negsuc b) h = cc
eq_ℤ→eq (negsuc a) (pos b) h = cc

pub same_level→eq : (a b : Option ℤ) → same_level a b ≡ true → a ≡ b
same_level→eq none none h = refl
same_level→eq (some a) (some b) h = ap some (eq_ℤ→eq a b h)
same_level→eq none (some b) h = cc
same_level→eq (some a) none h = cc

pub same_level_refl : (a : Option ℤ) → same_level a a ≡ true
same_level_refl none = refl
same_level_refl (some a) = eq_ℤ_refl a

-- Time passes, and the cache is as it was.
abbrev pub OnlyWaits : World → World → Type 0
OnlyWaits w w' = (w'.cache ≡ w.cache) × (w.clock ≤ w'.clock)

pub OnlyWaits-trans : (u v w : World) → OnlyWaits u v → OnlyWaits v w → OnlyWaits u w
OnlyWaits-trans u v w (p, h) (q, k) = (cc, omega (arith, h, k))

last_attempt-OnlyWaits :
    (answer : Result Response) (w : World) → OnlyWaits w (after_attempt none answer w).1
unfolding after_attempt
last_attempt-OnlyWaits (err e) w = (refl, omega arith)
last_attempt-OnlyWaits (ok resp) w = elim (Bool-cases (resp.status == 429)) [
  | inl e ↦ rw e (refl, omega arith)
  | inr e ↦ rw e (refl, omega arith)
]

after_attempt-OnlyWaits :
    (answer : Result Response) (w : World)
    (next : Response → World → Result (List Condition) × World)
    → ((resp : Response) → OnlyWaits w (next resp w).1)
    → OnlyWaits w (after_attempt (some next) answer w).1
unfolding after_attempt
after_attempt-OnlyWaits (err e) w next h = (refl, omega arith)
after_attempt-OnlyWaits (ok resp) w next h = elim (Bool-cases (resp.status == 429)) [
  | inl e ↦ rw e (h resp)
  | inr e ↦ rw e (refl, omega arith)
]

attempts-OnlyWaits :
    (web : SiegeWeb) (req : Request) (schedule : List ℕ) (w : World)
    → OnlyWaits w (attempts web req schedule w).1
unfolding attempts send sleep
attempts-OnlyWaits web req [] w =
    let w1 = (send web req w).1 in
    let (p, h) = last_attempt-OnlyWaits (web.answer w.log req) w1 in (p, omega (arith, h))
attempts-OnlyWaits web req (b ∷ schedule) w =
    let w1 = (send web req w).1 in
    let asleep : Response → World = λ resp. (sleep web (sleep_for web resp b) w1).1 in
    let (p, h) =
      after_attempt-OnlyWaits (web.answer w.log req) w1
        (λ resp. sleep web (sleep_for web resp b) >> attempts web req schedule)
        (λ resp.
          let (q, k) = attempts-OnlyWaits web req schedule (asleep resp) in
          (q, omega (arith, k))) in
    (p, omega (arith, h))

pub call_with_retry-OnlyWaits :
    (web : SiegeWeb) (req : Request) (w : World) → OnlyWaits w (call_with_retry web req w).1
unfolding call_with_retry get_session
call_with_retry-OnlyWaits web req w =
    attempts-OnlyWaits web req retry_backoff_schedule (record w { session = some false })
