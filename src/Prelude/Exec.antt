-- ===== src/Prelude/Exec.antt =====
-- Methods that change a state and may raise. What was written before a raise stays written, so
-- the state comes back beside the error too.
use Prim.Native.Nat.{ℕ}

-- The exceptions that the modelled code raises or tells apart.
pub data Error : Type 0 where
  -- date arithmetic left the years 1 to 9999
  overflow_error : Error
  value_error : Error
  duplicate_notification notification_not_found invalid_discord_id : Error
  -- `sqlalchemy.exc.IntegrityError`
  integrity_error : Error
  config_error : Error
  -- `discord.Forbidden` and `discord.NotFound`
  forbidden not_found : Error
  -- `TimeoutError`, `discord.RateLimited`, `aiohttp.ClientError`
  timeout_error rate_limited client_error : Error
  -- another `discord.HTTPException`, with its status
  http_exception : ℕ → Error
  -- `asyncio.CancelledError`, which `except Exception` does not catch
  cancelled : Error
  key_error index_error : Error
  -- `fastapi.HTTPException`, with its status
  http_status : ℕ → Error
  -- the errors of the siege-web client
  siege_web_auth siege_web_not_found siege_web_validation siege_web_rate_limit : Error
  -- any other `Exception`
  other_error : Error

-- A Python call: its value, or the exception that it raised.
pub data Result {ℓ} (A : Type ℓ) : Type ℓ where
  ok : A → Result A
  err : Error → Result A

abbrev pub Exec : Type 0 → Type 0 → Type 0
Exec S A = S → Result A × S

module _ {S A : Type 0} where
  abbrev pub pure : A → Exec S A
  pure a s = (ok a, s)

  abbrev pub raise : Error → Exec S A
  raise e s = (err e, s)

module _ {S A B : Type 0} where
  -- The rest of a call, after a part that returned or raised.
  abbrev pub continue : Result A → (A → Exec S B) → Exec S B
  continue (ok a) f s = f a s
  continue (err e) f s = (err e, s)

infixl 5 ◌>>=◌ ◌>>◌
abbrev pub ◌>>=◌ : {S A B : Type 0} → Exec S A → (A → Exec S B) → Exec S B
◌>>=◌ m f s = let (r, s') = m s in continue r f s'

abbrev pub ◌>>◌ : {S A B : Type 0} → Exec S A → Exec S B → Exec S B
m >> k = m >>= λ _. k

-- The exceptions and values of a call that changes no state.
infixl 5 ◌>>=ᵣ◌
abbrev pub ◌>>=ᵣ◌ : {A B : Type 0} → Result A → (A → Result B) → Result B
ok a >>=ᵣ f = f a
err e >>=ᵣ f = err e
