-- ===== src/Router/Auth.antt =====
-- src/server/http/middleware.rs: the middleware that the routers can be given. The counters of the
-- rate limit are shared behind a lock: they are a part of the world, which `counts` reads and
-- `put_counts` writes. A moment is a number of nanoseconds.
use Prim.Native.String.{String, len}
use text.Mathlib.Text.{starts_with}
use zhtp.Base.{
  ℕ, ◌+◌, ◌-◌, ◌/◌, ◌^◌, Bool, true, false, ◌||◌, Option, none, some, if◌then◌else◌, ltb, leb,
  string_key, same,
}
use zhtp.Base.Dict.{Dict, lookup, insert}
use zhtp.Base.Result.{Result, ok}
use zhtp.Router.{Env, Middleware, rate_limit_exceeded, authentication_required}

-- The requests of a client in its window, and when the window began.
abbrev pub Counts : Type 0
Counts = Dict String (ℕ × ℕ)

pub record RateLimits : Type 0 where
  pub max_requests : ℕ
  pub window_seconds : ℕ

abbrev pub counts_of : String → ℕ → Counts → ℕ × ℕ
counts_of client_key now counts = elim (lookup client_key counts) [ none ↦ (0, now) | some c ↦ c ]

-- `RateLimitMiddleware::process`, from the client to the new counters. A clock that went back counts
-- as no time.
unfoldable pub count_request : RateLimits → String → ℕ → Counts → Bool × Counts
count_request limits client_key now counts =
    let (count, last_window) = counts_of client_key now counts in
    if leb limits.window_seconds ((now - last_window) / 10 ^ 9)
    then (true, insert client_key (1, now) counts)
    else if leb limits.max_requests count
    then (false, counts)
    else (true, insert client_key (count + 1, last_window) counts)

unfoldable pub is_public : String → Bool
is_public uri =
    starts_with uri "/api/v1/public/"
    || same uri "/api/v1/health"
    || starts_with uri "/api/v1/web4/"
    || starts_with uri "/api/v1/dns/"
    || starts_with uri "/api/v1/dht/"
    || starts_with uri "/api/v1/blockchain/"
    || starts_with uri "/api/v1/storage/"
    || starts_with uri "/api/v1/identity/"
    || starts_with uri "/api/marketplace/"
    || starts_with uri "/api/content/"
    || starts_with uri "/api/wallet/"

-- Whether the header is there and has a token of more than 10 bytes.
unfoldable pub has_token : Option String → Bool
has_token none = false
has_token (some header) = if starts_with header "Bearer " then ltb 10 (len header - 7) else false

module _ (env : Env) where
  open env use {
    World, ZhtpRequest, ZhtpResponse, unauthorized, too_many_requests, uri, get, set, set_response,
    error,
  }

  abbrev pub Processed : Type 0
  Processed = Result String Bool × ZhtpRequest × Option ZhtpResponse × World

  unfoldable pub with_cors : ZhtpResponse → ZhtpResponse
  with_cors response = set_response "Access-Control-Allow-Headers" "Content-Type, Authorization" (
      set_response "Access-Control-Allow-Methods" "GET, POST, PUT, DELETE, OPTIONS"
        (set_response "Access-Control-Allow-Origin" "*" response))

  unfoldable pub process_cors : ZhtpRequest → Option ZhtpResponse → World → Processed
  process_cors request none w = (ok true, request, none, w)
  process_cors request (some response) w = (ok true, request, some (with_cors response), w)

  unfoldable pub process_auth : ZhtpRequest → Option ZhtpResponse → World → Processed
  process_auth request response w =
      if is_public (uri request)
      then (ok true, request, response, w)
      else if has_token (get request "Authorization")
      then (ok true, set "X-Authenticated" "true" request, response, w)
      else (ok false, request, some (error unauthorized authentication_required), w)

  abbrev pub client_key_of : ZhtpRequest → String
  client_key_of request = elim (get request "X-Forwarded-For") [
    | some key ↦ key
    | none ↦ elim (get request "X-Real-IP") [ some key ↦ key | none ↦ "unknown" ]
  ]

  unfoldable pub process_rate_limit :
      RateLimits
      → (counts : World → Counts) → (put_counts : Counts → World → World) → (now : World → ℕ)
      → ZhtpRequest
      → Option ZhtpResponse
      → World
      → Processed
  process_rate_limit limits counts put_counts now request response w =
      let (passes, counts') = count_request limits (client_key_of request) (now w) (counts w) in
      if passes then (ok true, request, response, put_counts counts' w) else (
        ok false,
        request,
        some (error too_many_requests rate_limit_exceeded),
        put_counts counts' w,
      )

  abbrev pub cors_middleware : Middleware env
  cors_middleware = record { process = process_cors }

  abbrev pub auth_middleware : Middleware env
  auth_middleware = record { process = process_auth }
