-- ===== src/Middleware.antt =====
-- src/api/middleware/mod.rs. Requests and responses of lib_protocols are the parameter `Protocol`;
-- logging leaves nothing behind. The clock is a number of seconds after the epoch.
pub mod Window
pub mod Stack
mod Tests
use Prim.Native.String.{String, len, slice}
use text.Mathlib.Text.{get?, starts_with}
use zhtp.Base.{
  ℕ, ◌+◌, ◌/◌, min, Bool, true, false, ◌||◌, Option, none, some, List, [], ◌∷◌, if◌then◌else◌, ltb,
  leb, ◌==◌, string_key,
}
use zhtp.Base.Lists.{contains}
use zhtp.Base.Dict.{Dict, lookup, insert}

-- `lib_protocols::types::{ZhtpRequest, ZhtpResponse, ZhtpStatus}`
pub record Protocol : Type 1 where
  pub ZhtpRequest : Type 0
  pub ZhtpResponse : Type 0
  pub ZhtpStatus : Type 0
  pub too_many_requests : ZhtpStatus
  pub unauthorized : ZhtpStatus
  -- `headers.get`, `headers.set`
  pub get : ZhtpRequest → String → Option String
  pub set : String → String → ZhtpResponse → ZhtpResponse
  pub uri : ZhtpRequest → String
  pub error : ZhtpStatus → String → ZhtpResponse

pub record CorsMiddleware : Type 0 where
  pub allowed_origins : List String

-- `CorsMiddleware::new`
abbrev pub new_cors : CorsMiddleware
new_cors = record { allowed_origins = "*" ∷ [] }

pub is_origin_allowed : String → CorsMiddleware → Bool
is_origin_allowed origin cors =
    contains "*" cors.allowed_origins || contains origin cors.allowed_origins

abbrev first_or_any : List String → String
first_or_any [] = "*"
first_or_any (origin ∷ _) = origin

-- The origin that `add_cors_headers` names.
pub allowed_origin : Option String → CorsMiddleware → String
allowed_origin none cors = first_or_any cors.allowed_origins
allowed_origin (some origin) cors =
    if contains "*" cors.allowed_origins || contains origin cors.allowed_origins
    then origin
    else "null"

pub record RateLimitMiddleware : Type 0 where
  pub max_requests_per_minute : ℕ
  -- the minute and the count of a client
  pub request_counts : Dict String (ℕ × ℕ)

-- `RateLimitMiddleware::new`
pub new_rate_limit : ℕ → RateLimitMiddleware
new_rate_limit max_requests_per_minute = record {
  max_requests_per_minute = max_requests_per_minute;
  request_counts = [];
}

-- `counts.get(client_id).copied().unwrap_or((0, 0))`
abbrev pub count_of : String → RateLimitMiddleware → ℕ × ℕ
count_of client_id r = elim (lookup client_id r.request_counts) [ none ↦ (0, 0) | some c ↦ c ]

-- `check_rate_limit` in the minute that the clock is in
pub check_minute : ℕ → String → RateLimitMiddleware → RateLimitMiddleware × Bool
check_minute current_minute client_id r =
    let (last_minute, count) = count_of client_id r in
    let put = λ (n : ℕ). record r {
      request_counts = insert client_id (current_minute, n) r.request_counts;
    } in
    if last_minute == current_minute
    then (if leb r.max_requests_per_minute count then (r, false) else (put (count + 1), true))
    else (put 1, true)

pub check_rate_limit : ℕ → String → RateLimitMiddleware → RateLimitMiddleware × Bool
check_rate_limit current_time = check_minute (current_time / 60)

pub requires_auth : String → Bool
requires_auth uri =
    starts_with uri "/api/v1/blockchain/transaction"
    || starts_with uri "/api/v1/storage/put"
    || starts_with uri "/api/v1/storage/delete"
    || starts_with uri "/api/v1/wallet/"
    || starts_with uri "/api/v1/identity/update"

pub record MiddlewareStack : Type 0 where
  pub cors : CorsMiddleware
  pub rate_limit : RateLimitMiddleware

-- `MiddlewareStack::new`
pub new_stack : MiddlewareStack
new_stack = record { cors = new_cors; rate_limit = new_rate_limit 100 }

-- What authentication finds; the log of a token panics if its byte 8 lies inside a character.
pub data Authentication : Type 0 where
  user : String → Authentication
  unauthenticated token_cut : Authentication

-- What becomes of a request: it goes on to its handler, it is answered, or its task panics.
pub data Passage (Response : Type 0) : Type 0 where
  goes_on panicked : Passage Response
  answered : Response → Passage Response

module _ (protocol : Protocol) where
  open protocol use {
    ZhtpRequest, ZhtpResponse, too_many_requests, unauthorized, get, set, uri, error,
  }

  pub add_cors_headers : Option String → CorsMiddleware → ZhtpResponse → ZhtpResponse
  add_cors_headers request_origin cors response =
      set "Access-Control-Allow-Headers" "Content-Type, Authorization, X-Client-ID" (
        set "Access-Control-Allow-Methods" "GET, POST, PUT, DELETE, OPTIONS"
          (set "Access-Control-Allow-Origin" (allowed_origin request_origin cors) response))

  -- `&auth_header[7..]` of a header that begins with `Bearer `
  pub bearer_token : ZhtpRequest → Option String
  bearer_token request = elim (get request "Authorization") [
    | none ↦ none
    | some header ↦
        if starts_with header "Bearer " then some (slice header 7 (len header)) else none
  ]

  -- The log of a token takes `&token[..8.min(token.len())]`, at the default log level.
  pub authenticate_request : ZhtpRequest → Authentication
  authenticate_request request = elim (bearer_token request) [
    | none ↦ if requires_auth (uri request) then unauthenticated else user "anonymous"
    | some token ↦ elim (get? token 0 (min 8 (len token))) [
      | none ↦ token_cut
      | some _ ↦ user "authenticated_user"
    ]
  ]

  abbrev pub client_of : ZhtpRequest → String
  client_of request = elim (get request "X-Client-ID") [ none ↦ "anonymous" | some id ↦ id ]

  pub create_rate_limit_response : ZhtpResponse
  create_rate_limit_response =
      error too_many_requests "Rate limit exceeded. Please try again later."

  pub create_auth_required_response : ZhtpResponse
  create_auth_required_response = error unauthorized "Authentication required"

  abbrev pub answer_for : Authentication → Passage ZhtpResponse
  answer_for (user _) = goes_on
  answer_for unauthenticated = answered create_auth_required_response
  answer_for token_cut = panicked

  -- The CORS middleware only logs a request.
  pub process_request : ℕ → ZhtpRequest → MiddlewareStack → MiddlewareStack × Passage ZhtpResponse
  process_request now request stack =
      let (rate_limit, passes) = check_rate_limit now (client_of request) stack.rate_limit in
      (
        record stack { rate_limit = rate_limit },
        if passes
            then answer_for (authenticate_request request)
            else answered create_rate_limit_response,
      )

  pub process_response : ZhtpRequest → ZhtpResponse → MiddlewareStack → ZhtpResponse
  process_response request response stack =
      add_cors_headers (get request "Origin") stack.cors response
