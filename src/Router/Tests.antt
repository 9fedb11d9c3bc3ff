-- ===== src/Router/Tests.antt =====
-- The routers at concrete inputs: requests and responses are numbers of one byte, the world is what
-- is still to be read and what was written.
use Prim.Native.String.{String}
use zhtp.Base.{
  ℕ, zero, suc, ◌≡◌, ◌≢◌, ◌⊎◌, inl, inr, refl, subst, same, Bool-cases, Option, none, some, List,
  [], ◌∷◌, ◌++◌, arith, string_key, string_dec,
}
use zhtp.Base.Lists.{take, drop, eq_of_same}
use zhtp.Router.Matching.{SameRoutes}
use zhtp.Base.Dict.{lookup}
use zhtp.Base.Result.{Result, ok}
use zhtp.Serialization.{
  Bincode, DeserializeError, too_short, invalid_magic, message, to_be_bytes, serialize_message,
  serialize_request,
}
use zhtp.Serialization.RoundTrip.{ReadsBack}
use zhtp.Router.{Env, ZhtpRouter, Handler, respond, or_handler_error, send_response}
use zhtp.Router.Http.{HttpRouter, find_handler, call_handler}
use zhtp.Router.Auth.{auth_middleware, cors_middleware, process_auth, process_cors}
use zhtp.Router.Chain.{KeepsNone, KeepsUri, respond-call_handler}
use zhtp.Router.Quic.{handle_stream, of_stream}
use zhtp.Router.Quic.Native

abbrev read_byte : List ℕ → Option ℕ
read_byte (b ∷ []) = some b
read_byte _ = none

abbrev one_byte : Bincode ℕ
one_byte = record { serialize = λ n. some (n ∷ []); deserialize = read_byte }

one_byte-ReadsBack : ReadsBack one_byte
one_byte-ReadsBack m body e = ground arith

abbrev path_of : ℕ → String
path_of zero = "/secret/key"
path_of (suc _) = "/api/v1/health"

abbrev env : Env
env = record {
  World = List ℕ × List ℕ;
  ZhtpRequest = ℕ;
  ZhtpResponse = ℕ;
  ZhtpStatus = ℕ;
  bad_request = 40;
  unauthorized = 41;
  not_found = 44;
  too_many_requests = 49;
  internal_server_error = 50;
  uri = path_of;
  get = λ request name. none;
  set = λ name value request. request;
  set_response = λ name value response. response;
  error = λ status reason. status;
  requests = one_byte;
  responses = one_byte;
  read_exact = λ n w. (ok (take n w.0), (drop n w.0, w.1));
  read_to_end = λ limit w. (ok w.0, ([], w.1));
  write_all = λ bytes w. (ok tt, (w.0, w.1 ++ bytes));
  finish = λ w. (ok tt, w);
}

abbrev secret_handler : Handler env
secret_handler request w = (ok 20, w)

abbrev open_handler : Handler env
open_handler request w = (ok 30, w)

abbrev guarded : ZhtpRouter env
guarded = record {
  routes = ("/secret/key", secret_handler) ∷ ("/secret", open_handler) ∷ [];
  middleware = auth_middleware env ∷ cors_middleware env ∷ [];
}

-- The same routes in another order: the path of the request begins with the other one, too.
abbrev http_guarded : HttpRouter env
http_guarded = record {
  routes = ("/secret", open_handler) ∷ ("/secret/key", secret_handler) ∷ [];
  middleware = guarded.middleware;
}

same-reordered : SameRoutes env guarded.routes http_guarded.routes
unfolding lookup string_dec
same-reordered path = elim (Bool-cases (same "/secret" path)) [
  | inl e ↦ subst Alike (eq_of_same "/secret" path e) refl
  | inr e ↦ ground (arith, e)
]
  where
    Alike : String → Type 0
    Alike p = lookup p guarded.routes ≡ lookup p http_guarded.routes

abbrev quiet : List ℕ × List ℕ
quiet = ([], [])

find_secret : find_handler env http_guarded "/secret/key" ≡ some secret_handler
unfolding find_handler lookup string_dec
find_secret = refl

auth-KeepsNone : KeepsNone env (auth_middleware env)
unfolding process_auth
auth-KeepsNone request w goes_on = ground arith

auth-KeepsUri : KeepsUri env (auth_middleware env)
unfolding process_auth
auth-KeepsUri request response w = ground arith

cors-KeepsUri : KeepsUri env (cors_middleware env)
unfolding process_cors
cors-KeepsUri request none w = refl
cors-KeepsUri request (some response) w = refl

registered : lookup "/secret/key" guarded.routes ≢ none
unfolding lookup string_dec
registered h = cc

respond-call_handler_example :
    respond env guarded 0 quiet
    ≡ or_handler_error env (call_handler env http_guarded secret_handler 0 quiet)
respond-call_handler_example =
    respond-call_handler env guarded http_guarded secret_handler 0 quiet same-reordered refl
      (auth-KeepsUri, (cors-KeepsUri, tt)) find_secret (λ missing. absurd (registered missing))

abbrev request_bytes : List ℕ
request_bytes = 90 ∷ 72 ∷ 84 ∷ 80 ∷ 1 ∷ 0 ∷ 0 ∷ 0 ∷ 1 ∷ 0 ∷ []

serialize_zero : serialize_request one_byte one_byte 0 ≡ ok request_bytes
unfolding serialize_request serialize_message message to_be_bytes
serialize_zero = refl

abbrev no_http : List ℕ × List ℕ → Result String Unit × (List ℕ × List ℕ)
no_http w = (ok tt, w)

abbrev pending : List ℕ × List ℕ → List ℕ
pending w = w.0

pending-ReadsInOrder : Native.ReadsInOrder env no_http pending
unfolding take drop
pending-ReadsInOrder = record {
  exact = λ a b c d rest w e. ((rest, w.1), ground (arith, e), refl);
  to_end = λ limit w small. (([], w.1), refl);
}

handle_stream-refuses_native_example :
    (e : DeserializeError) × (w' : List ℕ × List ℕ) × ((e ≡ too_short) ⊎ (e ≡ invalid_magic))
    × (handle_stream env no_http guarded (request_bytes, [])
        ≡ of_stream env no_http (send_response env 40 w'))
handle_stream-refuses_native_example =
    Native.handle_stream-refuses_native env no_http pending guarded 0 request_bytes
      (request_bytes, []) pending-ReadsInOrder serialize_zero refl (omega arith)
