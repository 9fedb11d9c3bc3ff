-- ===== src/Router.antt =====
-- src/server/zhtp/router.rs. What the router calls is the parameter `Env`: requests and responses
-- of lib_protocols, the QUIC stream of a connection, and the world that handlers work in. A
-- response to an error holds the reason in place of its text.
pub mod Http
pub mod Compatibility
pub mod Auth
pub mod Matching
pub mod Chain
pub mod Legacy
pub mod Stream
pub mod Quic
mod Tests
use Prim.Native.String.{String}
use text.Mathlib.Text.{starts_with}
use zhtp.Base.{
  ℕ, Bool, true, false, Option, none, some, List, [], ◌∷◌, ◌++◌, if◌then◌else◌, string_key,
}
use zhtp.Base.Dict.{Dict, lookup, insert, keys}
use zhtp.Base.Result.{Result, ok, err}
use zhtp.Serialization.{
  Bincode, SerializeError, DeserializeError, max_message_size, deserialize_request,
  serialize_response,
}

-- Why a request is answered with an error.
pub data Reason : Type 0 where
  invalid_request : DeserializeError → Reason
  handler_error middleware_error no_handler : String → Reason
  rate_limit_exceeded authentication_required : Reason

pub record Env : Type 1 where
  pub World : Type 0
  -- `lib_protocols::types`
  pub ZhtpRequest : Type 0
  pub ZhtpResponse : Type 0
  pub ZhtpStatus : Type 0
  pub bad_request : ZhtpStatus
  pub unauthorized : ZhtpStatus
  pub not_found : ZhtpStatus
  pub too_many_requests : ZhtpStatus
  pub internal_server_error : ZhtpStatus
  pub uri : ZhtpRequest → String
  pub get : ZhtpRequest → String → Option String
  pub set : String → String → ZhtpRequest → ZhtpRequest
  pub set_response : String → String → ZhtpResponse → ZhtpResponse
  pub error : ZhtpStatus → Reason → ZhtpResponse
  pub requests : Bincode ZhtpRequest
  pub responses : Bincode ZhtpResponse
  -- the two halves of the stream
  pub read_exact : ℕ → World → Result String (List ℕ) × World
  pub read_to_end : ℕ → World → Result String (List ℕ) × World
  pub write_all : List ℕ → World → Result String Unit × World
  pub finish : World → Result String Unit × World

-- What the handling of a stream fails with.
pub data StreamError : Type 0 where
  not_serialized : SerializeError → StreamError
  read_error write_error finish_error : String → StreamError

module _ (env : Env) where
  open env use {
    World, ZhtpRequest, ZhtpResponse, bad_request, not_found, internal_server_error, uri, error,
    requests, responses, read_to_end, write_all, finish,
  }

  -- `ZhtpRequestHandler::handle_request`
  abbrev pub Handler : Type 0
  Handler = ZhtpRequest → World → Result String ZhtpResponse × World

  -- `Middleware`: what `process` returns, and what it leaves in its two references
  pub record Middleware : Type 0 where
    pub process :
        ZhtpRequest
        → Option ZhtpResponse
        → World
        → Result String Bool × ZhtpRequest × Option ZhtpResponse × World

  abbrev pub Routes : Type 0
  Routes = Dict String Handler

  pub record ZhtpRouter : Type 0 where
    pub routes : Routes
    pub middleware : List Middleware

  -- `ZhtpRouter::new`
  abbrev pub new_router : ZhtpRouter
  new_router = record { routes = []; middleware = [] }

  pub register_handler : String → Handler → ZhtpRouter → ZhtpRouter
  register_handler path handler r = record r { routes = insert path handler r.routes }

  pub add_middleware : Middleware → ZhtpRouter → ZhtpRouter
  add_middleware m r = record r { middleware = r.middleware ++ m ∷ [] }

  abbrev pub get_routes : ZhtpRouter → List String
  get_routes r = keys r.routes

  -- The loop over the routes: the first prefix, in the order in which this router's map is
  -- iterated, which no other map need share.
  pub try_prefixes : Routes → ZhtpRequest → World → Result String ZhtpResponse × World
  try_prefixes [] request w = (ok (error not_found (no_handler (uri request))), w)
  try_prefixes ((route_path, handler) ∷ routes) request w =
      if starts_with (uri request) route_path
      then handler request w
      else try_prefixes routes request w

  pub route_request : ZhtpRouter → ZhtpRequest → World → Result String ZhtpResponse × World
  route_request r request w = elim (lookup (uri request) r.routes) [
    | some handler ↦ handler request w
    | none ↦ try_prefixes r.routes request w
  ]

  pub run_middleware :
      List Middleware
      → ZhtpRequest
      → Option ZhtpResponse
      → World
      → ZhtpRequest × Option ZhtpResponse × World
  run_middleware [] request response w = (request, response, w)
  run_middleware (m ∷ ms) request response w =
      let (result, request', response', w') = m.process request response w in
      let rest = run_middleware ms request' response' w' in
      elim result [
        | ok true ↦ rest
        | ok false ↦ (request', response', w')
        | err e ↦ (request', some (error internal_server_error (middleware_error e)), w')
      ]

  -- It returns no error.
  pub process_middleware :
      ZhtpRouter → ZhtpRequest → World → ZhtpRequest × Option ZhtpResponse × World
  process_middleware r request w = run_middleware r.middleware request none w

  abbrev pub or_handler_error : Result String ZhtpResponse × World → ZhtpResponse × World
  or_handler_error (ok response, w) = (response, w)
  or_handler_error (err e, w) = (error internal_server_error (handler_error e), w)

  -- `handle_zhtp_stream`, from the request to its response
  pub respond : ZhtpRouter → ZhtpRequest → World → ZhtpResponse × World
  respond r request w =
      let (request', response, w') = process_middleware r request w in
      elim response [
        | some answer ↦ (answer, w')
        | none ↦ or_handler_error (route_request r request' w')
      ]

  -- `write_all` and `finish`
  pub send_bytes : List ℕ → World → Result StreamError Unit × World
  send_bytes bytes w =
      let (written, w1) = write_all bytes w in
      elim written [
        | err e ↦ (err (write_error e), w1)
        | ok _ ↦
            let (finished, w2) = finish w1 in
            elim finished [ err e ↦ (err (finish_error e), w2) | ok _ ↦ (ok tt, w2) ]
      ]

  pub send_response : ZhtpResponse → World → Result StreamError Unit × World
  send_response response w = elim (serialize_response requests responses response) [
    | err e ↦ (err (not_serialized e), w)
    | ok bytes ↦ send_bytes bytes w
  ]

  -- `handle_zhtp_stream`, from the bytes that were read
  pub handle_bytes : ZhtpRouter → List ℕ → World → Result StreamError Unit × World
  handle_bytes r [] w = (ok tt, w)
  handle_bytes r (b ∷ bs) w = elim (deserialize_request requests responses (b ∷ bs)) [
    | err e ↦ send_response (error bad_request (invalid_request e)) w
    | ok request ↦ let (response, w') = respond r request w in send_response response w'
  ]

  pub handle_zhtp_stream : ZhtpRouter → World → Result StreamError Unit × World
  handle_zhtp_stream r w =
      let (data_read, w1) = read_to_end max_message_size w in
      elim data_read [ err e ↦ (err (read_error e), w1) | ok bytes ↦ handle_bytes r bytes w1 ]
