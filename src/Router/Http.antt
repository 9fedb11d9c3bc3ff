-- ===== src/Router/Http.antt =====
-- src/server/http/router.rs: the routes, the middleware and the call of a handler. A request has
-- been read from the connection and translated. The body of a request is split off its lines.
use Prim.Native.String.{String, ◌++◌ as ◌+++◌}
use text.Mathlib.Text.{starts_with}
use zhtp.Base.{
  true, false, Option, none, some, List, [], ◌∷◌, ◌++◌, if◌then◌else◌, string_key, same,
}
use zhtp.Base.Dict.{lookup, insert}
use zhtp.Base.Result.{Result, ok, err}
use zhtp.Router.{Env, Handler, Middleware, Routes, middleware_error}

-- `lib_protocols::types::ZhtpMethod`, as far as the routers name it
pub data ZhtpMethod : Type 0 where
  get post put delete head options : ZhtpMethod

-- The `match` of `call_handler`.
unfoldable pub method_of : String → ZhtpMethod
method_of m =
    if same "GET" m
    then get
    else if same "POST" m
    then post
    else if same "PUT" m
    then put
    else if same "DELETE" m
    then delete
    else get

-- `lines.join("\n")`
unfoldable pub join : List String → String
join [] = ""
join (line ∷ []) = line
join (line ∷ next ∷ lines) = line +++ ("\n" +++ join (next ∷ lines))

-- The lines behind the first empty one.
unfoldable pub behind_empty : List String → Option (List String)
behind_empty [] = none
behind_empty (line ∷ lines) = if same line "" then some lines else behind_empty lines

-- `parse_body`, of the lines of the request
unfoldable pub parse_body : List String → String
parse_body [] = ""
parse_body (_ ∷ lines) = elim (behind_empty lines) [ none ↦ "" | some body ↦ join body ]

module _ (env : Env) where
  open env use {World, ZhtpRequest, ZhtpResponse, internal_server_error, error}

  pub record HttpRouter : Type 0 where
    pub routes : Routes env
    pub middleware : List (Middleware env)

  abbrev pub new_http_router : HttpRouter
  new_http_router = record { routes = []; middleware = [] }

  unfoldable pub http_register_handler : String → Handler env → HttpRouter → HttpRouter
  http_register_handler path handler r = record r { routes = insert path handler r.routes }

  unfoldable pub http_add_middleware : Middleware env → HttpRouter → HttpRouter
  http_add_middleware m r = record r { middleware = r.middleware ++ m ∷ [] }

  -- The loop over the routes: the first prefix, in the order in which this router's map is
  -- iterated, which no other map need share.
  unfoldable pub first_prefix : Routes env → String → Option (Handler env)
  first_prefix [] path = none
  first_prefix ((route_path, handler) ∷ routes) path =
      if starts_with path route_path then some handler else first_prefix routes path

  unfoldable pub find_handler : HttpRouter → String → Option (Handler env)
  find_handler r path = elim (lookup path r.routes) [
    | some handler ↦ some handler
    | none ↦ first_prefix r.routes path
  ]

  unfoldable pub http_run_middleware :
      List (Middleware env)
      → ZhtpRequest
      → Option ZhtpResponse
      → World
      → ZhtpRequest × Option ZhtpResponse × World
  http_run_middleware [] request response w = (request, response, w)
  http_run_middleware (m ∷ ms) request response w =
      let (result, request', response', w') = m.process request response w in
      let rest = http_run_middleware ms request' response' w' in
      elim result [
        | ok true ↦ rest
        | ok false ↦ (request', response', w')
        | err e ↦ (request', some (error internal_server_error (middleware_error e)), w')
      ]

  -- `call_handler`, from the translated request to the response
  unfoldable pub call_handler :
      HttpRouter → Handler env → ZhtpRequest → World → Result String ZhtpResponse × World
  call_handler r handler request w =
      let (request', response, w') = http_run_middleware r.middleware request none w in
      elim response [ some answer ↦ (ok answer, w') | none ↦ handler request' w' ]

  -- What `handle_http_request` answers: a response, or an error page with its status code.
  pub data HttpAnswer : Type 0 where
    answered : ZhtpResponse → HttpAnswer
    error_500 error_404 : HttpAnswer

  unfoldable pub serve : HttpRouter → String → ZhtpRequest → World → HttpAnswer × World
  serve r path request w = elim (find_handler r path) [
    | none ↦ (error_404, w)
    | some handler ↦
        let (result, w') = call_handler r handler request w in
        elim result [ ok response ↦ (answered response, w') | err e ↦ (error_500, w') ]
  ]
