-- ===== src/Router/Chain.antt =====
-- The chain of middleware: the same in both routers, and what the middleware of
-- src/server/http/middleware.rs does in it.
use zhtp.Base.{◌≡◌, refl, true, Option, none, some, List, [], ◌∷◌, ◌++◌, arith, string_key}
use zhtp.Base.Lists.{All}
use zhtp.Base.Dict.{lookup}
use zhtp.Base.Result.{ok}
use zhtp.Router.{
  Env, ZhtpRouter, Handler, Middleware, run_middleware, process_middleware, respond,
  or_handler_error,
}
use zhtp.Router.Http.{HttpRouter, http_run_middleware, find_handler, call_handler}
use zhtp.Router.Auth.{cors_middleware, process_cors}
use zhtp.Router.Matching.{LeadsTo, SameRoutes, find_handler-SameRoutes, route_request-find_handler}

module _ (env : Env) where
  open env use {
    World, ZhtpRequest, ZhtpResponse, error, internal_server_error, uri, get, unauthorized,
  }

  http_run_middleware-run_middleware :
      (ms : List (Middleware env)) (request : ZhtpRequest) (response : Option ZhtpResponse)
      (w : World)
      → http_run_middleware env ms request response w ≡ run_middleware env ms request response w
  unfolding http_run_middleware run_middleware
  http_run_middleware-run_middleware [] request response w = refl
  http_run_middleware-run_middleware (m ∷ ms) request response w =
      let (result, request', response', w') = m.process request response w in
      ground (arith, http_run_middleware-run_middleware ms request' response' w')

  -- A middleware that goes on without an answer to a request without one.
  abbrev pub KeepsNone : Middleware env → Type 0
  KeepsNone m =
      (request : ZhtpRequest) (w : World)
      → (m.process request none w).0 ≡ ok true
      → (m.process request none w).2 ≡ none

  -- A middleware that leaves the path of the request.
  abbrev pub KeepsUri : Middleware env → Type 0
  KeepsUri m =
      (request : ZhtpRequest) (response : Option ZhtpResponse) (w : World)
      → uri ((m.process request response w).1) ≡ uri request

  -- Behind middleware that go on without an answer to a request without one, the CORS
  -- middleware changes nothing: the chain leaves the same request, answer and world as
  -- without it.
  pub run_middleware-cors :
      (before after : List (Middleware env)) (request : ZhtpRequest) (w : World)
      → All KeepsNone before
      → run_middleware env (before ++ cors_middleware env ∷ after) request none w
        ≡ run_middleware env (before ++ after) request none w
  unfolding run_middleware process_cors
  run_middleware-cors [] after request w h = refl
  run_middleware-cors (m ∷ before) after request w (keeps, h) =
      let (result, request', response', w') = m.process request none w in
      ground (arith, keeps request w, run_middleware-cors before after request' w' h)

  uri-run_middleware :
      (ms : List (Middleware env)) (request : ZhtpRequest) (response : Option ZhtpResponse)
      (w : World)
      → All KeepsUri ms
      → uri ((run_middleware env ms request response w).0) ≡ uri request
  unfolding run_middleware
  uri-run_middleware [] request response w h = refl
  uri-run_middleware (m ∷ ms) request response w (keeps, h) =
      let (result, request', response', w') = m.process request response w in
      ground (arith, keeps request response w, uri-run_middleware ms request' response' w' h)

  -- If the route maps of a ZhtpRouter and an HttpRouter have the same entries, in whichever
  -- order each of them is iterated, both have the same middleware, none of which changes the
  -- path of a request, find_handler finds a handler for the path, and the path is registered
  -- or every route that it begins with leads to that handler: the native answer is what
  -- call_handler returns over HTTP, with an error answered as a handler error, and leaves the
  -- same world.
  pub respond-call_handler :
      (r : ZhtpRouter env) (h : HttpRouter env) (handler : Handler env) (request : ZhtpRequest)
      (w : World)
      → SameRoutes env r.routes h.routes
      → r.middleware ≡ h.middleware
      → All KeepsUri r.middleware
      → find_handler env h (uri request) ≡ some handler
      → (lookup (uri request) r.routes ≡ none → All (LeadsTo env (uri request) handler) r.routes)
      → respond env r request w ≡ or_handler_error env (call_handler env h handler request w)
  unfolding respond process_middleware call_handler
  respond-call_handler r h handler request w same_routes same_middleware keeps found leads =
      let (request', response, w') = run_middleware env r.middleware request none w in
      let r' : HttpRouter env = record { routes = r.routes; middleware = r.middleware } in
      ground (
        arith,
        http_run_middleware-run_middleware h.middleware request none w,
        uri-run_middleware r.middleware request none w keeps,
        route_request-find_handler env r r' request' w' refl,
        find_handler-SameRoutes env r' h (uri request) handler same_routes leads found,
      )
