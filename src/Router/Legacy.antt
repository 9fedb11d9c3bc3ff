-- ===== src/Router/Legacy.antt =====
-- The path of a legacy HTTP request beside those of the two routers.
use Prim.Native.String.{String}
use zhtp.Base.{◌≡◌, refl, true, false, none, some, List, [], ◌∷◌, arith, string_key, string_dec}
use zhtp.Base.Lists.{contains, contains-cons, contains-nil}
use zhtp.Base.Dict.{lookup}
use zhtp.Router.{
  Env, ZhtpRouter, Handler, Middleware, run_middleware, process_middleware, respond,
  or_handler_error, route_request, authentication_required,
}
use zhtp.Router.Http.{join, behind_empty, parse_body}
use zhtp.Router.Compatibility.{legacy_respond, legacy_body}
use zhtp.Router.Auth.{auth_middleware, process_auth, is_public, has_token}

behind_empty-none : (lines : List String) → contains "" lines ≡ false → behind_empty lines ≡ none
unfolding behind_empty
behind_empty-none [] h = refl
behind_empty-none (line ∷ lines) h =
    ground (arith, contains-cons "" line lines, behind_empty-none lines)

behind_empty-some :
    (lines : List String)
    → contains "" lines ≡ true
    → (body : List String) × (behind_empty lines ≡ some body)
unfolding behind_empty
behind_empty-some [] h = absurd (ground (arith, contains-nil {K = String} ""))
behind_empty-some (line ∷ lines) h = elim (string_dec line "") [
  | yes e ↦ (lines, ground arith)
  | no n ↦
      let (body, b) = behind_empty-some lines (ground (arith, contains-cons "" line lines)) in
      (body, ground arith)
]

-- With an empty line behind the first line, the compatibility layer and the HTTP router take
-- the same body of a request. Without one, the compatibility layer takes all lines, the first
-- included, and the router none.
pub legacy_body-parse_body :
    (first : String) (lines : List String)
    → (contains "" lines ≡ true → legacy_body (first ∷ lines) ≡ parse_body (first ∷ lines))
      × (contains "" lines ≡ false
          → (legacy_body (first ∷ lines) ≡ join (first ∷ lines))
            × (parse_body (first ∷ lines) ≡ ""))
unfolding legacy_body parse_body
legacy_body-parse_body first lines = (
  λ h. let (body, e) = behind_empty-some lines h in ground arith,
  λ h. ground (arith, behind_empty-none lines),
)

module _ (env : Env) where
  open env use {World, ZhtpRequest, ZhtpResponse, error, uri, get, unauthorized}

  -- With the authentication in front of the middleware, and a route for the path of a request
  -- that is neither public nor has a token: the router answers the request natively as
  -- unauthorized and leaves the world as it was, and over legacy HTTP the handler answers it.
  pub auth_bypassed :
      (r : ZhtpRouter env) (rest : List (Middleware env)) (handler : Handler env)
      (request : ZhtpRequest) (w : World)
      → r.middleware ≡ auth_middleware env ∷ rest
      → lookup (uri request) r.routes ≡ some handler
      → is_public (uri request) ≡ false
      → has_token (get request "Authorization") ≡ false
      → (respond env r request w ≡ (error unauthorized authentication_required, w))
        × (legacy_respond env r request w ≡ or_handler_error env (handler request w))
  unfolding respond process_middleware legacy_respond route_request run_middleware process_auth
  auth_bypassed r rest handler request w e found private missing = (ground arith, ground arith)
