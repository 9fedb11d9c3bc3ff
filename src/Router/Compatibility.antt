-- ===== src/Router/Compatibility.antt =====
-- src/server/zhtp/compatibility.rs: a legacy HTTP request over QUIC.
use Prim.Native.String.{String}
use zhtp.Base.{none, some, List, [], ◌∷◌, if◌then◌else◌, string_key, same}
use zhtp.Router.{Env, ZhtpRouter, route_request, or_handler_error}
use zhtp.Router.Http.{ZhtpMethod, get, post, put, delete, head, options, join, behind_empty}

-- The `match` of `parse_http_request`.
unfoldable pub legacy_method_of : String → ZhtpMethod
legacy_method_of m =
    if same "GET" m
    then get
    else if same "POST" m
    then post
    else if same "PUT" m
    then put
    else if same "DELETE" m
    then delete
    else if same "HEAD" m
    then head
    else if same "OPTIONS" m
    then options
    else get

-- The body that `parse_http_request` takes of the lines: `body_start` stays 0 without an empty line.
unfoldable pub legacy_body : List String → String
legacy_body [] = ""
legacy_body (first ∷ lines) = elim (behind_empty lines) [
  | none ↦ join (first ∷ lines)
  | some body ↦ join body
]

module _ (env : Env) where
  open env use {World, ZhtpRequest, ZhtpResponse}

  -- `handle_http_over_quic`, from the parsed request to the response
  unfoldable pub legacy_respond : ZhtpRouter env → ZhtpRequest → World → ZhtpResponse × World
  legacy_respond r request w = or_handler_error env (route_request env r request w)
