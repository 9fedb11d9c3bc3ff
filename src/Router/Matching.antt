-- ===== src/Router/Matching.antt =====
-- Which handler a path is routed to, by either router.
use Prim.Native.String.{String}
use text.Mathlib.Text.{starts_with}
use zhtp.Base.{
  ◌≡◌, ◌≢◌, ◌⊎◌, refl, ap, sym, ◌∙◌, subst, inl, inr, true, false, Option, none, some, [], ◌∷◌,
  ◌++◌, string_key, arith, Option-cases, Bool-cases, same, true-ne-false,
}
use zhtp.Base.Lists.{All, eq_of_same, same_refl}
use zhtp.Base.Dict.{lookup}
use zhtp.Base.Result.{Result, ok}
use zhtp.Router.{Env, ZhtpRouter, Handler, Routes, try_prefixes, route_request, no_handler}
use zhtp.Router.Http.{HttpRouter, first_prefix, find_handler}

module _ (env : Env) where
  open env use {World, ZhtpRequest, ZhtpResponse, not_found, uri, error}

  -- The entry is of a route that the path begins with.
  abbrev pub Matches : String → String × Handler env → Type 0
  Matches path route = starts_with path route.0 ≡ true

  abbrev pub NoMatch : String → String × Handler env → Type 0
  NoMatch path route = starts_with path route.0 ≡ false

  -- Where a path leads: to the route that is registered under it, else to the first route that it
  -- begins with, else nowhere.
  pub data Routed (path : String) (routes : Routes env) : Option (Handler env) → Type 0 where
    exactly :
        (handler : Handler env)
        → lookup path routes ≡ some handler
        → Routed path routes (some handler)
    by_prefix :
        (before after : Routes env) (route_path : String) (handler : Handler env)
        → lookup path routes ≡ none
        → routes ≡ before ++ (route_path, handler) ∷ after
        → All (NoMatch path) before
        → starts_with path route_path ≡ true
        → Routed path routes (some handler)
    nowhere : lookup path routes ≡ none → All (NoMatch path) routes → Routed path routes none

  data FirstMatch (path : String) (routes : Routes env) : Option (Handler env) → Type 0 where
    at :
        (before after : Routes env) (route_path : String) (handler : Handler env)
        → routes ≡ before ++ (route_path, handler) ∷ after
        → All (NoMatch path) before
        → starts_with path route_path ≡ true
        → FirstMatch path routes (some handler)
    missing : All (NoMatch path) routes → FirstMatch path routes none

  FirstMatch-cons :
      (path route_path : String) (handler : Handler env) (routes : Routes env)
      (found : Option (Handler env))
      → starts_with path route_path ≡ false
      → FirstMatch path routes found
      → FirstMatch path ((route_path, handler) ∷ routes) found
  FirstMatch-cons path route_path handler routes _ n (at before after p h e no_match m) =
      at ((route_path, handler) ∷ before) after p h (ap (λ rs. (route_path, handler) ∷ rs) e)
        (n, no_match) m
  FirstMatch-cons path route_path handler routes _ n (missing all) = missing (n, all)

  first_prefix-FirstMatch :
      (routes : Routes env) (path : String) → FirstMatch path routes (first_prefix env routes path)
  unfolding first_prefix
  first_prefix-FirstMatch [] path = missing tt
  first_prefix-FirstMatch ((route_path, handler) ∷ routes) path =
      elim (Bool-cases (starts_with path route_path)) [
        | inl m ↦ rw m (at [] routes route_path handler refl tt m)
        | inr n ↦ rw n (
            FirstMatch-cons path route_path handler routes _ n
              (first_prefix-FirstMatch routes path))
      ]

  FirstMatch-Routed :
      (path : String) (routes : Routes env) (found : Option (Handler env))
      → lookup path routes ≡ none
      → FirstMatch path routes found
      → Routed path routes found
  FirstMatch-Routed path routes _ n (at before after p h e no_match m) =
      by_prefix before after p h n e no_match m
  FirstMatch-Routed path routes _ n (missing all) = nowhere n all

  -- find_handler returns the handler that is registered under the path; if there is none,
  -- that of the first route that the path begins with; and none exactly if there is no such
  -- route.
  pub find_handler-Routed :
      (r : HttpRouter env) (path : String) → Routed path r.routes (find_handler env r path)
  unfolding find_handler
  find_handler-Routed r path = elim (Option-cases (lookup path r.routes)) [
    | inl n ↦
        subst (Routed path r.routes) (ground arith)
          (FirstMatch-Routed path r.routes _ n (first_prefix-FirstMatch r.routes path))
    | inr (handler, s) ↦ subst (Routed path r.routes) (ground arith) (exactly handler s)
  ]

  abbrev pub answer :
      Option (Handler env) → ZhtpRequest → World → Result String ZhtpResponse × World
  answer none request w = (ok (error not_found (no_handler (uri request))), w)
  answer (some handler) request w = handler request w

  try_prefixes-first_prefix :
      (routes : Routes env) (request : ZhtpRequest) (w : World)
      → try_prefixes env routes request w ≡ answer (first_prefix env routes (uri request)) request w
  unfolding try_prefixes first_prefix
  try_prefixes-first_prefix [] request w = refl
  try_prefixes-first_prefix ((route_path, handler) ∷ routes) request w =
      ground (arith, try_prefixes-first_prefix routes request w)

  pub route_request-find_handler :
      (r : ZhtpRouter env) (h : HttpRouter env) (request : ZhtpRequest) (w : World)
      → r.routes ≡ h.routes
      → route_request env r request w ≡ answer (find_handler env h (uri request)) request w
  unfolding route_request find_handler
  route_request-find_handler r h request w e =
      ground (arith, try_prefixes-first_prefix r.routes request w)

  -- The route leads to the handler, if the path begins with it.
  abbrev pub LeadsTo : String → Handler env → String × Handler env → Type 0
  LeadsTo path handler route = starts_with path route.0 ≡ true → route.1 ≡ handler

  -- Two maps with the same entries, each iterated in an order of its own.
  abbrev pub SameRoutes : Routes env → Routes env → Type 0
  SameRoutes routes routes' = (path : String) → lookup path routes ≡ lookup path routes'

  first_prefix-LeadsTo :
      (routes : Routes env) (path : String) (handler : Handler env)
      → All (LeadsTo path handler) routes
      → (first_prefix env routes path ≡ some handler)
        ⊎ (first_prefix env routes path ≡ none) × All (NoMatch path) routes
  unfolding first_prefix
  first_prefix-LeadsTo [] path handler h = inr (refl, tt)
  first_prefix-LeadsTo ((route_path, found) ∷ routes) path handler (leads, h) =
      elim (Bool-cases (starts_with path route_path)) [
        | inl m ↦ inl (ground (arith, m, leads m))
        | inr n ↦ elim (first_prefix-LeadsTo routes path handler h) [
          | inl e ↦ inl (ground (arith, n, e))
          | inr (e, none_match) ↦ inr (ground (arith, n, e), (n, none_match))
        ]
      ]

  lookup-NoMatch :
      (routes : Routes env) (path route_path : String)
      → All (NoMatch path) routes
      → starts_with path route_path ≡ true
      → lookup route_path routes ≡ none
  unfolding lookup
  lookup-NoMatch [] path route_path h m = refl
  lookup-NoMatch ((other, handler) ∷ routes) path route_path (n, h) m =
      elim (Bool-cases (same other route_path)) [
        | inl e ↦ absurd (
            true-ne-false (sym m ∙ ap (starts_with path) (sym (eq_of_same other route_path e)) ∙ n))
        | inr e ↦ rw e (lookup-NoMatch routes path route_path h m)
      ]

  lookup-append :
      (before after : Routes env) (route_path : String) (handler : Handler env)
      → lookup route_path (before ++ (route_path, handler) ∷ after) ≢ none
  unfolding lookup
  lookup-append [] after route_path handler h = ground (arith, h, same_refl route_path)
  lookup-append ((other, found) ∷ before) after route_path handler h =
      ground (arith, h, lookup-append before after route_path handler)

  -- Routers with the same entries find the same handler, in whichever order each of them
  -- iterates its map, if the path is registered or every route that it begins with leads there.
  pub find_handler-SameRoutes :
      (r h : HttpRouter env) (path : String) (handler : Handler env)
      → SameRoutes r.routes h.routes
      → (lookup path r.routes ≡ none → All (LeadsTo path handler) r.routes)
      → find_handler env h path ≡ some handler
      → find_handler env r path ≡ some handler
  unfolding find_handler
  find_handler-SameRoutes r h path handler same_routes leads found =
      elim (Option-cases (lookup path r.routes)) [
        | inr (exact, e) ↦ ground (arith, e, same_routes path, found)
        | inl e ↦ elim (first_prefix-LeadsTo r.routes path handler (leads e)) [
          | inl f ↦ ground (arith, e, f)
          | inr (_, none_match) ↦ absurd (
              missed none_match (
                subst (FirstMatch path h.routes) (ground (arith, e, same_routes path, found))
                  (first_prefix-FirstMatch h.routes path)))
        ]
      ]
    where
      missed : All (NoMatch path) r.routes → FirstMatch path h.routes (some handler) → ⊥
      missed none_match (at before after route_path _ e _ m) =
          lookup-append before after route_path handler (
            ap (lookup route_path) (sym e)
            ∙ sym (same_routes route_path)
            ∙ lookup-NoMatch r.routes path route_path none_match m)
