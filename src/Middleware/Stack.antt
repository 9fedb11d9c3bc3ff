-- ===== src/Middleware/Stack.antt =====
-- What the stack does with a request, by the requests that it was given before.
use Prim.Native.String.{String, len, slice}
use text.Mathlib.Text.{get?, starts_with}
use zhtp.Base.{
  ℕ, ◌<◌, ◌≤◌, ◌≡◌, refl, sym, subst, inl, inr, true, false, none, some, [], ◌∷◌, min, string_key,
  ◌⊎◌, arith, Bool-cases, Option-cases, true-ne-false, ◌/◌, ◌∙◌,
}
use zhtp.Base.Lists.{eq_of_same}
use zhtp.Middleware.{
  Protocol, MiddlewareStack, Passage, answered, goes_on, panicked, check_minute, check_rate_limit,
  requires_auth, bearer_token, authenticate_request, client_of, create_rate_limit_response,
  create_auth_required_response, answer_for, new_stack, process_request,
}
use zhtp.Middleware.Window.{Passed, Run, check, check_minute-passes_iff, in_minute, note, start}

-- The paths that need authentication.
pub data IsProtected (uri : String) : Type 0 where
  transaction : starts_with uri "/api/v1/blockchain/transaction" ≡ true → IsProtected uri
  storage_put : starts_with uri "/api/v1/storage/put" ≡ true → IsProtected uri
  storage_delete : starts_with uri "/api/v1/storage/delete" ≡ true → IsProtected uri
  wallet : starts_with uri "/api/v1/wallet/" ≡ true → IsProtected uri
  identity_update : starts_with uri "/api/v1/identity/update" ≡ true → IsProtected uri

requires_auth-true : (uri : String) → IsProtected uri → requires_auth uri ≡ true
unfolding requires_auth
requires_auth-true uri (transaction e) = ground (arith, e)
requires_auth-true uri (storage_put e) = ground (arith, e)
requires_auth-true uri (storage_delete e) = ground (arith, e)
requires_auth-true uri (wallet e) = ground (arith, e)
requires_auth-true uri (identity_update e) = ground (arith, e)

requires_auth-IsProtected : (uri : String) → requires_auth uri ≡ true → IsProtected uri
unfolding requires_auth
requires_auth-IsProtected uri e = elim (Bool-cases (starts_with uri "/api/v1/wallet/")) [
  | inl w ↦ wallet w
  | inr w ↦ elim (Bool-cases (starts_with uri "/api/v1/storage/put")) [
    | inl p ↦ storage_put p
    | inr p ↦ elim (Bool-cases (starts_with uri "/api/v1/storage/delete")) [
      | inl d ↦ storage_delete d
      | inr d ↦ elim (Bool-cases (starts_with uri "/api/v1/identity/update")) [
        | inl i ↦ identity_update i
        | inr i ↦ transaction (ground (arith, e, w, p, d, i))
      ]
    ]
  ]
]

module _ (protocol : Protocol) where
  open protocol use {ZhtpRequest, ZhtpResponse, get, uri}

  -- The stack in a minute, after requests in the order of their minutes: the client and the
  -- minute of each of them, the latest first.
  pub data Served : ℕ → Passed → MiddlewareStack → Type 0 where
    created : Served 0 [] new_stack
    served :
        {before : ℕ} {h : Passed} {stack : MiddlewareStack} (now : ℕ) (request : ZhtpRequest)
        → Served before h stack
        → before ≤ now / 60
        → Served
            (now / 60)
            ((client_of protocol request, now / 60) ∷ h)
            (process_request protocol now request stack).0

  -- The requests that passed the limit beside all of them.
  record Limited (t : ℕ) (h : Passed) (stack : MiddlewareStack) : Type 0 where
    passed : Passed
    run : Run 100 t passed stack.rate_limit
    counted :
        (id : String) (minute : ℕ) → in_minute id minute passed ≡ min 100 (in_minute id minute h)

  Served-Limited :
      {t : ℕ} {h : Passed} {stack : MiddlewareStack} → Served t h stack → Limited t h stack
  unfolding new_stack process_request check_rate_limit in_minute
  Served-Limited created = record { passed = []; run = start; counted = λ id minute. refl }
  Served-Limited (served {before} {h} {stack} now request s le) =
      let l = Served-Limited s in
      let client = client_of protocol request in
      let c = check_minute (now / 60) client stack.rate_limit in
      record {
        passed = note c.1 client (now / 60) l.passed;
        run = check (now / 60) client l.run le;
        counted = λ id minute. ground (
          arith,
          l.counted id minute,
          l.counted client (now / 60),
          check_minute-passes_iff (omega arith) l.run client (now / 60) le,
          eq_of_same client id,
        );
      }

  -- The request has an `Authorization` header of this token.
  pub record HasToken (request : ZhtpRequest) (token : String) : Type 0 where
    pub header : String
    pub there : get request "Authorization" ≡ some header
    pub begins : starts_with header "Bearer " ≡ true
    pub rest : slice header 7 (len header) ≡ token

  abbrev pub HasNoToken : ZhtpRequest → Type 0
  HasNoToken request =
      (header : String)
      → get request "Authorization" ≡ some header
      → starts_with header "Bearer " ≡ false

  bearer_token-cases :
      (request : ZhtpRequest)
      → HasNoToken request × (bearer_token protocol request ≡ none)
        ⊎ (token : String) × HasToken request token × (bearer_token protocol request ≡ some token)
  unfolding bearer_token
  bearer_token-cases request = elim (Option-cases (get request "Authorization")) [
    | inl n ↦ inl (λ header e. absurd (ground (arith, n, e)), ground (arith, n))
    | inr (header, e) ↦ elim (Bool-cases (starts_with header "Bearer ")) [
      | inl b ↦ inr (
        slice header 7 (len header),
        record { header = header; there = e; begins = b; rest = refl },
        ground (arith, e, b),
      )
      | inr b ↦ inl (λ other f. ground (arith, e, f, b), ground (arith, e, b))
    ]
  ]

  -- What becomes of a request whose client was seen so often in this minute. Of these cases
  -- exactly one has its conditions met.
  pub data Handled (seen : ℕ) (request : ZhtpRequest) : Passage ZhtpResponse → Type 0 where
    limited : 100 ≤ seen → Handled seen request (answered (create_rate_limit_response protocol))
    with_token :
        (token shown : String)
        → seen < 100
        → HasToken request token
        → get? token 0 (min 8 (len token)) ≡ some shown
        → Handled seen request goes_on
    with_cut_token :
        (token : String)
        → seen < 100
        → HasToken request token
        → get? token 0 (min 8 (len token)) ≡ none
        → Handled seen request panicked
    unprotected :
        seen < 100 → HasNoToken request → ¬ IsProtected (uri request) → Handled seen request goes_on
    refused :
        seen < 100
        → HasNoToken request
        → IsProtected (uri request)
        → Handled seen request (answered (create_auth_required_response protocol))

  authenticated-Handled :
      (seen : ℕ) (request : ZhtpRequest)
      → seen < 100
      → Handled seen request (answer_for protocol (authenticate_request protocol request))
  unfolding authenticate_request
  authenticated-Handled seen request lt = elim (bearer_token-cases request) [
    | inr (token, has, e) ↦ elim (Option-cases (get? token 0 (min 8 (len token)))) [
      | inl cut ↦
          subst (Handled seen request) (ground (arith, e, cut)) (with_cut_token token lt has cut)
      | inr (shown, whole) ↦
          subst (Handled seen request) (ground (arith, e, whole))
            (with_token token shown lt has whole)
    ]
    | inl (no_token, e) ↦ elim (Bool-cases (requires_auth (uri request))) [
      | inl r ↦
          subst (Handled seen request) (ground (arith, e, r))
            (refused lt no_token (requires_auth-IsProtected (uri request) r))
      | inr r ↦ subst (Handled seen request) (ground (arith, e, r)) (
          unprotected lt no_token
            (λ p. true-ne-false (sym (requires_auth-true (uri request) p) ∙ r)))
    ]
  ]

  -- After any requests to a new stack in the order of their minutes, for a request in a
  -- minute that is not before the last of them: with a hundred or more requests of its client
  -- in this minute before it, it gets the answer of the rate limit; else, with a bearer
  -- token, it goes on to its handler, but panics if byte 8 of the token lies inside a
  -- character; without one, it gets the answer that authentication is required for a path
  -- below the transactions of the blockchain, the writes and deletions of the storage, the
  -- wallet or the updates of identities, and goes on for any other path.
  pub process_request-Handled :
      {t : ℕ} {h : Passed} {stack : MiddlewareStack} (s : Served t h stack) (now : ℕ)
      (request : ZhtpRequest)
      → t ≤ now / 60
      → Handled
          (in_minute (client_of protocol request) (now / 60) h)
          request
          (process_request protocol now request stack).1
  unfolding process_request check_rate_limit
  process_request-Handled {t} {h} {stack} s now request le =
      let l = Served-Limited s in
      let client = client_of protocol request in
      let iff = check_minute-passes_iff (omega arith) l.run client (now / 60) le in
      let seen = in_minute client (now / 60) h in
      elim (Bool-cases (check_minute (now / 60) client stack.rate_limit).1) [
        | inl p ↦ subst (Handled seen request) (ground (arith, p)) (
            authenticated-Handled seen request
              (omega (arith, iff.0 p, l.counted client (now / 60))))
        | inr p ↦
            subst (Handled seen request) (ground (arith, p))
              (limited (ground (arith, p, iff, l.counted client (now / 60))))
      ]
