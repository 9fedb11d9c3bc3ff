-- ===== src/Middleware/Tests.antt =====
-- A small protocol, runs of the rate limit, and the theorems at concrete inputs.
use Prim.Native.String.{String}
use zhtp.Base.{ℕ, ◌≡◌, refl, [], ◌∷◌, arith, string_key, string_dec}
use zhtp.Base.Dict.{Dict, lookup}
use zhtp.Middleware.{
  Protocol, MiddlewareStack, authenticate_request, bearer_token, check_minute, check_rate_limit,
  client_of, new_rate_limit, new_stack, panicked, process_request,
}
use zhtp.Middleware.Window.{in_minute}
use zhtp.Middleware.Stack.{Handled, Served, created, process_request-Handled, served}

-- A request is its headers, and asks for a wallet.
abbrev plain : Protocol
plain = record {
  ZhtpRequest = Dict String String;
  ZhtpResponse = ℕ × String;
  ZhtpStatus = ℕ;
  too_many_requests = 429;
  unauthorized = 401;
  get = λ request name. lookup name request;
  set = λ name value response. response;
  uri = λ request. "/api/v1/wallet/balance";
  error = λ status message. (status, message);
}

abbrev anonymous : Dict String String
anonymous = []

-- The eighth byte of the token lies inside its last character.
abbrev with_cut_token : Dict String String
with_cut_token = ("Authorization", "Bearer 1234567λ") ∷ []

abbrev after_one : MiddlewareStack
after_one = (process_request plain 190 with_cut_token new_stack).0

after_one-Served : Served plain 3 (("anonymous", 3) ∷ []) after_one
unfolding lookup string_dec
after_one-Served = served 190 with_cut_token created (omega arith)

process_request-Handled_example :
    Handled plain
      (in_minute (client_of plain anonymous) 3 (("anonymous", 3) ∷ []))
      anonymous
      (process_request plain 200 anonymous after_one).1
process_request-Handled_example =
    process_request-Handled plain after_one-Served 200 anonymous (omega arith)

cut_token-panics : (process_request plain 190 with_cut_token new_stack).1 ≡ panicked
unfolding process_request new_stack check_rate_limit check_minute new_rate_limit
    authenticate_request bearer_token lookup string_dec
cut_token-panics = refl
