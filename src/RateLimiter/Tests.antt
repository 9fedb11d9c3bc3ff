-- ===== src/RateLimiter/Tests.antt =====
-- Runs of the rate limiter, and the theorems at concrete inputs.
use zhtp.Base.{ℕ, ◌+◌, ◌*◌, ◌<◌, ◌≤◌, ◌≡◌, ◌↔◌, some, [], ◌∷◌, arith, string_key}
use zhtp.Base.Result.{ok}
use zhtp.RateLimiter.{RateLimiter, second, new_limiter, can_claim, record_claim}
use zhtp.RateLimiter.History.{Claims, made, latest, Run, start, check, claim}
use zhtp.RateLimiter.Limits.{can_claim-ok_iff}

-- Ten minutes between two claims, six claims in an hour.
abbrev fresh : RateLimiter
fresh = new_limiter 600 6

fresh-Run : Run 600 6 0 [] fresh
fresh-Run = start

abbrev one_claim : Claims
one_claim = ("routing", 5) ∷ []

abbrev used : RateLimiter
used = record_claim 5 "routing" (can_claim 5 "routing" fresh).0

used-Run : Run 600 6 5 one_claim used
used-Run = claim 5 "routing" (check 5 "routing" fresh-Run (omega arith)) (omega arith)

-- A claim that no check let through.
abbrev again : RateLimiter
again = record_claim 6 "routing" used

again-Run : Run 600 6 6 (("routing", 6) ∷ one_claim) again
again-Run = claim 6 "routing" used-Run (omega arith)

can_claim-ok_iff_example :
    ((can_claim 7 "routing" again).1 ≡ ok tt)
    ↔ (made "routing" 7 (("routing", 6) ∷ one_claim) < 6)
      × ((last : ℕ)
          → latest "routing" (("routing", 6) ∷ one_claim) ≡ some last
          → last + 600 * second ≤ 7)
can_claim-ok_iff_example = can_claim-ok_iff again-Run "routing" 7 (omega arith)
