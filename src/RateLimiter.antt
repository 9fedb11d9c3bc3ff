-- ===== src/RateLimiter.antt =====
-- The `RateLimiter` of src/runtime/reward_orchestrator.rs. Instants and durations are numbers of
-- nanoseconds; each operation reads the clock once, at `now`. An instant less than an hour after
-- the origin of the clock has an hour before it, as with signed instants.
pub mod History
pub mod Limits
mod Tests
use Prim.Native.String.{String}
use zhtp.Base.{
  ℕ, ◌+◌, ◌-◌, ◌*◌, ◌^◌, ◌%◌, Bool, true, false, Option, none, some, List, [], ◌∷◌, ◌++◌,
  if◌then◌else◌, ltb, leb, string_key,
}
use zhtp.Base.Lists.{length}
use zhtp.Base.Dict.{Dict, lookup, insert}
use zhtp.Base.Result.{Result, ok, err}

abbrev pub second : ℕ
second = 1000000000

abbrev pub hour : ℕ
hour = 3600 * second

pub record RateLimiter : Type 0 where
  pub last_claim_time : Dict String ℕ
  pub claims_per_hour : Dict String (List ℕ)
  pub cooldown_period : ℕ
  pub max_claims_per_hour : ℕ

pub data Error : Type 0 where
  cooldown_active : ℕ → Error
  rate_limit_exceeded : ℕ → ℕ → Error

-- `RateLimiter::new`
pub new_limiter : ℕ → ℕ → RateLimiter
new_limiter cooldown_secs max_claims_per_hour = record {
  last_claim_time = [];
  claims_per_hour = [];
  cooldown_period = cooldown_secs * second;
  max_claims_per_hour = max_claims_per_hour;
}

-- `entry(id).or_insert_with(Vec::new)`
abbrev pub claims_of : String → RateLimiter → List ℕ
claims_of id l = elim (lookup id l.claims_per_hour) [ none ↦ [] | some claims ↦ claims ]

-- The claims that are not older than an hour: `retain` and `filter`.
pub recent : ℕ → List ℕ → List ℕ
recent now [] = []
recent now (t ∷ ts) = let rest = recent now ts in if ltb now (t + hour) then t ∷ rest else rest

-- What is left of the cooldown; `duration_since` is zero for a later instant.
pub cooldown_remaining : ℕ → String → RateLimiter → Option ℕ
cooldown_remaining now id l = elim (lookup id l.last_claim_time) [
  | none ↦ none
  | some last ↦
      if ltb (now - last) l.cooldown_period then some (l.cooldown_period - (now - last)) else none
]

-- The check of the limit, behind the cooldown.
pub check_hour : ℕ → String → RateLimiter → RateLimiter × Result Error (Unit {0})
check_hour now id l =
    let kept = recent now (claims_of id l) in
    let l' = record l { claims_per_hour = insert id kept l.claims_per_hour } in
    if leb l.max_claims_per_hour (length kept)
    then (l', err (rate_limit_exceeded (length kept) l.max_claims_per_hour))
    else (l', ok tt)

pub can_claim : ℕ → String → RateLimiter → RateLimiter × Result Error (Unit {0})
can_claim now id l = elim (cooldown_remaining now id l) [
  | some remaining ↦ (l, err (cooldown_active remaining))
  | none ↦ check_hour now id l
]

pub record_claim : ℕ → String → RateLimiter → RateLimiter
record_claim now id l = record l {
  last_claim_time = insert id now l.last_claim_time;
  claims_per_hour = insert id (claims_of id l ++ now ∷ []) l.claims_per_hour;
}

pub record RateLimitStats : Type 0 where
  pub claims_in_last_hour : ℕ
  pub cooldown_left : Option ℕ
  pub max_claims_per_hour : ℕ

-- `get_stats`: the count is cast to a `u32`
pub get_stats : ℕ → String → RateLimiter → RateLimitStats
get_stats now id l = record {
  claims_in_last_hour = length (recent now (claims_of id l)) % 2 ^ 32;
  cooldown_left = cooldown_remaining now id l;
  max_claims_per_hour = l.max_claims_per_hour;
}
