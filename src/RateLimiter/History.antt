-- ===== src/RateLimiter/History.antt =====
-- The rate limiter beside the history of the claims that were recorded.
use Prim.Native.String.{String}
use zhtp.Base.{
  ℕ, ◌+◌, ◌*◌, ◌≤◌, ◌≡◌, refl, ap, ◌∙◌, inl, inr, Option, none, some, List, [], ◌∷◌, ◌++◌,
  if◌then◌else◌, ltb, leb, string_key, same, Bool-cases, Option-cases, arith,
}
use zhtp.Base.Lists.{length}
use zhtp.Base.Dict.{lookup, insert, lookup-insert, lookup-nil}
use zhtp.RateLimiter.{
  RateLimiter, hour, new_limiter, claims_of, recent, cooldown_remaining, check_hour, can_claim,
  record_claim,
}

-- The claims that were made, the latest first.
abbrev pub Claims : Type 0
Claims = List (String × ℕ)

-- How many of them are of `id` and not older than an hour.
unfoldable pub made : String → ℕ → Claims → ℕ
made id now [] = 0
made id now ((id', t) ∷ h) =
    let rest = made id now h in
    if same id' id then (if ltb now (t + hour) then rest + 1 else rest) else rest

-- The moment of the latest claim of `id`.
unfoldable pub latest : String → Claims → Option ℕ
latest id [] = none
latest id ((id', t) ∷ h) = if same id' id then some t else latest id h

-- A limiter at a moment, after checks and claims. `record_claim` is a call of its own, with its own
-- moment, and no check need come before it.
pub data Run (cooldown_secs max : ℕ) : ℕ → Claims → RateLimiter → Type 0 where
  start : Run cooldown_secs max 0 [] (new_limiter cooldown_secs max)
  check :
      {before : ℕ} {h : Claims} {l : RateLimiter} (now : ℕ) (id : String)
      → Run cooldown_secs max before h l
      → before ≤ now
      → Run cooldown_secs max now h (can_claim now id l).0
  claim :
      {before : ℕ} {h : Claims} {l : RateLimiter} (now : ℕ) (id : String)
      → Run cooldown_secs max before h l
      → before ≤ now
      → Run cooldown_secs max now ((id, now) ∷ h) (record_claim now id l)

length-recent_twice :
    (now later : ℕ) (ts : List ℕ)
    → now ≤ later
    → length (recent later (recent now ts)) ≡ length (recent later ts)
unfolding recent
length-recent_twice now later [] le = refl
length-recent_twice now later (t ∷ ts) le = ground (arith, length-recent_twice now later ts le)

length-recent_push :
    (later now : ℕ) (ts : List ℕ)
    → length (recent later (ts ++ now ∷ []))
      ≡ (if ltb later (now + hour) then length (recent later ts) + 1 else length (recent later ts))
unfolding recent
length-recent_push later now [] = ground arith
length-recent_push later now (t ∷ ts) = ground (arith, length-recent_push later now ts)

-- What the limiter knows of the history at the moment `t`.
pub record Agrees (cooldown_secs max t : ℕ) (h : Claims) (l : RateLimiter) : Type 0 where
  pub counted :
      (id : String) (now : ℕ) → t ≤ now → length (recent now (claims_of id l)) ≡ made id now h
  pub last : (id : String) → lookup id l.last_claim_time ≡ latest id h
  pub past : (id : String) (s : ℕ) → latest id h ≡ some s → s ≤ t
  pub pause : l.cooldown_period ≡ cooldown_secs * 1000000000
  pub limit : l.max_claims_per_hour ≡ max

-- What a check leaves.
record Checked (now : ℕ) (l l' : RateLimiter) : Type 0 where
  same_counts :
      (id : String) (later : ℕ)
      → now ≤ later
      → length (recent later (claims_of id l')) ≡ length (recent later (claims_of id l))
  last : l'.last_claim_time ≡ l.last_claim_time
  pause : l'.cooldown_period ≡ l.cooldown_period
  limit : l'.max_claims_per_hour ≡ l.max_claims_per_hour

check_hour-Checked :
    (now : ℕ) (id : String) (l : RateLimiter) → Checked now l (check_hour now id l).0
unfolding check_hour
check_hour-Checked now id l =
    elim (Bool-cases (leb l.max_claims_per_hour (length (recent now (claims_of id l))))) [
      | inl e ↦ rw (e, check_hour) pruned
      | inr e ↦ rw (e, check_hour) pruned
    ]
  where
    pruned :
        Checked now l
          (record l { claims_per_hour = insert id (recent now (claims_of id l)) l.claims_per_hour })
    pruned = record {
      same_counts = λ j later le. ground (
        arith,
        lookup-insert id j (recent now (claims_of id l)) l.claims_per_hour,
        length-recent_twice now later (claims_of id l) le,
      );
      last = refl;
      pause = refl;
      limit = refl;
    }

can_claim-Checked : (now : ℕ) (id : String) (l : RateLimiter) → Checked now l (can_claim now id l).0
unfolding can_claim
can_claim-Checked now id l = elim (Option-cases (cooldown_remaining now id l)) [
  | inl e ↦ rw (e, can_claim) (check_hour-Checked now id l)
  | inr (r, e) ↦
      rw (e, can_claim)
        (record { same_counts = λ j later le. refl; last = refl; pause = refl; limit = refl })
]

new_limiter-Agrees :
    (cooldown_secs max : ℕ) → Agrees cooldown_secs max 0 [] (new_limiter cooldown_secs max)
unfolding new_limiter made latest recent
new_limiter-Agrees cooldown_secs max = record {
  counted = λ id now le. ground (arith, lookup-nil {V = List ℕ} id);
  last = λ id. lookup-nil {V = ℕ} id;
  past = λ id s e. absurd (cc);
  pause = refl;
  limit = refl;
}

check-Agrees :
    {cooldown_secs max before : ℕ} {h : Claims} {l : RateLimiter} (now : ℕ) (id : String)
    → Agrees cooldown_secs max before h l
    → before ≤ now
    → Agrees cooldown_secs max now h (can_claim now id l).0
check-Agrees now id a le =
    let c = can_claim-Checked now id _ in
    record {
      counted = λ j later m. c.same_counts j later m ∙ a.counted j later (omega (arith, m, le));
      last = λ j. ap (lookup j) c.last ∙ a.last j;
      past = λ j s e. omega (arith, a.past j s e, le);
      pause = c.pause ∙ a.pause;
      limit = c.limit ∙ a.limit;
    }

claim-Agrees :
    {cooldown_secs max before : ℕ} {h : Claims} {l : RateLimiter} (now : ℕ) (id : String)
    → Agrees cooldown_secs max before h l
    → before ≤ now
    → Agrees cooldown_secs max now ((id, now) ∷ h) (record_claim now id l)
unfolding record_claim made latest
claim-Agrees {l = l} now id a le = record {
  counted = λ j later m. ground (
    arith,
    lookup-insert id j (claims_of id l ++ now ∷ []) l.claims_per_hour,
    length-recent_push later now (claims_of id l),
    a.counted j later (omega (arith, m, le)),
  );
  last = λ j. ground (arith, lookup-insert id j now l.last_claim_time, a.last j);
  past = λ j s e. ground (arith, a.past j s);
  pause = a.pause;
  limit = a.limit;
}

pub Run-Agrees :
    {cooldown_secs max now : ℕ} {h : Claims} {l : RateLimiter}
    → Run cooldown_secs max now h l
    → Agrees cooldown_secs max now h l
Run-Agrees {cooldown_secs} {max} start = new_limiter-Agrees cooldown_secs max
Run-Agrees (check now id r le) = check-Agrees now id (Run-Agrees r) le
Run-Agrees (claim now id r le) = claim-Agrees now id (Run-Agrees r) le
