-- ===== src/Middleware/Window.antt =====
-- The rate limit of a minute beside the history of the requests that passed.
use Prim.Native.String.{String}
use zhtp.Base.{
  ℕ, ◌+◌, ◌<◌, ◌≤◌, ◌≡◌, refl, sym, ap, ◌↔◌, Bool, true, false, List, [], ◌∷◌, if◌then◌else◌, leb,
  ◌==◌, string_key, same, arith, ◌⊎◌, inl, inr, Bool-cases, subst,
}
use zhtp.Base.Lists.{eq_of_same}
use zhtp.Base.Dict.{insert, lookup-insert, lookup-nil}
use zhtp.Middleware.{RateLimitMiddleware, new_rate_limit, count_of, check_minute}

-- The client and the minute of each request that passed, the latest first.
abbrev pub Passed : Type 0
Passed = List (String × ℕ)

-- How many requests of a client are in a minute.
unfoldable pub in_minute : String → ℕ → Passed → ℕ
in_minute id minute [] = 0
in_minute id minute ((id', minute') ∷ h) =
    let rest = in_minute id minute h in
    if same id' id then (if minute' == minute then rest + 1 else rest) else rest

abbrev pub note : Bool → String → ℕ → Passed → Passed
note b id minute h = if b then (id, minute) ∷ h else h

-- A middleware at a minute, after checks at minutes in order.
pub data Run (max : ℕ) : ℕ → Passed → RateLimitMiddleware → Type 0 where
  start : Run max 0 [] (new_rate_limit max)
  check :
      {before : ℕ} {h : Passed} {r : RateLimitMiddleware} (minute : ℕ) (id : String)
      → Run max before h r
      → before ≤ minute
      → Run max minute (note (check_minute minute id r).1 id minute h) (check_minute minute id r).0

record Agrees (max t : ℕ) (h : Passed) (r : RateLimitMiddleware) : Type 0 where
  counted :
      (id : String) (minute : ℕ)
      → t ≤ minute
      → in_minute id minute h ≡ (if (count_of id r).0 == minute then (count_of id r).1 else 0)
  bound : (id : String) (minute : ℕ) → t ≤ minute → in_minute id minute h ≤ max
  past : (id : String) → (count_of id r).0 ≤ t
  limit : r.max_requests_per_minute ≡ max

new_rate_limit-Agrees : (max : ℕ) → Agrees max 0 [] (new_rate_limit max)
unfolding new_rate_limit in_minute
new_rate_limit-Agrees max = record {
  counted = λ id minute le. ground (arith, lookup-nil {V = ℕ × ℕ} id);
  bound = λ id minute le. omega arith;
  past = λ id. ground (arith, lookup-nil {V = ℕ × ℕ} id);
  limit = refl;
}

-- Whether the window of the client is the minute, and whether it is full.
data Window (minute : ℕ) (id : String) (r : RateLimitMiddleware) : Type 0 where
  full :
      (count_of id r).0 ≡ minute
      → r.max_requests_per_minute ≤ (count_of id r).1
      → check_minute minute id r ≡ (r, false)
      → Window minute id r
  open_at :
      (n : ℕ)
      → n ≡ (if (count_of id r).0 == minute then (count_of id r).1 else 0)
      → (n < r.max_requests_per_minute) ⊎ (n ≡ 0)
      → check_minute minute id r
        ≡ (record r { request_counts = insert id (minute, n + 1) r.request_counts }, true)
      → Window minute id r

check_minute-Window : (minute : ℕ) (id : String) (r : RateLimitMiddleware) → Window minute id r
unfolding check_minute
check_minute-Window minute id r = elim (Bool-cases ((count_of id r).0 == minute)) [
  | inr other ↦ open_at 0 (ground (arith, other)) (inr refl) (ground (arith, other))
  | inl this ↦ elim (Bool-cases (leb r.max_requests_per_minute (count_of id r).1)) [
    | inl e ↦ full (ground (arith, this)) (ground (arith, e)) (ground (arith, this, e))
    | inr e ↦
        open_at (count_of id r).1 (ground (arith, this)) (inl (ground (arith, e)))
          (ground (arith, this, e))
  ]
]

check_minute-Agrees :
    {max before : ℕ} {h : Passed} {r : RateLimitMiddleware} (minute : ℕ) (id : String)
    → 0 < max
    → Agrees max before h r
    → before ≤ minute
    → let c = check_minute minute id r in Agrees max minute (note c.1 id minute h) c.0
unfolding in_minute
check_minute-Agrees {max} {before} {h} {r} minute id some_allowed a le =
    elim (check_minute-Window minute id r) [
      | full e f p ↦ subst After (sym p) (record {
        counted = λ j later m. a.counted j later (omega (arith, m, le));
        bound = λ j later m. a.bound j later (omega (arith, m, le));
        past = λ j. omega (arith, a.past j, le);
        limit = a.limit;
      })
      | open_at n e room p ↦ subst After (sym p) (record {
        counted = pushed n e;
        bound = bounded n e room;
        past =
            λ j. ground (arith, a.past j, le, lookup-insert id j (minute, n + 1) r.request_counts);
        limit = a.limit;
      })
    ]
  where
    put : ℕ → RateLimitMiddleware
    put n = record r { request_counts = insert id (minute, n + 1) r.request_counts }

    After : RateLimitMiddleware × Bool → Type 0
    After c = Agrees max minute (note c.1 id minute h) c.0

    pushed :
        (n : ℕ)
        → n ≡ (if (count_of id r).0 == minute then (count_of id r).1 else 0)
        → (j : String) (later : ℕ) → minute ≤ later
        → in_minute j later ((id, minute) ∷ h)
          ≡ (if (count_of j (put n)).0 == later then (count_of j (put n)).1 else 0)
    pushed n e j later m = ground (
      arith,
      lookup-insert id j (minute, n + 1) r.request_counts,
      a.counted j later (omega (arith, m, le)),
      a.past j,
      eq_of_same id j,
    )

    bounded :
        (n : ℕ)
        → n ≡ (if (count_of id r).0 == minute then (count_of id r).1 else 0)
        → (n < r.max_requests_per_minute) ⊎ (n ≡ 0)
        → (j : String) (later : ℕ) → minute ≤ later
        → in_minute j later ((id, minute) ∷ h) ≤ max
    bounded n e room j later m = ground (
      arith,
      a.counted j later (omega (arith, m, le)),
      a.bound j later (omega (arith, m, le)),
      a.limit,
      eq_of_same id j,
    )

Run-Agrees :
    {max t : ℕ} {h : Passed} {r : RateLimitMiddleware} → 0 < max → Run max t h r → Agrees max t h r
Run-Agrees {max} p start = new_rate_limit-Agrees max
Run-Agrees p (check minute id run le) = check_minute-Agrees minute id p (Run-Agrees p run) le

module _ {max t : ℕ} {h : Passed} {r : RateLimitMiddleware} (some_allowed : 0 < max)
    (run : Run max t h r) where
  -- With a limit above zero, after any checks at minutes in order, at a minute not before the
  -- last of them: no more requests of a client than the limit have passed in that minute.
  pub passed-le_max : (id : String) (minute : ℕ) → t ≤ minute → in_minute id minute h ≤ max
  passed-le_max id minute le = (Run-Agrees some_allowed run).bound id minute le

  -- With a limit above zero, after any checks at minutes in order, at a minute not before the
  -- last of them: a request passes exactly if fewer requests of its client than the limit
  -- passed in that minute.
  pub check_minute-passes_iff :
      (id : String) (minute : ℕ)
      → t ≤ minute
      → ((check_minute minute id r).1 ≡ true) ↔ (in_minute id minute h < max)
  check_minute-passes_iff id minute le =
      let a = Run-Agrees some_allowed run in
      elim (check_minute-Window minute id r) [
        | full e f p ↦ (
          λ q. ground (arith, p, q),
          λ q. ground (arith, a.counted id minute le, a.limit, q, e, f),
        )
        | open_at n e room p ↦
            (λ q. ground (arith, a.counted id minute le, a.limit, e, room), λ q. ap (λ c. c.1) p)
      ]
