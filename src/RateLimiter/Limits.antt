-- ===== src/RateLimiter/Limits.antt =====
-- What the rate limiter promises, by the history of the claims.
use Prim.Native.String.{String}
use zhtp.Base.{
  ℕ, ◌+◌, ◌*◌, ◌^◌, ◌%◌, ◌<◌, ◌≤◌, ◌≡◌, sym, ap, ◌∙◌, ◌↔◌, some, string_key, arith, inl, inr,
  Option-cases,
}
use zhtp.Base.Dict.{lookup}
use zhtp.Base.Result.{ok}
use zhtp.RateLimiter.{RateLimiter, second, cooldown_remaining, check_hour, can_claim, get_stats}
use zhtp.RateLimiter.History.{Claims, made, latest, Run, Run-Agrees}

module _ {cooldown_secs max t : ℕ} {h : Claims} {l : RateLimiter}
    (r : Run cooldown_secs max t h l) where
  -- After any checks and recorded claims at moments in order, at a moment not before the last
  -- of them: the statistics count the claims that were recorded in the last hour, as a `u32`.
  pub get_stats-made :
      (id : String) (now : ℕ)
      → t ≤ now
      → (get_stats now id l).claims_in_last_hour ≡ made id now h % 2 ^ 32
  unfolding get_stats
  get_stats-made id now le = ap (λ n. n % 2 ^ 32) ((Run-Agrees r).counted id now le)

  -- After any checks and recorded claims, in any order and at moments of their own that do
  -- not go back, at a moment not before the last of them: the limiter lets a processor claim
  -- exactly if fewer claims than the maximum were recorded for it in the last hour, and its
  -- last one is a cooldown or more ago.
  pub can_claim-ok_iff :
      (id : String) (now : ℕ)
      → t ≤ now
      → ((can_claim now id l).1 ≡ ok tt)
        ↔ (made id now h < max)
          × ((last : ℕ) → latest id h ≡ some last → last + cooldown_secs * second ≤ now)
  unfolding can_claim check_hour cooldown_remaining
  can_claim-ok_iff id now le =
      let a = Run-Agrees r in
      (
        λ p. (
          ground (arith, p, a.counted id now le, a.limit),
          λ last e. ground (arith, p, a.last id, e, a.pause, a.past id last e),
        ),
        λ p. elim (Option-cases (lookup id l.last_claim_time)) [
          | inl e ↦ ground (arith, e, p.0, a.counted id now le, a.limit)
          | inr (last, e) ↦
              ground (
                arith,
                e,
                p.0,
                a.counted id now le,
                a.limit,
                a.pause,
                p.1 last (sym (a.last id) ∙ e),
              )
        ],
      )
