-- ===== src/SessionManager/Oldest.antt =====
-- The session that is given up when an identity is at its limit.
use Prim.Native.String.{String}
use zhtp.Base.{
  ℕ, ◌≤◌, ◌<◌, ◌-◌, ◌^◌, ◌≡◌, refl, sym, ap, subst, ◌∙◌, true, false, Option, none, some, List, [],
  ◌∷◌, arith, ltb, Key, string_key, inl, inr, ◌⊎◌, Bool-cases, Option-cases, true-ne-false,
}
use zhtp.Base.Lists.{contains, contains-nil, contains-cons}
use zhtp.Base.Dict.{Dict, lookup}
use zhtp.Base.Result.{ok}
use zhtp.SessionManager.{
  Sessions, SessionManager, drop_session, remove_session, oldest_from, remove_oldest_session,
}
use zhtp.SessionManager.Invariant.{IsConsistent, owned}

none-ne-some {ℓ} : {A : Type ℓ} {x : A} → none ≡ some x → ⊥
none-ne-some h = cc

module _ (lib : Sessions) where
  open lib use {IdentityId, SessionToken, identity_id, created_at, created_at-lt}

  instance abbrev identity_key : Key IdentityId
  identity_key = lib.identity_key

  module _ (sessions : Dict String SessionToken) where
    -- No session with a token in the list was created before `created`.
    abbrev pub NotBefore : ℕ → List String → Type 0
    NotBefore created ts =
        (u : String) (s : SessionToken)
        → contains u ts ≡ true
        → lookup u sessions ≡ some s
        → created ≤ created_at s

    -- `t` is in the list, its session was created before `limit`, and none of the list before it.
    pub record IsOldest (limit : ℕ) (ts : List String) (t : String) : Type 0 where
      pub session : SessionToken
      pub here : contains t ts ≡ true
      pub found : lookup t sessions ≡ some session
      pub early : created_at session < limit
      pub least : NotBefore (created_at session) ts

    NotBefore-cons :
        (created : ℕ) (t : String) (ts : List String)
        → ((s : SessionToken) → lookup t sessions ≡ some s → created ≤ created_at s)
        → NotBefore created ts
        → NotBefore created (t ∷ ts)
    NotBefore-cons created t ts first rest u s l e = elim (Bool-cases (contains u ts)) [
      | inl later ↦ rest u s later e
      | inr new ↦ first s (subst (λ v. lookup v sessions ≡ some s) (is_head l new) e)
    ]
      where
        is_head : contains u (t ∷ ts) ≡ true → contains u ts ≡ false → u ≡ t
        is_head p q = ground (arith, contains-cons u t ts)

    IsOldest-later :
        (limit limit' : ℕ) (t u : String) (ts : List String)
        → limit ≤ limit'
        → (o : IsOldest limit ts u)
        → ((s : SessionToken) → lookup t sessions ≡ some s → limit ≤ created_at s)
        → IsOldest limit' (t ∷ ts) u
    IsOldest-later limit limit' t u ts le o first = record {
      session = o.session;
      here = ground (arith, contains-cons u t ts, o.here);
      found = o.found;
      early = omega (arith, o.early);
      least =
          NotBefore-cons (created_at o.session) t ts (λ s e. omega (arith, first s e, o.early))
            o.least;
    }

    oldest_from-skip :
        (oldest : Option String) (created : ℕ) (t : String) (ts : List String)
        → ((s : SessionToken) → lookup t sessions ≡ some s → created ≤ created_at s)
        → oldest_from lib sessions oldest created (t ∷ ts)
          ≡ oldest_from lib sessions oldest created ts
    unfolding oldest_from
    oldest_from-skip oldest created t ts late = elim (Option-cases (lookup t sessions)) [
      | inl e ↦ rw (e, oldest_from)
      | inr (s, e) ↦ rw (e, oldest_from) (ground (arith, late s))
    ]

    oldest_from-take :
        (oldest : Option String) (created : ℕ) (t : String) (s : SessionToken) (ts : List String)
        → lookup t sessions ≡ some s
        → created_at s < created
        → oldest_from lib sessions oldest created (t ∷ ts)
          ≡ oldest_from lib sessions (some t) (created_at s) ts
    unfolding oldest_from
    oldest_from-take oldest created t s ts e lt = rw (e, oldest_from) (ground arith)

    same_age :
        (v : String) (s s' : SessionToken)
        → lookup v sessions ≡ some s
        → lookup v sessions ≡ some s'
        → created_at s ≤ created_at s'
    same_age v s s' e e' = ground arith

    first_cases :
        (v : String) (limit : ℕ)
        → ((s : SessionToken) → lookup v sessions ≡ some s → limit ≤ created_at s)
          ⊎ ((s : SessionToken) × (lookup v sessions ≡ some s) × (created_at s < limit))
    first_cases v limit = elim (Option-cases (lookup v sessions)) [
      | inl e ↦ inl (λ s e'. absurd (none-ne-some (sym e ∙ e')))
      | inr (s, e) ↦ elim (Bool-cases (ltb (created_at s) limit)) [
        | inl lt ↦ inr (s, e, ground arith)
        | inr ge ↦ inl (λ s' e'. ground (arith, same_age v s s' e e'))
      ]
    ]

    -- The loop keeps what it was given, or finds the oldest session of the list.
    pub oldest_from_cases :
        (oldest : Option String) (created : ℕ) (ts : List String)
        → (oldest_from lib sessions oldest created ts ≡ oldest) × NotBefore created ts
          ⊎ ((t : String) × (oldest_from lib sessions oldest created ts ≡ some t)
              × IsOldest created ts t)
    unfolding oldest_from
    oldest_from_cases oldest created [] =
        inl (refl, λ u s l e. absurd (true-ne-false (sym l ∙ contains-nil u)))
    oldest_from_cases oldest created (t ∷ ts) = elim (first_cases t created) [
      | inl late ↦ elim (oldest_from_cases oldest created ts) [
        | inl (e, all) ↦
            inl
              (oldest_from-skip oldest created t ts late ∙ e, NotBefore-cons created t ts late all)
        | inr (u, e, o) ↦ inr (
          u,
          oldest_from-skip oldest created t ts late ∙ e,
          IsOldest-later created created t u ts (omega arith) o late,
        )
      ]
      | inr (s, found, lt) ↦ elim (oldest_from_cases (some t) (created_at s) ts) [
        | inl (e, all) ↦ inr (
          t,
          oldest_from-take oldest created t s ts found lt ∙ e,
          record {
            session = s;
            here = ground (arith, contains-cons t t ts);
            found = found;
            early = lt;
            least = NotBefore-cons (created_at s) t ts (λ s' e'. same_age t s s' found e') all;
          },
        )
        | inr (u, e, o) ↦ inr (
          u,
          oldest_from-take oldest created t s ts found lt ∙ e,
          IsOldest-later (created_at s) created t u ts (omega arith) o
              (λ s' e'. same_age t s s' found e'),
        )
      ]
    ]

  owned-found :
      (sessions : Dict String SessionToken) (id : IdentityId) (t : String)
      → owned lib sessions id t ≡ true
      → (s : SessionToken) × (lookup t sessions ≡ some s) × (identity_id s ≡ id)
  owned-found sessions id t h = elim (Option-cases (lookup t sessions)) [
    | inl e ↦ absurd (ground arith)
    | inr (s, e) ↦ (s, e, ground arith)
  ]

  remove_session-owned :
      (t : String) (id : IdentityId) (m : SessionManager lib)
      → owned lib m.sessions id t ≡ true
      → remove_session lib t m ≡ (drop_session lib t id m, ok tt)
  unfolding remove_session
  remove_session-owned t id m h =
      let (s, found, mine) = owned-found m.sessions id t h in
      rw (found, remove_session) (ap (λ i. (drop_session lib t i m, ok tt)) mine)

  -- In a consistent manager, an identity with an entry loses the session that was created
  -- first among its own, and nothing else.
  pub remove_oldest_session_lem :
      (id : IdentityId) (m : SessionManager lib) {tokens : List String}
      → IsConsistent lib m
      → lookup id m.sessions_by_identity ≡ some tokens
      → (t : String) × IsOldest m.sessions (2 ^ 64 - 1) tokens t
        × (remove_oldest_session lib id m ≡ (drop_session lib t id m, ok tt))
  unfolding remove_oldest_session
  remove_oldest_session_lem id m {tokens} c entry =
      elim (oldest_from_cases m.sessions none (2 ^ 64 - 1) tokens) [
        | inr (t, e, o) ↦ (
          t,
          o,
          rw (entry, e, remove_oldest_session) (remove_session-owned t id m (is_owned t o.here)),
        )
        | inl (_, late) ↦ absurd (not_all_late tokens refl late)
      ]
    where
      is_owned : (t : String) → contains t tokens ≡ true → owned lib m.sessions id t ≡ true
      is_owned t h = ground (arith, c.indexed id t)

      not_all_late : (ts : List String) → ts ≡ tokens → NotBefore m.sessions (2 ^ 64 - 1) tokens → ⊥
      not_all_late [] e late = c.no_empty id (entry ∙ ap some (sym e))
      not_all_late (t ∷ ts) e late =
          let h : contains t tokens ≡ true =
            ap (contains t) (sym e) ∙ ground (arith, contains-cons t t ts) in
          let (s, found, _) = owned-found m.sessions id t (is_owned t h) in
          omega (arith, late t s h found, created_at-lt s)
