-- ===== src/SessionManager/Creating.antt =====
-- What `create_session` promises: room is made by giving up the oldest session.
use Prim.Native.String.{String}
use zhtp.Base.{
  ℕ, ◌<◌, ◌≡◌, refl, sym, ap, subst, ◌∙◌, true, Option, none, some, List, arith, leb, Key,
  string_key, inl, inr, Bool-cases, Option-cases,
}
use mathlib.Core.Option.{some-injective}
use zhtp.Base.Lists.{length, contains, remove, remove-nil, length-remove-lt}
use zhtp.Base.Dict.{lookup, insert, lookup-insert, lookup-erase}
use zhtp.Base.Result.{Result, ok, err}
use zhtp.SessionManager.{
  Sessions, SessionManager, Error, token_failure, tokens_of, cleanup_expired_sessions, drop_session,
  make_room, add_session, issue_session, create_session,
}
use zhtp.SessionManager.Index.{tokens_of-shrink}
use zhtp.SessionManager.Invariant.{
  IsConsistent, drop_session-IsConsistent, lookup-cleanup_expired_sessions,
  cleanup_expired_sessions-IsConsistent, add_session-IsConsistent,
}
use zhtp.SessionManager.Oldest.{remove_oldest_session_lem}

module _ (lib : Sessions) where
  open lib use {
    IdentityId, SessionToken, Moment, token, identity_id, new, is_valid, touch, identity_id-new,
    identity_id-touch,
  }

  instance abbrev identity_key : Key IdentityId
  identity_key = lib.identity_key

  -- Whatever token is made for `id` at `now`, no session has it.
  abbrev pub IsFresh : Moment → IdentityId → SessionManager lib → Type 0
  IsFresh now id m =
      (s : SessionToken)
      → new now id m.default_session_duration ≡ some s
      → lookup (token s) m.sessions ≡ none

  -- What the clean-up and the limit leave for the new session.
  record HasRoom (id : IdentityId) (m m' : SessionManager lib) : Type 0 where
    consistent : IsConsistent lib m'
    room : length (tokens_of lib m'.sessions_by_identity id) < m'.max_sessions_per_identity
    fewer : (t : String) → lookup t m.sessions ≡ none → lookup t m'.sessions ≡ none
    duration : m'.default_session_duration ≡ m.default_session_duration

  drop_session-HasRoom :
      (id : IdentityId) (t : String) (m : SessionManager lib) {tokens : List String}
      → IsConsistent lib m
      → lookup id m.sessions_by_identity ≡ some tokens
      → contains t tokens ≡ true
      → HasRoom id m (drop_session lib t id m)
  unfolding drop_session
  drop_session-HasRoom id t m {tokens} c entry here = record {
    consistent =
        unfold drop_session in
        drop_session-IsConsistent lib t id m c (ground (arith, c.indexed id t));
    room = ground (
      arith,
      tokens_of-shrink lib (remove t) id id m.sessions_by_identity (remove-nil t),
      length-remove-lt t tokens,
      c.bounded id,
    );
    fewer = λ u e. ground (arith, lookup-erase t u m.sessions);
    duration = refl;
  }

  -- The limit never fails a request.
  make_room-HasRoom :
      (id : IdentityId) (m : SessionManager lib)
      → IsConsistent lib m
      → (make_room lib id m ≡ ((make_room lib id m).0, ok tt)) × HasRoom id m (make_room lib id m).0
  unfolding make_room
  make_room-HasRoom id m c = elim (Option-cases (lookup id m.sessions_by_identity)) [
    | inl e ↦
        rw (e, make_room)
          (
            refl,
            record {
              consistent = c;
              room = ground (arith, c.positive);
              fewer = λ u h. h;
              duration = refl;
            },
          )
    | inr (tokens, e) ↦ elim (Bool-cases (leb m.max_sessions_per_identity (length tokens))) [
      | inl full ↦
          let (t, o, p) = remove_oldest_session_lem lib id m c e in
          rw (e, full, p, make_room) (refl, drop_session-HasRoom id t m c e o.here)
      | inr free ↦
          rw (e, free, make_room)
            (
              refl,
              record { consistent = c; room = ground arith; fewer = λ u h. h; duration = refl },
            )
    ]
  ]

  -- What a creation returns, and what it leaves.
  pub record Created (now : Moment) (id : IdentityId) (duration : ℕ)
      (r : SessionManager lib × Result Error String) : Type 0 where
    pub consistent : IsConsistent lib r.0
    -- it succeeds exactly if a token can be made
    pub succeeds :
        (s : SessionToken)
        → new now id duration ≡ some s
        → (r.1 ≡ ok (token s))
          × (lookup (token s) r.0.sessions ≡ some s)
          × (contains (token s) (tokens_of lib r.0.sessions_by_identity id) ≡ true)
    pub fails : new now id duration ≡ none → r.1 ≡ err token_failure

  -- The result and the place of the session `s'`, after `s` was added.
  abbrev IsAdded : IdentityId → SessionToken → SessionManager lib → SessionToken → Type 0
  IsAdded id s m' s' =
      (◌≡◌ {A = Result Error String} (ok (token s)) (ok (token s')))
      × (lookup (token s') m'.sessions ≡ some s')
      × (contains (token s') (tokens_of lib m'.sessions_by_identity id) ≡ true)

  add_session-IsAdded :
      (id : IdentityId) (s : SessionToken) (m : SessionManager lib)
      → IsConsistent lib (add_session lib id s m)
      → identity_id s ≡ id
      → IsAdded id s (add_session lib id s m) s
  unfolding add_session
  add_session-IsAdded id s m c mine =
      let found : lookup (token s) (insert (token s) s m.sessions) ≡ some s =
        ground (arith, lookup-insert (token s) (token s) s m.sessions) in
      (refl, found, ground (arith, c.indexed id (token s)))

  issue_session-Created :
      (now : Moment) (id : IdentityId) (m : SessionManager lib)
      → IsConsistent lib m
      → length (tokens_of lib m.sessions_by_identity id) < m.max_sessions_per_identity
      → IsFresh now id m
      → Created now id m.default_session_duration (issue_session lib now id m)
  unfolding issue_session
  issue_session-Created now id m c room fresh =
      elim (Option-cases (new now id m.default_session_duration)) [
        | inl e ↦
            rw (e, issue_session)
              (record {
                consistent = c;
                succeeds = λ s h. absurd (none-ne-some (sym e ∙ h));
                fails = λ _. refl;
              })
        | inr (s, e) ↦ rw (e, issue_session) (added s e)
      ]
    where
      none-ne-some : {x : SessionToken} → ◌≡◌ {A = Option SessionToken} none (some x) → ⊥
      none-ne-some h = cc

      added :
          (s : SessionToken)
          → new now id m.default_session_duration ≡ some s
          → Created now id m.default_session_duration (add_session lib id s m, ok (token s))
      added s e =
          let c' =
            add_session-IsConsistent lib id s m c (identity_id-new now id _ e) (fresh s e) room in
          record {
            consistent = c';
            succeeds = λ s' h.
                subst (IsAdded id s (add_session lib id s m)) (some-injective s s' (sym e ∙ h))
                  (add_session-IsAdded id s m c' (identity_id-new now id _ e));
            fails = λ h. absurd (none-ne-some (sym h ∙ e));
          }

  -- From a consistent manager, create_session leaves a consistent one: the two maps agree,
  -- and no identity has more sessions than the limit. It fails only if no token can be made,
  -- never for the limit; if it succeeds, the new session is found under its token and listed
  -- under its identity. The token that may be made is not that of a session.
  pub create_session-Created :
      (before now : Moment) (id : IdentityId) (m : SessionManager lib)
      → IsConsistent lib m
      → IsFresh now id m
      → Created now id m.default_session_duration (create_session lib before now id m)
  unfolding create_session
  create_session-Created before now id m c fresh =
      subst (Created now id m.default_session_duration) (sym reached) (
        subst (λ d. Created now id d (issue_session lib now id m₂)) same_duration
          (issue_session-Created now id m₂ h.consistent h.room still_fresh))
    where
      m₁ : SessionManager lib
      m₁ = cleanup_expired_sessions lib before m

      m₂ : SessionManager lib
      m₂ = (make_room lib id m₁).0

      made : (make_room lib id m₁ ≡ (m₂, ok tt)) × HasRoom id m₁ m₂
      made = make_room-HasRoom id m₁ (cleanup_expired_sessions-IsConsistent lib before m c)

      h : HasRoom id m₁ m₂
      h = made.1

      same_duration : m₂.default_session_duration ≡ m.default_session_duration
      same_duration = h.duration ∙ (unfold cleanup_expired_sessions in refl)

      reached : create_session lib before now id m ≡ issue_session lib now id m₂
      reached =
          ap (λ r. elim r.1 [ ok _ ↦ issue_session lib now id r.0 | err e ↦ (r.0, err e) ]) made.0

      still_fresh : IsFresh now id m₂
      still_fresh s e = h.fewer (token s) (
          ground (
            arith,
            lookup-cleanup_expired_sessions lib before m (token s) c,
            fresh s (subst (λ d. new now id d ≡ some s) same_duration e),
          ))
