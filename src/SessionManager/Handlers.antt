-- ===== src/SessionManager/Handlers.antt =====
-- What the other operations of the session manager promise, and what holds after any calls.
use Prim.Native.String.{String}
use zhtp.Base.{
  ◌≡◌, refl, ap, subst, ◌≢◌, true, false, none, some, [], arith, if◌then◌else◌, Key, string_key,
  same, inl, inr, ◌⊎◌, Bool-cases, Option-cases,
}
use zhtp.Base.Lists.{length, contains-nil}
use zhtp.Base.Dict.{lookup, erase, lookup-insert, lookup-erase}
use zhtp.Base.Result.{Result, ok, err}
use zhtp.SessionManager.{
  Sessions, SessionManager, Error, session_expired, invalid_session_token, session_not_found,
  new_manager, tokens_of, erase_all, cleanup_expired_sessions, drop_session, remove_session,
  validate_session, remove_all_sessions, create_session,
}
use zhtp.SessionManager.Cleanup.{lookup-erase_all}
use zhtp.SessionManager.Invariant.{
  IsConsistent, owned, new_manager-IsConsistent, drop_session-IsConsistent,
  cleanup_expired_sessions-IsConsistent, insert-IsConsistent, erase_identity-IsConsistent,
}
use zhtp.SessionManager.Creating.{IsFresh, create_session-Created}

module _ (lib : Sessions) where
  open lib use {
    IdentityId, SessionToken, Moment, token, identity_id, new, is_valid, touch, identity_id-new,
    identity_id-touch,
  }

  instance abbrev identity_key : Key IdentityId
  identity_key = lib.identity_key

  -- In a consistent manager, remove_session on the token of a session removes that session
  -- from both maps, and no other; on any other token it fails and changes nothing.
  pub remove_session_lem :
      (t : String) (m : SessionManager lib)
      → IsConsistent lib m
      → let r = remove_session lib t m in
        IsConsistent lib r.0
        × ((u : String) → lookup u r.0.sessions ≡ (if same t u then none else lookup u m.sessions))
        × ((r.1 ≡ ok tt)
            ⊎ ((r.1 ≡ err session_not_found) × (lookup t m.sessions ≡ none) × (r.0 ≡ m)))
  unfolding remove_session drop_session
  remove_session_lem t m c = elim (Option-cases (lookup t m.sessions)) [
    | inl e ↦ rw (e, remove_session) (c, λ u. ground arith, inr (refl, refl, refl))
    | inr (s, e) ↦
        rw (e, remove_session)
          (
            drop_session-IsConsistent lib t (identity_id s) m c (ground arith),
            λ u. lookup-erase t u m.sessions,
            inl refl,
          )
  ]

  -- The outcomes of `validate_session`.
  pub record Validated (now : Moment) (t : String) (m : SessionManager lib)
      (r : SessionManager lib × Result Error SessionToken) : Type 0 where
    pub consistent : IsConsistent lib r.0
    pub others : (u : String) → u ≢ t → lookup u r.0.sessions ≡ lookup u m.sessions
    pub unknown : lookup t m.sessions ≡ none → (r.1 ≡ err invalid_session_token) × (r.0 ≡ m)
    pub live :
        (s : SessionToken)
        → lookup t m.sessions ≡ some s
        → is_valid now s ≡ true
        → (r.1 ≡ ok (touch now s)) × (lookup t r.0.sessions ≡ some (touch now s))
    pub expired :
        (s : SessionToken)
        → lookup t m.sessions ≡ some s
        → is_valid now s ≡ false
        → (r.1 ≡ err session_expired) × (lookup t r.0.sessions ≡ none)

  -- From a consistent manager, validate_session accepts exactly the tokens of sessions that
  -- are valid at that moment, and notes the use; an expired session is removed from both
  -- maps. Other sessions stay as they are, and the two maps go on agreeing.
  pub validate_session-Validated :
      (now : Moment) (t : String) (m : SessionManager lib)
      → IsConsistent lib m
      → Validated now t m (validate_session lib now t m)
  unfolding validate_session drop_session
  validate_session-Validated now t m c = elim (Option-cases (lookup t m.sessions)) [
    | inl e ↦
        rw (e, validate_session)
          (record {
            consistent = c;
            others = λ u n. refl;
            unknown = λ _. (refl, refl);
            live = λ s' e' v. absurd (ground arith);
            expired = λ s' e' v. absurd (ground arith);
          })
    | inr (s, e) ↦ elim (Bool-cases (is_valid now s)) [
      | inl valid ↦
          rw (e, valid, validate_session)
            (record {
              consistent =
                  insert-IsConsistent lib t s (touch now s) m c e (identity_id-touch now s);
              others = λ u n. ground (arith, lookup-insert t u (touch now s) m.sessions);
              unknown = λ e'. absurd (ground arith);
              live = λ s' e' v. ground (arith, lookup-insert t t (touch now s) m.sessions);
              expired = λ s' e' v. absurd (ground arith);
            })
      | inr old ↦
          rw (e, old, validate_session)
            (record {
              consistent = drop_session-IsConsistent lib t (identity_id s) m c (ground arith);
              others = λ u n. ground (arith, lookup-erase t u m.sessions);
              unknown = λ e'. absurd (ground arith);
              live = λ s' e' v. absurd (ground arith);
              expired = λ s' e' v. ground (arith, lookup-erase t t m.sessions);
            })
    ]
  ]

  -- From a consistent manager, remove_all_sessions removes the sessions of the identity, and
  -- no other, and returns how many tokens were listed for it.
  pub remove_all_sessions_lem :
      (id : IdentityId) (m : SessionManager lib)
      → IsConsistent lib m
      → let r = remove_all_sessions lib id m in
        IsConsistent lib r.0
        × (r.1 ≡ ok (length (tokens_of lib m.sessions_by_identity id)))
        × ((u : String)
            → lookup u r.0.sessions
              ≡ (if owned lib m.sessions id u then none else lookup u m.sessions))
  unfolding remove_all_sessions
  remove_all_sessions_lem id m c = elim (Option-cases (lookup id m.sessions_by_identity)) [
    | inl e ↦
        rw (e, remove_all_sessions)
          (c, ground arith, λ u. ground (arith, c.indexed id u, contains-nil u))
    | inr (tokens, e) ↦
        rw (e, remove_all_sessions)
          (
            subst
                (λ ts. IsConsistent lib (record m {
                  sessions = erase_all lib ts m.sessions;
                  sessions_by_identity = erase id m.sessions_by_identity;
                }))
                (ap (λ o. elim o [ none ↦ [] | some ts ↦ ts ]) e)
                (erase_identity-IsConsistent lib id m c),
            ground arith,
            λ u. ground (arith, c.indexed id u, lookup-erase_all lib u tokens m.sessions),
          )
  ]

  -- One call of the manager. The clock and the random source choose the moments; a new token is
  -- not that of a session.
  pub data Call : SessionManager lib → SessionManager lib → Type 0 where
    create :
        (before now : Moment) (id : IdentityId) (m : SessionManager lib)
        → IsFresh lib now id m
        → Call m (create_session lib before now id m).0
    validate :
        (now : Moment) (t : String) (m : SessionManager lib)
        → Call m (validate_session lib now t m).0
    remove_one : (t : String) (m : SessionManager lib) → Call m (remove_session lib t m).0
    remove_identity :
        (id : IdentityId) (m : SessionManager lib) → Call m (remove_all_sessions lib id m).0
    clean : (now : Moment) (m : SessionManager lib) → Call m (cleanup_expired_sessions lib now m)

  pub data Reachable : SessionManager lib → Type 0 where
    fresh_start : Reachable (new_manager lib)
    call : {m m' : SessionManager lib} → Reachable m → Call m m' → Reachable m'

  Call-IsConsistent :
      {m m' : SessionManager lib} → Call m m' → IsConsistent lib m → IsConsistent lib m'
  Call-IsConsistent (create before now id m fresh) c =
      (create_session-Created lib before now id m c fresh).consistent
  Call-IsConsistent (validate now t m) c = (validate_session-Validated now t m c).consistent
  Call-IsConsistent (remove_one t m) c = (remove_session_lem t m c).0
  Call-IsConsistent (remove_identity id m) c = (remove_all_sessions_lem id m c).0
  Call-IsConsistent (clean now m) c = cleanup_expired_sessions-IsConsistent lib now m c

  -- Whatever calls are made on a new session manager, one after the other, as long as no new
  -- token is that of a session: the list of each identity has exactly the tokens of its
  -- sessions, no list is empty, and none is longer than the limit.
  pub Reachable-IsConsistent : {m : SessionManager lib} → Reachable m → IsConsistent lib m
  Reachable-IsConsistent fresh_start = new_manager-IsConsistent lib
  Reachable-IsConsistent (call r c) = Call-IsConsistent c (Reachable-IsConsistent r)
