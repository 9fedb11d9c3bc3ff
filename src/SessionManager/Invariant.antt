-- ===== src/SessionManager/Invariant.antt =====
-- The two maps of the session manager agree, and no identity has more sessions than allowed.
use Prim.Native.String.{String}
use zhtp.Base.{
  ◌≤◌, ◌<◌, ◌≡◌, Bool, true, false, none, some, List, [], ◌∷◌, arith, if◌then◌else◌, Key,
  string_key, same,
}
use zhtp.Base.Lists.{
  length, length-append, contains, remove, contains-nil, contains-remove, contains-concat, Distinct,
  remove-nil, length-remove-le,
}
use zhtp.Base.Dict.{
  Dict, lookup, insert, erase, keys, lookup-nil, lookup-insert, lookup-erase, insert-Distinct,
  erase-Distinct,
}
use zhtp.SessionManager.{
  Sessions, SessionManager, new_manager, tokens_of, expired_tokens, expired_by_identity, erase_all,
  cleanup_expired_sessions, drop_session, add_session,
}
use zhtp.SessionManager.Index.{
  NoEmpty, tokens_of-shrink, shrink-NoEmpty, tokens_of-push_token, push_token-NoEmpty,
  contains-prune, prune-NoEmpty, length-prune-le, grouped-nil,
}
use zhtp.SessionManager.Cleanup.{
  lookup-erase_all, erase_all-Distinct, contains-expired_tokens, grouped-expired,
}

module _ (lib : Sessions) where
  open lib use {IdentityId, SessionToken, Moment, token, identity_id, is_valid}

  instance abbrev identity_key : Key IdentityId
  identity_key = lib.identity_key

  -- Whether `t` is the token of a session of `id`.
  abbrev pub owned : Dict String SessionToken → IdentityId → String → Bool
  owned sessions id t = elim (lookup t sessions) [ none ↦ false | some s ↦ same (identity_id s) id ]

  pub record IsConsistent (m : SessionManager lib) : Type 0 where
    -- the keys of the map of sessions, as of any map
    pub distinct : Distinct (keys m.sessions)
    -- an identity's list has exactly the tokens of its sessions
    pub indexed :
        (id : IdentityId) (t : String)
        → contains t (tokens_of lib m.sessions_by_identity id) ≡ owned m.sessions id t
    pub no_empty : NoEmpty lib m.sessions_by_identity
    pub positive : 0 < m.max_sessions_per_identity
    pub bounded :
        (id : IdentityId)
        → length (tokens_of lib m.sessions_by_identity id) ≤ m.max_sessions_per_identity

  pub new_manager-IsConsistent : IsConsistent (new_manager lib)
  unfolding new_manager
  new_manager-IsConsistent = record {
    distinct = tt;
    indexed = λ id t.
        ground
          (arith, lookup-nil {V = List String} id, lookup-nil {V = SessionToken} t, contains-nil t);
    no_empty = λ id e. ground (arith, lookup-nil {V = List String} id);
    positive = omega arith;
    bounded = λ id. ground (arith, lookup-nil {V = List String} id);
  }

  pub drop_session-IsConsistent :
      (t : String) (id : IdentityId) (m : SessionManager lib)
      → IsConsistent m
      → owned m.sessions id t ≡ true
      → IsConsistent (drop_session lib t id m)
  unfolding drop_session
  drop_session-IsConsistent t id m c o = record {
    distinct = erase-Distinct t m.sessions c.distinct;
    indexed = λ j u. ground (
      arith,
      tokens_of-shrink lib (remove t) id j m.sessions_by_identity (remove-nil t),
      contains-remove u t (tokens_of lib m.sessions_by_identity j),
      lookup-erase t u m.sessions,
      c.indexed j u,
    );
    no_empty = shrink-NoEmpty lib (remove t) id m.sessions_by_identity c.no_empty;
    positive = c.positive;
    bounded = λ j. ground (
      arith,
      tokens_of-shrink lib (remove t) id j m.sessions_by_identity (remove-nil t),
      length-remove-le t (tokens_of lib m.sessions_by_identity j),
      c.bounded j,
    );
  }

  -- From a consistent manager, the clean-up removes exactly the sessions that have expired.
  pub lookup-cleanup_expired_sessions :
      (now : Moment) (m : SessionManager lib) (u : String)
      → IsConsistent m
      → lookup u (cleanup_expired_sessions lib now m).sessions ≡ (elim (lookup u m.sessions) [
        | none ↦ none
        | some s ↦ if is_valid now s then some s else none
      ])
  unfolding cleanup_expired_sessions
  lookup-cleanup_expired_sessions now m u c = ground (
    arith,
    lookup-erase_all lib u (expired_tokens lib now m.sessions) m.sessions,
    contains-expired_tokens lib now u m.sessions c.distinct,
  )

  pub cleanup_expired_sessions-IsConsistent :
      (now : Moment) (m : SessionManager lib)
      → IsConsistent m
      → IsConsistent (cleanup_expired_sessions lib now m)
  unfolding cleanup_expired_sessions
  cleanup_expired_sessions-IsConsistent now m c =
      let found = expired_by_identity lib now m.sessions [] in
      record {
        distinct = erase_all-Distinct lib (expired_tokens lib now m.sessions) m.sessions c.distinct;
        indexed = λ j u. ground (
          arith,
          contains-prune lib found m.sessions_by_identity j u,
          grouped-expired lib now j u m.sessions [] c.distinct,
          grouped-nil lib j u,
          lookup-erase_all lib u (expired_tokens lib now m.sessions) m.sessions,
          contains-expired_tokens lib now u m.sessions c.distinct,
          c.indexed j u,
        );
        no_empty = prune-NoEmpty lib found m.sessions_by_identity c.no_empty;
        positive = c.positive;
        bounded =
            λ j. omega (arith, length-prune-le lib found m.sessions_by_identity j, c.bounded j);
      }

  pub add_session-IsConsistent :
      (id : IdentityId) (s : SessionToken) (m : SessionManager lib)
      → IsConsistent m
      → identity_id s ≡ id
      → lookup (token s) m.sessions ≡ none
      → length (tokens_of lib m.sessions_by_identity id) < m.max_sessions_per_identity
      → IsConsistent (add_session lib id s m)
  unfolding add_session
  add_session-IsConsistent id s m c mine fresh room =
      let t = token s in
      let tokens = tokens_of lib m.sessions_by_identity id in
      record {
        distinct = insert-Distinct t s m.sessions c.distinct;
        indexed = λ j u. ground (
          arith,
          tokens_of-push_token lib id j t m.sessions_by_identity,
          contains-concat u t (tokens_of lib m.sessions_by_identity j),
          lookup-insert t u s m.sessions,
          c.indexed j u,
        );
        no_empty = push_token-NoEmpty lib id t m.sessions_by_identity c.no_empty;
        positive = c.positive;
        bounded = λ j. ground (
          arith,
          tokens_of-push_token lib id j t m.sessions_by_identity,
          length-append tokens (t ∷ []),
          c.bounded j,
        );
      }

  -- A session may be written anew if its owner stays the same.
  pub insert-IsConsistent :
      (t : String) (s s' : SessionToken) (m : SessionManager lib)
      → IsConsistent m
      → lookup t m.sessions ≡ some s
      → identity_id s' ≡ identity_id s
      → IsConsistent (record m { sessions = insert t s' m.sessions })
  insert-IsConsistent t s s' m c here mine = record {
    distinct = insert-Distinct t s' m.sessions c.distinct;
    indexed = λ j u. ground (arith, lookup-insert t u s' m.sessions, c.indexed j u);
    no_empty = c.no_empty;
    positive = c.positive;
    bounded = c.bounded;
  }

  pub erase_identity-IsConsistent :
      (id : IdentityId) (m : SessionManager lib)
      → IsConsistent m
      → let tokens = tokens_of lib m.sessions_by_identity id in
        IsConsistent (record m {
          sessions = erase_all lib tokens m.sessions;
          sessions_by_identity = erase id m.sessions_by_identity;
        })
  erase_identity-IsConsistent id m c =
      let tokens = tokens_of lib m.sessions_by_identity id in
      record {
        distinct = erase_all-Distinct lib tokens m.sessions c.distinct;
        indexed = λ j u. ground (
          arith,
          lookup-erase id j m.sessions_by_identity,
          contains-nil u,
          lookup-erase_all lib u tokens m.sessions,
          c.indexed j u,
          c.indexed id u,
        );
        no_empty = λ j e. ground (arith, lookup-erase id j m.sessions_by_identity, c.no_empty j);
        positive = c.positive;
        bounded = λ j. ground (arith, lookup-erase id j m.sessions_by_identity, c.bounded j);
      }
