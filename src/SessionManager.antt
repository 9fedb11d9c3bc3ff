-- ===== src/SessionManager.antt =====
-- src/session_manager.rs. The session tokens of `lib_identity` are the parameter `Sessions`; a
-- value of its `Moment` is what the clock and the random source say at one call.
pub mod Index
pub mod Cleanup
pub mod Invariant
pub mod Oldest
pub mod Creating
pub mod Handlers
mod Tests
use Prim.Native.String.{String}
use zhtp.Base.{
  ℕ, ◌*◌, ◌^◌, ◌-◌, ◌<◌, ◌≡◌, Bool, true, false, Option, none, some, List, [], ◌∷◌, ◌++◌,
  if◌then◌else◌, ltb, leb, Key, string_key, same,
}
use zhtp.Base.Lists.{length, remove}
use zhtp.Base.Dict.{Dict, lookup, insert, erase}
use zhtp.Base.Result.{Result, ok, err}

-- `lib_identity::{SessionToken, IdentityId}`
pub record Sessions : Type 1 where
  pub IdentityId : Type 0
  pub identity_key : Key IdentityId
  pub SessionToken : Type 0
  pub Moment : Type 0
  pub token : SessionToken → String
  pub identity_id : SessionToken → IdentityId
  pub created_at : SessionToken → ℕ
  pub new : Moment → IdentityId → ℕ → Option SessionToken
  pub is_valid : Moment → SessionToken → Bool
  pub touch : Moment → SessionToken → SessionToken
  -- A new token is for the identity that it is made for, and a use changes neither its owner nor
  -- its age, which is a number of seconds below the largest `u64`.
  pub identity_id-new :
      (now : Moment) (id : IdentityId) (duration : ℕ) {s : SessionToken}
      → new now id duration ≡ some s
      → identity_id s ≡ id
  pub identity_id-touch :
      (now : Moment) (s : SessionToken) → identity_id (touch now s) ≡ identity_id s
  pub created_at-lt : (s : SessionToken) → created_at s < 2 ^ 64 - 1

pub data Error : Type 0 where
  token_failure session_expired invalid_session_token session_not_found : Error

module _ (lib : Sessions) where
  open lib use {
    IdentityId, SessionToken, Moment, token, identity_id, created_at, new, is_valid, touch,
  }

  instance abbrev identity : Key IdentityId
  identity = lib.identity_key

  pub record SessionManager : Type 0 where
    pub sessions : Dict String SessionToken
    pub sessions_by_identity : Dict IdentityId (List String)
    pub default_session_duration : ℕ
    pub max_sessions_per_identity : ℕ

  -- `SessionManager::new`
  pub new_manager : SessionManager
  new_manager = record {
    sessions = [];
    sessions_by_identity = [];
    default_session_duration = 24 * 60 * 60;
    max_sessions_per_identity = 5;
  }

  -- The tokens under an identity, none if it has no entry.
  abbrev pub tokens_of : Dict IdentityId (List String) → IdentityId → List String
  tokens_of index id = elim (lookup id index) [ none ↦ [] | some tokens ↦ tokens ]

  -- A list that has been filtered, or no entry if nothing is left of it.
  pub put_tokens :
      IdentityId → List String → Dict IdentityId (List String) → Dict IdentityId (List String)
  put_tokens id [] index = erase id index
  put_tokens id (t ∷ ts) index = insert id (t ∷ ts) index

  -- `if let Some(identity_sessions) = sessions_by_identity.get_mut(&identity_id)` and what follows
  pub shrink :
      (List String → List String)
      → IdentityId
      → Dict IdentityId (List String)
      → Dict IdentityId (List String)
  shrink filter id index = elim (lookup id index) [
    | none ↦ index
    | some tokens ↦ put_tokens id (filter tokens) index
  ]

  -- The tokens of the sessions that have expired, in the order of iteration.
  pub expired_tokens : Moment → Dict String SessionToken → List String
  expired_tokens now [] = []
  expired_tokens now ((t, s) ∷ sessions) =
      if is_valid now s then expired_tokens now sessions else t ∷ expired_tokens now sessions

  -- `entry(id).or_insert_with(Vec::new).push(token)`
  pub push_token :
      IdentityId → String → Dict IdentityId (List String) → Dict IdentityId (List String)
  push_token id t index = insert id (tokens_of index id ++ t ∷ []) index

  -- The map `identity_cleanup`, built on what was collected before.
  pub expired_by_identity :
      Moment
      → Dict String SessionToken
      → Dict IdentityId (List String)
      → Dict IdentityId (List String)
  expired_by_identity now [] found = found
  expired_by_identity now ((t, s) ∷ sessions) found =
      expired_by_identity now sessions
        (if is_valid now s then found else push_token (identity_id s) t found)

  pub remove_all : List String → List String → List String
  remove_all [] tokens = tokens
  remove_all (t ∷ ts) tokens = remove_all ts (remove t tokens)

  pub erase_all : List String → Dict String SessionToken → Dict String SessionToken
  erase_all [] sessions = sessions
  erase_all (t ∷ ts) sessions = erase_all ts (erase t sessions)

  -- the loop over `identity_cleanup`
  pub prune :
      Dict IdentityId (List String) → Dict IdentityId (List String) → Dict IdentityId (List String)
  prune [] index = index
  prune ((id, expired) ∷ found) index = prune found (shrink (remove_all expired) id index)

  pub cleanup_expired_sessions : Moment → SessionManager → SessionManager
  cleanup_expired_sessions now m = record m {
    sessions = erase_all (expired_tokens now m.sessions) m.sessions;
    sessions_by_identity = prune (expired_by_identity now m.sessions []) m.sessions_by_identity;
  }

  -- What `validate_session` and `remove_session` do to both maps.
  pub drop_session : String → IdentityId → SessionManager → SessionManager
  drop_session t id m = record m {
    sessions = erase t m.sessions;
    sessions_by_identity = shrink (remove t) id m.sessions_by_identity;
  }

  pub remove_session : String → SessionManager → SessionManager × Result Error (Unit {0})
  remove_session t m = elim (lookup t m.sessions) [
    | none ↦ (m, err session_not_found)
    | some s ↦ (drop_session t (identity_id s) m, ok tt)
  ]

  pub validate_session :
      Moment → String → SessionManager → SessionManager × Result Error SessionToken
  validate_session now t m = elim (lookup t m.sessions) [
    | none ↦ (m, err invalid_session_token)
    | some s ↦
        if is_valid now s
        then (record m { sessions = insert t (touch now s) m.sessions }, ok (touch now s))
        else (drop_session t (identity_id s) m, err session_expired)
  ]

  pub remove_all_sessions : IdentityId → SessionManager → SessionManager × Result Error ℕ
  remove_all_sessions id m = elim (lookup id m.sessions_by_identity) [
    | none ↦ (m, ok 0)
    | some tokens ↦ (
      record m {
        sessions = erase_all tokens m.sessions;
        sessions_by_identity = erase id m.sessions_by_identity;
      },
      ok (length tokens),
    )
  ]

  pub get_session_count : IdentityId → SessionManager → ℕ
  get_session_count id m = length (tokens_of m.sessions_by_identity id)

  -- the `filter_map`
  pub present : Dict String SessionToken → List String → List SessionToken
  present sessions [] = []
  present sessions (t ∷ ts) = elim (lookup t sessions) [
    | none ↦ present sessions ts
    | some s ↦ s ∷ present sessions ts
  ]

  pub get_identity_sessions : IdentityId → SessionManager → List SessionToken
  get_identity_sessions id m = present m.sessions (tokens_of m.sessions_by_identity id)

  pub get_total_session_count : SessionManager → ℕ
  get_total_session_count m = length m.sessions

  -- The loop of `remove_oldest_session` over (`oldest_token`, `oldest_created`).
  pub oldest_from : Dict String SessionToken → Option String → ℕ → List String → Option String
  oldest_from sessions oldest created [] = oldest
  oldest_from sessions oldest created (t ∷ ts) =
      let skip = oldest_from sessions oldest created ts in
      elim (lookup t sessions) [
        | none ↦ skip
        | some s ↦
            let take = oldest_from sessions (some t) (created_at s) ts in
            if ltb (created_at s) created then take else skip
      ]

  pub remove_oldest_session : IdentityId → SessionManager → SessionManager × Result Error (Unit {0})
  remove_oldest_session id m = elim (lookup id m.sessions_by_identity) [
    | none ↦ (m, ok tt)
    | some tokens ↦ elim (oldest_from m.sessions none (2 ^ 64 - 1) tokens) [
      | none ↦ (m, ok tt)
      | some t ↦ remove_session t m
    ]
  ]

  -- The check of the limit in `create_session`.
  pub make_room : IdentityId → SessionManager → SessionManager × Result Error (Unit {0})
  make_room id m = elim (lookup id m.sessions_by_identity) [
    | none ↦ (m, ok tt)
    | some tokens ↦
        if leb m.max_sessions_per_identity (length tokens)
        then remove_oldest_session id m
        else (m, ok tt)
  ]

  pub add_session : IdentityId → SessionToken → SessionManager → SessionManager
  add_session id s m = record m {
    sessions = insert (token s) s m.sessions;
    sessions_by_identity = push_token id (token s) m.sessions_by_identity;
  }

  -- The rest of `create_session`, behind the clean-up and the limit.
  pub issue_session : Moment → IdentityId → SessionManager → SessionManager × Result Error String
  issue_session now id m = elim (new now id m.default_session_duration) [
    | none ↦ (m, err token_failure)
    | some s ↦ (add_session id s m, ok (token s))
  ]

  -- The clean-up reads the clock at `before`, and the token is made at `now`.
  pub create_session :
      Moment → Moment → IdentityId → SessionManager → SessionManager × Result Error String
  create_session before now id m =
      let (m', room) = make_room id (cleanup_expired_sessions before m) in
      elim room [ ok _ ↦ issue_session now id m' | err e ↦ (m', err e) ]
