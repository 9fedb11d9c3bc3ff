-- ===== src/SessionManager/Tests.antt =====
-- A small token library, runs of the session manager on it, and the theorems at concrete inputs.
use Prim.Native.String.{String}
use zhtp.Base.{
  ℕ, ◌+◌, ◌-◌, ◌^◌, ◌%◌, ◌≡◌, refl, ap, ◌∙◌, some, List, [], ◌∷◌, ◌++◌, arith, if◌then◌else◌, ltb,
  nat_key, string_key,
}
use zhtp.Base.Lists.{same_refl}
use zhtp.Base.Dict.{lookup, insert, lookup-nil, lookup-insert}
use zhtp.Base.Result.{ok}
use zhtp.SessionManager.{
  Sessions, SessionManager, new_manager, tokens_of, validate_session, remove_oldest_session,
  drop_session, push_token, create_session, add_session,
}
use zhtp.SessionManager.Invariant.{IsConsistent, new_manager-IsConsistent, add_session-IsConsistent}
use zhtp.SessionManager.Oldest.{IsOldest, remove_oldest_session_lem}
use zhtp.SessionManager.Creating.{IsFresh, Created, create_session-Created}
use zhtp.SessionManager.Handlers.{
  Validated, validate_session-Validated, create, Reachable, fresh_start, call,
  Reachable-IsConsistent,
}

record Ticket : Type 0 where
  name : String
  owner : ℕ
  created : ℕ
  used : ℕ

owner_of_eq :
    {name : String} {owner created used : ℕ} {s : Ticket}
    → some (record { name = name; owner = owner; created = created; used = used }) ≡ some s
    → s.owner ≡ owner
owner_of_eq e = cc

-- A ticket is valid for a hundred seconds.
abbrev tickets : Sessions
tickets = record {
  IdentityId = ℕ;
  identity_key = nat_key;
  SessionToken = Ticket;
  Moment = ℕ;
  token = λ s. s.name;
  identity_id = λ s. s.owner;
  created_at = λ s. s.created % 1000;
  new = λ now id d. some (record {
    name = if ltb now 10 then "token-number-one-0001" else "token-number-two-0002";
    owner = id;
    created = now;
    used = now;
  });
  is_valid = λ now s. ltb now (s.created + 100);
  touch = λ now s. record s { used = now };
  identity_id-new = λ now id d e. owner_of_eq e;
  identity_id-touch = λ now s. refl;
  created_at-lt = λ s. omega arith;
}

abbrev start : SessionManager tickets
start = new_manager tickets

abbrev ticket : Ticket
ticket = record { name = "token-number-one-0001"; owner = 7; created = 1; used = 1 }

abbrev one : SessionManager tickets
one = add_session tickets 7 ticket start

one-IsConsistent : IsConsistent tickets one
unfolding new_manager
one-IsConsistent =
    add_session-IsConsistent tickets 7 ticket start (new_manager-IsConsistent tickets) refl
      (lookup-nil {V = Ticket} "token-number-one-0001")
      (ground (arith, lookup-nil {V = List String} ⦃k = nat_key⦄ 7))

start-IsFresh : IsFresh tickets 1 7 start
unfolding new_manager
start-IsFresh s e = lookup-nil {V = Ticket} s.name

create_session-Created_example :
    Created tickets 1 7 start.default_session_duration (create_session tickets 0 1 7 start)
create_session-Created_example =
    create_session-Created tickets 0 1 7 start (new_manager-IsConsistent tickets) start-IsFresh

validate_session-Validated_example :
    Validated tickets 200 "token-number-one-0001" one
      (validate_session tickets 200 "token-number-one-0001" one)
validate_session-Validated_example =
    validate_session-Validated tickets 200 "token-number-one-0001" one one-IsConsistent

one-Reachable : Reachable tickets (create_session tickets 0 1 7 start).0
one-Reachable = call fresh_start (create 0 1 7 start start-IsFresh)

Reachable-IsConsistent_example : IsConsistent tickets (create_session tickets 0 1 7 start).0
Reachable-IsConsistent_example = Reachable-IsConsistent tickets one-Reachable

one-entry : lookup 7 one.sessions_by_identity ≡ some ("token-number-one-0001" ∷ [])
unfolding add_session push_token new_manager
one-entry =
    ap (λ ts. lookup {K = ℕ} ⦃k = nat_key⦄ 7 (insert 7 (ts ++ "token-number-one-0001" ∷ []) []))
      tokens_none
    ∙ ground (
      arith,
      lookup-insert {K = ℕ} {V = List String} 7 7 ("token-number-one-0001" ∷ []) [],
      same_refl {K = ℕ} 7,
    )
  where
    tokens_none : tokens_of tickets [] 7 ≡ []
    tokens_none = ground (arith, lookup-nil {V = List String} ⦃k = nat_key⦄ 7)

remove_oldest_session_lem_example :
    (t : String) × IsOldest tickets one.sessions (2 ^ 64 - 1) ("token-number-one-0001" ∷ []) t
    × (remove_oldest_session tickets 7 one ≡ (drop_session tickets t 7 one, ok tt))
remove_oldest_session_lem_example =
    remove_oldest_session_lem tickets 7 one one-IsConsistent one-entry
