-- ===== src/SessionManager/Cleanup.antt =====
-- What a clean-up leaves in the map of sessions and collects by identity.
use Prim.Native.String.{String}
use zhtp.Base.{
  ◌≡◌, ◌∙◌, Bool, false, not, ◌&&◌, ◌||◌, none, some, List, [], ◌∷◌, arith, if◌then◌else◌, Key,
  string_key, same,
}
use zhtp.Base.Lists.{contains, contains-nil, contains-cons, Distinct}
use zhtp.Base.Dict.{
  Dict, lookup, erase, keys, lookup-nil, lookup-cons, lookup-erase, lookup-eq-none, erase-Distinct,
}
use zhtp.SessionManager.{Sessions, expired_tokens, expired_by_identity, erase_all}
use zhtp.SessionManager.Index.{grouped, grouped-push_token}

module _ (lib : Sessions) where
  open lib use {IdentityId, SessionToken, Moment, identity_id, is_valid}

  instance abbrev identity_key : Key IdentityId
  identity_key = lib.identity_key

  pub lookup-erase_all :
      (u : String) (ts : List String) (d : Dict String SessionToken)
      → lookup u (erase_all lib ts d) ≡ (if contains u ts then none else lookup u d)
  unfolding erase_all
  lookup-erase_all u [] d = ground (arith, contains-nil u)
  lookup-erase_all u (t ∷ ts) d =
      lookup-erase_all u ts (erase t d) ∙ ground (arith, lookup-erase t u d, contains-cons u t ts)

  pub erase_all-Distinct :
      (ts : List String) (d : Dict String SessionToken)
      → Distinct (keys d)
      → Distinct (keys (erase_all lib ts d))
  unfolding erase_all
  erase_all-Distinct [] d h = h
  erase_all-Distinct (t ∷ ts) d h = erase_all-Distinct ts (erase t d) (erase-Distinct t d h)

  module _ (now : Moment) where
    -- Whether `u` is the token of a session that has expired.
    abbrev pub expired : Dict String SessionToken → String → Bool
    expired d u = elim (lookup u d) [ none ↦ false | some s ↦ not (is_valid now s) ]

    -- The same, for a session of `j`.
    abbrev pub expired_of : Dict String SessionToken → IdentityId → String → Bool
    expired_of d j u = elim (lookup u d) [
      | none ↦ false
      | some s ↦ not (is_valid now s) && same (identity_id s) j
    ]

    pub contains-expired_tokens :
        (u : String) (d : Dict String SessionToken)
        → Distinct (keys d)
        → contains u (expired_tokens lib now d) ≡ expired d u
    unfolding expired_tokens
    contains-expired_tokens u [] h = ground (arith, contains-nil u, lookup-nil {V = SessionToken} u)
    contains-expired_tokens u ((t, s) ∷ d) (fresh, h) = ground (
      arith,
      lookup-cons u t s d,
      contains-cons u t (expired_tokens lib now d),
      contains-expired_tokens u d h,
      lookup-eq-none t d fresh,
    )

    pub grouped-expired :
        (j : IdentityId) (u : String) (d : Dict String SessionToken)
        (found : Dict IdentityId (List String))
        → Distinct (keys d)
        → grouped lib (expired_by_identity lib now d found) j u
          ≡ (grouped lib found j u || expired_of d j u)
    unfolding expired_by_identity
    grouped-expired j u [] found h = ground (arith, lookup-nil {V = SessionToken} u)
    grouped-expired j u ((t, s) ∷ d) found (fresh, h) =
        grouped-expired j u d _ h
        ∙ ground (
          arith,
          lookup-cons u t s d,
          lookup-eq-none t d fresh,
          grouped-push_token lib (identity_id s) j t u found,
        )
