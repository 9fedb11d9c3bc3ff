-- ===== src/SessionManager/Index.antt =====
-- The map from identities to tokens, seen through the tokens under each identity.
use Prim.Native.String.{String}
use zhtp.Base.{
  ◌≤◌, ◌≡◌, refl, ap, ◌∙◌, ◌≢◌, Bool, false, not, ◌&&◌, ◌||◌, some, List, [], ◌∷◌, ◌++◌, arith, inl,
  inr, if◌then◌else◌, Key, string_key, same, Option-cases,
}
use zhtp.Base.Lists.{
  length, length-remove-le, contains, remove, contains-nil, contains-cons, contains-remove,
  contains-concat, remove-nil,
}
use zhtp.Base.Dict.{
  Dict, lookup, lookup-nil, lookup-cons, lookup-insert, lookup-erase, insert-nil, insert-cons,
}
use zhtp.SessionManager.{Sessions, tokens_of, put_tokens, shrink, push_token, remove_all, prune}

module _ (lib : Sessions) where
  instance abbrev identity_key : Key lib.IdentityId
  identity_key = lib.identity_key

  abbrev Index : Type 0
  Index = Dict lib.IdentityId (List String)

  -- No identity has an empty list of tokens.
  abbrev pub NoEmpty : Index → Type 0
  NoEmpty index = (id : lib.IdentityId) → lookup id index ≢ some []

  pub tokens_of-put_tokens :
      (id j : lib.IdentityId) (ts : List String) (index : Index)
      → tokens_of lib (put_tokens lib id ts index) j
        ≡ (if same id j then ts else tokens_of lib index j)
  unfolding put_tokens
  tokens_of-put_tokens id j [] index = ground (arith, lookup-erase id j index)
  tokens_of-put_tokens id j (t ∷ ts) index = ground (arith, lookup-insert id j (t ∷ ts) index)

  put_tokens-NoEmpty :
      (id : lib.IdentityId) (ts : List String) (index : Index)
      → NoEmpty index
      → NoEmpty (put_tokens lib id ts index)
  unfolding put_tokens
  put_tokens-NoEmpty id [] index h j e = ground (arith, lookup-erase id j index, h j)
  put_tokens-NoEmpty id (t ∷ ts) index h j e =
      ground (arith, lookup-insert id j (t ∷ ts) index, h j)

  pub tokens_of-shrink :
      (f : List String → List String) (id j : lib.IdentityId) (index : Index)
      → f [] ≡ []
      → tokens_of lib (shrink lib f id index) j
        ≡ (if same id j then f (tokens_of lib index j) else tokens_of lib index j)
  unfolding shrink
  tokens_of-shrink f id j index h = elim (Option-cases (lookup id index)) [
    | inl e ↦ rw (e, shrink) (ground arith)
    | inr (ts, e) ↦ rw (e, shrink) (ground (arith, tokens_of-put_tokens id j (f ts) index))
  ]

  pub shrink-NoEmpty :
      (f : List String → List String) (id : lib.IdentityId) (index : Index)
      → NoEmpty index
      → NoEmpty (shrink lib f id index)
  unfolding shrink
  shrink-NoEmpty f id index h = elim (Option-cases (lookup id index)) [
    | inl e ↦ rw (e, shrink) h
    | inr (ts, e) ↦ rw (e, shrink) (put_tokens-NoEmpty id (f ts) index h)
  ]

  pub tokens_of-push_token :
      (id j : lib.IdentityId) (t : String) (index : Index)
      → tokens_of lib (push_token lib id t index) j
        ≡ (if same id j then tokens_of lib index j ++ t ∷ [] else tokens_of lib index j)
  unfolding push_token
  tokens_of-push_token id j t index =
      ground (arith, lookup-insert id j (tokens_of lib index id ++ t ∷ []) index)

  pub push_token-NoEmpty :
      (id : lib.IdentityId) (t : String) (index : Index)
      → NoEmpty index
      → NoEmpty (push_token lib id t index)
  unfolding push_token
  push_token-NoEmpty id t index h j e = ground (
    arith,
    lookup-insert id j (tokens_of lib index id ++ t ∷ []) index,
    h j,
    concat-ne-nil (tokens_of lib index id) t,
  )
    where
      concat-ne-nil : (ts : List String) (t : String) → ts ++ t ∷ [] ≢ []
      concat-ne-nil [] t h = cc
      concat-ne-nil (x ∷ ts) t h = cc

  pub contains-remove_all :
      (t : String) (ts tokens : List String)
      → contains t (remove_all lib ts tokens) ≡ (contains t tokens && not (contains t ts))
  unfolding remove_all
  contains-remove_all t [] tokens = ground (arith, contains-nil t)
  contains-remove_all t (u ∷ ts) tokens =
      contains-remove_all t ts (remove u tokens)
      ∙ ground (arith, contains-remove t u tokens, contains-cons t u ts)

  pub remove_all-nil : (ts : List String) → remove_all lib ts [] ≡ []
  unfolding remove_all
  remove_all-nil [] = refl
  remove_all-nil (t ∷ ts) = ap (remove_all lib ts) (remove-nil t) ∙ remove_all-nil ts

  -- Some entry of `found` for `j` has `t`.
  pub grouped : Index → lib.IdentityId → String → Bool
  grouped [] j t = false
  grouped ((id, ts) ∷ found) j t = (same id j && contains t ts) || grouped found j t

  pub grouped-nil : (j : lib.IdentityId) (t : String) → grouped [] j t ≡ false
  unfolding grouped
  grouped-nil j t = refl

  pub contains-prune :
      (found index : Index) (j : lib.IdentityId) (t : String)
      → contains t (tokens_of lib (prune lib found index) j)
        ≡ (contains t (tokens_of lib index j) && not (grouped found j t))
  unfolding prune grouped
  contains-prune [] index j t = ground arith
  contains-prune ((id, ts) ∷ found) index j t =
      contains-prune found (shrink lib (remove_all lib ts) id index) j t
      ∙ ground (
        arith,
        tokens_of-shrink (remove_all lib ts) id j index (remove_all-nil ts),
        contains-remove_all t ts (tokens_of lib index j),
      )

  pub prune-NoEmpty : (found index : Index) → NoEmpty index → NoEmpty (prune lib found index)
  unfolding prune
  prune-NoEmpty [] index h = h
  prune-NoEmpty ((id, ts) ∷ found) index h =
      prune-NoEmpty found _ (shrink-NoEmpty (remove_all lib ts) id index h)

  push_token-nil : (id : lib.IdentityId) (t : String) → push_token lib id t [] ≡ (id, t ∷ []) ∷ []
  unfolding push_token
  push_token-nil id t = ground (arith, lookup-nil {V = List String} id, insert-nil id (t ∷ []))

  push_token-cons :
      (id i : lib.IdentityId) (t : String) (ts : List String) (found : Index)
      → push_token lib id t ((i, ts) ∷ found)
        ≡ (if same i id then (id, ts ++ t ∷ []) ∷ found else (i, ts) ∷ push_token lib id t found)
  unfolding push_token
  push_token-cons id i t ts found = elim (identity_key.dec i id) [
    | yes p ↦ ground (arith, lookup-cons id i ts found, insert-cons id i (ts ++ t ∷ []) ts found)
    | no p ↦ ground (
      arith,
      lookup-cons id i ts found,
      insert-cons id i (tokens_of lib found id ++ t ∷ []) ts found,
    )
  ]

  pub grouped-push_token :
      (id j : lib.IdentityId) (t u : String) (found : Index)
      → grouped (push_token lib id t found) j u ≡ (grouped found j u || (same id j && same u t))
  unfolding grouped
  grouped-push_token id j t u [] =
      ap (λ g. grouped g j u) (push_token-nil id t)
      ∙ ground (arith, contains-cons u t [], contains-nil u)
  grouped-push_token id j t u ((i, ts) ∷ found) =
      ap (λ g. grouped g j u) (push_token-cons id i t ts found)
      ∙ ground (arith, contains-concat u t ts, grouped-push_token id j t u found)

  length-remove_all-le :
      (ts tokens : List String) → length (remove_all lib ts tokens) ≤ length tokens
  unfolding remove_all
  length-remove_all-le [] tokens = omega arith
  length-remove_all-le (t ∷ ts) tokens =
      omega (arith, length-remove_all-le ts (remove t tokens), length-remove-le t tokens)

  pub length-prune-le :
      (found index : Index) (j : lib.IdentityId)
      → length (tokens_of lib (prune lib found index) j) ≤ length (tokens_of lib index j)
  unfolding prune
  length-prune-le [] index j = omega arith
  length-prune-le ((id, ts) ∷ found) index j = ground (
    arith,
    length-prune-le found (shrink lib (remove_all lib ts) id index) j,
    tokens_of-shrink (remove_all lib ts) id j index (remove_all-nil ts),
    length-remove_all-le ts (tokens_of lib index j),
  )
