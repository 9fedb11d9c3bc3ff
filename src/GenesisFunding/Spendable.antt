-- ===== src/GenesisFunding/Spendable.antt =====
-- The unspent outputs that `create_genesis_funding` of src/runtime/services/genesis_funding.rs leaves.
use zhtp.Base.{
  ℕ, zero, suc, ◌+◌, ◌<◌, ◌≤◌, ◌≡◌, refl, sym, ◌∙◌, ap, Option, none, some, List, [], ◌∷◌, ◌++◌,
  arith, Bool-cases, inl, inr, same,
}
use zhtp.Base.Lists.{List-cases, length, same_refl, eq_of_same}
use zhtp.Base.Dict.{Dict, lookup, insert, lookup-insert}
use zhtp.GenesisFunding.{
  Chain, IdentityData, Library, Output, ValidatorInfo, Validators, add_utxos,
  create_genesis_funding, done, finish_genesis, fund, fund_wallet, genesis_funding,
  register_user_identity, register_validators, register_wallet, stake_overflows, system_outputs,
  Outcome, validator_info, validator_outputs, wallet_output,
}
use zhtp.GenesisFunding.Outcomes.{
  Funded, create-goes_on, fund_wallet-Funded, goes_on, no_key, short_key,
}

-- The entry of a list at an index.
unfoldable pub get_elem? : {A : Type 0} → List A → ℕ → Option A
get_elem? [] i = none
get_elem? (x ∷ xs) zero = some x
get_elem? (x ∷ xs) (suc i) = get_elem? xs i

module _ (lib : Library) where
  abbrev at : ℕ → lib.Hash
  at i = lib.blake3_hash (genesis_funding i)

  -- The outputs of the genesis transaction.
  unfoldable pub genesis_outputs :
      Validators lib → Option lib.IdentityId → Option lib.IdentityId → List (Output lib)
  genesis_outputs vs (some wallet) (some user) =
      (validator_outputs lib 0 vs ++ system_outputs lib) ++ wallet_output lib wallet user ∷ []
  genesis_outputs vs _ _ = validator_outputs lib 0 vs ++ system_outputs lib

  apart : (m n : ℕ) → m < n → n ≡ m → ⊥
  apart m n l e = omega (arith, l, e)

  -- The hashes of the numbers below `total` differ.
  abbrev pub AreApart : ℕ → Type 0
  AreApart total = (m n : ℕ) → m < total → n < total → at m ≡ at n → m ≡ n

  module _ (total : ℕ) (injective : AreApart total) where
    add_utxos-before :
        (os : List (Output lib)) (m n : ℕ) (d : Dict lib.Hash (Output lib))
        → m < n
        → n + length os ≤ total
        → lookup ⦃k = lib.hash_key⦄ (at m) (add_utxos lib n os d)
          ≡ lookup ⦃k = lib.hash_key⦄ (at m) d
    unfolding add_utxos
    add_utxos-before [] m n d l fits = refl
    add_utxos-before (o ∷ os) m n d l fits =
        let d' = insert ⦃k = lib.hash_key⦄ (at n) o d in
        add_utxos-before os m (suc n) d' (omega (arith, l)) (ground (arith, fits))
        ∙ lookup-insert ⦃k = lib.hash_key⦄ (at n) (at m) o d
        ∙ elim (Bool-cases (same ⦃k = lib.hash_key⦄ (at n) (at m))) [
          | inl e ↦ absurd (
              apart m n l (
                injective n m (ground (arith, fits)) (ground (arith, fits, l))
                  (eq_of_same ⦃k = lib.hash_key⦄ (at n) (at m) e)))
          | inr e ↦ rw e refl
        ]

    lookup-add_utxos :
        (os : List (Output lib)) (n i : ℕ) (o : Output lib) (d : Dict lib.Hash (Output lib))
        → n + length os ≤ total
        → get_elem? os i ≡ some o
        → lookup ⦃k = lib.hash_key⦄ (at (n + i)) (add_utxos lib n os d) ≡ some o
    unfolding add_utxos get_elem?
    lookup-add_utxos [] n i o d fits e = absurd (ground (arith, e))
    lookup-add_utxos (p ∷ os) n zero o d fits e =
        let d' = insert ⦃k = lib.hash_key⦄ (at n) p d in
        ap (λ j. lookup ⦃k = lib.hash_key⦄ (at j) (add_utxos lib (suc n) os d')) (omega arith)
        ∙ add_utxos-before os n (suc n) d' (omega arith) (ground (arith, fits))
        ∙ lookup-insert ⦃k = lib.hash_key⦄ (at n) (at n) p d
        ∙ rw (same_refl ⦃k = lib.hash_key⦄ (at n)) e
    lookup-add_utxos (p ∷ os) n (suc i) o d fits e =
        let d' = insert ⦃k = lib.hash_key⦄ (at n) p d in
        ap (λ j. lookup ⦃k = lib.hash_key⦄ (at j) (add_utxos lib (suc n) os d')) (omega arith)
        ∙ lookup-add_utxos os (suc n) i o d' (ground (arith, fits)) e

  -- What is assumed of the registrations of lib_blockchain: they spend and make no outputs.
  module _
      (identity_keeps : (entry : IdentityData lib.IdentityId lib.Bytes) (chain : Chain lib)
        → (lib.register_identity entry chain).utxo_set ≡ chain.utxo_set)
      (validator_keeps : (info : ValidatorInfo lib.IdentityId) (chain : Chain lib)
        → (lib.register_validator info chain).utxo_set ≡ chain.utxo_set) where
    register_validators-utxo_set :
        (vs : Validators lib) (chain : Chain lib)
        → (register_validators lib vs chain).utxo_set ≡ chain.utxo_set
    unfolding register_validators
    register_validators-utxo_set [] chain = refl
    register_validators-utxo_set (v ∷ vs) chain =
        register_validators-utxo_set vs _ ∙ validator_keeps (validator_info lib v) chain

    finish_genesis-utxo_set :
        (outputs : List (Output lib)) (signer : lib.IdentityId) (vs : Validators lib)
        (wallet user : Option lib.IdentityId) (keys : List (lib.IdentityId × lib.Bytes))
        (chain : Chain lib)
        → (finish_genesis lib outputs signer vs wallet user keys chain).0.utxo_set
          ≡ add_utxos lib 0 outputs chain.utxo_set
    unfolding finish_genesis register_user_identity fund
    finish_genesis-utxo_set outputs signer vs wallet none keys chain =
        register_validators-utxo_set vs _
    finish_genesis-utxo_set outputs signer vs none (some user) keys chain = refl
    finish_genesis-utxo_set outputs signer vs (some wallet) (some user) keys chain =
        register_validators-utxo_set vs _ ∙ identity_keeps _ _

    Funded-utxo_set :
        (vs : Validators lib) (wallet user : lib.IdentityId)
        (keys : List (lib.IdentityId × lib.Bytes)) (signer : lib.IdentityId) (chain : Chain lib)
        (x : Chain lib × Outcome)
        → Funded lib vs wallet user keys
            (validator_outputs lib 0 vs ++ system_outputs lib)
            signer
            chain
            x
        → x.1 ≡ done
        → x.0.utxo_set
          ≡ add_utxos lib 0 (genesis_outputs vs (some wallet) (some user)) chain.utxo_set
    unfolding genesis_outputs register_wallet
    Funded-utxo_set vs wallet user keys signer chain _ (no_key n) e = absurd (cc)
    Funded-utxo_set vs wallet user keys signer chain _ (short_key key n s) e = absurd (cc)
    Funded-utxo_set vs wallet user keys signer chain _ (goes_on key n s) e =
        finish_genesis-utxo_set
          ((validator_outputs lib 0 vs ++ system_outputs lib) ++ wallet_output lib wallet user ∷ [])
          signer vs (some wallet) (some user) keys (register_wallet lib wallet user key chain)

    fund_wallet-utxo_set :
        (vs : Validators lib) (wallet user : Option lib.IdentityId)
        (keys : List (lib.IdentityId × lib.Bytes)) (signer : lib.IdentityId) (chain : Chain lib)
        → (fund_wallet lib vs wallet user keys
            (validator_outputs lib 0 vs ++ system_outputs lib)
            signer
            chain).1
          ≡ done
        → (fund_wallet lib vs wallet user keys
            (validator_outputs lib 0 vs ++ system_outputs lib)
            signer
            chain).0.utxo_set
          ≡ add_utxos lib 0 (genesis_outputs vs wallet user) chain.utxo_set
    unfolding fund_wallet genesis_outputs register_wallet
    fund_wallet-utxo_set vs none user keys signer chain e =
        finish_genesis-utxo_set _ signer vs none user keys chain
    fund_wallet-utxo_set vs (some wallet) none keys signer chain e = absurd (ground (arith, e))
    fund_wallet-utxo_set vs (some wallet) (some user) keys signer chain e =
        Funded-utxo_set vs wallet user keys signer chain _
          (fund_wallet-Funded lib vs wallet user keys _ signer chain) e

  -- If the hashes of the numbers of the outputs of this transaction differ, and the
  -- registrations of lib_blockchain leave the unspent outputs as they are: when
  -- create_genesis_funding is done, each output of the validators, of the three pools and of
  -- the funded wallet is among the unspent outputs, under the hash of its number.
  pub create_genesis_funding-spendable :
      (vs : Validators lib) (wallet user : Option lib.IdentityId)
      → AreApart (length (genesis_outputs vs wallet user))
      → ((entry : IdentityData lib.IdentityId lib.Bytes) (chain : Chain lib)
          → (lib.register_identity entry chain).utxo_set ≡ chain.utxo_set)
      → ((info : ValidatorInfo lib.IdentityId) (chain : Chain lib)
          → (lib.register_validator info chain).utxo_set ≡ chain.utxo_set)
      → (keys : List (lib.IdentityId × lib.Bytes)) (chain : Chain lib)
      → (create_genesis_funding lib vs wallet user keys chain).1 ≡ done
      → (i : ℕ) (o : Output lib) → get_elem? (genesis_outputs vs wallet user) i ≡ some o
      → lookup ⦃k = lib.hash_key⦄
          (at i)
          (create_genesis_funding lib vs wallet user keys chain).0.utxo_set
        ≡ some o
  unfolding create_genesis_funding
  create_genesis_funding-spendable [] wallet user injective identity_keeps validator_keeps keys
        chain e i o there =
      absurd (ground (arith, e))
  create_genesis_funding-spendable (v ∷ vs) wallet user injective identity_keeps validator_keeps
        keys chain e i o there =
      elim (Bool-cases (stake_overflows lib (v ∷ vs))) [
        | inl over ↦ absurd (ground (arith, over, e))
        | inr fits ↦ elim (List-cases chain.blocks) [
          | inl n ↦ absurd (ground (arith, n, e, fits))
          | inr (b, bs, n) ↦
              let outputs = genesis_outputs (v ∷ vs) wallet user in
              let on = create-goes_on lib v vs wallet user keys chain b bs fits n in
              let utxos =
                fund_wallet-utxo_set identity_keeps validator_keeps (v ∷ vs) wallet user keys
                  v.identity_id chain (sym (ap (λ x. x.1) on) ∙ e) in
              ap (λ x. lookup ⦃k = lib.hash_key⦄ (at i) x.0.utxo_set) on
              ∙ ap (λ d. lookup ⦃k = lib.hash_key⦄ (at i) d) utxos
              ∙ ap (λ j. lookup ⦃k = lib.hash_key⦄ (at j) (add_utxos lib 0 outputs chain.utxo_set))
                  (omega arith)
              ∙ lookup-add_utxos (length outputs) injective outputs 0 i o chain.utxo_set
                  (omega arith) there
        ]
      ]
