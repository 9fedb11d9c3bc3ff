-- ===== src/GenesisFunding/Outcomes.antt =====
-- What `create_genesis_funding` of src/runtime/services/genesis_funding.rs does for which arguments:
-- a refusal writes nothing, and a user without a wallet panics after the funds are there.
use zhtp.Base.{
  ◌≡◌, refl, ◌∙◌, ap, Option, none, some, List, [], ◌∷◌, ◌++◌, arith, Option-cases, Bool-cases,
  true, false, ltb, if◌then◌else◌, inl, inr, ◌≢◌,
}
use zhtp.Base.Lists.{List-cases}
use zhtp.GenesisFunding.{
  Block, Chain, GenesisValidator, Library, Outcome, Output, Validators, create_genesis_funding,
  done, finish_genesis, fund_wallet, missing_identity, missing_private_key, no_genesis_block,
  no_validators, panicked, private_key_of, register_user_identity, register_wallet, stake_overflows,
  system_outputs, validator_outputs, wallet_output,
}

module _ (lib : Library) where
  -- The outcome behind the checks of the validators and the block.
  pub expected_of_wallet :
      Option lib.IdentityId → Option lib.IdentityId → List (lib.IdentityId × lib.Bytes) → Outcome
  expected_of_wallet none none keys = done
  expected_of_wallet none (some id) keys = panicked
  expected_of_wallet (some wallet) none keys = missing_identity
  expected_of_wallet (some wallet) (some id) keys = elim (private_key_of lib id keys) [
    | none ↦ missing_private_key
    | some key ↦ if ltb (lib.length key) 16 then panicked else done
  ]

  -- The outcome, by the arguments in the order in which they are looked at.
  pub expected :
      Validators lib
      → Option lib.IdentityId
      → Option lib.IdentityId
      → List (lib.IdentityId × lib.Bytes)
      → Chain lib
      → Outcome
  expected [] wallet user keys chain = no_validators
  expected (v ∷ vs) wallet user keys chain =
      if stake_overflows lib (v ∷ vs)
      then panicked
      else elim chain.blocks [ [] ↦ no_genesis_block | _ ∷ _ ↦ expected_of_wallet wallet user keys ]

  finish_genesis-outcome :
      (outputs : List (Output lib)) (signer : lib.IdentityId) (vs : Validators lib)
      (wallet user : Option lib.IdentityId) (keys : List (lib.IdentityId × lib.Bytes))
      (chain : Chain lib)
      → (finish_genesis lib outputs signer vs wallet user keys chain).1
        ≡ elim user [ none ↦ done | some _ ↦ elim wallet [ none ↦ panicked | some _ ↦ done ] ]
  unfolding finish_genesis register_user_identity
  finish_genesis-outcome outputs signer vs wallet none keys chain = refl
  finish_genesis-outcome outputs signer vs none (some user) keys chain = refl
  finish_genesis-outcome outputs signer vs (some wallet) (some user) keys chain = refl

  -- What becomes of a wallet whose identity has a key.
  pub data Funded (vs : Validators lib) (wallet user : lib.IdentityId)
      (keys : List (lib.IdentityId × lib.Bytes)) (outputs : List (Output lib))
      (signer : lib.IdentityId) (chain : Chain lib) : Chain lib × Outcome → Type 0 where
    no_key :
        private_key_of lib user keys ≡ none
        → Funded vs wallet user keys outputs signer chain (chain, missing_private_key)
    short_key :
        (key : lib.Bytes)
        → private_key_of lib user keys ≡ some key
        → ltb (lib.length key) 16 ≡ true
        → Funded vs wallet user keys outputs signer chain
            (register_wallet lib wallet user key chain, panicked)
    goes_on :
        (key : lib.Bytes)
        → private_key_of lib user keys ≡ some key
        → ltb (lib.length key) 16 ≡ false
        → Funded vs wallet user keys outputs signer chain (
            finish_genesis lib
              (outputs ++ wallet_output lib wallet user ∷ [])
              signer
              vs
              (some wallet)
              (some user)
              keys
              (register_wallet lib wallet user key chain))

  pub fund_wallet-Funded :
      (vs : Validators lib) (wallet user : lib.IdentityId)
      (keys : List (lib.IdentityId × lib.Bytes)) (outputs : List (Output lib))
      (signer : lib.IdentityId) (chain : Chain lib)
      → Funded vs wallet user keys outputs signer chain
          (fund_wallet lib vs (some wallet) (some user) keys outputs signer chain)
  unfolding fund_wallet
  fund_wallet-Funded vs wallet user keys outputs signer chain =
      elim (Option-cases (private_key_of lib user keys)) [
        | inl e ↦ rw (fund_wallet, e) (no_key e)
        | inr (key, e) ↦ elim (Bool-cases (ltb (lib.length key) 16)) [
          | inl s ↦ rw (fund_wallet, e, s) (short_key key e s)
          | inr s ↦ rw (fund_wallet, e, s) (goes_on key e s)
        ]
      ]

  Funded-refused :
      (vs : Validators lib) (wallet user : lib.IdentityId)
      (keys : List (lib.IdentityId × lib.Bytes)) (outputs : List (Output lib))
      (signer : lib.IdentityId) (chain : Chain lib) (x : Chain lib × Outcome)
      → Funded vs wallet user keys outputs signer chain x
      → x.1 ≢ done
      → x.1 ≢ panicked
      → x.0 ≡ chain
  Funded-refused vs wallet user keys outputs signer chain _ (no_key e) d p = refl
  Funded-refused vs wallet user keys outputs signer chain _ (short_key key e s) d p =
      absurd (p refl)
  Funded-refused vs wallet user keys outputs signer chain _ (goes_on key e s) d p = absurd (
      d (
        finish_genesis-outcome (outputs ++ wallet_output lib wallet user ∷ []) signer vs
          (some wallet) (some user) keys (register_wallet lib wallet user key chain)))

  fund_wallet-refused :
      (vs : Validators lib) (wallet user : Option lib.IdentityId)
      (keys : List (lib.IdentityId × lib.Bytes)) (outputs : List (Output lib))
      (signer : lib.IdentityId) (chain : Chain lib)
      → (fund_wallet lib vs wallet user keys outputs signer chain).1 ≢ done
      → (fund_wallet lib vs wallet user keys outputs signer chain).1 ≢ panicked
      → (fund_wallet lib vs wallet user keys outputs signer chain).0 ≡ chain
  unfolding fund_wallet
  fund_wallet-refused vs none none keys outputs signer chain d p =
      absurd (d (finish_genesis-outcome outputs signer vs none none keys chain))
  fund_wallet-refused vs none (some user) keys outputs signer chain d p =
      absurd (p (finish_genesis-outcome outputs signer vs none (some user) keys chain))
  fund_wallet-refused vs (some wallet) none keys outputs signer chain d p = refl
  fund_wallet-refused vs (some wallet) (some user) keys outputs signer chain d p =
      Funded-refused vs wallet user keys outputs signer chain _
        (fund_wallet-Funded vs wallet user keys outputs signer chain) d p

  pub create-goes_on :
      (v : GenesisValidator lib.IdentityId) (vs : Validators lib)
      (wallet user : Option lib.IdentityId) (keys : List (lib.IdentityId × lib.Bytes))
      (chain : Chain lib) (b : Block lib.IdentityId lib.Hash)
      (bs : List (Block lib.IdentityId lib.Hash))
      → stake_overflows lib (v ∷ vs) ≡ false
      → chain.blocks ≡ b ∷ bs
      → create_genesis_funding lib (v ∷ vs) wallet user keys chain
        ≡ fund_wallet lib
            (v ∷ vs)
            wallet
            user
            keys
            (validator_outputs lib 0 (v ∷ vs) ++ system_outputs lib)
            v.identity_id
            chain
  unfolding create_genesis_funding
  create-goes_on v vs wallet user keys chain b bs fits e = ground (arith, e, fits)

  -- If create_genesis_funding is neither done nor panics, the blockchain is as it was.
  pub create_genesis_funding-refused :
      (vs : Validators lib) (wallet user : Option lib.IdentityId)
      (keys : List (lib.IdentityId × lib.Bytes)) (chain : Chain lib)
      → (create_genesis_funding lib vs wallet user keys chain).1 ≢ done
      → (create_genesis_funding lib vs wallet user keys chain).1 ≢ panicked
      → (create_genesis_funding lib vs wallet user keys chain).0 ≡ chain
  unfolding create_genesis_funding
  create_genesis_funding-refused [] wallet user keys chain d p = refl
  create_genesis_funding-refused (v ∷ vs) wallet user keys chain d p =
      elim (Bool-cases (stake_overflows lib (v ∷ vs))) [
        | inl o ↦ absurd (p (ground (arith, o)))
        | inr o ↦ elim (List-cases chain.blocks) [
          | inl e ↦ ground (arith, e, o)
          | inr (b, bs, e) ↦
              let outputs = validator_outputs lib 0 (v ∷ vs) ++ system_outputs lib in
              let on = create-goes_on v vs wallet user keys chain b bs o e in
              ap (λ x. x.0) on
              ∙ fund_wallet-refused (v ∷ vs) wallet user keys outputs v.identity_id chain
                  (λ n. d (ap (λ x. x.1) on ∙ n)) (λ n. p (ap (λ x. x.1) on ∙ n))
        ]
      ]
