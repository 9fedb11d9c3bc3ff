-- ===== src/GenesisFunding.antt =====
-- The `GenesisFundingService` of src/runtime/services/genesis_funding.rs: the first transaction of a
-- chain, its outputs and the registration of the user and the validators. Hashes, keys and the two
-- registrations are those of lib_blockchain; stakes are `u64`. The sum of the stakes and the first 16
-- bytes of the user's key are only logged, at the default log level, yet both may panic.
pub mod Outcomes
pub mod Spendable
mod Tests
use Prim.Native.String.{String}
use zhtp.Base.{
  ℕ, suc, ◌+◌, ◌/◌, ◌%◌, ◌^◌, min, Bool, true, false, ◌&&◌, ltb, leb, if◌then◌else◌, Option, none,
  some, List, [], ◌∷◌, ◌++◌, map, Key, same,
}
use zhtp.Base.Dict.{Dict, insert, lookup}

pub record GenesisValidator (IdentityId : Type 0) : Type 0 where
  pub identity_id : IdentityId
  pub node_device_id : Option IdentityId
  pub stake : ℕ
  pub storage_provided : ℕ
  pub commission_rate : ℕ

-- The parts of a text that is hashed.
pub data Preimage (IdentityId : Type 0) : Type 0 where
  validator_stake_commitment : IdentityId → ℕ → Preimage IdentityId
  validator_stake_note : IdentityId → ℕ → Preimage IdentityId
  user_wallet_commitment : IdentityId → ℕ → Preimage IdentityId
  user_wallet_note : IdentityId → Preimage IdentityId
  literal : String → Preimage IdentityId
  genesis_funding : ℕ → Preimage IdentityId

pub data Owner (IdentityId : Type 0) : Type 0 where
  identity_owner : IdentityId → Owner IdentityId
  system_owner : String → Owner IdentityId

pub record TransactionOutput (IdentityId Hash : Type 0) : Type 0 where
  pub commitment : Hash
  pub note : Hash
  pub recipient : Owner IdentityId

pub record Transaction (IdentityId Hash : Type 0) : Type 0 where
  pub outputs : List (TransactionOutput IdentityId Hash)
  pub signer : IdentityId
  pub fee : ℕ

pub record WalletData (IdentityId Bytes : Type 0) : Type 0 where
  pub wallet_id : IdentityId
  pub public_key : Bytes
  pub owner_identity_id : Option IdentityId
  pub initial_balance : ℕ

pub record IdentityData (IdentityId Bytes : Type 0) : Type 0 where
  pub identity : IdentityId
  pub public_key : Option Bytes
  pub controlled_nodes : List IdentityId
  pub owned_wallets : List IdentityId

pub record ValidatorInfo (IdentityId : Type 0) : Type 0 where
  pub identity_id : IdentityId
  pub stake : ℕ
  pub storage_provided : ℕ
  pub commission_rate : ℕ

pub record Block (IdentityId Hash : Type 0) : Type 0 where
  pub transactions : List (Transaction IdentityId Hash)
  pub merkle_root : Hash

-- The fields that are written here, and the rest of a blockchain.
pub record Blockchain (IdentityId Hash Bytes Rest : Type 0) : Type 0 where
  pub blocks : List (Block IdentityId Hash)
  pub utxo_set : Dict Hash (TransactionOutput IdentityId Hash)
  pub wallet_registry : Dict IdentityId (WalletData IdentityId Bytes)
  pub rest : Rest

pub record Library : Type 1 where
  pub IdentityId : Type 0
  pub Hash : Type 0
  pub Bytes : Type 0
  pub Rest : Type 0
  pub id_key : Key IdentityId
  pub hash_key : Key Hash
  -- the number of bytes of a key
  pub length : Bytes → ℕ
  -- whether the build panics when a sum of machine integers overflows, as a debug build does
  pub overflow_checks : Bool
  pub blake3_hash : Preimage IdentityId → Hash
  pub merkle_root : List (Transaction IdentityId Hash) → Hash
  -- a failure of these is logged
  pub register_identity :
      IdentityData IdentityId Bytes
      → Blockchain IdentityId Hash Bytes Rest
      → Blockchain IdentityId Hash Bytes Rest
  pub register_validator :
      ValidatorInfo IdentityId
      → Blockchain IdentityId Hash Bytes Rest
      → Blockchain IdentityId Hash Bytes Rest

pub data Outcome : Type 0 where
  done no_validators no_genesis_block missing_private_key missing_identity : Outcome
  -- `unwrap` of nothing, a slice that is not there, a sum that does not fit
  panicked : Outcome

module _ (lib : Library) where
  abbrev pub Chain : Type 0
  Chain = Blockchain lib.IdentityId lib.Hash lib.Bytes lib.Rest

  abbrev pub Output : Type 0
  Output = TransactionOutput lib.IdentityId lib.Hash

  abbrev pub Validators : Type 0
  Validators = List (GenesisValidator lib.IdentityId)

  -- The search in the private data of the genesis identities.
  pub private_key_of : lib.IdentityId → List (lib.IdentityId × lib.Bytes) → Option lib.Bytes
  private_key_of id [] = none
  private_key_of id ((owner, key) ∷ rest) =
      let found = private_key_of id rest in
      elim (same ⦃k = lib.id_key⦄ owner id) [ true ↦ some key | false ↦ found ]

  -- The loop over the validators, from an index on.
  pub validator_outputs : ℕ → Validators → List Output
  validator_outputs index [] = []
  validator_outputs index (v ∷ vs) =
      record {
        commitment = lib.blake3_hash (validator_stake_commitment v.identity_id v.stake);
        note = lib.blake3_hash (validator_stake_note v.identity_id index);
        recipient = identity_owner v.identity_id;
      }
      ∷ validator_outputs (suc index) vs

  pub total_validator_stake : Validators → ℕ
  total_validator_stake [] = 0
  total_validator_stake (v ∷ vs) = v.stake + total_validator_stake vs

  -- Whether `total_validator_stake += validator.stake` panics in the loop.
  pub stake_overflows : Validators → Bool
  stake_overflows vs = lib.overflow_checks && leb (2 ^ 64) (total_validator_stake vs)

  pub system_output : String → String → String → Output
  system_output commitment note owner = record {
    commitment = lib.blake3_hash (literal commitment);
    note = lib.blake3_hash (literal note);
    recipient = system_owner owner;
  }

  pub system_outputs : List Output
  system_outputs =
      system_output "ubi_pool_commitment_500000" "ubi_pool_note" "genesis_system_ubi"
      ∷ system_output "mining_pool_commitment_300000" "mining_pool_note" "genesis_system_mining"
      ∷ system_output "dev_pool_commitment_200000" "dev_pool_note" "genesis_system_dev"
      ∷ []

  abbrev pub welcome_bonus : ℕ
  welcome_bonus = 5000

  pub wallet_output : lib.IdentityId → lib.IdentityId → Output
  wallet_output wallet user = record {
    commitment = lib.blake3_hash (user_wallet_commitment wallet welcome_bonus);
    note = lib.blake3_hash (user_wallet_note wallet);
    recipient = identity_owner user;
  }

  pub register_wallet : lib.IdentityId → lib.IdentityId → lib.Bytes → Chain → Chain
  register_wallet wallet user key chain =
      let entry : WalletData lib.IdentityId lib.Bytes = record {
        wallet_id = wallet;
        public_key = key;
        owner_identity_id = some user;
        initial_balance = welcome_bonus;
      } in
      record chain { wallet_registry = insert ⦃k = lib.id_key⦄ wallet entry chain.wallet_registry }

  pub append_transaction :
      Transaction lib.IdentityId lib.Hash
      → List (Block lib.IdentityId lib.Hash)
      → List (Block lib.IdentityId lib.Hash)
  append_transaction tx [] = []
  append_transaction tx (genesis ∷ blocks) =
      let transactions = genesis.transactions ++ tx ∷ [] in
      record { transactions = transactions; merkle_root = lib.merkle_root transactions } ∷ blocks

  -- The loop that fills the set of unspent outputs, from an index on.
  pub add_utxos : ℕ → List Output → Dict lib.Hash Output → Dict lib.Hash Output
  add_utxos index [] utxos = utxos
  add_utxos index (o ∷ os) utxos =
      add_utxos (suc index) os
        (insert ⦃k = lib.hash_key⦄ (lib.blake3_hash (genesis_funding index)) o utxos)

  pub fund : List Output → lib.IdentityId → Chain → Chain
  fund outputs signer chain = record chain {
    blocks =
        append_transaction (record { outputs = outputs; signer = signer; fee = 0 }) chain.blocks;
    utxo_set = add_utxos 0 outputs chain.utxo_set;
  }

  pub node_devices : Validators → List lib.IdentityId
  node_devices [] = []
  node_devices (v ∷ vs) = elim v.node_device_id [
    | none ↦ node_devices vs
    | some node ↦ node ∷ node_devices vs
  ]

  -- It panics for a user without a wallet.
  pub register_user_identity :
      Option lib.IdentityId
      → Validators
      → List (lib.IdentityId × lib.Bytes)
      → Option lib.IdentityId
      → Chain
      → Chain × Outcome
  register_user_identity none vs keys wallet chain = (chain, done)
  register_user_identity (some user) vs keys none chain = (chain, panicked)
  register_user_identity (some user) vs keys (some wallet) chain = (
    lib.register_identity
        (record {
          identity = user;
          public_key = private_key_of user keys;
          controlled_nodes = node_devices vs;
          owned_wallets = wallet ∷ [];
        })
        chain,
    done,
  )

  pub validator_info : GenesisValidator lib.IdentityId → ValidatorInfo lib.IdentityId
  validator_info v = record {
    identity_id = v.identity_id;
    stake = v.stake;
    storage_provided = v.storage_provided;
    commission_rate = min v.commission_rate 10000 / 100 % 2 ^ 8;
  }

  pub register_validators : Validators → Chain → Chain
  register_validators [] chain = chain
  register_validators (v ∷ vs) chain =
      register_validators vs (lib.register_validator (validator_info v) chain)

  -- What follows the outputs and the wallet.
  pub finish_genesis :
      List Output
      → lib.IdentityId
      → Validators
      → Option lib.IdentityId
      → Option lib.IdentityId
      → List (lib.IdentityId × lib.Bytes)
      → Chain
      → Chain × Outcome
  finish_genesis outputs signer vs wallet user keys chain =
      let (chain', outcome) =
        register_user_identity user vs keys wallet (fund outputs signer chain) in
      elim outcome [ done ↦ (register_validators vs chain', done) | other ↦ (chain', other) ]

  -- The private keys are asked for only if there is a wallet to fund. The log of the key's first 16
  -- bytes panics for a shorter key, when the wallet is registered already.
  pub fund_wallet :
      Validators
      → Option lib.IdentityId
      → Option lib.IdentityId
      → List (lib.IdentityId × lib.Bytes)
      → List Output
      → lib.IdentityId
      → Chain
      → Chain × Outcome
  fund_wallet vs none user keys outputs signer chain =
      finish_genesis outputs signer vs none user keys chain
  fund_wallet vs (some wallet) none keys outputs signer chain = (chain, missing_identity)
  fund_wallet vs (some wallet) (some user) keys outputs signer chain =
      elim (private_key_of user keys) [
        | none ↦ (chain, missing_private_key)
        | some key ↦
            let registered = register_wallet wallet user key chain in
            if ltb (lib.length key) 16
            then (registered, panicked)
            else finish_genesis (outputs ++ wallet_output wallet user ∷ []) signer vs (some wallet)
                (some user) keys registered
      ]

  pub create_genesis_funding :
      Validators
      → Option lib.IdentityId
      → Option lib.IdentityId
      → List (lib.IdentityId × lib.Bytes)
      → Chain
      → Chain × Outcome
  create_genesis_funding [] wallet user keys chain = (chain, no_validators)
  create_genesis_funding (v ∷ vs) wallet user keys chain =
      if stake_overflows (v ∷ vs) then (chain, panicked) else elim chain.blocks [
        | [] ↦ (chain, no_genesis_block)
        | _ ∷ _ ↦
            fund_wallet (v ∷ vs) wallet user keys (validator_outputs 0 (v ∷ vs) ++ system_outputs)
              v.identity_id chain
      ]
