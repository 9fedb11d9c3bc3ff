-- ===== src/RewardProcessor.antt =====
-- src/runtime/storage_rewards.rs and src/runtime/routing_rewards.rs, which are one program over two
-- kinds of work, with what they call of src/runtime/components/network.rs. The parameter `Network`
-- is one kind of work: the counters of the mesh server of lib_network, the rewards of lib_economy
-- and the chain of lib_blockchain. Amounts are `u64`, and none is added to.
pub mod Cycle
pub mod Counter
mod Tests
use Prim.Native.String.{String}
use zhtp.Base.{
  ℕ, zero, suc, ◌<◌, ◌≡◌, Bool, true, false, Option, none, some, if◌then◌else◌, ltb, ◌==◌,
}
use zhtp.Base.Result.{Result, ok, err}

pub record Network : Type 1 where
  pub MeshServer : Type 0
  pub Blockchain : Type 0
  pub Transaction : Type 0
  pub NodeId : Type 0
  pub Work : Type 0
  pub node_id : MeshServer → NodeId
  -- what the server has counted, as the `get_*_stats` put it together with floats, and what stands
  -- for it without a server
  pub work : MeshServer → Work
  pub no_work : Work
  pub calculate_reward : Work → ℕ
  pub reset_counter : MeshServer → MeshServer
  pub create_reward_transaction : NodeId → ℕ → Option Transaction
  pub has_zero_hash : Transaction → Bool
  pub get_height : Blockchain → ℕ
  -- the chain after the call, and the error if there is one
  pub add_pending_transaction : Transaction → Blockchain → Blockchain × Option String
  -- Counters that were just reset earn nothing.
  pub calculate_reward-reset : (s : MeshServer) → calculate_reward (work (reset_counter s)) ≡ 0

pub record RewardConfig : Type 0 where
  pub check_interval : ℕ
  pub minimum_threshold : ℕ
  pub max_batch_size : ℕ

-- `StorageRewardConfig::default` and `RoutingRewardConfig::default`
abbrev pub default_config : RewardConfig
default_config = record { check_interval = 600; minimum_threshold = 100; max_batch_size = 10000 }

pub data Error : Type 0 where
  no_node_id creation_failed zero_amount above_maximum above_batch_size no_blockchain no_blocks
        zero_hash no_mesh_server :
      Error
  add_failed : String → Error

abbrev pub max_single_claim : ℕ
max_single_claim = 1000000

module _ (net : Network) where
  open net use {
    MeshServer, Blockchain, Transaction, NodeId, Work, node_id, work, no_work, calculate_reward,
    reset_counter, create_reward_transaction, has_zero_hash, get_height, add_pending_transaction,
  }

  -- The mesh server of the network component, and the global blockchain.
  pub record Node : Type 0 where
    pub mesh_server : Option MeshServer
    pub blockchain : Option Blockchain

  -- `get_storage_stats`, `get_routing_stats`
  pub get_stats : Node → Work
  get_stats n = elim n.mesh_server [ none ↦ no_work | some s ↦ work s ]

  pub get_node_id : Node → Option NodeId
  get_node_id n = elim n.mesh_server [ none ↦ none | some s ↦ some (node_id s) ]

  -- `reset_storage_rewards`, `reset_routing_rewards`
  pub reset_rewards : Node → Node × Result Error (Unit {0})
  reset_rewards n = elim n.mesh_server [
    | none ↦ (n, err no_mesh_server)
    | some s ↦ (record n { mesh_server = some (reset_counter s) }, ok tt)
  ]

  -- the cap of a claim
  pub cap : RewardConfig → ℕ → ℕ
  cap config earned = if ltb config.max_batch_size earned then config.max_batch_size else earned

  -- the first part of `validate_reward_transaction`
  pub check_amount : RewardConfig → ℕ → Option Error
  check_amount config amount =
      if amount == 0
      then some zero_amount
      else if ltb max_single_claim amount
      then some above_maximum
      else if ltb config.max_batch_size amount
      then some above_batch_size
      else none

  -- the second and the third
  pub check_chain : Transaction → Node → Option Error
  check_chain tx n = elim n.blockchain [
    | none ↦ some no_blockchain
    | some chain ↦
        if get_height chain == 0
        then some no_blocks
        else if has_zero_hash tx
        then some zero_hash
        else none
  ]

  pub validate_reward_transaction : RewardConfig → ℕ → Transaction → Node → Option Error
  validate_reward_transaction config amount tx n = elim (check_amount config amount) [
    | some e ↦ some e
    | none ↦ check_chain tx n
  ]

  -- What follows the pending pool: the reset of all that was counted.
  pub finish_claim : Option String → Node → Node × Result Error Bool
  finish_claim (some e) n = (n, err (add_failed e))
  finish_claim none n =
      let (n', r) = reset_rewards n in elim r [ ok _ ↦ (n', ok true) | err e ↦ (n', err e) ]

  -- What follows the validation.
  pub submit : Transaction → Node → Node × Result Error Bool
  submit tx n = elim n.blockchain [
    | none ↦ (n, err no_blockchain)
    | some chain ↦
        let (chain', failure) = add_pending_transaction tx chain in
        finish_claim failure (record n { blockchain = some chain' })
  ]

  pub claim : RewardConfig → ℕ → Node → Node × Result Error Bool
  claim config amount n = elim (get_node_id n) [
    | none ↦ (n, err no_node_id)
    | some id ↦ elim (create_reward_transaction id amount) [
      | none ↦ (n, err creation_failed)
      | some tx ↦ elim (validate_reward_transaction config amount tx n) [
        | some e ↦ (n, err e)
        | none ↦ submit tx n
      ]
    ]
  ]

  -- `process_storage_rewards`, `process_routing_rewards`; the number of the cycle is only logged
  pub process_rewards : RewardConfig → Node → Node × Result Error Bool
  process_rewards config n =
      let earned = calculate_reward (get_stats n) in
      if ltb earned config.minimum_threshold
      then (n, ok false)
      else claim config (cap config earned) n

  -- `StorageRewardMetrics`, `RoutingRewardMetrics`: the totals are those of the work
  pub record RewardMetrics : Type 0 where
    pub pending_rewards : ℕ
    pub totals : Work
    pub check_interval_secs : ℕ
    pub minimum_threshold : ℕ
    pub max_batch_size : ℕ

  pub get_metrics : RewardConfig → Node → RewardMetrics
  get_metrics config n = record {
    pending_rewards = calculate_reward (get_stats n);
    totals = get_stats n;
    check_interval_secs = config.check_interval;
    minimum_threshold = config.minimum_threshold;
    max_batch_size = config.max_batch_size;
  }
