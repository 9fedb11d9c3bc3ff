-- ===== src/MiningService.antt =====
-- The `MiningService` of src/runtime/services/mining_service.rs: the task that mines blocks, and
-- the turn of the loop that decides whether this node does. Blocks, the proof of work, the validator
-- manager and the decoding of identities are those of lib_blockchain, lib_consensus and hex.
pub mod Turns
mod Tests
use Prim.Native.String.{String}
use zhtp.Base.{
  ℕ, zero, suc, ◌+◌, ◌%◌, ◌^◌, Bool, true, false, Option, none, some, List, [], ◌∷◌, if◌then◌else◌,
  Key, same, string_key, nat_key,
}
use zhtp.Base.Lists.{contains, remove, take}

pub data Decoded (Identity : Type 0) : Type 0 where
  -- no `did:zhtp:` or no hexadecimal digits behind it
  no_identity : Decoded Identity
  -- fewer than the 32 bytes that are sliced off
  too_short : Decoded Identity
  decoded : Identity → Decoded Identity

pub record Blockchain (Transaction Rest : Type 0) : Type 0 where
  pub pending_transactions : List Transaction
  pub height : ℕ
  -- the registered identities with the nodes that they control
  pub identity_registry : List (String × List String)
  pub rest : Rest

pub record Library : Type 1 where
  pub Transaction : Type 0
  pub Block : Type 0
  pub Identity : Type 0
  pub Rest : Type 0
  pub ValidatorManager : Type 0
  pub identity_key : Key Identity
  pub active_validators : ValidatorManager → ℕ
  -- the identity of the proposer of a height and a round
  pub select_proposer : ValidatorManager → ℕ → ℕ → Option Identity
  pub decode_did : String → Decoded Identity
  pub create_block : List Transaction → ℕ → Rest → Option Block
  -- at most so many attempts
  pub mine : Block → ℕ → Option Block
  -- what it leaves of the blockchain, and whether the block was accepted
  pub add_block_with_proof :
      Block → Blockchain Transaction Rest → Blockchain Transaction Rest × Bool

-- What the service shares with the other components; the node identity is in hexadecimal digits.
pub record Wiring (lib : Library) : Type 0 where
  pub validator_manager : Option lib.ValidatorManager
  pub node_identity : Option String

pub data Decision : Type 0 where
  mine_block skip panic : Decision

pub data Event : Type 0 where
  unavailable idle skipped mined failed panicked : Event

pub record LoopState : Type 0 where
  pub block_counter : ℕ
  pub consensus_round : ℕ

-- the counters before the loop
unfoldable pub loop_state : LoopState
loop_state = record { block_counter = 1; consensus_round = 0 }

module _ (lib : Library) where
  abbrev pub Chain : Type 0
  Chain = Blockchain lib.Transaction lib.Rest

  -- The search for the user that controls this node.
  unfoldable pub is_proposer : String → lib.Identity → List (String × List String) → Decision
  is_proposer node proposer [] = skip
  is_proposer node proposer ((did, nodes) ∷ rest) =
      let other = is_proposer node proposer rest in
      if contains node nodes
      then elim (lib.decode_did did) [
        | no_identity ↦ other
        | too_short ↦ panic
        | decoded user ↦ if same ⦃k = lib.identity_key⦄ user proposer then mine_block else other
      ]
      else other

  -- The choice behind a validator manager and a node identity.
  unfoldable pub coordinate : lib.ValidatorManager → String → ℕ → Chain → Decision
  coordinate manager node round chain =
      if same (lib.active_validators manager) 0
      then mine_block
      else elim (lib.select_proposer manager (chain.height + 1) round) [
        | none ↦ mine_block
        | some proposer ↦ is_proposer node proposer chain.identity_registry
      ]

  unfoldable pub should_mine : Wiring lib → ℕ → Chain → Decision
  should_mine wiring round chain = elim wiring.validator_manager [
    | none ↦ mine_block
    | some manager ↦ elim wiring.node_identity [
      | none ↦ mine_block
      | some node ↦ coordinate manager node round chain
    ]
  ]

  -- The block of the first ten transactions, or nothing.
  unfoldable pub mined_block : Chain → Option lib.Block
  mined_block chain = elim chain.pending_transactions [
    | [] ↦ none
    | tx ∷ txs ↦ elim (lib.create_block (take 10 (tx ∷ txs)) (chain.height + 1) chain.rest) [
      | none ↦ none
      | some block ↦ lib.mine block 10000000
    ]
  ]

  -- `mine_block`, and whether it succeeded.
  unfoldable pub try_mine : Chain → Chain × Bool
  try_mine chain = elim (mined_block chain) [
    | none ↦ (chain, false)
    | some block ↦ lib.add_block_with_proof block chain
  ]

  -- What a turn does when it mines.
  unfoldable pub run_mining : Chain → LoopState → Chain × LoopState × Event
  run_mining chain s =
      let (chain', done) = try_mine chain in
      if done
      then (
        chain',
        record s { block_counter = (s.block_counter + 1) % 2 ^ 64; consensus_round = 0 },
        mined,
      )
      else (chain', record s { consensus_round = (s.consensus_round + 1) % 2 ^ 32 }, failed)

  unfoldable pub turn_by : Decision → Chain → LoopState → Chain × LoopState × Event
  turn_by mine_block chain s = run_mining chain s
  turn_by skip chain s =
      (chain, record s { consensus_round = (s.consensus_round + 1) % 2 ^ 32 % 10 }, skipped)
  turn_by panic chain s = (chain, s, panicked)

  -- A turn of the loop with a blockchain.
  unfoldable pub turn : Wiring lib → Chain → LoopState → Chain × LoopState × Event
  turn wiring chain s = elim chain.pending_transactions [
    | [] ↦ (chain, record s { consensus_round = 0 }, idle)
    | _ ∷ _ ↦ turn_by (should_mine wiring s.consensus_round chain) chain s
  ]

  -- Turns as long as this node is not the proposer, at most so many.
  unfoldable pub turns : ℕ → Wiring lib → Chain → LoopState → Chain × LoopState × Event
  turns zero wiring chain s = (chain, s, skipped)
  turns (suc n) wiring chain s =
      let (chain', s', event) = turn wiring chain s in
      let rest = turns n wiring chain' s' in
      elim event [ skipped ↦ rest | other ↦ (chain', s', other) ]

-- The service itself: the handle, and the loops that run.
pub record MiningService : Type 0 where
  pub mining_handle : Option ℕ
  pub running : List ℕ
  pub spawned : ℕ

unfoldable pub new_service : MiningService
new_service = record { mining_handle = none; running = []; spawned = 0 }

-- The check at the beginning of `start`, under a read lock of its own.
unfoldable pub start_passes : MiningService → Bool
start_passes m = elim m.mining_handle [ none ↦ true | some _ ↦ false ]

-- What follows the check.
unfoldable pub spawn_loop : MiningService → MiningService
spawn_loop m = record {
  mining_handle = some m.spawned;
  running = m.spawned ∷ m.running;
  spawned = m.spawned + 1;
}

unfoldable pub start : MiningService → MiningService
start m = if start_passes m then spawn_loop m else m

unfoldable pub stop : MiningService → MiningService
stop m = elim m.mining_handle [
  | none ↦ m
  | some task ↦ record m { mining_handle = none; running = remove task m.running }
]
