-- ===== src/RuntimeOrchestrator.antt =====
-- The `RuntimeOrchestrator` of src/runtime/mod.rs: the registered components, their health and the
-- message bus. A handler takes the orchestrator and returns it beside its result. Counters are
-- `u64` and keep their wrap-around. `ComponentId` and `ComponentStatus` are those of Component.
pub mod Shutdown
pub mod Phases
pub mod Tracked
pub mod Starting
pub mod StartAll
pub mod Sequence
pub mod Stopping
pub mod Ending
pub mod Waiting
pub mod Messages
pub mod Invariant
mod Tests
pub mod Payment
pub mod Selection
use Prim.Native.String.{String, ◌++◌ as str_append}
use zhtp.Base.{
  ℕ, ◌+◌, ◌-◌, ◌%◌, ◌^◌, Bool, true, false, Option, none, some, List, [], ◌∷◌, ◌++◌, if◌then◌else◌,
}
use zhtp.Base.Dict.{Dict, lookup, insert, keys, adjust}
use zhtp.Base.Result.{Result, ok, err}
use zhtp.Component.{
  Attempt, ComponentId, ComponentStatus, api, blockchain, component_key, consensus, crypto,
  economics, error, finished, identity, network, protocols, refused, running, starting, stopped,
  stopping, storage, timed_out, zk,
}

pub record ComponentHealth (F32 : Type 0) : Type 0 where
  pub status : ComponentStatus
  pub last_heartbeat : ℕ
  pub error_count : ℕ
  pub restart_count : ℕ
  pub uptime : ℕ
  pub memory_usage : ℕ
  pub cpu_usage : F32

pub data ComponentMessage (Blockchain : Type 0) : Type 0 where
  start stop restart health_check : ComponentMessage Blockchain
  peer_connected peer_disconnected network_update : String → ComponentMessage Blockchain
  block_mined transaction_received : String → ComponentMessage Blockchain
  identity_created identity_updated : String → ComponentMessage Blockchain
  file_stored file_requested : String → ComponentMessage Blockchain
  ubi_payment : String → ℕ → ComponentMessage Blockchain
  dao_proposal : String → ComponentMessage Blockchain
  get_blockchain : ComponentMessage Blockchain
  get_blockchain_response : Blockchain → ComponentMessage Blockchain
  blockchain_operation custom : String → List ℕ → ComponentMessage Blockchain

pub data HealthReport (F32 : Type 0) : Type 0 where
  healthy : ComponentHealth F32 → HealthReport F32
  unhealthy : String → HealthReport F32

-- What a `dyn Component` does, the clock, sleeping, and the services that the orchestrator calls.
-- Times are in milliseconds.
pub record Host : Type 1 where
  pub World : Type 0
  pub F32 : Type 0
  pub zero_f32 : F32
  pub Blockchain : Type 0
  pub Component : Type 0
  pub id : Component → ComponentId
  -- the error, if any
  pub start : Component → World → Option String × World
  pub stop : Component → ℕ → World → Attempt × World
  pub force_stop : Component → ℕ → World → World
  pub health_check : Component → World → HealthReport F32 × World
  pub handle_message : Component → ComponentMessage Blockchain → World → World
  -- the instance that `register_all_components` makes of a component
  -- (the flags: whether a network was joined, whether the node is an edge node)
  pub new_component : ComponentId → Bool → Bool → World → Component
  pub now : World → ℕ
  pub sleep : ℕ → World → World
  -- whether the overall time of a shutdown is over
  pub shutdown_over : World → Bool
  -- what these do outside the two maps; their failure is logged
  pub initialize_shared_blockchain : World → World
  pub wire_blockchain_to_consensus : World → World
  pub sync_wallet_balances : World → World
  pub start_reward_orchestrator : World → World
  pub stop_reward_orchestrator : World → World

pub data Error : Type 0 where
  component_error : String → Error
  component_not_found : ComponentId → Error
  send_failed : Error
  while_starting : ComponentId → Error → Error
  blockchain_error : String → Error
  no_network_peers : Error
  edge_without_network : Error
  sync_timeout : Error
  -- a loop ran out of fuel
  no_fuel : Error

abbrev pub display : ComponentId → String
display crypto = "crypto"
display zk = "zk"
display identity = "identity"
display storage = "storage"
display network = "network"
display blockchain = "blockchain"
display consensus = "consensus"
display economics = "economics"
display protocols = "protocols"
display api = "api"

abbrev pub default_order : List ComponentId
default_order =
    crypto ∷ zk ∷ identity ∷ storage ∷ network ∷ blockchain ∷ consensus ∷ economics ∷ protocols ∷ []

pub record RuntimeOrchestrator (host : Host) : Type 0 where
  pub components : Dict ComponentId host.Component
  pub component_health : Dict ComponentId (ComponentHealth host.F32)
  -- sent and not yet received
  pub message_bus : List (ComponentId × ComponentMessage host.Blockchain)
  -- whether the task that receives is there
  pub receiving : Bool
  -- whether the sender of the signal is still there
  pub shutdown_signal : Bool
  pub startup_order : List ComponentId
  pub joined_existing_network : Bool
  pub is_edge_node : Bool
  pub edge_max_headers : ℕ
  pub world : host.World

abbrev pub is_running : ComponentStatus → Bool
is_running running = true
is_running _ = false

abbrev pub is_stopped : ComponentStatus → Bool
is_stopped stopped = true
is_stopped _ = false

abbrev pub mark_starting : {F : Type 0} → ℕ → ComponentHealth F → ComponentHealth F
mark_starting now h = record h { status = starting; last_heartbeat = now }

abbrev pub mark_running : {F : Type 0} → ℕ → ℕ → ComponentHealth F → ComponentHealth F
mark_running started now h = record h {
  status = running;
  last_heartbeat = now;
  uptime = now - started;
}

abbrev pub mark_stopping : {F : Type 0} → ℕ → ComponentHealth F → ComponentHealth F
mark_stopping now h = record h { status = stopping; last_heartbeat = now }

abbrev pub mark_stopped : {F : Type 0} → ℕ → ComponentHealth F → ComponentHealth F
mark_stopped now h = record h { status = stopped; last_heartbeat = now }

abbrev pub mark_error : {F : Type 0} → String → ComponentHealth F → ComponentHealth F
mark_error e h = record h { status = error e; error_count = (h.error_count + 1) % 2 ^ 64 }

abbrev pub count_restart : {F : Type 0} → ComponentHealth F → ComponentHealth F
count_restart h = record h { restart_count = (h.restart_count + 1) % 2 ^ 64 }

-- the forced stop when a shutdown takes too long
abbrev pub stop_by_force : {F : Type 0} → ℕ → ComponentHealth F → ComponentHealth F
stop_by_force now h = if is_stopped h.status then h else mark_stopped now h

module _ (host : Host) where
  abbrev pub M : Type 0 → Type 0
  M A = RuntimeOrchestrator host → RuntimeOrchestrator host × Result Error A

  abbrev pub Outcome : Type 0 → Type 0
  Outcome A = RuntimeOrchestrator host × Result Error A

  abbrev pub and_then : {A B : Type 0} → (A → M B) → Outcome A → Outcome B
  and_then g x = elim x.1 [ ok a ↦ g a x.0 | err e ↦ (x.0, err e) ]

  abbrev pub map_err : {A : Type 0} → (Error → Error) → Outcome A → Outcome A
  map_err wrap x = elim x.1 [ ok a ↦ (x.0, ok a) | err e ↦ (x.0, err (wrap e)) ]

  infixl 5 ◌>>=◌ ◌>>◌
  abbrev pub ◌>>=◌ : {A B : Type 0} → M A → (A → M B) → M B
  ◌>>=◌ f g r = and_then g (f r)

  abbrev pub ◌>>◌ : {B : Type 0} → M (Unit {0}) → M B → M B
  f >> g = f >>= λ _. g

  abbrev pub with_context : {A : Type 0} → (Error → Error) → M A → M A
  with_context wrap f r = map_err wrap (f r)

  -- A write to the health of a component, if it is tracked.
  abbrev pub mark :
      ComponentId
      → (ComponentHealth host.F32 → ComponentHealth host.F32)
      → RuntimeOrchestrator host
      → RuntimeOrchestrator host
  mark id f r = record r { component_health = adjust id f r.component_health }

  abbrev pub sleep : ℕ → RuntimeOrchestrator host → RuntimeOrchestrator host
  sleep ms r = record r { world = host.sleep ms r.world }

  pub new_health : ℕ → ComponentHealth host.F32
  new_health now = record {
    status = stopped;
    last_heartbeat = now;
    error_count = 0;
    restart_count = 0;
    uptime = 0;
    memory_usage = 0;
    cpu_usage = host.zero_f32;
  }

  pub register_component : host.Component → RuntimeOrchestrator host → RuntimeOrchestrator host
  register_component component r = record r {
    components = insert (host.id component) component r.components;
    component_health =
        insert (host.id component) (new_health (host.now r.world)) r.component_health;
  }

  pub send_message : ComponentId → ComponentMessage host.Blockchain → M (Unit {0})
  send_message id message r =
      if r.receiving
      then (record r { message_bus = r.message_bus ++ (id, message) ∷ [] }, ok tt)
      else (r, err send_failed)

  -- the loop of `broadcast_message`
  pub send_each : List ComponentId → ComponentMessage host.Blockchain → M (Unit {0})
  send_each [] message r = (r, ok tt)
  send_each (id ∷ ids) message r = (send_message id message >> send_each ids message) r

  pub broadcast_message : ComponentMessage host.Blockchain → M (Unit {0})
  broadcast_message message r = send_each (keys r.components) message r

  -- What is wired up when a component has started.
  abbrev pub after_start : ComponentId → host.World → host.World
  after_start blockchain w = host.sync_wallet_balances (host.initialize_shared_blockchain w)
  after_start consensus w = host.wire_blockchain_to_consensus w
  after_start protocols w = host.start_reward_orchestrator (host.sleep 500 w)
  after_start _ w = w

  -- the `match` on the result of the start
  pub finish_start : ComponentId → ℕ → Option String → M (Unit {0})
  finish_start id started none r =
      let r₁ = mark id (mark_running started (host.now r.world)) r in
      broadcast_message (custom (str_append "component_started:" (display id)) [])
        (record r₁ { world = after_start id r₁.world })
  finish_start id started (some e) r = (mark id (mark_error e) r, err (component_error e))

  -- `start_component` after the write of `Starting`
  pub run_start : ComponentId → M (Unit {0})
  run_start id r = elim (lookup id r.components) [
    | none ↦ (r, err (component_not_found id))
    | some component ↦
        let (failure, w) = host.start component r.world in
        finish_start id (host.now r.world) failure (record r { world = w })
  ]

  -- the check of a duplicate start
  abbrev pub already_running : ComponentId → RuntimeOrchestrator host → Bool
  already_running id r = elim (lookup id r.component_health) [
    | none ↦ false
    | some h ↦ is_running h.status
  ]

  pub start_component : ComponentId → M (Unit {0})
  start_component id r =
      if already_running id r
      then (r, ok tt)
      else run_start id (mark id (mark_starting (host.now r.world)) r)
