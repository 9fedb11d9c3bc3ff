-- ===== src/RewardOrchestrator.antt =====
-- src/runtime/reward_orchestrator.rs without its rate limiter: the configuration, the tasks of the
-- two processors and the status. `tokio` is a list of the tasks that run: `start` of a processor
-- spawns a task with the next number, and `abort` of its handle ends it. A task whose check interval
-- is zero panics in `tokio::time::interval` at its first poll, and is not among those that run; a
-- task ends in no other way here. `start_all` reads a handle, spawns and stores under two locks, so
-- that other calls may come between: `spawn` and `store` are steps of their own.
pub mod Stages
pub mod Storing
pub mod Tasks
pub mod Status
mod Tests
use Prim.Native.String.{String, ◌++◌}
use zhtp.Base.{
  ℕ, zero, suc, ◌+◌, ◌^◌, ◌%◌, Bool, true, false, ◌&&◌, Option, none, some, List, [], ◌∷◌,
  if◌then◌else◌, ◌==◌,
}
use zhtp.RewardProcessor.{RewardConfig, default_config}

-- The fields of `RewardsConfig` of src/config/aggregation.rs.
pub record RewardsConfig : Type 0 where
  pub enabled : Bool
  pub auto_claim : Bool
  pub routing_rewards_enabled : Bool
  pub routing_check_interval_secs : ℕ
  pub routing_minimum_threshold : ℕ
  pub routing_max_batch_size : ℕ
  pub storage_rewards_enabled : Bool
  pub storage_check_interval_secs : ℕ
  pub storage_minimum_threshold : ℕ
  pub storage_max_batch_size : ℕ
  pub cooldown_period_secs : ℕ
  pub max_claims_per_hour : ℕ

-- `RewardsConfig::default`
abbrev pub default_rewards_config : RewardsConfig
default_rewards_config = record {
  enabled = true;
  auto_claim = true;
  routing_rewards_enabled = true;
  routing_check_interval_secs = 600;
  routing_minimum_threshold = 100;
  routing_max_batch_size = 10000;
  storage_rewards_enabled = true;
  storage_check_interval_secs = 600;
  storage_minimum_threshold = 100;
  storage_max_batch_size = 10000;
  cooldown_period_secs = 600;
  max_claims_per_hour = 6;
}

pub record RewardOrchestratorConfig : Type 0 where
  pub routing_config : RewardConfig
  pub storage_config : RewardConfig
  pub enable_routing_rewards : Bool
  pub enable_storage_rewards : Bool
  pub cooldown_period_secs : ℕ
  pub max_claims_per_hour : ℕ

-- `RewardOrchestratorConfig::default`
abbrev pub default_orchestrator_config : RewardOrchestratorConfig
default_orchestrator_config = record {
  routing_config = default_config;
  storage_config = default_config;
  enable_routing_rewards = true;
  enable_storage_rewards = true;
  cooldown_period_secs = 600;
  max_claims_per_hour = 6;
}

-- `From<&RewardsConfig>`
pub from_rewards_config : RewardsConfig → RewardOrchestratorConfig
from_rewards_config config = record {
  routing_config = record {
    check_interval = config.routing_check_interval_secs;
    minimum_threshold = config.routing_minimum_threshold;
    max_batch_size = config.routing_max_batch_size;
  };
  storage_config = record {
    check_interval = config.storage_check_interval_secs;
    minimum_threshold = config.storage_minimum_threshold;
    max_batch_size = config.storage_max_batch_size;
  };
  enable_routing_rewards = config.enabled && config.routing_rewards_enabled;
  enable_storage_rewards = config.enabled && config.storage_rewards_enabled;
  cooldown_period_secs = config.cooldown_period_secs;
  max_claims_per_hour = config.max_claims_per_hour;
}

pub data Processor : Type 0 where
  routing storage : Processor

-- A task that runs: its number, and the processor that it runs.
abbrev pub Task : Type 0
Task = ℕ × Processor

pub record RewardOrchestrator : Type 0 where
  pub config : RewardOrchestratorConfig
  pub routing_handle : Option ℕ
  pub storage_handle : Option ℕ
  -- `tokio`
  pub tasks : List Task
  pub spawned : ℕ

-- `RewardOrchestrator::with_config`
pub with_config : RewardOrchestratorConfig → RewardOrchestrator
with_config config = record {
  config = config;
  routing_handle = none;
  storage_handle = none;
  tasks = [];
  spawned = 0;
}

unfoldable pub is_for : Processor → Processor → Bool
is_for routing routing = true
is_for storage storage = true
is_for _ _ = false

-- `routing_handle` or `storage_handle`
pub handle_of : Processor → RewardOrchestrator → Option ℕ
handle_of routing o = o.routing_handle
handle_of storage o = o.storage_handle

pub set_handle : Processor → Option ℕ → RewardOrchestrator → RewardOrchestrator
set_handle routing handle o = record o { routing_handle = handle }
set_handle storage handle o = record o { storage_handle = handle }

pub is_enabled : Processor → RewardOrchestratorConfig → Bool
is_enabled routing config = config.enable_routing_rewards
is_enabled storage config = config.enable_storage_rewards

pub interval_of : Processor → RewardOrchestratorConfig → ℕ
interval_of routing config = config.routing_config.check_interval
interval_of storage config = config.storage_config.check_interval

-- `routing_processor.clone().start()` or `storage_processor.clone().start()`: the handle is the
-- number of the task, `spawned` before.
pub spawn : Processor → RewardOrchestrator → RewardOrchestrator
spawn p o = record o {
  tasks = if interval_of p o.config == 0 then o.tasks else (o.spawned, p) ∷ o.tasks;
  spawned = o.spawned + 1;
}

-- The write of the handle; the task of a handle that is overwritten runs on.
pub store : Processor → ℕ → RewardOrchestrator → RewardOrchestrator
store p n o = set_handle p (some n) o

-- A branch of `start_all` with no other call between its steps.
pub start : Processor → RewardOrchestrator → RewardOrchestrator
start p o = elim (handle_of p o) [ some _ ↦ o | none ↦ store p o.spawned (spawn p o) ]

-- With no other call between its steps; it never fails.
pub start_all : RewardOrchestrator → RewardOrchestrator
start_all o =
    let o₁ = if is_enabled routing o.config then start routing o else o in
    if is_enabled storage o₁.config then start storage o₁ else o₁

pub abort : ℕ → List Task → List Task
abort n [] = []
abort n ((k, p) ∷ tasks) = let rest = abort n tasks in if k == n then rest else (k, p) ∷ rest

-- A branch of `stop_all`, which holds the lock from the read of the handle to the abort.
pub stop : Processor → RewardOrchestrator → RewardOrchestrator
stop p o = elim (handle_of p o) [
  | none ↦ o
  | some n ↦ record (set_handle p none o) { tasks = abort n o.tasks }
]

pub stop_all : RewardOrchestrator → RewardOrchestrator
stop_all o = stop storage (stop routing o)

abbrev is_some : Option ℕ → Bool
is_some none = false
is_some (some _) = true

pub is_routing_running : RewardOrchestrator → Bool
is_routing_running o = is_some o.routing_handle

pub is_storage_running : RewardOrchestrator → Bool
is_storage_running o = is_some o.storage_handle

pub record RewardOrchestratorStatus : Type 0 where
  pub routing_enabled : Bool
  pub storage_enabled : Bool
  pub routing_running : Bool
  pub storage_running : Bool

pub get_status : RewardOrchestrator → RewardOrchestratorStatus
get_status o = record {
  routing_enabled = o.config.enable_routing_rewards;
  storage_enabled = o.config.enable_storage_rewards;
  routing_running = is_routing_running o;
  storage_running = is_storage_running o;
}

abbrev eqb : Bool → Bool → Bool
eqb true b = b
eqb false true = false
eqb false false = true

pub is_fully_operational : RewardOrchestratorStatus → Bool
is_fully_operational s =
    eqb s.routing_enabled s.routing_running && eqb s.storage_enabled s.storage_running

pub describe : Bool → Bool → String
describe true true = "Running"
describe true false = "Enabled but not running"
describe false _ = "Disabled"

-- `RewardOrchestratorStatus::description`
pub description : RewardOrchestratorStatus → String
description s =
    "Routing: "
    ++ (describe s.routing_enabled s.routing_running
        ++ (", Storage: " ++ describe s.storage_enabled s.storage_running))
