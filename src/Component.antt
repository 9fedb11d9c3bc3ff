-- ===== src/Component.antt =====
-- A registered component and its handle: the types of src/integration/component_manager.rs, with
-- `ComponentId` and `ComponentStatus` of src/runtime/mod.rs. What a `dyn Component` does, time
-- and sleeping are the parameter `Environment`. Durations are in seconds, those of `sleep` in
-- milliseconds.
use Prim.Native.String.{String}
use zhtp.Base.{ℕ, ◌+◌, ◌%◌, ◌^◌, Option, none, some, List, Key}

pub data ComponentId : Type 0 where
  crypto zk identity storage network blockchain consensus economics protocols api : ComponentId

unfoldable pub ComponentId-discrete : Discrete ComponentId
ComponentId-discrete = hlevel

instance abbrev pub component_key : Key ComponentId
component_key = record { dec = ComponentId-discrete }

pub data ComponentStatus : Type 0 where
  stopped starting running stopping registered failed : ComponentStatus
  error : String → ComponentStatus

-- `tokio::time::timeout(d, call).await`
pub data Attempt : Type 0 where
  finished : Attempt
  refused : String → Attempt
  timed_out : Attempt

pub record Environment : Type 1 where
  pub World : Type 0
  pub Component : Type 0
  pub id : Component → ComponentId
  pub start : Component → ℕ → World → Attempt × World
  pub stop : Component → ℕ → World → Attempt × World
  -- the error, if any
  pub force_stop : Component → World → Option String × World
  pub now : World → ℕ
  pub sleep : ℕ → World → World

pub record ComponentRegistration (env : Environment) : Type 0 where
  pub id : ComponentId
  pub component : env.Component
  pub dependencies : List ComponentId
  pub startup_timeout : ℕ
  pub shutdown_timeout : ℕ
  pub health_check_interval : ℕ
  pub retry_attempts : ℕ

pub record ComponentHandle : Type 0 where
  pub id : ComponentId
  pub status : ComponentStatus
  pub last_health_check : Option ℕ
  pub start_time : Option ℕ
  pub restart_count : ℕ
  pub last_error : Option String

-- `ComponentHandle::new`
unfoldable pub new_handle : ComponentId → ComponentHandle
new_handle id = record {
  id = id;
  status = registered;
  last_health_check = none;
  start_time = none;
  restart_count = 0;
  last_error = none;
}

abbrev pub mark_starting : ℕ → ComponentHandle → ComponentHandle
mark_starting now h = record h { status = starting; start_time = some now }

abbrev pub mark_running : ComponentHandle → ComponentHandle
mark_running h = record h { status = running }

abbrev pub mark_stopping : ComponentHandle → ComponentHandle
mark_stopping h = record h { status = stopping }

abbrev pub mark_stopped : ComponentHandle → ComponentHandle
mark_stopped h = record h { status = stopped; start_time = none }

-- The counter is a `u32`.
abbrev pub mark_failed : String → ComponentHandle → ComponentHandle
mark_failed message h = record h {
  status = failed;
  last_error = some message;
  restart_count = (h.restart_count + 1) % 2 ^ 32;
}

pub data Error : Type 0 where
  not_registered : ComponentId → Error
  dependency_not_running : ComponentId → ComponentId → ComponentStatus → Error
  start_failed : ComponentId → ℕ → String → Error
  stop_failed : String → Error
  circular_dependency : ComponentId → Error
  -- the recursion of the sort ran out of fuel
  no_fuel : Error
  -- `with_context`
  while_starting while_restarting : ComponentId → Error → Error

pub data Result {ℓ} (A : Type ℓ) : Type ℓ where
  ok : A → Result A
  err : Error → Result A
