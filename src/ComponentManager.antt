-- ===== src/ComponentManager.antt =====
-- The `ComponentManager` of src/integration/component_manager.rs. A handler takes the manager and
-- returns it beside its result.
pub mod Startup
pub mod Touches
pub mod Starting
pub mod StartAll
pub mod Retries
pub mod Stopping
mod Tests
use Prim.Native.String.{String, ◌++◌}
use zhtp.Base.{
  ℕ, zero, suc, ◌+◌, ◌%◌, ◌^◌, Bool, true, false, Option, none, some, List, [], ◌∷◌, reverse,
  if◌then◌else◌, ltb, Key,
}
use zhtp.Base.Lists.{length}
use zhtp.Base.Dict.{Dict, lookup, insert, keys, adjust}
use zhtp.TopologicalSort.{Marks, done, circular, out_of_fuel, sort}
use zhtp.Component.{
  Attempt, ComponentHandle, ComponentId, ComponentId-discrete, ComponentRegistration,
  ComponentStatus, Environment, Error, Result, api, blockchain, circular_dependency, component_key,
  consensus, crypto, dependency_not_running, economics, err, error, failed, finished, identity,
  mark_failed, mark_running, mark_starting, mark_stopped, mark_stopping, network, new_handle,
  no_fuel, not_registered, ok, protocols, refused, registered, running, start_failed, starting,
  stop_failed, stopped, stopping, storage, timed_out, while_restarting, while_starting, zk,
}

pub record Manager (env : Environment) : Type 0 where
  pub components : Dict ComponentId (ComponentRegistration env)
  pub handles : Dict ComponentId ComponentHandle
  pub startup_order : List ComponentId
  -- whether the task of the health checker is there
  pub health_checker : Bool
  pub shutdown_requested : Bool
  pub world : env.World

-- A handler over a state: the state that it leaves stays when it fails.
abbrev pub Handler : Type 0 → Type 0 → Type 0
Handler S A = S → S × Result A

abbrev pub and_then : {S A B : Type 0} → (A → Handler S B) → S × Result A → S × Result B
and_then g r = elim r.1 [ ok a ↦ g a r.0 | err e ↦ (r.0, err e) ]

infixl 5 ◌>>=◌ ◌>>◌
abbrev pub ◌>>=◌ : {S A B : Type 0} → Handler S A → (A → Handler S B) → Handler S B
◌>>=◌ f g s = and_then g (f s)

abbrev pub ◌>>◌ : {S B : Type 0} → Handler S (Unit {0}) → Handler S B → Handler S B
f >> g = f >>= λ _. g

abbrev pub map_err : {S A : Type 0} → (Error → Error) → S × Result A → S × Result A
map_err wrap r = elim r.1 [ ok a ↦ (r.0, ok a) | err e ↦ (r.0, err (wrap e)) ]

abbrev pub with_context : {S A : Type 0} → (Error → Error) → Handler S A → Handler S A
with_context wrap f s = map_err wrap (f s)

abbrev pub is_running : ComponentStatus → Bool
is_running running = true
is_running _ = false

abbrev pub is_live : ComponentStatus → Bool
is_live running = true
is_live starting = true
is_live _ = false

module _ (env : Environment) where
  abbrev pub M : Type 0
  M = Handler (Manager env) (Unit {0})

  -- A write to the handle of a component, if there is one.
  abbrev pub mark : ComponentId → (ComponentHandle → ComponentHandle) → Manager env → Manager env
  mark id f m = record m { handles = adjust id f m.handles }

  abbrev pub dependencies_in :
      Dict ComponentId (ComponentRegistration env) → ComponentId → List ComponentId
  dependencies_in components id = elim (lookup id components) [
    | none ↦ []
    | some registration ↦ registration.dependencies
  ]

  abbrev pub dependencies_of : Manager env → ComponentId → List ComponentId
  dependencies_of m = dependencies_in m.components

  -- The status that `check_dependencies` and `shutdown_all` read: `Stopped` without a handle.
  abbrev pub status_of : Manager env → ComponentId → ComponentStatus
  status_of m id = elim (lookup id m.handles) [ none ↦ stopped | some h ↦ h.status ]

  -- the loop of `check_dependencies`
  pub check_all : ComponentId → List ComponentId → M
  check_all id [] m = (m, ok tt)
  check_all id (dep ∷ deps) m =
      if is_running (status_of m dep)
      then check_all id deps m
      else (m, err (dependency_not_running dep id (status_of m dep)))

  pub check_dependencies : ComponentId → M
  check_dependencies id m = check_all id (dependencies_of m id) m

  -- Fuel for the recursion: more than the number of components.
  pub update_startup_order : M
  update_startup_order m =
      elim (sort (dependencies_of m) (suc (length m.components)) (keys m.components)) [
        | done marks ↦ (record m { startup_order = marks.order }, ok tt)
        | circular id ↦ (m, err (circular_dependency id))
        | out_of_fuel ↦ (m, err no_fuel)
      ]

  -- Both maps, under the two write locks.
  pub store : ComponentRegistration env → Manager env → Manager env
  store registration m = record m {
    components = insert registration.id registration m.components;
    handles = insert registration.id (new_handle registration.id) m.handles;
  }

  pub register_component_with_config : ComponentRegistration env → M
  register_component_with_config registration m = update_startup_order (store registration m)

  -- `ComponentRegistration::new`
  pub new_registration : env.Component → ComponentRegistration env
  new_registration component = record {
    id = env.id component;
    component = component;
    dependencies = [];
    startup_timeout = 30;
    shutdown_timeout = 10;
    health_check_interval = 30;
    retry_attempts = 3;
  }

  pub register_component : env.Component → M
  register_component component = register_component_with_config (new_registration component)

  -- the sleep between two attempts
  abbrev pub pause : ℕ → env.World → env.World
  pause zero w = w
  pause (suc left) w = env.sleep 1000 w

  -- The `while` loop of `start_component`, `left` attempts before its end: the world, and the last
  -- error if no attempt succeeded.
  pub attempt_start : env.Component → ℕ → ℕ → Option String → env.World → env.World × Option String
  attempt_start component timeout zero last w =
      (w, elim last [ none ↦ some "Unknown error" | some e ↦ some e ])
  attempt_start component timeout (suc left) last w =
      let (outcome, w') = env.start component timeout w in
      let again = λ (e : String). attempt_start component timeout left (some e) (pause left w') in
      elim outcome [
        | finished ↦ (w', none)
        | refused e ↦ again e
        | timed_out ↦ again "Startup timeout"
      ]

  -- The handle after the loop, by the error that is left.
  pub finish_start : ComponentId → ℕ → Option String → M
  finish_start id attempts none m = (mark id mark_running m, ok tt)
  finish_start id attempts (some e) m =
      (mark id (mark_failed e) m, err (start_failed id attempts e))

  -- What follows the lookup of the registration.
  pub run_start : ComponentId → ComponentRegistration env → M
  run_start id registration m =
      let m₁ = mark id (mark_starting (env.now m.world)) m in
      let attempts = registration.retry_attempts in
      let (w, failure) =
        attempt_start registration.component registration.startup_timeout attempts none m₁.world in
      finish_start id attempts failure (record m₁ { world = w })

  -- `start_component` after the check of the dependencies
  pub start_registered : ComponentId → M
  start_registered id m = elim (lookup id m.components) [
    | none ↦ (m, err (not_registered id))
    | some registration ↦ run_start id registration m
  ]

  pub start_component : ComponentId → M
  start_component id = do check_dependencies id; start_registered id

  pub finish_force_stop : ComponentId → Option String → M
  finish_force_stop id none m = (mark id mark_stopped m, ok tt)
  finish_force_stop id (some e) m =
      (mark id (mark_failed ("Force stop failed: " ++ e)) m, err (stop_failed e))

  -- The branch of `stop_component` whose graceful stop timed out.
  pub run_force_stop : ComponentId → ComponentRegistration env → M
  run_force_stop id registration m =
      let (failure, w) = env.force_stop registration.component m.world in
      finish_force_stop id failure (record m { world = w })

  -- the `match` on the result of the graceful stop
  pub finish_stop : ComponentId → ComponentRegistration env → Attempt → M
  finish_stop id registration finished m = (mark id mark_stopped m, ok tt)
  finish_stop id registration (refused e) m = (mark id (mark_failed e) m, err (stop_failed e))
  finish_stop id registration timed_out m = run_force_stop id registration m

  pub run_stop : ComponentId → ComponentRegistration env → M
  run_stop id registration m =
      let m₁ = mark id mark_stopping m in
      let (outcome, w) = env.stop registration.component registration.shutdown_timeout m₁.world in
      finish_stop id registration outcome (record m₁ { world = w })

  pub stop_component : ComponentId → M
  stop_component id m = elim (lookup id m.components) [
    | none ↦ (m, err (not_registered id))
    | some registration ↦ run_stop id registration m
  ]

  -- the loop of `start_all`
  pub start_each : List ComponentId → M
  start_each [] m = (m, ok tt)
  start_each (id ∷ ids) m =
      let go = (with_context (while_starting id) (start_component id) >> start_each ids) m in
      if m.shutdown_requested then (m, ok tt) else go

  pub start_all : M
  start_all m = start_each m.startup_order m

  -- the loop of `shutdown_all`, which drops the errors
  pub stop_each : List ComponentId → Manager env → Manager env
  stop_each [] m = m
  stop_each (id ∷ ids) m =
      stop_each ids (if is_live (status_of m id) then (stop_component id m).0 else m)

  pub shutdown_all : M
  shutdown_all m =
      let m₁ = record m { shutdown_requested = true; health_checker = false } in
      (stop_each (reverse m₁.startup_order) m₁, ok tt)

  pub restart_component : ComponentId → M
  restart_component id m =
      let m₁ = (stop_component id m).0 in
      let m₂ = record m₁ { world = env.sleep 500 m₁.world } in
      with_context (while_restarting id) (start_component id) m₂
