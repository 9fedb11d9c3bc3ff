-- ===== src/ComponentManager/Tests.antt =====
-- Runs of the component manager on a small world, and the theorems at concrete inputs.
mod Runs
use zhtp.Base.{
  ℕ, ◌+◌, ◌<◌, ◌≡◌, ap, sym, ◌∙◌, true, false, none, some, inl, inr, List, [], ◌∷◌, arith,
  if◌then◌else◌, ltb, ◌↔◌,
}
use zhtp.Base.Lists.{
  All-contains, eq_of_same, same_refl, contains, contains-cons, contains-nil, All,
}
use zhtp.Base.Dict.{lookup, insert, keys, lookup-nil, lookup-insert, insert-nil}
use zhtp.TopologicalSort.Cycles.{Leads, direct, through}
use zhtp.Component.{
  ComponentId, network, finished, refused, timed_out, Environment, ComponentRegistration,
  circular_dependency, ok, err, component_key, new_handle,
}
use zhtp.ComponentManager.{
  Manager, dependencies_of, status_of, attempt_start, store, register_component_with_config,
  start_component, stop_component,
}
use zhtp.ComponentManager.Touches.{Touches}
use zhtp.ComponentManager.Startup.{
  IsOrdered, update_startup_order_cases, register_component_with_config-IsOrdered,
  register_component_with_config-ok_iff, register_component_with_config-refused,
}
use zhtp.ComponentManager.Starting.{HasHandle, StartOutcome, start_component_outcome}
use zhtp.ComponentManager.Retries.{world_at, attempt_start-succeeds_iff}
use zhtp.ComponentManager.Stopping.{StopStatus, stop_component_outcome}

-- The world counts the starts; a component is its id, and its first start fails.
abbrev pub shy : Environment
shy = record {
  World = ℕ;
  Component = ComponentId;
  id = λ c. c;
  start = λ c limit w. (if ltb w 1 then refused "not yet" else finished, w + 1);
  stop = λ c limit w. (timed_out, w);
  force_stop = λ c w. (none, w);
  now = λ w. w;
  sleep = λ d w. w;
}

-- A world in which each start succeeds.
abbrev pub keen : Environment
keen = record {
  World = ℕ;
  Component = ComponentId;
  id = λ c. c;
  start = λ c limit w. (finished, w);
  stop = λ c limit w. (finished, w);
  force_stop = λ c w. (none, w);
  now = λ w. w;
  sleep = λ d w. w;
}

abbrev pub registration_of :
    (env : Environment) → env.Component → ComponentId → List ComponentId → ComponentRegistration env
registration_of env c id deps = record {
  id = id;
  component = c;
  dependencies = deps;
  startup_timeout = 30;
  shutdown_timeout = 10;
  health_check_interval = 30;
  retry_attempts = 3;
}

-- A manager without registrations, shutdown as given.
abbrev empty : (env : Environment) → env.World → Manager env
empty env w = record {
  components = [];
  handles = [];
  startup_order = [];
  health_checker = false;
  shutdown_requested = false;
  world = w;
}

abbrev alone : (env : Environment) → env.Component → List ComponentId → ComponentRegistration env
alone env c deps = registration_of env c network deps

-- A manager with `network`, which needs `deps`.
abbrev with_network :
    (env : Environment) → env.Component → List ComponentId → env.World → Manager env
with_network env c deps w = store env (alone env c deps) (empty env w)

none-ne-some : {A : Type 0} {a : A} → none ≡ some a → ⊥
none-ne-some e = cc

lookup-single :
    {A : Type 0} (x y : ComponentId) (v w : A)
    → lookup y (insert x v []) ≡ some w
    → (x ≡ y) × (v ≡ w)
lookup-single {A} x y v w e =
    ground (arith, lookup-insert x y v [], lookup-nil {V = A} y, eq_of_same x y)

network-HasHandle :
    (env : Environment) (c : env.Component) (deps : List ComponentId) (w : env.World)
    → HasHandle env (with_network env c deps w) network
unfolding store
network-HasHandle env c deps w e =
    ground (arith, lookup-insert network network (new_handle network) [], same_refl network)

network-registered :
    (env : Environment) (c : env.Component) (deps : List ComponentId) (w : env.World)
    → lookup network (with_network env c deps w).components ≡ some (alone env c deps)
unfolding store
network-registered env c deps w =
    ground (arith, lookup-insert network network (alone env c deps) [], same_refl network)

no_edge :
    (env : Environment) (c : env.Component) (w : env.World) (x y : ComponentId)
    → contains y (dependencies_of env (with_network env c [] w) x) ≡ true
    → ⊥
unfolding store
no_edge env c w x y h = ground (
  arith,
  lookup-insert network x (alone env c []) [],
  lookup-nil {V = ComponentRegistration env} x,
  contains-nil y,
)

-- Nothing depends on anything in `with_network` without dependencies.
not-Leads :
    (env : Environment) (c : env.Component) (w : env.World) (x y : ComponentId)
    → ¬ Leads (dependencies_of env (with_network env c [] w)) x y
not-Leads env c w x y (direct h) = no_edge env c w x y h
not-Leads env c w x y (through {y = z} l h) = no_edge env c w z y h

edge_to_network :
    (env : Environment) (c : env.Component) (w : env.World) (x y : ComponentId)
    → contains y (dependencies_of env (with_network env c (network ∷ []) w) x) ≡ true
    → y ≡ network
unfolding store
edge_to_network env c w x y h = ground (
  arith,
  lookup-insert network x (alone env c (network ∷ [])) [],
  lookup-nil {V = ComponentRegistration env} x,
  contains-cons y network [],
  contains-nil y,
  eq_of_same network y,
)

-- `network` that needs itself leads to nothing else.
only_network :
    (env : Environment) (c : env.Component) (w : env.World) (x y : ComponentId)
    → Leads (dependencies_of env (with_network env c (network ∷ []) w)) x y
    → y ≡ network
only_network env c w x y (direct h) = edge_to_network env c w x y h
only_network env c w x y (through {y = z} l h) = edge_to_network env c w z y h

acyclic :
    (env : Environment) (c : env.Component) (w : env.World) (ids : List ComponentId)
    → All (λ id. ¬ Leads (dependencies_of env (with_network env c [] w)) id id) ids
acyclic env c w [] = tt
acyclic env c w (x ∷ ids) = (not-Leads env c w x x, acyclic env c w ids)

registered_fine :
    (env : Environment) (c : env.Component) (w : env.World)
    → (register_component_with_config env (alone env c []) (empty env w)).1 ≡ ok tt
registered_fine env c w =
    (register_component_with_config-ok_iff env (alone env c []) (empty env w)).1
      (acyclic env c w (keys (with_network env c [] w).components))

register_component_with_config-IsOrdered_example :
    IsOrdered keen (register_component_with_config keen (alone keen network []) (empty keen 0)).0
register_component_with_config-IsOrdered_example =
    register_component_with_config-IsOrdered keen (alone keen network []) (empty keen 0)
      (registered_fine keen network 0)

register_component_with_config-ok_iff_example :
    ((register_component_with_config keen (alone keen network []) (empty keen 0)).1 ≡ ok tt)
    ↔ All
        (λ id. ¬ Leads (dependencies_of keen (with_network keen network [] 0)) id id)
        (keys (with_network keen network [] 0).components)
register_component_with_config-ok_iff_example =
    register_component_with_config-ok_iff keen (alone keen network []) (empty keen 0)

-- `network` that needs itself is refused.
refused_itself :
    (env : Environment) (c : env.Component) (w : env.World)
    → (register_component_with_config env (alone env c (network ∷ [])) (empty env w)).1
      ≡ err (circular_dependency network)
unfolding register_component_with_config store
refused_itself env c w =
    let m = with_network env c (network ∷ []) w in
    elim (update_startup_order_cases env m) [
      | inl (_, _, free) ↦ absurd (All-contains _ _ network free (there env c w) (itself env c w))
      | inr (x, e, l) ↦
          ap (λ r. r.1) e ∙ ap (λ i. err (circular_dependency i)) (only_network env c w x x l)
    ]
  where
    itself :
        (env : Environment) (c : env.Component) (w : env.World)
        → Leads (dependencies_of env (with_network env c (network ∷ []) w)) network network
    itself env c w = direct (
        ground (
          arith,
          network-registered env c (network ∷ []) w,
          contains-cons network network [],
          same_refl network,
        ))

    there :
        (env : Environment) (c : env.Component) (w : env.World)
        → contains network (keys (with_network env c (network ∷ []) w).components) ≡ true
    there env c w =
        ap (λ d. contains network (keys d)) (insert-nil network (alone env c (network ∷ [])))
        ∙ ground (arith, contains-cons network network [], same_refl network)
