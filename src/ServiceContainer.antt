-- ===== src/ServiceContainer.antt =====
-- src/integration/service_container.rs. Types, instances, components and the world that components and
-- factories work in are the parameter `Services`. What is registered under a type is an instance of
-- it, so that no downcast fails. A lock whose guard a handler holds to its end is a number of readers.
pub mod Resolve
pub mod Locks
mod Tests
use Prim.Native.String.{String}
use zhtp.Base.{
  ℕ, suc, ◌+◌, Bool, true, false, ◌||◌, Option, none, some, List, [], ◌∷◌, ◌++◌, if◌then◌else◌,
  ◌==◌, Key,
}
use zhtp.Base.Lists.{length, contains}
use zhtp.Base.Dict.{Dict, lookup, insert, keys}
use zhtp.Base.Result.{Result, ok, err}

pub record Services : Type 1 where
  pub World : Type 0
  pub TypeId : Type 0
  pub ComponentId : Type 0
  pub Component : Type 0
  pub Instance : Type 0
  pub type_key : Key TypeId
  pub component_key : Key ComponentId
  -- `Component::stop`
  pub stop : Component → World → Result String Unit × World
  -- the type and the instance of the reference to itself that a container registers
  pub self_type : TypeId
  pub self_reference : Instance

pub data ServiceLifetime : Type 0 where
  transient singleton scoped : ServiceLifetime

pub data ContainerError : Type 0 where
  factory_failed : String → ContainerError
  service_not_found component_not_found scoped_not_implemented : ContainerError

-- A call that returns, or one that waits for a lock that is never given back.
pub data Outcome (A : Type 0) : Type 0 where
  returned blocked : A → Outcome A

module _ (services : Services) where
  open services use {
    World, TypeId, ComponentId, Component, Instance, type_key, component_key, stop, self_type,
    self_reference,
  }

  instance abbrev type_id : Key TypeId
  type_id = type_key

  instance abbrev component_id : Key ComponentId
  component_id = component_key

  -- `ServiceFactory::create`; the container that it is given is a part of the world.
  abbrev pub Factory : Type 0
  Factory = World → Result String Instance × World

  -- The map `services` is only cleared.
  pub record ServiceContainer : Type 0 where
    pub singletons : Dict TypeId Instance
    pub components : Dict ComponentId Component
    pub factories : Dict TypeId Factory
    pub initialized : Bool
    -- the read guards on `components` that are held
    pub component_readers : ℕ

  -- `ServiceContainer::new`
  pub new_container : ServiceContainer
  new_container = record {
    singletons = [];
    components = [];
    factories = [];
    initialized = false;
    component_readers = 0;
  }

  pub register_singleton : TypeId → Instance → ServiceContainer → ServiceContainer
  register_singleton type instance_ c = record c { singletons = insert type instance_ c.singletons }

  pub register_transient : TypeId → Factory → ServiceContainer → ServiceContainer
  register_transient type factory c = record c { factories = insert type factory c.factories }

  -- `components.write()`: it waits while a read guard is held.
  abbrev pub write_components :
      (Dict ComponentId Component → Dict ComponentId Component)
      → ServiceContainer
      → Outcome ServiceContainer
  write_components f c =
      if c.component_readers == 0
      then returned (record c { components = f c.components })
      else blocked c

  pub register_component : ComponentId → Component → ServiceContainer → Outcome ServiceContainer
  register_component id component = write_components (insert id component)

  -- The reference is made from a container that is dropped at once.
  pub register_core_services : ServiceContainer → ServiceContainer
  register_core_services = register_singleton self_type self_reference

  pub initialize : ServiceContainer → ServiceContainer
  initialize c =
      if c.initialized then c else record (register_core_services c) { initialized = true }

  -- `ServiceContainerReference::upgrade`, once no strong reference is left
  pub upgrade : Instance → Option ServiceContainer
  upgrade reference = none

  -- The errors of `stop` are logged.
  pub stop_components : Dict ComponentId Component → World → World
  stop_components [] w = w
  stop_components ((id, component) ∷ components) w = stop_components components (stop component w).1

  abbrev finish_shutdown : Outcome ServiceContainer → Outcome ServiceContainer
  finish_shutdown (returned c) = returned (record c { initialized = false })
  finish_shutdown (blocked c) = blocked c

  -- The read guard on `components`, which the loop goes over, is held to the end.
  pub shutdown : ServiceContainer → World → Outcome ServiceContainer × World
  shutdown c w =
      let reading = record c { component_readers = suc c.component_readers } in
      let stopped = stop_components c.components w in
      (finish_shutdown (write_components (λ _. []) (record reading { singletons = [] })), stopped)

  pub resolve : TypeId → ServiceContainer → World → Result ContainerError Instance × World
  resolve type c w = elim (lookup type c.singletons) [
    | some instance_ ↦ (ok instance_, w)
    | none ↦ elim (lookup type c.factories) [
      | none ↦ (err service_not_found, w)
      | some factory ↦
          let (created, w') = factory w in
          elim created [ ok instance_ ↦ (ok instance_, w') | err e ↦ (err (factory_failed e), w') ]
    ]
  ]

  pub resolve_component : ComponentId → ServiceContainer → Result ContainerError Component
  resolve_component id c = elim (lookup id c.components) [
    | none ↦ err component_not_found
    | some component ↦ ok component
  ]

  abbrev pub get_components : ServiceContainer → List ComponentId
  get_components c = keys c.components

  pub is_registered : TypeId → ServiceContainer → Bool
  is_registered type c = contains type (keys c.singletons) || contains type (keys c.factories)

  pub is_component_registered : ComponentId → ServiceContainer → Bool
  is_component_registered id c = contains id (keys c.components)

  abbrev pub health_check : ServiceContainer → Bool
  health_check c = c.initialized

  pub record ServiceContainerStats : Type 0 where
    pub initialized : Bool
    pub component_count : ℕ
    pub singleton_count : ℕ
    pub factory_count : ℕ
    pub registered_components : List ComponentId

  pub get_statistics : ServiceContainer → ServiceContainerStats
  get_statistics c = record {
    initialized = c.initialized;
    component_count = length c.components;
    singleton_count = length c.singletons;
    factory_count = length c.factories;
    registered_components = keys c.components;
  }

  -- `ServiceScope`
  abbrev pub ServiceScope : Type 0
  ServiceScope = Dict TypeId Instance

  abbrev pub create_scope : ServiceScope
  create_scope = []

  pub resolve_scoped : TypeId → ServiceScope → Result ContainerError Instance
  resolve_scoped type scope = elim (lookup type scope) [
    | some instance_ ↦ ok instance_
    | none ↦ err scoped_not_implemented
  ]

  pub record ServiceRegistration : Type 0 where
    pub service_type : TypeId
    pub implementation_type : TypeId
    pub lifetime : ServiceLifetime
    pub factory : Option Factory

  abbrev pub ServiceContainerBuilder : Type 0
  ServiceContainerBuilder = List ServiceRegistration

  pub add_singleton : TypeId → TypeId → ServiceContainerBuilder → ServiceContainerBuilder
  add_singleton interface implementation registrations =
      registrations
      ++ record {
        service_type = interface;
        implementation_type = implementation;
        lifetime = singleton;
        factory = none;
      }
        ∷ []

  -- The factory makes the default of the implementation.
  pub add_transient : TypeId → TypeId → Factory → ServiceContainerBuilder → ServiceContainerBuilder
  add_transient interface implementation default_of registrations =
      registrations
      ++ record {
        service_type = interface;
        implementation_type = implementation;
        lifetime = transient;
        factory = some default_of;
      }
        ∷ []

  -- Each registration is only logged.
  abbrev log_each : ServiceContainerBuilder → ServiceContainer → ServiceContainer
  log_each [] c = c
  log_each (_ ∷ registrations) c = log_each registrations c

  pub build : ServiceContainerBuilder → ServiceContainer
  build registrations = log_each registrations new_container
