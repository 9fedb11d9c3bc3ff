-- ===== src/DependencyInjection.antt =====
-- src/integration/dependency_injection.rs: registration of services by their type, and resolution
-- in a scope. The parameter `Services` has the types and their instances; a factory is a function
-- of the world. What is stored under a type is an instance of that type, so that no downcast
-- fails. `resolve_internal` and `DIScope::get` call each other, on fuel.
pub mod Resolve
pub mod Lifecycle
mod Tests
use Prim.Native.String.{String}
use zhtp.Base.{ℕ, zero, suc, Option, none, some, List, [], ◌∷◌, Key, reverse}
use zhtp.Base.Lists.{length}
use zhtp.Base.Dict.{Dict, lookup, insert, keys}
use zhtp.Base.Result.{Result, ok, err}
use zhtp.TopologicalSort.{Marks, done, circular, out_of_fuel as no_order, sort}

pub record Services : Type 1 where
  pub TypeId : Type 0
  pub type_key : Key TypeId
  pub Instance : Type 0
  pub World : Type 0

pub data Scope : Type 0 where
  singleton transient scoped : Scope

pub data Outcome {ℓ} (A : Type ℓ) : Type ℓ where
  resolved : A → Outcome A
  not_registered no_factory circular_dependency : Outcome A
  factory_failed : String → Outcome A
  out_of_fuel : Outcome A

module _ (lib : Services) where
  open lib use {TypeId, Instance, World}

  instance abbrev type_id : Key TypeId
  type_id = lib.type_key

  -- The errors of an asynchronous factory are values.
  pub record ServiceRegistration : Type 0 where
    pub scope : Scope
    pub factory : Option (World → World × Instance)
    pub async_factory : Option (World → World × Result String Instance)
    pub singleton_instance : Option Instance
    pub dependencies : List TypeId

  pub record DependencyInjector : Type 0 where
    pub services : Dict TypeId ServiceRegistration
    pub singleton_cache : Dict TypeId Instance
    pub initialization_order : List TypeId
    pub world : World

  -- The instances of a scope; the injector that it holds is a clone, which shares all maps.
  abbrev pub DiScope : Type 0
  DiScope = Dict TypeId Instance

  -- `ServiceRegistration::new`
  abbrev pub new_registration : Scope → ServiceRegistration
  new_registration scope = record {
    scope = scope;
    factory = none;
    async_factory = none;
    singleton_instance = none;
    dependencies = [];
  }

  pub dependencies_of : DependencyInjector → TypeId → List TypeId
  dependencies_of d t = elim (lookup t d.services) [ none ↦ [] | some r ↦ r.dependencies ]

  pub update_initialization_order : DependencyInjector → DependencyInjector × Outcome (Unit {0})
  update_initialization_order d =
      elim (sort (dependencies_of d) (suc (length d.services)) (keys d.services)) [
        | done marks ↦ (record d { initialization_order = marks.order }, resolved tt)
        | circular t ↦ (d, circular_dependency)
        | no_order ↦ (d, out_of_fuel)
      ]

  pub register_singleton :
      TypeId → Instance → DependencyInjector → DependencyInjector × Outcome (Unit {0})
  register_singleton t i d = update_initialization_order (record d {
    services =
        insert t (record (new_registration singleton) { singleton_instance = some i }) d.services;
    singleton_cache = insert t i d.singleton_cache;
  })

  pub register_transient :
      TypeId
      → (World → World × Instance)
      → DependencyInjector
      → DependencyInjector × Outcome (Unit {0})
  register_transient t make d = update_initialization_order (record d {
    services = insert t (record (new_registration transient) { factory = some make }) d.services;
  })

  pub register_transient_async :
      TypeId
      → (World → World × Result String Instance)
      → DependencyInjector
      → DependencyInjector × Outcome (Unit {0})
  register_transient_async t make d = update_initialization_order (record d {
    services =
        insert t (record (new_registration transient) { async_factory = some make }) d.services;
  })

  pub register_scoped :
      TypeId
      → (World → World × Instance)
      → DependencyInjector
      → DependencyInjector × Outcome (Unit {0})
  register_scoped t make d = update_initialization_order (record d {
    services = insert t (record (new_registration scoped) { factory = some make }) d.services;
  })

  pub register_dependencies :
      TypeId → List TypeId → DependencyInjector → DependencyInjector × Outcome (Unit {0})
  register_dependencies t deps d = elim (lookup t d.services) [
    | none ↦ (d, not_registered)
    | some r ↦
        update_initialization_order
          (record d { services = insert t (record r { dependencies = deps }) d.services })
  ]

  abbrev outcome_of : Result String Instance → Outcome Instance
  outcome_of (ok i) = resolved i
  outcome_of (err e) = factory_failed e

  pub run_factory :
      Option (World → World × Instance) → DependencyInjector → DependencyInjector × Outcome Instance
  run_factory none d = (d, no_factory)
  run_factory (some make) d = let (w, i) = make d.world in (record d { world = w }, resolved i)

  -- `create_instance`
  pub create_instance :
      ServiceRegistration → DependencyInjector → DependencyInjector × Outcome Instance
  create_instance r d = elim r.singleton_instance [
    | some i ↦ (d, resolved i)
    | none ↦ elim r.async_factory [
      | some make ↦ let (w, o) = make d.world in (record d { world = w }, outcome_of o)
      | none ↦ run_factory r.factory d
    ]
  ]

  -- The injector, the scope if there is one, and what was resolved.
  abbrev pub Resolved : Type 0
  Resolved = DependencyInjector × (Option DiScope × Outcome Instance)

  abbrev pub with_scope : Option DiScope → DependencyInjector × Outcome Instance → Resolved
  with_scope scope r = (r.0, (scope, r.1))

  -- A singleton is made once and cached.
  pub resolve_singleton :
      TypeId → ServiceRegistration → DependencyInjector → DependencyInjector × Outcome Instance
  resolve_singleton t r d = elim (lookup t d.singleton_cache) [
    | some i ↦ (d, resolved i)
    | none ↦
        let (d', o) = create_instance r d in
        elim o [
          | resolved i ↦ (record d' { singleton_cache = insert t i d'.singleton_cache }, resolved i)
          | failure ↦ (d', failure)
        ]
  ]

  -- `DIScope::get` behind the lookup: what was resolved is put into the scope.
  abbrev pub keep_in_scope : TypeId → Resolved → Resolved
  keep_in_scope t (d, (none, o)) = (d, (none, o))
  keep_in_scope t (d, (some s, resolved i)) = (d, (some (insert t i s), resolved i))
  keep_in_scope t (d, (some s, o)) = (d, (some s, o))

  mutual
    pub get : ℕ → TypeId → DiScope → DependencyInjector → Resolved
    get zero t s d = (d, (some s, out_of_fuel))
    get (suc fuel) t s d = elim (lookup t s) [
      | some i ↦ (d, (some s, resolved i))
      | none ↦ keep_in_scope t (resolve_internal fuel t (some s) d)
    ]

    pub resolve_internal : ℕ → TypeId → Option DiScope → DependencyInjector → Resolved
    resolve_internal zero t scope d = (d, (scope, out_of_fuel))
    resolve_internal (suc fuel) t scope d = elim (lookup t d.services) [
      | none ↦ (d, (scope, not_registered))
      | some r ↦ elim r.scope [
        | singleton ↦ with_scope scope (resolve_singleton t r d)
        | transient ↦ with_scope scope (create_instance r d)
        | scoped ↦ elim scope [
          | none ↦ with_scope none (create_instance r d)
          | some s ↦ get fuel t s d
        ]
      ]
    ]
