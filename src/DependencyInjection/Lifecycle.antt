-- ===== src/DependencyInjection/Lifecycle.antt =====
-- src/integration/dependency_injection.rs: initialization, clean-up and health checks of all services.
-- The parameter `Injectables` tells which instances are an `Arc<dyn Injectable>`, what the methods of
-- that trait do, and the names of types.
use Prim.Native.String.{String}
use zhtp.Base.{
  ◌≡◌, refl, inl, inr, Bool, true, false, Option, none, some, List, [], ◌∷◌, reverse, if◌then◌else◌,
  Key, string_key, arith, Option-cases,
}
use zhtp.Base.Lists.{contains-reverse, contains, contains-nil, contains-cons}
use zhtp.Base.Dict.{Dict, lookup, insert, erase, lookup-erase}
use zhtp.Base.Result.{Result, ok, err}
use zhtp.DependencyInjection.{Services, DependencyInjector}

module _ (lib : Services) where
  open lib use {TypeId, Instance, World}

  instance abbrev type_id : Key TypeId
  type_id = lib.type_key

  pub record Injectables : Type 1 where
    pub Injectable : Type 0
    -- `downcast::<Arc<dyn Injectable>>`
    pub as_injectable : Instance → Option Injectable
    pub initialize : Injectable → World → Result String Unit × World
    pub cleanup : Injectable → World → Result String Unit × World
    pub health_check : Injectable → World → Result String Bool × World
    pub type_name : TypeId → String
    -- `format!("Unknown-{:?}", type_id)`
    pub unknown_name : TypeId → String

  module _ (injectables : Injectables) where
    open injectables use {
      Injectable, as_injectable, initialize, cleanup, health_check, type_name, unknown_name,
    }

    -- A type without an instance, and an instance that is not injectable, are passed over.
    pub cached : TypeId → Dict TypeId Instance → Option Injectable
    cached t cache = elim (lookup t cache) [ none ↦ none | some i ↦ as_injectable i ]

    pub initialize_each :
        List TypeId → Dict TypeId Instance → World → Result (TypeId × String) Unit × World
    initialize_each [] cache w = (ok tt, w)
    initialize_each (t ∷ order) cache w = elim (cached t cache) [
      | none ↦ initialize_each order cache w
      | some service ↦
          let (result, w') = initialize service w in
          let rest = initialize_each order cache w' in
          elim result [ ok _ ↦ rest | err e ↦ (err (t, e), w') ]
    ]

    pub initialize_all :
        DependencyInjector lib → Result (TypeId × String) Unit × DependencyInjector lib
    initialize_all d =
        let (result, w) = initialize_each d.initialization_order d.singleton_cache d.world in
        (result, record d { world = w })

    abbrev cleaned : Option Injectable → World → World
    cleaned none w = w
    cleaned (some service) w = (cleanup service w).1

    -- The errors of `cleanup` are logged.
    pub cleanup_each : List TypeId → Dict TypeId Instance → World → Dict TypeId Instance × World
    cleanup_each [] cache w = (cache, w)
    cleanup_each (t ∷ order) cache w =
        cleanup_each order (erase t cache) (cleaned (cached t cache) w)

    pub cleanup_all : DependencyInjector lib → DependencyInjector lib
    cleanup_all d =
        let (cache, w) = cleanup_each (reverse d.initialization_order) d.singleton_cache d.world in
        record d { singleton_cache = cache; world = w }

    abbrev name_of : TypeId → DependencyInjector lib → String
    name_of t d = elim (lookup t d.services) [ none ↦ unknown_name t | some r ↦ type_name t ]

    abbrev is_healthy : Result String Bool → Bool
    is_healthy (ok healthy) = healthy
    is_healthy (err e) = false

    -- What is not injectable counts as healthy.
    abbrev checked : Option Injectable → World → Bool × World
    checked none w = (true, w)
    checked (some service) w = let (result, w') = health_check service w in (is_healthy result, w')

    pub health_check_each :
        DependencyInjector lib
        → Dict TypeId Instance
        → Dict String Bool
        → World
        → Dict String Bool × World
    health_check_each d [] results w = (results, w)
    health_check_each d ((t, i) ∷ cache) results w =
        let (healthy, w') = checked (as_injectable i) w in
        health_check_each d cache (insert (name_of t d) healthy results) w'

    pub health_check_all : DependencyInjector lib → Dict String Bool × DependencyInjector lib
    health_check_all d =
        let (results, w) = health_check_each d d.singleton_cache [] d.world in
        (results, record d { world = w })

    lookup-cleanup_each :
        (t : TypeId) (order : List TypeId) (cache : Dict TypeId Instance) (w : World)
        → lookup t (cleanup_each order cache w).0
          ≡ (if contains t order then none else lookup t cache)
    unfolding cleanup_each
    lookup-cleanup_each t [] cache w = ground (arith, contains-nil t)
    lookup-cleanup_each t (u ∷ order) cache w = ground (
      arith,
      contains-cons t u order,
      lookup-erase u t cache,
      lookup-cleanup_each t order (erase u cache) (cleaned (cached u cache) w),
    )

    pub lookup-cleanup_all :
        (t : TypeId) (d : DependencyInjector lib)
        → lookup t (cleanup_all d).singleton_cache
          ≡ (if contains t d.initialization_order then none else lookup t d.singleton_cache)
    unfolding cleanup_all
    lookup-cleanup_all t d = ground (
      arith,
      lookup-cleanup_each t (reverse d.initialization_order) d.singleton_cache d.world,
      contains-reverse t d.initialization_order,
    )

    idle :
        (order : List TypeId) (cache : Dict TypeId Instance) (w : World)
        → ((i : Instance) → as_injectable i ≡ none)
        → initialize_each order cache w ≡ (ok tt, w)
    unfolding initialize_each cached
    idle [] cache w h = refl
    idle (t ∷ order) cache w h = elim (Option-cases (lookup t cache)) [
      | inl n ↦ ground (arith, idle order cache w h)
      | inr (i, s) ↦ ground (arith, idle order cache w h, h i)
    ]

    -- Nothing is initialized where nothing is injectable, and the call succeeds.
    pub nothing_initialized :
        (d : DependencyInjector lib)
        → ((i : Instance) → as_injectable i ≡ none)
        → initialize_all d ≡ (ok tt, d)
    unfolding initialize_all
    nothing_initialized d h =
        ground (arith, idle d.initialization_order d.singleton_cache d.world h)
