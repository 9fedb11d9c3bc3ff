-- ===== src/ServiceContainer/Resolve.antt =====
-- Which services a container resolves.
use zhtp.Base.{◌≡◌, ◌≢◌, ◌↔◌, refl, false, [], ◌∷◌, arith, Key}
use zhtp.Base.Dict.{lookup-insert, lookup-nil, contains-keys-lookup}
use zhtp.Base.Result.{ok, err}
use zhtp.ServiceContainer.{
  Services, ServiceContainer, ServiceContainerBuilder, service_not_found, new_container, resolve,
  is_registered, build, register_singleton, register_transient, log_each, Factory,
}

module _ (services : Services) where
  open services use {World, TypeId, Instance, type_key}

  instance abbrev type_id : Key TypeId
  type_id = type_key

  pub resolve-not_found_iff :
      (type : TypeId) (c : ServiceContainer services) (w : World)
      → ((resolve services type c w).0 ≡ err service_not_found)
        ↔ (is_registered services type c ≡ false)
  unfolding resolve is_registered
  resolve-not_found_iff type c w = (
    λ e.
        ground
          (arith, contains-keys-lookup type c.singletons, contains-keys-lookup type c.factories),
    λ n.
        ground
          (arith, contains-keys-lookup type c.singletons, contains-keys-lookup type c.factories),
  )

  -- A singleton stands in front of a factory of the same type, whichever was registered first.
  pub resolve-register_singleton :
      (type other : TypeId) (instance_ : Instance) (factory : Factory services)
      (c : ServiceContainer services) (w : World)
      → (resolve services type (register_singleton services type instance_ c) w ≡ (ok instance_, w))
        × (resolve services type
              (register_transient services type factory
                (register_singleton services type instance_ c))
              w
            ≡ (ok instance_, w))
        × (type ≢ other
            → resolve services other
                (register_transient services type factory
                  (register_singleton services type instance_ c))
                w
              ≡ resolve services other c w)
  unfolding resolve register_singleton register_transient
  resolve-register_singleton type other instance_ factory c w = (
    ground (arith, lookup-insert type type instance_ c.singletons),
    ground (arith, lookup-insert type type instance_ c.singletons),
    λ n. ground (
      arith,
      lookup-insert type other instance_ c.singletons,
      lookup-insert type other factory c.factories,
    ),
  )

  log_each-same :
      (registrations : ServiceContainerBuilder services) (c : ServiceContainer services)
      → log_each services registrations c ≡ c
  log_each-same [] c = refl
  log_each-same (_ ∷ registrations) c = log_each-same registrations c

  pub build-resolves_nothing :
      (registrations : ServiceContainerBuilder services) (type : TypeId) (w : World)
      → resolve services type (build services registrations) w ≡ (err service_not_found, w)
  unfolding build new_container resolve
  build-resolves_nothing registrations type w = ground (
    arith,
    log_each-same registrations (new_container services),
    lookup-nil {V = Instance} type,
    lookup-nil {V = Factory services} type,
  )
