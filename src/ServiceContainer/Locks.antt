-- ===== src/ServiceContainer/Locks.antt =====
-- The locks of a container.
use zhtp.Base.{suc, ◌≡◌, [], arith}
use zhtp.ServiceContainer.{
  Services, ServiceContainer, blocked, shutdown, stop_components, register_component,
}

module _ (services : Services) where
  open services use {World, ComponentId, Component}

  pub shutdown-blocked :
      (c : ServiceContainer services) (w : World) (id : ComponentId) (component : Component)
      → let held = record c { component_readers = suc c.component_readers; singletons = [] } in
        (shutdown services c w ≡ (blocked held, stop_components services c.components w))
        × (register_component services id component held ≡ blocked held)
  unfolding shutdown register_component
  shutdown-blocked c w id component = (ground arith, ground arith)
