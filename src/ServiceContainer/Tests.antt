-- ===== src/ServiceContainer/Tests.antt =====
-- A service container at concrete inputs: types, components and instances are numbers, the world
-- counts the components that were stopped.
use zhtp.Base.{ℕ, ◌+◌, ◌≡◌, refl, true, [], ◌∷◌, nat_key}
use zhtp.Base.Result.{ok, err}
use zhtp.ServiceContainer.{Services, ServiceContainer, Factory, stop_components}

abbrev services : Services
services = record {
  World = ℕ;
  TypeId = ℕ;
  ComponentId = ℕ;
  Component = ℕ;
  Instance = ℕ;
  type_key = nat_key;
  component_key = nat_key;
  stop = λ component w. (ok tt, w + 1);
  self_type = 0;
  self_reference = 0;
}

abbrev two_components : ServiceContainer services
two_components = record {
  singletons = (1, 10) ∷ [];
  components = (1, 5) ∷ (2, 6) ∷ [];
  factories = [];
  initialized = true;
  component_readers = 0;
}

abbrev failing : Factory services
failing w = (err "no memory", w)

two_stopped : stop_components services two_components.components 0 ≡ 2
unfolding stop_components
two_stopped = refl
