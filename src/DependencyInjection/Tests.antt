-- ===== src/DependencyInjection/Tests.antt =====
-- A small container, and the theorems at concrete inputs.
use zhtp.Base.{ℕ, ◌+◌, ◌≡◌, none, some, [], ◌∷◌, nat_key, arith}
use zhtp.Base.Dict.{lookup, lookup-cons}
use zhtp.Base.Lists.{same_refl}
use zhtp.DependencyInjection.{
  Services, Scope, singleton, resolved, ServiceRegistration, DependencyInjector, new_registration,
  resolve_internal, resolve_singleton,
}
use zhtp.DependencyInjection.Resolve.{outcome}

-- The world counts the instances that were made.
abbrev counting : Services
counting = record { TypeId = ℕ; type_key = nat_key; Instance = ℕ; World = ℕ }

abbrev made : Scope → ServiceRegistration counting
made scope = record (new_registration counting scope) { factory = some (λ w. (w + 1, w)) }

-- One service, of the type 3.
abbrev one : Scope → DependencyInjector counting
one scope = record {
  services = (3, made scope) ∷ [];
  singleton_cache = (3, 8) ∷ [];
  initialization_order = 3 ∷ [];
  world = 0;
}

one-found : (scope : Scope) → lookup 3 (one scope).services ≡ some (made scope)
one-found scope = ground (arith, lookup-cons {K = ℕ} 3 3 (made scope) [], same_refl {K = ℕ} 3)

one-resolves : outcome counting (resolve_internal counting 1 3 none (one singleton)) ≡ resolved 8
unfolding resolve_internal resolve_singleton
one-resolves =
    ground (arith, one-found singleton, lookup-cons {K = ℕ} {V = ℕ} 3 3 8 [], same_refl {K = ℕ} 3)
