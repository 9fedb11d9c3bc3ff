-- ===== src/DependencyInjection/Resolve.antt =====
-- Which resolutions end, and with what.
use zhtp.Base.{
  ℕ, zero, suc, ◌≡◌, ◌≢◌, refl, sym, ap, subst, ◌∙◌, ◌⊎◌, inl, inr, Option, none, some, Key, arith,
  Option-cases,
}
use zhtp.Base.Dict.{lookup, lookup-insert}
use zhtp.Base.Lists.{same_refl}
use zhtp.DependencyInjection.{
  Services, singleton, scoped, Outcome, resolved, not_registered, no_factory, circular_dependency,
  factory_failed, out_of_fuel, ServiceRegistration, DependencyInjector, DiScope, Resolved,
  with_scope, keep_in_scope, run_factory, create_instance, resolve_singleton, get, resolve_internal,
}

module _ (lib : Services) where
  open lib use {TypeId, Instance, World}

  instance abbrev type_id : Key TypeId
  type_id = lib.type_key

  abbrev pub outcome : Resolved lib → Outcome Instance
  outcome r = r.1.1

  keep_in_scope-diverges :
      (t : TypeId) (r : Resolved lib)
      → outcome r ≡ out_of_fuel
      → outcome (keep_in_scope lib t r) ≡ out_of_fuel
  keep_in_scope-diverges t (d, (none, o)) h = h
  keep_in_scope-diverges t (d, (some s, o)) h = ground (arith, h)

  module _ (t : TypeId) (d : DependencyInjector lib) (r : ServiceRegistration lib) (s : DiScope lib)
      (found : lookup t d.services ≡ some r) (is_scoped : r.scope ≡ scoped)
      (absent : lookup t s ≡ none) where
    get-step :
        (fuel : ℕ)
        → get lib (suc fuel) t s d ≡ keep_in_scope lib t (resolve_internal lib fuel t (some s) d)
    unfolding get
    get-step fuel = rw (absent, get) refl

    resolve_internal-step :
        (fuel : ℕ) → resolve_internal lib (suc fuel) t (some s) d ≡ get lib fuel t s d
    unfolding resolve_internal
    resolve_internal-step fuel = ground (arith, found, is_scoped)

    -- A service that is registered as scoped and not in the scope yet is never resolved in
    -- it: whatever the fuel, both get and resolve_internal use it up, as each calls the
    -- other with nothing changed.
    pub scoped-diverges :
        (fuel : ℕ)
        → (outcome (get lib fuel t s d) ≡ out_of_fuel)
          × (outcome (resolve_internal lib fuel t (some s) d) ≡ out_of_fuel)
    unfolding get resolve_internal
    scoped-diverges zero = (refl, refl)
    scoped-diverges (suc fuel) =
        let rest = scoped-diverges fuel in
        (
          ap outcome (get-step fuel) ∙ keep_in_scope-diverges t _ rest.1,
          ap outcome (resolve_internal-step fuel) ∙ rest.0,
        )

  create_instance_total :
      (r : ServiceRegistration lib) (d : DependencyInjector lib)
      → (create_instance lib r d).1 ≢ out_of_fuel
  unfolding create_instance run_factory
  create_instance_total r d h = ground (arith, h)

  resolve_singleton_total :
      (t : TypeId) (r : ServiceRegistration lib) (d : DependencyInjector lib)
      → (resolve_singleton lib t r d).1 ≢ out_of_fuel
  unfolding resolve_singleton
  resolve_singleton_total t r d h = ground (arith, h, create_instance_total r d)

  -- Without a scope, a resolution ends: it never calls itself.
  pub resolve_internal_total :
      (t : TypeId) (d : DependencyInjector lib)
      → outcome (resolve_internal lib 1 t none d) ≢ out_of_fuel
  unfolding resolve_internal
  resolve_internal_total t d h = elim (Option-cases (lookup t d.services)) [
    | inl e ↦ ground (arith, h, e)
    | inr (r, e) ↦ ground (arith, h, e, resolve_singleton_total t r d, create_instance_total r d)
  ]

  create_instance-services :
      (r : ServiceRegistration lib) (d : DependencyInjector lib)
      → ((create_instance lib r d).0.services ≡ d.services)
  unfolding create_instance run_factory
  create_instance-services r d = ground arith

  Outcome-cases :
      (o : Outcome Instance)
      → ((i : Instance) × (o ≡ resolved i)) ⊎ ((i : Instance) → o ≢ resolved i)
  Outcome-cases (resolved i) = inl (i, refl)
  Outcome-cases not_registered = inr (λ i h. cc)
  Outcome-cases no_factory = inr (λ i h. cc)
  Outcome-cases circular_dependency = inr (λ i h. cc)
  Outcome-cases (factory_failed e) = inr (λ i h. cc)
  Outcome-cases out_of_fuel = inr (λ i h. cc)

  -- A singleton that was resolved is in the cache then.
  resolve_singleton-cached :
      (t : TypeId) (r : ServiceRegistration lib) (d : DependencyInjector lib) (i : Instance)
      → (resolve_singleton lib t r d).1 ≡ resolved i
      → lookup t (resolve_singleton lib t r d).0.singleton_cache ≡ some i
  unfolding resolve_singleton
  resolve_singleton-cached t r d i h = elim (Option-cases (lookup t d.singleton_cache)) [
    | inr (j, e) ↦ ground (arith, h, e)
    | inl e ↦ elim (Outcome-cases (create_instance lib r d).1) [
      | inl (j, f) ↦ ground (
        arith,
        h,
        e,
        f,
        lookup-insert t t j (create_instance lib r d).0.singleton_cache,
        same_refl t,
      )
      | inr n ↦ absurd (n i (ground (arith, h, e)))
    ]
  ]

  resolve_singleton-services :
      (t : TypeId) (r : ServiceRegistration lib) (d : DependencyInjector lib)
      → (resolve_singleton lib t r d).0.services ≡ d.services
  unfolding resolve_singleton
  resolve_singleton-services t r d = ground (arith, create_instance-services r d)

  resolve_singleton-again :
      (t : TypeId) (r : ServiceRegistration lib) (d : DependencyInjector lib) (i : Instance)
      → lookup t d.singleton_cache ≡ some i
      → resolve_singleton lib t r d ≡ (d, resolved i)
  unfolding resolve_singleton
  resolve_singleton-again t r d i e = rw (e, resolve_singleton) refl

  resolve_internal-singleton :
      (t : TypeId) (r : ServiceRegistration lib) (d : DependencyInjector lib)
      (scope : Option (DiScope lib))
      → lookup t d.services ≡ some r
      → r.scope ≡ singleton
      → resolve_internal lib 1 t scope d ≡ with_scope lib scope (resolve_singleton lib t r d)
  unfolding resolve_internal
  resolve_internal-singleton t r d scope e f = ground (arith, e, f)

  -- When a service that is registered as a singleton was resolved, with a scope or without,
  -- resolving it once more, with any scope or none, gives the same instance and changes
  -- nothing.
  pub resolve_internal-same_singleton :
      (t : TypeId) (r : ServiceRegistration lib) (d : DependencyInjector lib) (i : Instance)
      (scope later : Option (DiScope lib))
      → lookup t d.services ≡ some r
      → r.scope ≡ singleton
      → outcome (resolve_internal lib 1 t scope d) ≡ resolved i
      → let d' = (resolve_internal lib 1 t scope d).0 in
        resolve_internal lib 1 t later d' ≡ (d', (later, resolved i))
  resolve_internal-same_singleton t r d i scope later e f h =
      let first = resolve_internal-singleton t r d scope e f in
      let d₁ = (resolve_singleton lib t r d).0 in
      subst (λ x. resolve_internal lib 1 t later x.0 ≡ (x.0, (later, resolved i))) (sym first)
        (resolve_internal-singleton t r d₁ later
            (ap (lookup t) (resolve_singleton-services t r d) ∙ e) f
          ∙ ap (with_scope lib later) (
              resolve_singleton-again t r d₁ i
                (resolve_singleton-cached t r d i (sym (ap outcome first) ∙ h))))
