-- ===== src/ComponentManager/Startup.antt =====
-- The startup order that a registration leaves, and the registrations that are refused.
use zhtp.Base.{
  suc, ◌<◌, ◌≡◌, refl, sym, ap, ◌∙◌, true, false, List, [], arith, inl, inr, ◌⊎◌, ◌↔◌, Bool-cases,
}
use zhtp.Base.Lists.{length, contains, contains-nil, All, All-contains}
use zhtp.Base.Dict.{keys, length-keys, lookup-eq-none}
use zhtp.TopologicalSort.Sound.{DependenciesFirst, sort-DependenciesFirst}
use zhtp.TopologicalSort.Cycles.{Leads, direct, through, sort-circular, sort-acyclic}
use zhtp.TopologicalSort.Fuel.{sort_total}
use zhtp.Component.{
  ComponentId, Environment, ComponentRegistration, Error, circular_dependency, Result, ok, err,
  component_key,
}
use zhtp.ComponentManager.{
  Manager, dependencies_of, update_startup_order, store, register_component_with_config,
}

true-ne-false : true ≡ false → ⊥
true-ne-false h = cc

module _ (env : Environment) where
  -- Every dependency stands in front of the component that needs it, and every registered
  -- component is in the list.
  pub record IsOrdered (m : Manager env) : Type 0 where
    pub first : DependenciesFirst (dependencies_of env m) [] m.startup_order
    pub complete : All (λ id. contains id m.startup_order ≡ true) (keys m.components)

  leaf :
      (m : Manager env) (x : ComponentId)
      → contains x (keys m.components) ≡ false
      → dependencies_of env m x ≡ []
  leaf m x h = ground (arith, lookup-eq-none x m.components)

  -- The two outcomes of the sort; the fuel does not run out.
  pub update_startup_order_cases :
      (m : Manager env)
      → ((update_startup_order env m).1 ≡ ok tt)
          × IsOrdered (update_startup_order env m).0
          × All (λ x. ¬ Leads (dependencies_of env m) x x) (keys m.components)
        ⊎ ((x : ComponentId) × (update_startup_order env m ≡ (m, err (circular_dependency x)))
            × Leads (dependencies_of env m) x x)
  unfolding update_startup_order
  update_startup_order_cases m =
      elim (sort_total deps registered (leaf m) (suc (length m.components)) enough) [
        | inl (marks, e) ↦
            let (first, complete) = sort-DependenciesFirst deps _ registered e in
            rw (e, update_startup_order)
              (inl (
                refl,
                record { first = first; complete = complete },
                sort-acyclic deps _ registered e,
              ))
        | inr (x, e) ↦ inr (x, rw (e, update_startup_order), sort-circular deps _ registered e)
      ]
    where
      deps : ComponentId → List ComponentId
      deps = dependencies_of env m

      registered : List ComponentId
      registered = keys m.components

      enough : length registered < suc (length m.components)
      enough = omega (arith, length-keys m.components)

  ok-ne-err : {e : Error} → ◌≡◌ {A = Result (Unit {0})} (ok tt) (err e) → ⊥
  ok-ne-err h = cc

  err-injective : {e e' : Error} → ◌≡◌ {A = Result (Unit {0})} (err e) (err e') → e ≡ e'
  err-injective h = cc

  -- A component that leads somewhere has a dependency, so it is registered.
  Leads-registered :
      (m : Manager env) (x : ComponentId) {y : ComponentId}
      → Leads (dependencies_of env m) x y
      → contains x (keys m.components) ≡ true
  Leads-registered m x (through l e) = Leads-registered m x l
  Leads-registered m x (direct {y} h) = elim (Bool-cases (contains x (keys m.components))) [
    | inl r ↦ r
    | inr u ↦ absurd (true-ne-false (sym h ∙ ap (contains y) (leaf m x u) ∙ contains-nil y))
  ]

  -- A registration that succeeds leaves a startup order in which every dependency stands in
  -- front of the component that needs it, no component stands twice, and every registered
  -- component stands somewhere.
  pub register_component_with_config-IsOrdered :
      (registration : ComponentRegistration env) (m : Manager env)
      → (register_component_with_config env registration m).1 ≡ ok tt
      → IsOrdered (register_component_with_config env registration m).0
  unfolding register_component_with_config
  register_component_with_config-IsOrdered registration m h =
      elim (update_startup_order_cases (store env registration m)) [
        | inl (_, ordered, _) ↦ ordered
        | inr (x, e, _) ↦ absurd (ok-ne-err (sym h ∙ ap (λ r. r.1) e))
      ]

  -- A registration succeeds exactly when no registered component, the new one included,
  -- depends on itself, directly or through others.
  pub register_component_with_config-ok_iff :
      (registration : ComponentRegistration env) (m : Manager env)
      → ((register_component_with_config env registration m).1 ≡ ok tt)
        ↔ All
            (λ id. ¬ Leads (dependencies_of env (store env registration m)) id id)
            (keys (store env registration m).components)
  unfolding register_component_with_config
  register_component_with_config-ok_iff registration m =
      let m' = store env registration m in
      elim (update_startup_order_cases m') [
        | inl (e, _, acyclic) ↦ (λ _. acyclic, λ _. e)
        | inr (x, e, l) ↦ (
          λ h. absurd (ok-ne-err (sym h ∙ ap (λ r. r.1) e)),
          λ acyclic. absurd (All-contains _ _ x acyclic (Leads-registered m' x l) l),
        )
      ]

  -- A registration that fails reports a component that depends on itself, directly or through
  -- others. The refused registration and a new handle stay in the two maps, and nothing else
  -- of the manager changes: the startup order is the old one.
  pub register_component_with_config-refused :
      (registration : ComponentRegistration env) (m : Manager env) (e : Error)
      → (register_component_with_config env registration m).1 ≡ err e
      → (x : ComponentId) × (e ≡ circular_dependency x)
        × Leads (dependencies_of env (store env registration m)) x x
        × ((register_component_with_config env registration m).0 ≡ store env registration m)
  unfolding register_component_with_config
  register_component_with_config-refused registration m e h =
      elim (update_startup_order_cases (store env registration m)) [
        | inl (p, _, _) ↦ absurd (ok-ne-err (sym p ∙ h))
        | inr (x, p, l) ↦ (x, err-injective (sym h ∙ ap (λ r. r.1) p), l, ap (λ r. r.0) p)
      ]
