-- ===== src/ComponentManager/Starting.antt =====
-- What `start_component` leaves behind, by its outcome.
use Prim.Native.String.{String}
use zhtp.Base.{
  ℕ, ◌≡◌, refl, sym, ap, subst, ◌∙◌, ◌≢◌, Bool, true, false, Option, none, some, List, [], ◌∷◌,
  arith, inl, inr, ◌⊎◌, Bool-cases, Option-cases,
}
use zhtp.Base.Lists.{All}
use zhtp.Base.Dict.{lookup}
use zhtp.Component.{
  ComponentId, ComponentId-discrete, ComponentStatus, running, failed, Environment,
  ComponentRegistration, Error, not_registered, dependency_not_running, Result, ok, err,
  component_key, mark_running, mark_failed,
}
use zhtp.ComponentManager.{
  Manager, Handler, and_then, ◌>>=◌, dependencies_of, status_of, check_all, check_dependencies,
  finish_start, run_start, start_registered, start_component, is_running,
}
use zhtp.ComponentManager.Touches.{
  Touches, mark-Touches, world-Touches, status_of-mark, run_start-Touches,
}

pub eq_of_is_running : (s : ComponentStatus) → is_running s ≡ true → s ≡ running
eq_of_is_running s h = ground arith

pub ok-ne-err : {e : Error} → ◌≡◌ {A = Result (Unit {0})} (ok tt) (err e) → ⊥
ok-ne-err h = cc

-- A chain after a step whose result is known.
module _ {S A B : Type 0} (f : Handler S A) (g : A → Handler S B) {s s' : S} where
  pub >>=-ok : {a : A} → f s ≡ (s', ok a) → (f >>= g) s ≡ g a s'
  >>=-ok p = ap (and_then g) p

  pub >>=-err : {e : Error} → f s ≡ (s', err e) → (f >>= g) s ≡ (s', err e)
  >>=-err p = ap (and_then g) p

module _ (env : Environment) where
  abbrev pub AllRunning : Manager env → List ComponentId → Type 0
  AllRunning m ids = All (λ id. status_of env m id ≡ running) ids

  -- A handle for `id`.
  abbrev pub HasHandle : Manager env → ComponentId → Type 0
  HasHandle m id = lookup id m.handles ≢ none

  pub Touches-HasHandle :
      {id : ComponentId} {m m' : Manager env} (j : ComponentId)
      → Touches env id m m'
      → HasHandle m j
      → HasHandle m' j
  Touches-HasHandle {id} {m} {m'} j t h = elim (ComponentId-discrete j id) [
    | yes e ↦ subst (HasHandle m') (sym e) (t.kept (subst (HasHandle m) e h))
    | no n ↦ λ p. h (sym (t.others j n) ∙ p)
  ]

  pub Touches-status :
      {id : ComponentId} {m m' : Manager env} (j : ComponentId)
      → Touches env id m m'
      → j ≢ id
      → status_of env m' j ≡ status_of env m j
  Touches-status {id} {m} {m'} j t n = ground (arith, t.others j n)

  -- `check_dependencies` changes nothing, and passes exactly if all dependencies are running.
  check_all_cases :
      (id : ComponentId) (deps : List ComponentId) (m : Manager env)
      → (check_all env id deps m ≡ (m, ok tt)) × AllRunning m deps
        ⊎ ((dep : ComponentId) × (check_all env id deps m
              ≡ (m, err (dependency_not_running dep id (status_of env m dep))))
            × (status_of env m dep ≢ running))
  unfolding check_all
  check_all_cases id [] m = inl (refl, tt)
  check_all_cases id (dep ∷ deps) m = elim (Bool-cases (is_running (status_of env m dep))) [
    | inl up ↦ elim (check_all_cases id deps m) [
      | inl (e, all) ↦ inl (rw (up, check_all) e, (eq_of_is_running _ up, all))
      | inr (d, e, n) ↦ inr (d, rw (up, check_all) e, n)
    ]
    | inr down ↦ inr (dep, rw (down, check_all), λ e. not_up (ap is_running e) down)
  ]
    where
      not_up : {b : Bool} → b ≡ true → b ≡ false → ⊥
      not_up p q = cc

  pub check_all-AllRunning :
      (id : ComponentId) (deps : List ComponentId) (m : Manager env)
      → AllRunning m deps
      → check_all env id deps m ≡ (m, ok tt)
  unfolding check_all
  check_all-AllRunning id [] m h = refl
  check_all-AllRunning id (dep ∷ deps) m (p, h) =
      let up : is_running (status_of env m dep) ≡ true = ap is_running p in
      rw (up, check_all) (check_all-AllRunning id deps m h)

  check_dependencies_cases :
      (id : ComponentId) (m : Manager env)
      → (check_dependencies env id m ≡ (m, ok tt)) × AllRunning m (dependencies_of env m id)
        ⊎ ((dep : ComponentId) × (check_dependencies env id m
              ≡ (m, err (dependency_not_running dep id (status_of env m dep))))
            × (status_of env m dep ≢ running))
  unfolding check_dependencies
  check_dependencies_cases id m = check_all_cases id (dependencies_of env m id) m

  start_registered_cases :
      (id : ComponentId) (m : Manager env)
      → (start_registered env id m ≡ (m, err (not_registered id)))
        ⊎ ((registration : ComponentRegistration env) × (start_registered env id m
              ≡ run_start env id registration m))
  unfolding start_registered
  start_registered_cases id m = elim (Option-cases (lookup id m.components)) [
    | inl gone ↦ inl (rw (gone, start_registered))
    | inr (registration, here) ↦ inr (registration, rw (here, start_registered))
  ]

  -- Either nothing was done, or the dependencies were running and the start was attempted.
  pub data StartCase (id : ComponentId) (m : Manager env) : Type 0 where
    blocked : (e : Error) → start_component env id m ≡ (m, err e) → StartCase id m
    attempted :
        AllRunning m (dependencies_of env m id)
        → (registration : ComponentRegistration env)
        → start_component env id m ≡ run_start env id registration m
        → StartCase id m

  pub start_component_cases : (id : ComponentId) (m : Manager env) → StartCase id m
  unfolding start_component
  start_component_cases id m = elim (check_dependencies_cases id m) [
    | inr (dep, e, _) ↦
        blocked (dependency_not_running dep id (status_of env m dep))
          (>>=-err (check_dependencies env id) (λ _. start_registered env id) e)
    | inl (e, all) ↦ elim (start_registered_cases id m) [
      | inl gone ↦ blocked (not_registered id) (after e ∙ gone)
      | inr (registration, here) ↦ attempted all registration (after e ∙ here)
    ]
  ]
    where
      after :
          check_dependencies env id m ≡ (m, ok tt)
          → start_component env id m ≡ start_registered env id m
      after e = >>=-ok (check_dependencies env id) (λ _. start_registered env id) e

  finish_start_outcome :
      (id : ComponentId) (attempts : ℕ) (failure : Option String) (m : Manager env)
      → HasHandle m id
      → let r = finish_start env id attempts failure m in
        (r.1 ≡ ok tt) × (status_of env r.0 id ≡ running)
        ⊎ ((e : Error) × (r.1 ≡ err e) × (status_of env r.0 id ≡ failed))
  unfolding finish_start
  finish_start_outcome id attempts none m h =
      inl (refl, status_of-mark env id mark_running m running (λ _. refl) h)
  finish_start_outcome id attempts (some e) m h =
      inr (_, refl, status_of-mark env id (mark_failed e) m failed (λ _. refl) h)

  run_start_outcome :
      (id : ComponentId) (registration : ComponentRegistration env) (m : Manager env)
      → HasHandle m id
      → let r = run_start env id registration m in
        (r.1 ≡ ok tt) × (status_of env r.0 id ≡ running)
        ⊎ ((e : Error) × (r.1 ≡ err e) × (status_of env r.0 id ≡ failed))
  unfolding run_start
  run_start_outcome id registration m h =
      finish_start_outcome id _ _ _ (Touches-HasHandle id (mark-Touches env id _ m) h)

  -- What a start of `id` does to the manager `m`, by its outcome.
  pub record StartOutcome (id : ComponentId) (m : Manager env) (r : Manager env × Result (Unit {0}))
      : Type 0 where
    pub touches : Touches env id m r.0
    pub success :
        r.1 ≡ ok tt → (status_of env r.0 id ≡ running) × AllRunning m (dependencies_of env m id)
    pub failure : (e : Error) → r.1 ≡ err e → (r.0 ≡ m) ⊎ (status_of env r.0 id ≡ failed)

  -- Starting a component that has a handle: it succeeds only if all its dependencies were
  -- running, and the component is running then; if it fails, either nothing has changed or
  -- the component is marked as failed. Neither the registrations nor the handles of other
  -- components change.
  pub start_component_outcome :
      (id : ComponentId) (m : Manager env)
      → HasHandle m id
      → StartOutcome id m (start_component env id m)
  start_component_outcome id m h = elim (start_component_cases id m) [
    | blocked e p ↦ subst (StartOutcome id m) (sym p) (record {
      touches = world-Touches env id m m.world;
      success = λ q. absurd (ok-ne-err (sym q));
      failure = λ _ _. inl refl;
    })
    | attempted all registration p ↦ subst (StartOutcome id m) (sym p) (record {
      touches = run_start-Touches env id registration m;
      success = λ q. elim (run_start_outcome id registration m h) [
        | inl (_, up) ↦ (up, all)
        | inr (e, bad, _) ↦ absurd (ok-ne-err (sym q ∙ bad))
      ];
      failure = λ e q. elim (run_start_outcome id registration m h) [
        | inl (good, _) ↦ absurd (ok-ne-err (sym good ∙ q))
        | inr (_, _, down) ↦ inr down
      ];
    })
  ]
