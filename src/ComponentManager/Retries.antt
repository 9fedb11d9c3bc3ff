-- ===== src/ComponentManager/Retries.antt =====
-- The retry loop of `start_component`, and the starts that cannot fail.
use Prim.Native.String.{String}
use zhtp.Base.{
  ℕ, zero, suc, ◌<◌, ◌≡◌, refl, sym, ap, subst, ◌∙◌, ◌≢◌, true, false, Option, none, some, List, [],
  ◌∷◌, arith, inl, inr, ◌⊎◌, ◌↔◌,
}
use zhtp.Base.Lists.{contains, contains-cons, contains-nil, All-map}
use zhtp.Base.Dict.{lookup}
use zhtp.TopologicalSort.Sound.{DependenciesFirst}
use zhtp.Component.{
  ComponentId, ComponentId-discrete, running, Attempt, finished, refused, timed_out, Environment,
  ComponentRegistration, ok, component_key,
}
use zhtp.ComponentManager.{
  Manager, dependencies_of, dependencies_in, status_of, check_dependencies, pause, attempt_start,
  finish_start, run_start, start_registered, start_component, start_each, start_all,
}
use zhtp.ComponentManager.Startup.{IsOrdered}
use zhtp.ComponentManager.Starting.{
  AllRunning, HasHandle, StartOutcome, Touches-HasHandle, start_component_outcome, >>=-ok,
  ok-ne-err, check_all-AllRunning,
}
use zhtp.ComponentManager.StartAll.{start_each-cons, start_component-keeps, start_all-AllRunning}

Attempt-cases :
    (a : Attempt) → (a ≡ finished) ⊎ (((e : String) × (a ≡ refused e)) ⊎ (a ≡ timed_out))
Attempt-cases finished = inl refl
Attempt-cases (refused e) = inr (inl (e, refl))
Attempt-cases timed_out = inr (inr refl)

refused-ne-finished : {e : String} → refused e ≡ finished → ⊥
refused-ne-finished h = cc

timed_out-ne-finished : timed_out ≡ finished → ⊥
timed_out-ne-finished h = cc

module _ (env : Environment) where
  -- The world in which the attempt with the index `k` of `n` is made, if the ones before it fail.
  pub world_at : env.Component → ℕ → ℕ → ℕ → env.World → env.World
  world_at component timeout n zero w = w
  world_at component timeout zero (suc k) w = w
  world_at component timeout (suc n) (suc k) w =
      world_at component timeout n k (pause env n (env.start component timeout w).1)

  attempt_start-again :
      (component : env.Component) (timeout n : ℕ) (last : Option String) (w : env.World)
      → ((env.start component timeout w).0 ≡ finished)
          × (attempt_start env component timeout (suc n) last w
              ≡ ((env.start component timeout w).1, none))
        ⊎ ((e : String) × ((env.start component timeout w).0 ≢ finished)
            × (attempt_start env component timeout (suc n) last w
                ≡ attempt_start env component timeout n
                    (some e)
                    (pause env n (env.start component timeout w).1)))
  unfolding attempt_start
  attempt_start-again component timeout n last w =
      elim (Attempt-cases (env.start component timeout w).0) [
        | inl p ↦ inl (p, rw (p, attempt_start))
        | inr (inl (e, p)) ↦ inr (e, λ q. refused-ne-finished (sym p ∙ q), rw (p, attempt_start))
        | inr (inr p) ↦
            inr ("Startup timeout", λ q. timed_out-ne-finished (sym p ∙ q), rw (p, attempt_start))
      ]

  -- The retry loop succeeds exactly if one of its attempts does, each made in the world that
  -- the failed ones before it and the pauses leave.
  pub attempt_start-succeeds_iff :
      (component : env.Component) (timeout n : ℕ) (last : Option String) (w : env.World)
      → ((attempt_start env component timeout n last w).1 ≡ none) ↔ (
          (k : ℕ) × (k < n)
          × ((env.start component timeout (world_at component timeout n k w)).0 ≡ finished))
  unfolding attempt_start world_at
  attempt_start-succeeds_iff component timeout zero none w =
      (λ h. cc, λ s. absurd (omega (arith, s.1)))
  attempt_start-succeeds_iff component timeout zero (some e) w =
      (λ h. cc, λ s. absurd (omega (arith, s.1)))
  attempt_start-succeeds_iff component timeout (suc n) last w =
      elim (attempt_start-again component timeout n last w) [
        | inl (p, e) ↦ (λ _. (0, omega arith, p), λ _. ap (λ r. r.1) e)
        | inr (message, not_yet, e) ↦
            let ih =
              attempt_start-succeeds_iff component timeout n (some message)
                (pause env n (env.start component timeout w).1) in
            (
              λ h. let (k, below, p) = ih.0 (sym (ap (λ r. r.1) e) ∙ h) in (suc k, omega arith, p),
              λ s. ap (λ r. r.1) e ∙ ih.1 (earlier s not_yet),
            )
      ]
    where
      -- The index of a success, counted without the first attempt.
      earlier :
          ((k : ℕ) × (k < suc n)
            × ((env.start component timeout (world_at component timeout (suc n) k w)).0 ≡ finished))
          → (env.start component timeout w).0 ≢ finished
          → (k : ℕ) × (k < n)
            × ((env.start component timeout (
                  world_at component timeout n k (pause env n (env.start component timeout w).1))).0
                ≡ finished)
      earlier (zero, below, p) not_yet = absurd (not_yet p)
      earlier (suc k, below, p) not_yet = (k, omega arith, p)

  -- A component that is registered, has a handle and may be tried, and whose `start` never fails.
  pub record Startable (m : Manager env) (id : ComponentId) : Type 0 where
    pub registration : ComponentRegistration env
    pub found : lookup id m.components ≡ some registration
    pub tries : 0 < registration.retry_attempts
    pub starts :
        (w : env.World)
        → (env.start registration.component registration.startup_timeout w).0 ≡ finished
    pub handle : HasHandle env m id

  attempt_start-finished :
      (component : env.Component) (timeout n : ℕ) (last : Option String) (w : env.World)
      → 0 < n
      → (env.start component timeout w).0 ≡ finished
      → (attempt_start env component timeout n last w).1 ≡ none
  unfolding attempt_start
  attempt_start-finished component timeout zero last w h p = absurd (omega arith)
  attempt_start-finished component timeout (suc n) last w h p = ground arith

  run_start-ok :
      (id : ComponentId) (m : Manager env) (s : Startable m id)
      → (run_start env id s.registration m).1 ≡ ok tt
  unfolding run_start finish_start
  run_start-ok id m s =
      finish-ok _ _ (attempt_start-finished _ _ _ none m.world s.tries (s.starts m.world))
    where
      finish-ok :
          {f : Option String} (n : ℕ) (m' : Manager env)
          → f ≡ none
          → (finish_start env id n f m').1 ≡ ok tt
      finish-ok n m' e = ap (λ f. (finish_start env id n f m').1) e

  start_component-ok :
      (id : ComponentId) (m : Manager env)
      → Startable m id
      → AllRunning env m (dependencies_of env m id)
      → (start_component env id m).1 ≡ ok tt
  unfolding start_component start_registered check_dependencies
  start_component-ok id m s all =
      ap (λ r. r.1)
        (>>=-ok (check_dependencies env id) (λ _. start_registered env id)
          (check_all-AllRunning env id (dependencies_of env m id) m all))
      ∙ ap (λ r. r.1) found
      ∙ run_start-ok id m s
    where
      found : start_registered env id m ≡ run_start env id s.registration m
      found = rw (s.found, start_registered)

  Startable-start :
      (id j : ComponentId) (m : Manager env)
      → HasHandle env m id
      → Startable m j
      → Startable (start_component env id m).0 j
  Startable-start id j m h s =
      let t = (start_component_outcome env id m h).touches in
      record {
        registration = s.registration;
        found = ap (lookup j) t.components ∙ s.found;
        tries = s.tries;
        starts = s.starts;
        handle = Touches-HasHandle env j t s.handle;
      }

  start_each-ok :
      (before ids : List ComponentId) (m : Manager env)
      → DependenciesFirst (dependencies_of env m) before ids
      → m.shutdown_requested ≡ false
      → ((j : ComponentId) → contains j before ≡ true → status_of env m j ≡ running)
      → ((j : ComponentId) → contains j ids ≡ true → Startable m j)
      → (start_each env ids m).1 ≡ ok tt
  unfolding start_each
  start_each-ok before [] m o quiet up able = refl
  start_each-ok before (id ∷ ids) m (ds, _, o) quiet up able =
      elim (start_each-cons env id ids m quiet) [
        | inr (e, bad, _) ↦ absurd (ok-ne-err (sym starts ∙ bad))
        | inl (_, e) ↦
            ap (λ r. r.1) e
            ∙ start_each-ok (id ∷ before) ids (start_component env id m).0
                (subst (λ c. DependenciesFirst (dependencies_in env c) (id ∷ before) ids)
                  (sym out.touches.components) o)
                (out.touches.shutdown_requested ∙ quiet) still_up
                (λ j l. Startable-start id j m (able id here).handle (able j (later j l)))
      ]
    where
      here : contains id (id ∷ ids) ≡ true
      here = ground (arith, contains-cons id id ids)

      later : (j : ComponentId) → contains j ids ≡ true → contains j (id ∷ ids) ≡ true
      later j l = ground (arith, contains-cons j id ids)

      starts : (start_component env id m).1 ≡ ok tt
      starts = start_component-ok id m (able id here) (All-map up (dependencies_of env m id) ds)

      out : StartOutcome env id m (start_component env id m)
      out = start_component_outcome env id m (able id here).handle

      still_up :
          (j : ComponentId)
          → contains j (id ∷ before) ≡ true
          → status_of env (start_component env id m).0 j ≡ running
      still_up j l = elim (ComponentId-discrete j id) [
        | yes e ↦
            subst (λ k. status_of env (start_component env id m).0 k ≡ running) (sym e)
              (out.success starts).0
        | no n ↦
            start_component-keeps env id j m (able id here).handle starts
              (up j (ground (arith, contains-cons j id before)))
      ]

  -- If the startup order is one that a registration leaves, no shutdown is requested, and
  -- every component of the order is registered, has a handle and one attempt at least, and
  -- starts without failing, then start_all succeeds and all components of the order are
  -- running: no start is refused for a dependency.
  pub start_all_total :
      (m : Manager env)
      → IsOrdered env m
      → m.shutdown_requested ≡ false
      → ((j : ComponentId) → contains j m.startup_order ≡ true → Startable m j)
      → ((start_all env m).1 ≡ ok tt) × AllRunning env (start_all env m).0 m.startup_order
  unfolding start_all
  start_all_total m o quiet able =
      let fine = start_each-ok [] m.startup_order m o.first quiet (λ j l. nothing j l) able in
      (fine, start_all-AllRunning env m quiet (λ j l. (able j l).handle) fine)
    where
      nothing : (j : ComponentId) → contains j [] ≡ true → status_of env m j ≡ running
      nothing j l = ground (arith, contains-nil j)
