-- ===== src/ComponentManager/Stopping.antt =====
-- `stop_component`, `shutdown_all` and `restart_component`.
use Prim.Native.String.{String}
use zhtp.Base.{
  ◌≡◌, refl, sym, ap, subst, ◌∙◌, ◌≢◌, Bool, true, false, Option, none, some, List, [], ◌∷◌, arith,
  inl, inr, if◌then◌else◌, Bool-cases, Option-cases, reverse,
}
use zhtp.Base.Lists.{contains-reverse, contains, contains-cons, contains-nil}
use zhtp.Base.Dict.{lookup}
use zhtp.Component.{
  ComponentId, ComponentId-discrete, ComponentStatus, stopped, failed, Attempt, finished, refused,
  timed_out, Environment, ComponentRegistration, Result, ok, err, component_key, mark_stopping,
  mark_stopped, mark_failed,
}
use zhtp.ComponentManager.{
  Manager, status_of, is_live, finish_force_stop, run_force_stop, finish_stop, run_stop,
  stop_component, stop_each, shutdown_all,
}
use zhtp.ComponentManager.Touches.{Touches, mark-Touches, status_of-mark, run_stop-Touches}
use zhtp.ComponentManager.Starting.{HasHandle, Touches-HasHandle, Touches-status}

module _ (env : Environment) where
  -- The status with which a stop ends: `Stopped` if it succeeded and `Failed` if not.
  abbrev pub StopStatus : Result (Unit {0}) → ComponentStatus → Type 0
  StopStatus (ok _) s = s ≡ stopped
  StopStatus (err _) s = s ≡ failed

  finish_force_stop-status :
      (id : ComponentId) (failure : Option String) (m : Manager env)
      → HasHandle env m id
      → let r = finish_force_stop env id failure m in StopStatus r.1 (status_of env r.0 id)
  unfolding finish_force_stop
  finish_force_stop-status id none m h = status_of-mark env id mark_stopped m stopped (λ _. refl) h
  finish_force_stop-status id (some e) m h =
      status_of-mark env id (mark_failed _) m failed (λ _. refl) h

  finish_stop-status :
      (id : ComponentId) (registration : ComponentRegistration env) (a : Attempt) (m : Manager env)
      → HasHandle env m id
      → let r = finish_stop env id registration a m in StopStatus r.1 (status_of env r.0 id)
  unfolding finish_stop run_force_stop
  finish_stop-status id registration finished m h =
      status_of-mark env id mark_stopped m stopped (λ _. refl) h
  finish_stop-status id registration (refused e) m h =
      status_of-mark env id (mark_failed _) m failed (λ _. refl) h
  finish_stop-status id registration timed_out m h = finish_force_stop-status id _ _ h

  run_stop-status :
      (id : ComponentId) (registration : ComponentRegistration env) (m : Manager env)
      → HasHandle env m id
      → let r = run_stop env id registration m in StopStatus r.1 (status_of env r.0 id)
  unfolding run_stop
  run_stop-status id registration m h =
      finish_stop-status id registration _ _
        (Touches-HasHandle env id (mark-Touches env id mark_stopping m) h)

  -- Stopping a registered component that has a handle: the component ends as stopped if the
  -- stop succeeded, gracefully or by force, and as failed if not. Neither the registrations
  -- nor the handles of other components change.
  pub stop_component_outcome :
      (id : ComponentId) (m : Manager env)
      → HasHandle env m id
      → lookup id m.components ≢ none
      → let r = stop_component env id m in
        StopStatus r.1 (status_of env r.0 id) × Touches env id m r.0
  unfolding stop_component
  stop_component_outcome id m h known = elim (Option-cases (lookup id m.components)) [
    | inl gone ↦ absurd (known gone)
    | inr (registration, found) ↦
        rw (found, stop_component)
          (run_stop-status id registration m h, run_stop-Touches env id registration m)
  ]

  not_live : (r : Result (Unit {0})) (s : ComponentStatus) → StopStatus r s → is_live s ≡ false
  not_live (ok _) s e = ap is_live e
  not_live (err _) s e = ap is_live e

  -- A handle belongs to a registered component, as the two maps are written together.
  abbrev pub IsPaired : Manager env → Type 0
  IsPaired m = (j : ComponentId) → HasHandle env m j → lookup j m.components ≢ none

  -- One round of the loop of `shutdown_all`.
  abbrev stop_live : ComponentId → Manager env → Manager env
  stop_live id m = if is_live (status_of env m id) then (stop_component env id m).0 else m

  record Stopped (ids : List ComponentId) (m m' : Manager env) : Type 0 where
    paired : IsPaired m'
    stopped : (j : ComponentId) → contains j ids ≡ true → is_live (status_of env m' j) ≡ false
    kept :
        (j : ComponentId)
        → is_live (status_of env m j) ≡ false
        → is_live (status_of env m' j) ≡ false
    flag : m'.shutdown_requested ≡ m.shutdown_requested

  live-HasHandle :
      (id : ComponentId) (m : Manager env)
      → is_live (status_of env m id) ≡ true
      → HasHandle env m id
  live-HasHandle id m h e = ground arith

  module _ (id : ComponentId) (m : Manager env) (paired : IsPaired m) (h : HasHandle env m id) where
    after : Manager env
    after = (stop_component env id m).0

    outcome :
        StopStatus (stop_component env id m).1 (status_of env after id) × Touches env id m after
    unfolding after
    outcome = stop_component_outcome id m h (paired id h)

    dead_now : is_live (status_of env after id) ≡ false
    dead_now = not_live (stop_component env id m).1 _ outcome.0

    stop_component-Stopped : Stopped (id ∷ []) m after
    stop_component-Stopped = record {
      paired = λ j k e. still_known j k (sym (ap (lookup j) t.components) ∙ e);
      stopped =
          λ j l. subst (λ i. is_live (status_of env after i) ≡ false) (sym (only j l)) dead_now;
      kept = λ j d. elim (ComponentId-discrete j id) [
        | yes e ↦ subst (λ i. is_live (status_of env after i) ≡ false) (sym e) dead_now
        | no n ↦ ap is_live (Touches-status env j t n) ∙ d
      ];
      flag = t.shutdown_requested;
    }
      where
        t : Touches env id m after
        t = outcome.1

        only : (j : ComponentId) → contains j (id ∷ []) ≡ true → j ≡ id
        only j l = ground (arith, contains-cons j id [], contains-nil j)

        still_known : (j : ComponentId) → HasHandle env after j → lookup j m.components ≢ none
        still_known j k = elim (ComponentId-discrete j id) [
          | yes e ↦ subst (λ i. lookup i m.components ≢ none) (sym e) (paired id h)
          | no n ↦ paired j (λ p. k (t.others j n ∙ p))
        ]

  Stopped-skip :
      (id : ComponentId) (m : Manager env)
      → IsPaired m
      → is_live (status_of env m id) ≡ false
      → Stopped (id ∷ []) m m
  Stopped-skip id m paired dead = record {
    paired = paired;
    stopped = λ j l. ground (arith, contains-cons j id [], contains-nil j);
    kept = λ j d. d;
    flag = refl;
  }

  stop_live-Stopped :
      (id : ComponentId) (m : Manager env) → IsPaired m → Stopped (id ∷ []) m (stop_live id m)
  unfolding after
  stop_live-Stopped id m paired = elim (Bool-cases (is_live (status_of env m id))) [
    | inl live ↦
        subst (Stopped (id ∷ []) m) (sym (choose live))
          (stop_component-Stopped id m paired (live-HasHandle id m live))
    | inr dead ↦ subst (Stopped (id ∷ []) m) (sym (choose dead)) (Stopped-skip id m paired dead)
  ]
    where
      choose :
          {b : Bool}
          → is_live (status_of env m id) ≡ b
          → stop_live id m ≡ (if b then (stop_component env id m).0 else m)
      choose e = ap (λ b. if b then (stop_component env id m).0 else m) e

  stop_each-Stopped :
      (ids : List ComponentId) (m : Manager env) → IsPaired m → Stopped ids m (stop_each env ids m)
  unfolding stop_each
  stop_each-Stopped [] m paired = record {
    paired = paired;
    stopped = λ j l. ground (arith, contains-nil j);
    kept = λ j d. d;
    flag = refl;
  }
  stop_each-Stopped (id ∷ ids) m paired =
      let first = stop_live-Stopped id m paired in
      let rest = stop_each-Stopped ids (stop_live id m) first.paired in
      record {
        paired = rest.paired;
        stopped = λ j l. elim (Bool-cases (contains j ids)) [
          | inl later ↦ rest.stopped j later
          | inr new ↦ rest.kept j (first.stopped j (head_of j l new))
        ];
        kept = λ j d. rest.kept j (first.kept j d);
        flag = rest.flag ∙ first.flag;
      }
    where
      head_of :
          (j : ComponentId)
          → contains j (id ∷ ids) ≡ true
          → contains j ids ≡ false
          → contains j (id ∷ []) ≡ true
      head_of j l new = ground (arith, contains-cons j id [], contains-cons j id ids)

  -- After shutdown_all, whatever fails on the way, the shutdown is flagged and no component
  -- of the startup order is running or starting. Handles belong to registered components.
  pub shutdown_all-Stopped :
      (m : Manager env)
      → IsPaired m
      → let r = shutdown_all env m in
        (r.1 ≡ ok tt)
        × (r.0.shutdown_requested ≡ true)
        × ((j : ComponentId)
            → contains j m.startup_order ≡ true
            → is_live (status_of env r.0 j) ≡ false)
  unfolding shutdown_all
  shutdown_all-Stopped m paired =
      let m₁ = record m { shutdown_requested = true; health_checker = false } in
      let s = stop_each-Stopped (reverse m.startup_order) m₁ paired in
      (refl, s.flag, λ j l. s.stopped j (contains-reverse j m.startup_order ∙ l))
