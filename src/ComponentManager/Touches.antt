-- ===== src/ComponentManager/Touches.antt =====
-- What the handlers for one component leave as it was.
use Prim.Native.String.{String}
use zhtp.Base.{ℕ, ◌≡◌, refl, ◌∙◌, ◌≢◌, Option, none, some, arith, Option-cases, inl, inr}
use zhtp.Base.Dict.{lookup, lookup-adjust}
use zhtp.Component.{
  ComponentId, ComponentStatus, Environment, ComponentRegistration, ComponentHandle, Attempt,
  finished, refused, timed_out, component_key, mark_starting, mark_running, mark_stopping,
  mark_stopped, mark_failed,
}
use zhtp.ComponentManager.{
  Manager, status_of, mark, finish_start, run_start, finish_force_stop, run_force_stop, finish_stop,
  run_stop,
}

module _ (env : Environment) where
  -- All but the handle of `id`, the world and the task of the health checker; a handle of `id`
  -- stays a handle.
  pub record Touches (id : ComponentId) (m m' : Manager env) : Type 0 where
    pub components : m'.components ≡ m.components
    pub startup_order : m'.startup_order ≡ m.startup_order
    pub shutdown_requested : m'.shutdown_requested ≡ m.shutdown_requested
    pub others : (j : ComponentId) → j ≢ id → lookup j m'.handles ≡ lookup j m.handles
    pub kept : lookup id m.handles ≢ none → lookup id m'.handles ≢ none

  pub Touches-trans :
      {id : ComponentId} {m m' m'' : Manager env}
      → Touches id m m'
      → Touches id m' m''
      → Touches id m m''
  Touches-trans t u = record {
    components = u.components ∙ t.components;
    startup_order = u.startup_order ∙ t.startup_order;
    shutdown_requested = u.shutdown_requested ∙ t.shutdown_requested;
    others = λ j n. u.others j n ∙ t.others j n;
    kept = λ h. u.kept (t.kept h);
  }

  pub mark-Touches :
      (id : ComponentId) (f : ComponentHandle → ComponentHandle) (m : Manager env)
      → Touches id m (mark env id f m)
  mark-Touches id f m = record {
    components = refl;
    startup_order = refl;
    shutdown_requested = refl;
    others = λ j n. ground (arith, lookup-adjust id j f m.handles);
    kept = λ h. ground (arith, lookup-adjust id id f m.handles);
  }

  pub world-Touches :
      (id : ComponentId) (m : Manager env) (w : env.World) → Touches id m (record m { world = w })
  world-Touches id m w = record {
    components = refl;
    startup_order = refl;
    shutdown_requested = refl;
    others = λ j n. refl;
    kept = λ h. h;
  }

  pub status_of-mark :
      (id : ComponentId) (f : ComponentHandle → ComponentHandle) (m : Manager env)
      (s : ComponentStatus)
      → ((h : ComponentHandle) → (f h).status ≡ s)
      → lookup id m.handles ≢ none
      → status_of env (mark env id f m) id ≡ s
  status_of-mark id f m s keeps has = elim (Option-cases (lookup id m.handles)) [
    | inl e ↦ absurd (has e)
    | inr (h, e) ↦ ground (arith, lookup-adjust id id f m.handles, keeps h)
  ]

  finish_start-Touches :
      (id : ComponentId) (attempts : ℕ) (failure : Option String) (m : Manager env)
      → Touches id m (finish_start env id attempts failure m).0
  unfolding finish_start
  finish_start-Touches id attempts none m = mark-Touches id mark_running m
  finish_start-Touches id attempts (some e) m = mark-Touches id (mark_failed e) m

  pub run_start-Touches :
      (id : ComponentId) (registration : ComponentRegistration env) (m : Manager env)
      → Touches id m (run_start env id registration m).0
  unfolding run_start
  run_start-Touches id registration m =
      Touches-trans (mark-Touches id (mark_starting (env.now m.world)) m)
        (Touches-trans (world-Touches id _ _) (finish_start-Touches id _ _ _))

  finish_force_stop-Touches :
      (id : ComponentId) (failure : Option String) (m : Manager env)
      → Touches id m (finish_force_stop env id failure m).0
  unfolding finish_force_stop
  finish_force_stop-Touches id none m = mark-Touches id mark_stopped m
  finish_force_stop-Touches id (some e) m = mark-Touches id (mark_failed _) m

  finish_stop-Touches :
      (id : ComponentId) (registration : ComponentRegistration env) (a : Attempt) (m : Manager env)
      → Touches id m (finish_stop env id registration a m).0
  unfolding finish_stop run_force_stop
  finish_stop-Touches id registration finished m = mark-Touches id mark_stopped m
  finish_stop-Touches id registration (refused e) m = mark-Touches id (mark_failed e) m
  finish_stop-Touches id registration timed_out m =
      Touches-trans (world-Touches id m _) (finish_force_stop-Touches id _ _)

  pub run_stop-Touches :
      (id : ComponentId) (registration : ComponentRegistration env) (m : Manager env)
      → Touches id m (run_stop env id registration m).0
  unfolding run_stop
  run_stop-Touches id registration m =
      Touches-trans (mark-Touches id mark_stopping m)
        (Touches-trans (world-Touches id _ _) (finish_stop-Touches id registration _ _))
