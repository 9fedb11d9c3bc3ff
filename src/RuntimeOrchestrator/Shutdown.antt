-- ===== src/RuntimeOrchestrator/Shutdown.antt =====
-- Stopping in src/runtime/mod.rs: `stop_component`, `restart_component`, `shutdown_all_components`
-- and `graceful_shutdown`; the tasks that deliver messages and check the health; the status. A
-- shutdown has an overall timeout, which drops the rest of it at a stop, a forced stop or a sleep.
use Prim.Native.String.{String}
use zhtp.Base.{
  Bool, true, false, ◌+◌, ◌%◌, ◌^◌, ℕ, Option, none, some, List, [], ◌∷◌, map, reverse,
  if◌then◌else◌,
}
use zhtp.Base.Dict.{Dict, lookup, insert, keys}
use zhtp.Base.Result.{Result, ok, err}
use zhtp.Component.{Attempt, ComponentId, component_key, error, finished, refused, timed_out}
use zhtp.RuntimeOrchestrator.{
  ComponentHealth, Error, HealthReport, Host, M, RuntimeOrchestrator, component_error,
  count_restart, display, healthy, is_running, mark, mark_error, mark_stopped, mark_stopping, sleep,
  start_component, stop_by_force, unhealthy, ◌>>◌,
}

module _ (host : Host) where
  -- The `match` on the result of the stop; `none` when the call was dropped.
  unfoldable pub finish_stop :
      (host.World → Bool)
      → ComponentId
      → host.Component
      → Attempt
      → RuntimeOrchestrator host
      → RuntimeOrchestrator host × Option (Result Error (Unit {0}))
  finish_stop over id component finished r =
      (mark host id (mark_stopped (host.now r.world)) r, some (ok tt))
  finish_stop over id component (refused e) r =
      (mark host id (mark_error e) r, some (err (component_error e)))
  finish_stop over id component timed_out r =
      let w = host.force_stop component 5000 r.world in
      let r₁ = record r { world = w } in
      if over w then (r₁, none) else (mark host id (mark_stopped (host.now w)) r₁, some (ok tt))

  -- `stop_component` under a timeout around it.
  unfoldable pub stop_until :
      (host.World → Bool)
      → ComponentId
      → RuntimeOrchestrator host
      → RuntimeOrchestrator host × Option (Result Error (Unit {0}))
  stop_until over id r =
      let r₁ = mark host id (mark_stopping (host.now r.world)) r in
      elim (lookup id r₁.components) [
        | none ↦ (r₁, some (ok tt))
        | some component ↦
            let (attempt, w) = host.stop component 10000 r₁.world in
            let r₂ = record r₁ { world = w } in
            if over w then (r₂, none) else finish_stop over id component attempt r₂
      ]

  abbrev pub no_timeout : host.World → Bool
  no_timeout w = false

  unfoldable pub stop_component : ComponentId → M host (Unit {0})
  stop_component id r =
      let (r', outcome) = stop_until no_timeout id r in
      (r', elim outcome [ none ↦ ok tt | some result ↦ result ])

  unfoldable pub restart_component : ComponentId → M host (Unit {0})
  restart_component id r =
      (◌>>◌ host (stop_component id) (λ s. start_component host id (sleep host 1000 s)))
        (mark host id count_restart r)

  -- The loop of a shutdown, and whether it came to its end.
  unfoldable pub stop_each :
      (host.World → Bool)
      → List ComponentId
      → RuntimeOrchestrator host
      → RuntimeOrchestrator host × Bool
  stop_each over [] r = (r, true)
  stop_each over (id ∷ ids) r =
      let (r₁, outcome) = stop_until over id r in
      let r₂ = sleep host 200 r₁ in
      let rest = stop_each over ids r₂ in
      elim outcome [
        | none ↦ (r₁, false)
        | some result ↦ if over r₂.world then (r₂, false) else rest
      ]

  unfoldable pub force_each : List ComponentId → RuntimeOrchestrator host → RuntimeOrchestrator host
  force_each [] r = r
  force_each (id ∷ ids) r = force_each ids (mark host id (stop_by_force (host.now r.world)) r)

  -- What follows the loop.
  abbrev pub end_shutdown : RuntimeOrchestrator host × Bool → RuntimeOrchestrator host
  end_shutdown (r, true) = record r { shutdown_signal = false }
  end_shutdown (r, false) = record (force_each (keys r.components) r) { shutdown_signal = false }

  -- It never fails.
  unfoldable pub shutdown_all_components : RuntimeOrchestrator host → RuntimeOrchestrator host
  shutdown_all_components r = end_shutdown (
      stop_each host.shutdown_over (reverse r.startup_order)
        (record r { world = host.stop_reward_orchestrator r.world }))

  unfoldable pub graceful_shutdown : RuntimeOrchestrator host → RuntimeOrchestrator host
  graceful_shutdown r = record (shutdown_all_components r) { shutdown_signal = false }

  -- One message of the task that `new` spawns.
  unfoldable pub handle_next : RuntimeOrchestrator host → RuntimeOrchestrator host
  handle_next r = elim r.message_bus [
    | [] ↦ r
    | (id, message) ∷ rest ↦
        let r₁ = record r { message_bus = rest } in
        elim (lookup id r.components) [
          | none ↦ r₁
          | some component ↦ record r₁ { world = host.handle_message component message r.world }
        ]
  ]

  -- The health that is stored for a report.
  unfoldable pub health_of :
      HealthReport host.F32 → ℕ → Option (ComponentHealth host.F32) → ComponentHealth host.F32
  health_of (healthy h) now last = h
  health_of (unhealthy e) now last = record {
    status = error e;
    last_heartbeat = now;
    error_count = elim last [ none ↦ 1 | some h ↦ (h.error_count + 1) % 2 ^ 64 ];
    restart_count = elim last [ none ↦ 0 | some h ↦ h.restart_count ];
    uptime = elim last [ none ↦ 0 | some h ↦ h.uptime ];
    memory_usage = 0;
    cpu_usage = host.zero_f32;
  }

  unfoldable pub check_each :
      List (ComponentId × host.Component) → RuntimeOrchestrator host → RuntimeOrchestrator host
  check_each [] r = r
  check_each ((id, component) ∷ rest) r =
      let (report, w) = host.health_check component r.world in
      let h = health_of report (host.now w) (lookup id r.component_health) in
      check_each rest (record r { component_health = insert id h r.component_health; world = w })

  -- One tick of the health monitoring task.
  unfoldable pub check_health : RuntimeOrchestrator host → RuntimeOrchestrator host
  check_health r = check_each r.components r

  unfoldable pub get_component_status : RuntimeOrchestrator host → Dict String Bool
  get_component_status r = map (λ e. (display e.0, is_running e.1.status)) r.component_health
