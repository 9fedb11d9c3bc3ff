-- ===== src/RuntimeOrchestrator/Invariant.antt =====
-- The steps of the orchestrator of src/runtime/mod.rs, in any order: every component that is
-- registered has a health entry, so `start_component` and the shutdown never miss one.
use zhtp.Base.{
  ℕ, Bool, true, false, List, [], ◌∷◌, reverse, arith, Option-cases, Bool-cases, inl, inr,
}
use zhtp.Base.Dict.{lookup, insert, lookup-insert, lookup-nil, keys}
use zhtp.Component.{ComponentId, component_key}
use zhtp.RuntimeOrchestrator.{
  ComponentMessage, Error, Host, M, RuntimeOrchestrator, and_then, broadcast_message, count_restart,
  mark, register_component, send_each, send_message, ◌>>=◌, sleep, start_component, stop_by_force,
}
use zhtp.RuntimeOrchestrator.Shutdown.{
  check_each, check_health, end_shutdown, force_each, graceful_shutdown, handle_next, health_of,
  no_timeout, restart_component, shutdown_all_components, stop_component, stop_each,
}
use zhtp.RuntimeOrchestrator.Phases.{
  ExistingNetworkInfo, Services, all_components, configure_edge, discover_and_enter,
  discover_network_with_retry, enter_network, join_or_create, new_orchestrator, outside,
  register_all_components, set_edge_max_headers, set_edge_node, set_joined_existing_network,
  start_all_components, start_blockchain_sync, start_network_components_for_discovery, start_rest,
  startup_sequence, store_peers, wait_for_initial_sync,
}
use zhtp.Base.Result.{Result, ok, err}
use zhtp.RuntimeOrchestrator.Sequence.{
  configure_edge-Keeps, discover-Keeps, join_or_create-HasEntries, start_network-Keeps,
  store_peers-Keeps,
}
use zhtp.RuntimeOrchestrator.Tracked.{mark-Touches, start_component-Touches, stop_until-Touches}
use zhtp.RuntimeOrchestrator.Starting.{HasEntries, Touches-HasEntries}
use zhtp.RuntimeOrchestrator.StartAll.{
  Keeps, Keeps-trans, Touches-Keeps, then-Keeps, world-Keeps, start_component-Keeps,
  register_component-Keeps, register_each-Keeps, start_all_components-Keeps,
}
use zhtp.RuntimeOrchestrator.Stopping.{stop_each-Steady}

module _ (host : Host) {Environment : Type 0} (services : Services host Environment) where
  -- What a caller or a task of the orchestrator does. `start_up` is a start by `startup_sequence`.
  pub data Step : RuntimeOrchestrator host → RuntimeOrchestrator host → Type 0 where
    register :
        (c : host.Component) (r : RuntimeOrchestrator host) → Step r (register_component host c r)
    start : (id : ComponentId) (r : RuntimeOrchestrator host) → Step r (start_component host id r).0
    stop : (id : ComponentId) (r : RuntimeOrchestrator host) → Step r (stop_component host id r).0
    restart :
        (id : ComponentId) (r : RuntimeOrchestrator host) → Step r (restart_component host id r).0
    start_all : (r : RuntimeOrchestrator host) → Step r (start_all_components host services r).0
    shutdown : (r : RuntimeOrchestrator host) → Step r (shutdown_all_components host r)
    send :
        (id : ComponentId) (message : ComponentMessage host.Blockchain)
        (r : RuntimeOrchestrator host)
        → Step r (send_message host id message r).0
    handle : (r : RuntimeOrchestrator host) → Step r (handle_next host r)
    check : (r : RuntimeOrchestrator host) → Step r (check_health host r)
    register_all : (r : RuntimeOrchestrator host) → Step r (register_all_components host r)
    join :
        (joined : Bool) (r : RuntimeOrchestrator host)
        → Step r (set_joined_existing_network host joined r)
    set_edge : (edge : Bool) (r : RuntimeOrchestrator host) → Step r (set_edge_node host edge r)
    set_headers :
        (max_headers : ℕ) (r : RuntimeOrchestrator host)
        → Step r (set_edge_max_headers host max_headers r)
    start_network :
        (r : RuntimeOrchestrator host)
        → Step r (start_network_components_for_discovery host services r).0
    discover :
        (fuel : ℕ) (edge : Bool) (r : RuntimeOrchestrator host)
        → Step r (discover_network_with_retry host services fuel edge r).0
    start_sync :
        (info : ExistingNetworkInfo Environment) (r : RuntimeOrchestrator host)
        → Step r (start_blockchain_sync host services info r).0
    wait :
        (fuel timeout : ℕ) (r : RuntimeOrchestrator host)
        → Step r (wait_for_initial_sync host services fuel timeout r).0
    start_up :
        (fuel sync_fuel : ℕ) (edge : Bool) (max_headers : ℕ) (r : RuntimeOrchestrator host)
        → Step r (startup_sequence host services fuel sync_fuel edge max_headers r).0
    graceful : (r : RuntimeOrchestrator host) → Step r (graceful_shutdown host r)
    broadcast :
        (message : ComponentMessage host.Blockchain) (r : RuntimeOrchestrator host)
        → Step r (broadcast_message host message r).0

  pub data Reachable : RuntimeOrchestrator host → Type 0 where
    created : (edge : Bool) (w : host.World) → Reachable (new_orchestrator host edge w)
    then : {r r' : RuntimeOrchestrator host} → Reachable r → Step r r' → Reachable r'

  send_message-HasEntries :
      (id : ComponentId) (message : ComponentMessage host.Blockchain) (r : RuntimeOrchestrator host)
      → HasEntries host r
      → HasEntries host (send_message host id message r).0
  unfolding send_message
  send_message-HasEntries id message r t = elim (Bool-cases r.receiving) [
    | inl e ↦ rw (send_message, e) t
    | inr e ↦ rw (send_message, e) t
  ]

  bind-HasEntries :
      {A B : Type 0} (f : M host A) (g : A → M host B) (r : RuntimeOrchestrator host)
      → HasEntries host (f r).0
      → ((a : A) (s : RuntimeOrchestrator host) → HasEntries host s → HasEntries host (g a s).0)
      → HasEntries host (◌>>=◌ host f g r).0
  bind-HasEntries {A = A} f g r t h = go (f r) t
    where
      go :
          (x : RuntimeOrchestrator host × Result Error A)
          → HasEntries host x.0
          → HasEntries host (and_then host g x).0
      go (s, ok a) u = h a s u
      go (s, err e) u = u

  send_each-HasEntries :
      (ids : List ComponentId) (message : ComponentMessage host.Blockchain)
      (r : RuntimeOrchestrator host)
      → HasEntries host r
      → HasEntries host (send_each host ids message r).0
  unfolding send_each
  send_each-HasEntries [] message r t = t
  send_each-HasEntries (id ∷ ids) message r t =
      bind-HasEntries (send_message host id message) (λ a. send_each host ids message) r
        (send_message-HasEntries id message r t) (λ a s. send_each-HasEntries ids message s)

  startup_sequence-HasEntries :
      (fuel sync_fuel : ℕ) (edge : Bool) (max_headers : ℕ) (r : RuntimeOrchestrator host)
      → HasEntries host r
      → HasEntries host (startup_sequence host services fuel sync_fuel edge max_headers r).0
  unfolding startup_sequence register_all_components
  startup_sequence-HasEntries fuel sync_fuel edge max_headers r t =
      bind-HasEntries (start_network_components_for_discovery host services)
        (λ a. discover_and_enter host services fuel sync_fuel edge)
        (configure_edge host services edge max_headers r)
        ((start_network-Keeps host services _).tracked
          ((configure_edge-Keeps host services edge max_headers r).tracked t))
        (λ a s u.
          bind-HasEntries (discover_network_with_retry host services fuel edge)
            (enter_network host services sync_fuel edge) (sleep host 2000 s)
            ((discover-Keeps host services fuel edge _).tracked u)
            (λ found v w.
              bind-HasEntries (join_or_create host services sync_fuel edge found)
                (λ b. start_rest host services) v
                (join_or_create-HasEntries host services sync_fuel edge found v w).0
                (λ b x y.
                  (start_all_components-Keeps host services _).tracked
                    ((register_each-Keeps host (all_components host) x).tracked y))))

  force_each-HasEntries :
      (ids : List ComponentId) (r : RuntimeOrchestrator host)
      → HasEntries host r
      → HasEntries host (force_each host ids r)
  unfolding force_each
  force_each-HasEntries [] r t = t
  force_each-HasEntries (id ∷ ids) r t =
      let f = stop_by_force (host.now r.world) in
      force_each-HasEntries ids (mark host id f r)
        (Touches-HasEntries host id r (mark host id f r) (mark-Touches host id f r) t)

  end_shutdown-HasEntries :
      (x : RuntimeOrchestrator host × Bool)
      → HasEntries host x.0
      → HasEntries host (end_shutdown host x)
  end_shutdown-HasEntries (r, true) t = t
  end_shutdown-HasEntries (r, false) t = force_each-HasEntries (keys r.components) r t

  shutdown-HasEntries :
      (r : RuntimeOrchestrator host)
      → HasEntries host r
      → HasEntries host (shutdown_all_components host r)
  unfolding shutdown_all_components
  shutdown-HasEntries r t =
      let s = record r { world = host.stop_reward_orchestrator r.world } in
      let x = stop_each host host.shutdown_over (reverse r.startup_order) s in
      end_shutdown-HasEntries x
        ((stop_each-Steady host host.shutdown_over (reverse r.startup_order) s).1 t)

  stop_component-Keeps :
      (id : ComponentId) (r : RuntimeOrchestrator host) → Keeps host r (stop_component host id r).0
  unfolding stop_component
  stop_component-Keeps id r =
      Touches-Keeps host id r _ (stop_until-Touches host (no_timeout host) id r)

  restart_component-HasEntries :
      (id : ComponentId) (r : RuntimeOrchestrator host)
      → HasEntries host r
      → HasEntries host (restart_component host id r).0
  unfolding restart_component
  restart_component-HasEntries id r t =
      let s = mark host id count_restart r in
      let counted = Touches-Keeps host id r s (mark-Touches host id count_restart r) in
      let again = λ (u : RuntimeOrchestrator host). start_component host id (sleep host 1000 u) in
      (Keeps-trans host counted (
          then-Keeps host (stop_component host id) again (stop_component-Keeps id)
            (λ u. Keeps-trans host (world-Keeps host u _) (start_component-Keeps host id _))
            s)).tracked
        t

  check_each-HasEntries :
      (entries : List (ComponentId × host.Component)) (r : RuntimeOrchestrator host)
      → HasEntries host r
      → HasEntries host (check_each host entries r)
  unfolding check_each
  check_each-HasEntries [] r t = t
  check_each-HasEntries ((id, c) ∷ rest) r t =
      let (report, w) = host.health_check c r.world in
      let h = health_of host report (host.now w) (lookup id r.component_health) in
      check_each-HasEntries rest
        (record r { component_health = insert id h r.component_health; world = w })
        (λ j has absent. t j has (ground (arith, lookup-insert id j h r.component_health)))

  queue-HasEntries :
      (queue : List (ComponentId × ComponentMessage host.Blockchain)) (r : RuntimeOrchestrator host)
      → HasEntries host r
      → HasEntries host (handle_next host (record r { message_bus = queue }))
  unfolding handle_next
  queue-HasEntries [] r t = t
  queue-HasEntries ((id, message) ∷ rest) r t = elim (Option-cases (lookup id r.components)) [
    | inl e ↦ rw (handle_next, e) t
    | inr (c, e) ↦ rw (handle_next, e) t
  ]

  handle_next-HasEntries :
      (r : RuntimeOrchestrator host) → HasEntries host r → HasEntries host (handle_next host r)
  handle_next-HasEntries r t = queue-HasEntries r.message_bus r t

  step-HasEntries :
      {r r' : RuntimeOrchestrator host} → Step r r' → HasEntries host r → HasEntries host r'
  unfolding check_health graceful_shutdown broadcast_message register_all_components
      set_joined_existing_network set_edge_node set_edge_max_headers start_blockchain_sync
      wait_for_initial_sync
  step-HasEntries (register c r) t = (register_component-Keeps host c r).tracked t
  step-HasEntries (start id r) t =
      Touches-HasEntries host id r _ (start_component-Touches host id r) t
  step-HasEntries (stop id r) t = (stop_component-Keeps id r).tracked t
  step-HasEntries (restart id r) t = restart_component-HasEntries id r t
  step-HasEntries (start_all r) t = (start_all_components-Keeps host services r).tracked t
  step-HasEntries (shutdown r) t = shutdown-HasEntries r t
  step-HasEntries (send id message r) t = send_message-HasEntries id message r t
  step-HasEntries (handle r) t = handle_next-HasEntries r t
  step-HasEntries (check r) t = check_each-HasEntries r.components r t
  step-HasEntries (register_all r) t = (register_each-Keeps host (all_components host) r).tracked t
  step-HasEntries (join joined r) t = t
  step-HasEntries (set_edge edge r) t = t
  step-HasEntries (set_headers max_headers r) t = t
  step-HasEntries (start_network r) t = (start_network-Keeps host services r).tracked t
  step-HasEntries (discover fuel edge r) t = (discover-Keeps host services fuel edge r).tracked t
  step-HasEntries (start_sync info r) t =
      bind-HasEntries (outside host services.set_new_blockchain)
        (λ a. store_peers host services info.bootstrap_peers) r t
        (λ a s. (store_peers-Keeps host services info.bootstrap_peers s).tracked)
  step-HasEntries (wait fuel timeout r) t = t
  step-HasEntries (start_up fuel sync_fuel edge max_headers r) t =
      startup_sequence-HasEntries fuel sync_fuel edge max_headers r t
  step-HasEntries (graceful r) t = shutdown-HasEntries r t
  step-HasEntries (broadcast message r) t = send_each-HasEntries (keys r.components) message r t

  -- After any calls of its operations, each to its end, and any steps of the two tasks, from
  -- a new orchestrator: every registered component has a health entry.
  pub Reachable-HasEntries : (r : RuntimeOrchestrator host) → Reachable r → HasEntries host r
  unfolding new_orchestrator
  Reachable-HasEntries r (created edge w) = λ id has absent. has (lookup-nil id)
  Reachable-HasEntries r (then before s) = step-HasEntries s (Reachable-HasEntries _ before)
