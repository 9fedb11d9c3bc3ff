-- ===== src/RuntimeOrchestrator/Phases.antt =====
-- The phases of a start in src/runtime/mod.rs: `startup_sequence` and what it calls, from the
-- discovery of a network to `start_all_components`. The two loops that wait take fuel: the loop of
-- an edge node has no bound in the source, and `wait_for_initial_sync` ends with its timeout.
use Prim.Native.String.{String}
use text.Mathlib.Text.{starts_with}
use zhtp.Base.{
  ℕ, zero, suc, ◌%◌, ◌^◌, ◌-◌, Bool, true, false, not, ◌&&◌, ◌||◌, Option, none, some, List, [],
  ◌∷◌, ltb, if◌then◌else◌,
}
use zhtp.Base.Lists.{length}
use zhtp.Base.Dict.{lookup}
use zhtp.Base.Result.{Result, ok, err}
use zhtp.Component.{
  ComponentId, api, blockchain, component_key, consensus, crypto, economics, identity, network,
  protocols, storage, zk,
}
use zhtp.RuntimeOrchestrator.{
  Error, Host, M, RuntimeOrchestrator, blockchain_error, default_order, edge_without_network,
  no_fuel, register_component, sleep, start_component, sync_timeout, while_starting, with_context,
  ◌>>=◌, ◌>>◌,
}

-- The services outside the components; `environment` is that of the configuration.
pub record Services (host : Host) (Environment : Type 0) : Type 0 where
  pub environment : Environment
  pub bootstrap_peers : List String
  pub blockchain_available : host.World → Bool
  -- `Blockchain::new` and `set_global_blockchain`: the error, if any
  pub set_new_blockchain : host.World → Option String × host.World
  pub set_bootstrap_peers : List String → host.World → Option String × host.World
  -- whether the peer's address parses and a connection is there within two seconds
  pub reachable : String → host.World → Bool × host.World
  pub blockchain_height : host.World → ℕ
  pub generate_keypair : host.World → Option String × host.World
  pub start_local_discovery : host.World → host.World

pub record ExistingNetworkInfo (Environment : Type 0) : Type 0 where
  pub peer_count : ℕ
  pub blockchain_height : ℕ
  pub network_id : String
  pub bootstrap_peers : List String
  pub environment : Environment

-- The detection of an edge node in `new`.
unfoldable pub detect_edge_node : Bool → Bool → ℕ → ℕ → Bool
detect_edge_node validator_enabled smart_contracts hosted_storage_gb storage_capacity_gb =
    not validator_enabled
    && not smart_contracts
    && ltb (if ltb 0 hosted_storage_gb then hosted_storage_gb else storage_capacity_gb) 100

module _ (host : Host) where
  unfoldable pub new_orchestrator : Bool → host.World → RuntimeOrchestrator host
  new_orchestrator edge w = record {
    components = [];
    component_health = [];
    message_bus = [];
    receiving = true;
    shutdown_signal = true;
    startup_order = default_order;
    joined_existing_network = false;
    is_edge_node = edge;
    edge_max_headers = 500;
    world = w;
  }

  unfoldable pub set_joined_existing_network :
      Bool → RuntimeOrchestrator host → RuntimeOrchestrator host
  set_joined_existing_network joined r = record r { joined_existing_network = joined }

  unfoldable pub set_edge_node : Bool → RuntimeOrchestrator host → RuntimeOrchestrator host
  set_edge_node edge r = record r { is_edge_node = edge }

  unfoldable pub set_edge_max_headers : ℕ → RuntimeOrchestrator host → RuntimeOrchestrator host
  set_edge_max_headers max r = record r { edge_max_headers = max }

  abbrev pub all_components : List ComponentId
  all_components =
      crypto ∷ zk ∷ identity ∷ storage ∷ network ∷ blockchain ∷ consensus ∷ economics ∷ protocols
      ∷ api ∷ []

  abbrev pub register_new : ComponentId → RuntimeOrchestrator host → RuntimeOrchestrator host
  register_new id r =
      register_component host
        (host.new_component id r.joined_existing_network r.is_edge_node r.world) r

  unfoldable pub register_if_absent :
      ComponentId → RuntimeOrchestrator host → RuntimeOrchestrator host
  register_if_absent id r = elim (lookup id r.components) [ none ↦ register_new id r | some _ ↦ r ]

  unfoldable pub register_each :
      List ComponentId → RuntimeOrchestrator host → RuntimeOrchestrator host
  register_each [] r = r
  register_each (id ∷ ids) r = register_each ids (register_if_absent id r)

  unfoldable pub register_all_components : RuntimeOrchestrator host → RuntimeOrchestrator host
  register_all_components r = register_each all_components r

  -- the loop of `start_all_components`
  unfoldable pub start_each : List ComponentId → M host (Unit {0})
  start_each [] r = (r, ok tt)
  start_each (id ∷ ids) r =
      (◌>>◌ host (with_context host (while_starting id) (start_component host id))
          (λ s. start_each ids (sleep host 500 s)))
        r

  -- A call that only touches the world.
  abbrev pub outside : (host.World → Option String × host.World) → M host (Unit {0})
  outside f r =
      let (failure, w) = f r.world in
      (record r { world = w }, elim failure [ none ↦ ok tt | some e ↦ err (blockchain_error e) ])

  module _ {Environment : Type 0} (services : Services host Environment) where
    abbrev pub ensure_blockchain : M host (Unit {0})
    ensure_blockchain r =
        if services.blockchain_available r.world
        then (r, ok tt)
        else outside services.set_new_blockchain r

    unfoldable pub start_all_components : M host (Unit {0})
    start_all_components r =
        (◌>>◌ host ensure_blockchain (λ s. start_each s.startup_order s))
          (register_all_components r)

    -- The addresses of `discover_network_via_lib_network` that answer.
    unfoldable pub reachable_peers : List String → host.World → List String × host.World
    reachable_peers [] w = ([], w)
    reachable_peers (peer ∷ peers) w =
        if starts_with peer "127.0.0.1" || starts_with peer "localhost"
        then reachable_peers peers w
        else (let (found, w') = services.reachable peer w in
            let (rest, w'') = reachable_peers peers w' in
            (if found then peer ∷ rest else rest, w''))

    abbrev network_info : List String → ExistingNetworkInfo Environment
    network_info peers = record {
      peer_count = length peers % 2 ^ 32;
      blockchain_height = 0;
      network_id = "zhtp-mainnet";
      bootstrap_peers = peers;
      environment = services.environment;
    }

    unfoldable pub discover_network :
        host.World → Option (ExistingNetworkInfo Environment) × host.World
    discover_network w =
        let (peers, w') = reachable_peers services.bootstrap_peers w in
        (elim peers [ [] ↦ none | peer ∷ more ↦ some (network_info (peer ∷ more)) ], w')

    -- The loop of an edge node; it only ends with a network.
    unfoldable pub discover_until :
        ℕ → host.World → Result Error (ExistingNetworkInfo Environment) × host.World
    discover_until zero w = (err no_fuel, w)
    discover_until (suc fuel) w =
        let (found, w') = discover_network w in
        let rest = discover_until fuel (host.sleep 5000 w') in
        elim found [ some info ↦ (ok info, w') | none ↦ rest ]

    unfoldable pub discover_network_with_retry :
        ℕ → Bool → M host (Option (ExistingNetworkInfo Environment))
    discover_network_with_retry fuel edge r =
        if edge
        then (let (found, w) = discover_until fuel r.world in
            (record r { world = w }, elim found [ ok info ↦ ok (some info) | err e ↦ err e ]))
        else (let (found, w) = discover_network r.world in (record r { world = w }, ok found))

    abbrev pub store_peers : List String → M host (Unit {0})
    store_peers [] r = (r, ok tt)
    store_peers (peer ∷ peers) r = outside (services.set_bootstrap_peers (peer ∷ peers)) r

    unfoldable pub start_blockchain_sync : ExistingNetworkInfo Environment → M host (Unit {0})
    start_blockchain_sync info =
        ◌>>◌ host (outside services.set_new_blockchain) (store_peers info.bootstrap_peers)

    -- the loop of `wait_for_initial_sync`, from the time `begin`
    unfoldable pub wait_until : ℕ → ℕ → ℕ → host.World → Result Error (Unit {0}) × host.World
    wait_until zero timeout begin w = (err no_fuel, w)
    wait_until (suc fuel) timeout begin w =
        let rest = wait_until fuel timeout begin (host.sleep 500 w) in
        if ltb timeout (host.now w - begin)
        then (err sync_timeout, w)
        else if ltb 0 (services.blockchain_height w)
        then (ok tt, w)
        else rest

    unfoldable pub wait_for_initial_sync : ℕ → ℕ → M host (Unit {0})
    wait_for_initial_sync fuel timeout r =
        let (result, w) = wait_until fuel timeout (host.now r.world) r.world in
        (record r { world = w }, result)

    abbrev pub start_new : ComponentId → M host (Unit {0})
    start_new id r = start_component host id (register_new id r)

    -- The multicast broadcasts, with a new key.
    abbrev pub broadcast_presence : M host (Unit {0})
    broadcast_presence =
        ◌>>◌ host (outside services.generate_keypair)
          (λ s. (record s { world = services.start_local_discovery s.world }, ok tt))

    unfoldable pub start_network_components_for_discovery : M host (Unit {0})
    start_network_components_for_discovery =
        ◌>>◌ host (start_new crypto) (◌>>◌ host (start_new network) broadcast_presence)

    -- the wait in `startup_sequence`, whose failure is logged
    abbrev pub wait_for_sync : ℕ → M host (Unit {0})
    wait_for_sync fuel s = ((wait_for_initial_sync fuel 30000 s).0, ok tt)

    -- The third phase of `startup_sequence`, by the network that was found.
    unfoldable pub join_or_create :
        ℕ → Bool → Option (ExistingNetworkInfo Environment) → M host (Unit {0})
    join_or_create fuel edge (some info) r =
        (◌>>◌ host (start_blockchain_sync info) (wait_for_sync fuel))
          (set_joined_existing_network true r)
    join_or_create fuel edge none r =
        if edge then (r, err edge_without_network) else (set_joined_existing_network false r, ok tt)

    abbrev pub configure_edge : Bool → ℕ → RuntimeOrchestrator host → RuntimeOrchestrator host
    configure_edge edge max_headers r =
        if edge then set_edge_max_headers max_headers (set_edge_node true r) else r

    -- the last phase
    abbrev pub start_rest : M host (Unit {0})
    start_rest r = start_all_components (register_all_components r)

    -- What follows the discovery.
    abbrev pub enter_network :
        ℕ → Bool → Option (ExistingNetworkInfo Environment) → M host (Unit {0})
    enter_network fuel edge found = ◌>>◌ host (join_or_create fuel edge found) start_rest

    -- What follows the start of the network components.
    abbrev pub discover_and_enter : ℕ → ℕ → Bool → M host (Unit {0})
    discover_and_enter fuel sync_fuel edge r =
        (◌>>=◌ host (discover_network_with_retry fuel edge) (enter_network sync_fuel edge))
          (sleep host 2000 r)

    -- `startup_sequence` behind `new`; it returns the orchestrator only when it succeeds.
    unfoldable pub startup_sequence : ℕ → ℕ → Bool → ℕ → M host (Unit {0})
    startup_sequence fuel sync_fuel edge max_headers r =
        (◌>>◌ host start_network_components_for_discovery (discover_and_enter fuel sync_fuel edge))
          (configure_edge edge max_headers r)
