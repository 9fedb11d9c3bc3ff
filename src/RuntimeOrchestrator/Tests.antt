-- ===== src/RuntimeOrchestrator/Tests.antt =====
-- Runs of the orchestrator of src/runtime/mod.rs, and the theorems at concrete inputs. The world of
-- the tests is a clock.
use native.Mathlib.Omega.{arith}
use zhtp.Base.{
  ℕ, ◌+◌, ◌≤◌, ◌≡◌, refl, ◌≢◌, true, false, Option, none, some, List, [], ◌∷◌, ltb, string_key, ◌<◌,
  ◌*◌, nat_key, ap, ◌∙◌, ℕ_discrete,
}
use zhtp.Base.Lists.{All, length, take, contains, contains-cons, same_refl}
use zhtp.Base.Dict.{lookup, insert, keys}
use zhtp.Base.Result.{ok, err}
use zhtp.Component.{
  ComponentId, ComponentId-discrete, api, component_key, crypto, finished, network,
}
use zhtp.RuntimeOrchestrator.{
  Host, RuntimeOrchestrator, broadcast_message, default_order, health_check, register_component,
  start_component, unhealthy, run_start, finish_start, send_each, send_message, new_health,
}
use zhtp.RuntimeOrchestrator.Shutdown.{shutdown_all_components}
use zhtp.RuntimeOrchestrator.Phases.{
  Services, ExistingNetworkInfo, start_network_components_for_discovery,
  discover_network_with_retry, discover_network, reachable_peers, join_or_create,
  start_blockchain_sync, wait_until, set_joined_existing_network, set_edge_node,
  set_edge_max_headers, discover_until, new_orchestrator, register_each, register_if_absent,
  start_each, start_all_components, startup_sequence, wait_for_initial_sync,
  register_all_components,
}
use zhtp.RuntimeOrchestrator.Payment.{Ledger, choose_utxos, wallet_utxos, select}
use zhtp.RuntimeOrchestrator.Starting.{IsRunning, HasEntries}
use zhtp.RuntimeOrchestrator.Sequence.{startup_sequence-IsRunning}
use zhtp.RuntimeOrchestrator.Ending.{
  lookup-shutdown_all_components, shutdown_all_components-HasEnded,
}
use zhtp.RuntimeOrchestrator.Stopping.{HasEnded}
use zhtp.RuntimeOrchestrator.Messages.{broadcast_message-deliver, deliver, handle_messages}
use zhtp.RuntimeOrchestrator.Invariant.{
  Reachable-HasEntries, broadcast, created, start_all, start_up, then,
}
use zhtp.RuntimeOrchestrator.Waiting.{
  FirstFound, HasWaited, before_attempt, discover_until-found, wait_for_initial_sync-HasWaited,
}
use zhtp.RuntimeOrchestrator.Selection.{choose_utxos-covers}

-- A component is its id; each start takes a second.
abbrev host : Host
host = record {
  World = ℕ;
  F32 = ℕ;
  zero_f32 = 0;
  Blockchain = ℕ;
  Component = ComponentId;
  id = λ c. c;
  start = λ c w. (none, w + 1000);
  stop = λ c ms w. (finished, w + 1);
  force_stop = λ c ms w. w;
  health_check = λ c w. (unhealthy "no answer", w);
  handle_message = λ c message w. w + 1;
  new_component = λ id joined edge w. id;
  now = λ w. w;
  sleep = λ ms w. w + ms;
  shutdown_over = λ w. false;
  initialize_shared_blockchain = λ w. w;
  wire_blockchain_to_consensus = λ w. w;
  sync_wallet_balances = λ w. w;
  start_reward_orchestrator = λ w. w;
  stop_reward_orchestrator = λ w. w;
}

-- A peer is there from the fourth second on.
abbrev services : Services host (Unit {0})
services = record {
  environment = tt;
  bootstrap_peers = "10.0.0.1:9333" ∷ [];
  blockchain_available = λ w. false;
  set_new_blockchain = λ w. (none, w);
  set_bootstrap_peers = λ peers w. (none, w);
  reachable = λ peer w. (ltb 4000 w, w);
  blockchain_height = λ w. if_late w;
  generate_keypair = λ w. (none, w);
  start_local_discovery = λ w. w;
}
  where
    if_late : ℕ → ℕ
    if_late w = elim (ltb 9000 w) [ true ↦ 1 | false ↦ 0 ]

abbrev node : RuntimeOrchestrator host
node = new_orchestrator host false 0

abbrev full_node : RuntimeOrchestrator host
full_node = (start_all_components host services node).0

node-HasEntries : HasEntries host node
node-HasEntries = Reachable-HasEntries host services node (created false 0)

full_node-HasEntries : HasEntries host full_node
full_node-HasEntries =
    Reachable-HasEntries host services full_node (then (created false 0) (start_all node))

started : (start_all_components host services node).1 ≡ ok tt
unfolding ComponentId-discrete start_all_components register_all_components register_each
    register_if_absent register_component new_orchestrator lookup insert start_each start_component
    run_start finish_start broadcast_message send_each send_message new_health
started = refl

-- An edge node finds the network with its first attempt.
edge_started : (startup_sequence host services 3 20 true 100 node).1 ≡ ok tt
unfolding startup_sequence start_network_components_for_discovery discover_network_with_retry
    discover_until discover_network reachable_peers join_or_create start_blockchain_sync
    wait_for_initial_sync wait_until set_joined_existing_network set_edge_node set_edge_max_headers
    ComponentId-discrete start_all_components register_all_components register_each
    register_if_absent register_component new_orchestrator lookup insert start_each start_component
    run_start finish_start broadcast_message send_each send_message new_health
edge_started = refl

startup_sequence-IsRunning_example :
    let s = (startup_sequence host services 3 20 true 100 node).0 in
    All (IsRunning host s) node.startup_order × (true ≡ true → s.joined_existing_network ≡ true)
startup_sequence-IsRunning_example =
    startup_sequence-IsRunning host services 3 20 true 100 node node-HasEntries edge_started

some-ne-none : ◌≡◌ {A = Option ComponentId} (some crypto) none → ⊥
some-ne-none n = cc

crypto-registered : lookup crypto full_node.components ≢ none
unfolding ComponentId-discrete start_all_components register_all_components register_each
    register_if_absent register_component new_orchestrator lookup insert start_each start_component
    run_start finish_start broadcast_message send_each send_message new_health
crypto-registered n = some-ne-none n

order-full : full_node.startup_order ≡ default_order
unfolding ComponentId-discrete start_all_components register_all_components register_each
    register_if_absent register_component new_orchestrator lookup insert start_each start_component
    run_start finish_start broadcast_message send_each send_message new_health
order-full = refl

shutdown_all_components-HasEnded_example :
    HasEnded host (shutdown_all_components host full_node) crypto
    × ((shutdown_all_components host full_node).shutdown_signal ≡ false)
shutdown_all_components-HasEnded_example =
    shutdown_all_components-HasEnded host full_node crypto full_node-HasEntries crypto-registered (
      ap (contains crypto) order-full
      ∙ contains-cons crypto crypto _
      ∙ ground (arith, same_refl crypto))

left_out : contains api default_order ≡ false
unfolding ComponentId-discrete contains
left_out = refl

lookup-shutdown_all_components_example :
    lookup api (shutdown_all_components host full_node).component_health
    ≡ lookup api full_node.component_health
lookup-shutdown_all_components_example =
    lookup-shutdown_all_components host full_node api (λ w. refl)
      (ap (contains api) order-full ∙ left_out)

two_nodes : RuntimeOrchestrator host
two_nodes = register_component host network (register_component host crypto node)

broadcast_message-deliver_example :
    let (s, result) = broadcast_message host health_check two_nodes in
    (result ≡ ok tt)
    × (handle_messages host (length (keys two_nodes.components)) s ≡ record two_nodes {
      world =
          deliver host two_nodes.components health_check
            (keys two_nodes.components)
            two_nodes.world;
    })
unfolding two_nodes register_component new_orchestrator
broadcast_message-deliver_example = broadcast_message-deliver host health_check two_nodes refl refl

abbrev started_up : RuntimeOrchestrator host
started_up = (startup_sequence host services 3 62 true 500 node).0

abbrev after_broadcast : RuntimeOrchestrator host
after_broadcast = (broadcast_message host health_check started_up).0

Reachable-HasEntries_example : HasEntries host after_broadcast
Reachable-HasEntries_example = Reachable-HasEntries host services after_broadcast (
    then (then (created false 0) (start_up 3 62 true 500 node)) (broadcast health_check started_up))

wait_for_initial_sync-HasWaited_example :
    let (s, result) = wait_for_initial_sync host services 61 29999 node in
    HasWaited host services 29999 (host.now node.world) (result, s.world)
wait_for_initial_sync-HasWaited_example =
    wait_for_initial_sync-HasWaited host services 60 29999 node (λ ms w. omega arith) (omega arith)

abbrev the_network : ExistingNetworkInfo (Unit {0})
the_network = record {
  peer_count = 1;
  blockchain_height = 0;
  network_id = "zhtp-mainnet";
  bootstrap_peers = "10.0.0.1:9333" ∷ [];
  environment = tt;
}

found_then :
    (discover_network host services (before_attempt host services 1 0)).0 ≡ some the_network
unfolding before_attempt discover_network reachable_peers
found_then = refl

discover_until-found_example :
    (k : ℕ) × (k ≤ 1)
    × (found : ExistingNetworkInfo (Unit {0})) × FirstFound host services 3 0 k found
discover_until-found_example =
    discover_until-found host services 1 3 0 the_network (omega arith) found_then

-- Every wallet is a number, and the outputs belong to the first two.
abbrev ledger : Ledger
ledger = record {
  World = Unit {0};
  Hash = ℕ;
  Bytes = ℕ;
  Output = ℕ;
  Secret = ℕ;
  Proof = ℕ;
  Transaction = ℕ;
  bytes_key = nat_key;
  utxo_set = λ w. ok [];
  recipient = λ output. output;
  create_payment_transaction = λ w utxos recipient amount fee. err "no wallet";
  nullifier_of = λ hash index. hash;
  prove_transaction = λ balance amount fee. 0;
  commitment_of = λ pubkey amount. 0;
  note_of = λ pubkey amount. 0;
  build = λ inputs outputs fee secret pubkey. ok 0;
  hash_of = λ t. t;
  add_pending_transaction = λ t w. (none, w);
}

abbrev outputs : List (ℕ × ℕ)
outputs = (11, 1) ∷ (12, 2) ∷ (13, 1) ∷ []

two_owned : length (wallet_utxos ledger 1 outputs) ≡ 2
unfolding wallet_utxos ℕ_discrete
two_owned = refl

choose_utxos-covers_example :
    let owned = wallet_utxos ledger 1 outputs in
    (k : ℕ) × (choose_utxos ledger owned 6000 ≡ ok (take k owned, k * 5000))
    × (k ≤ length owned)
    × (6000 + 100 ≤ k * 5000)
    × (k * 5000 < 6000 + 100 + 5000)
choose_utxos-covers_example =
    choose_utxos-covers ledger 1 outputs 6000 (omega (arith, two_owned)) (omega (arith, two_owned))

-- With an amount close to 2 ^ 64 the sum with the fee wraps around, and one output of 5000 passes.
wrapped :
    choose_utxos ledger (wallet_utxos ledger 1 outputs) 18446744073709551600
    ≡ ok (take 1 (wallet_utxos ledger 1 outputs), 5000)
unfolding choose_utxos wallet_utxos select take ℕ_discrete
wrapped = refl
