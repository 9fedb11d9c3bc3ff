-- ===== src/Lib.antt =====
-- Models of the parts of the ZHTP node that keep its components, its services and its users'
-- sessions in order and that carry its requests, events and alerts, and the theorems that make
-- them correct. Paths are from the root of the repository.
--
-- TopologicalSort is the depth-first sort of src/integration/component_manager.rs
-- (update_startup_order, topological_sort_visit) and src/integration/dependency_injection.rs
-- (update_initialization_order, topological_sort_visit): the three mutable collections are the
-- record Marks, and an error of the recursion is the constructor circular of Visit. The
-- recursion takes fuel, as a registration can form a cycle; fuel above the number of registered
-- keys is enough, since the keys that are being visited are distinct and registered.
--
-- Component and ComponentManager are src/integration/component_manager.rs, with ComponentId and
-- ComponentStatus of src/runtime/mod.rs: Component has the types of a registered component and
-- its handle, ComponentManager the manager. The shared maps are fields of the record Manager,
-- and a handler takes the manager and returns it beside its result, so that what was written
-- stays when a later step fails. A dyn Component, its start, stop and force_stop, the clock and
-- sleeping are the parameter Environment with a world of its own. It uses TopologicalSort for
-- the startup order. The handlers run one after the other: the source takes its locks per step,
-- so calls of several tasks may interleave, which is not modelled. Getters, builders,
-- statistics and the health-check task are left out.
--
-- DependencyInjection is src/integration/dependency_injection.rs: services are registered by
-- their type and resolved in a scope or without one. Types, instances and the world that
-- factories run in are the parameter Services; what is stored under a type is an instance of
-- that type, so that no downcast fails. It uses TopologicalSort for the order. resolve_internal
-- and DIScope::get call each other and take fuel: one step is enough without a scope.
-- DependencyInjection.Lifecycle has initialize_all, cleanup_all and health_check_all over the
-- parameter Injectables; the list of services is left out.
--
-- SessionManager is src/session_manager.rs. SessionToken and IdentityId of lib_identity are the
-- parameter Sessions: a new token is for the identity it is made for, and a use changes neither
-- owner nor age. Each handler runs alone. The slices of the log lines, which need tokens of 16
-- bytes, and the logs are left out, as is the endless loop of the clean-up task, which only
-- calls cleanup_expired_sessions.
--
-- RewardProcessor is src/runtime/storage_rewards.rs and src/runtime/routing_rewards.rs, which
-- are one program over two kinds of work, with get_*_stats, get_node_id and reset_*_rewards of
-- src/runtime/components/network.rs. The mesh server, its counters as work metrics (put
-- together with floats), the computation of a reward, the making of a transaction and the chain
-- are the parameter Network; what is assumed of them is that counters just reset earn nothing.
-- Nothing else writes to the node during a cycle. The number of the cycle is only logged.
--
-- RateLimiter is the RateLimiter of src/runtime/reward_orchestrator.rs, with instants and
-- durations in nanoseconds; RateLimiter.History puts the history of the claims beside it:
-- record_claim is a call of its own, which no check need come before.
--
-- RewardOrchestrator is the rest of that file: the configuration, with RewardsConfig of
-- src/config/aggregation.rs, and the tasks of the two processors, which are a list of numbered
-- tasks. start_all reads a handle, spawns and stores in steps, between which other calls may
-- come (RewardOrchestrator.Stages); a task ends by abort or, with a check interval of zero, by
-- its panic at once, and a panic of lib_network inside a task is not modelled. The combined
-- metrics are left out.
--
-- Middleware is src/api/middleware/mod.rs. Requests, responses and their headers, which are of
-- lib_protocols, are the parameter Protocol; the clock is read once per check, after the epoch.
-- The log of a token, which may panic, is at the default level. Middleware.Window puts the
-- history of the requests that passed beside the rate limit, Middleware.Stack all requests
-- beside the stack.
--
-- Serialization is src/server/zhtp/serialization.rs: bytes are numbers below 256, and bincode,
-- at a type of messages, is the parameter Bincode. The pairs of functions for requests and for
-- responses are one text, which serialize_message and deserialize_message translate once.
--
-- Router is src/server/zhtp/router.rs, Router.Http src/server/http/router.rs,
-- Router.Compatibility src/server/zhtp/compatibility.rs and Router.Auth
-- src/server/http/middleware.rs. Requests and responses of lib_protocols, the QUIC stream and
-- the world that handlers and middleware work in are the parameter Env. A response to an error
-- holds its reason in place of the text. Routes are iterated in the order of an association
-- list, where a HashMap has any order: each router has an order of its own, and what is stated
-- of both holds for any two orders. Reading a request off a TCP connection, its headers and the
-- text of an HTTP response are left out. Router uses Serialization for the bytes of a stream.
-- Router.Quic is src/server/quic_handler.rs: how a stream is told apart and handed on;
-- connections, and the legacy HTTP that it hands on to, are left out, and what is assumed of a
-- stream is that it gives its bytes in order.
--
-- AlertManager is src/monitoring/alerting.rs: the queue of the alerts, the task that empties it
-- as a state machine (run_task), whose steps come between any calls, and what is read from the
-- stored alerts. Rules, which nothing reads, the metrics, which are floats, and what the
-- channels print or send are left out; a call of send_notification is noted.
--
-- EventBus is src/integration/event_bus.rs, with the broadcast channels of tokio as the
-- parameter Broadcast; what is assumed of them is that an event is delivered exactly if there
-- is a receiver, and that a channel whose only receiver was dropped has none. A subscription is
-- never taken back, as the source only drops the sender that its task waits on. Times of
-- handlers are left out.
--
-- ServiceContainer is src/integration/service_container.rs. Types, instances and components are
-- the parameter Services, as in DependencyInjection. The read guards on the map of components
-- that a handler holds to its end are counted, and a call that waits for a lock which is never
-- given back is the outcome blocked.
--
-- Configuration is src/config/aggregation.rs, validation.rs, mesh_modes.rs and
-- load_configuration of src/config/mod.rs, as far as the validation reads the configuration:
-- the fields of NodeConfig that it reads, the overrides by the command line and the
-- environment, the checks that can refuse a configuration (Configuration.Validation), the modes
-- (Configuration.Mesh) and the health report (Configuration.Health). Reading files, warnings
-- that are only logged and fields that are floats are left out.
--
-- PeerMonitoring is src/server/monitoring/reputation.rs. A score is held 100 higher than in the
-- source, so that its lower bound is where subtraction on numbers stops. PeerMonitoring.Limits
-- puts the history of the blocks beside the rate limit. The acceptance rate, a float, is left
-- out.
--
-- RuntimeOrchestrator is src/runtime/mod.rs: the components with their health and the message
-- bus, what a start and a stop write, the shutdown with its overall timeout, the start-up
-- sequence (RuntimeOrchestrator.Phases) and the payment of a wallet
-- (RuntimeOrchestrator.Payment). Components, the clock and what the orchestrator wires up
-- outside its two maps are the parameter Host, the discovery and the global blockchain the
-- parameter Services, lib_blockchain, lib_identity and lib_crypto the parameter Ledger. The
-- overall timeout is asked for where a stop, a forced stop or a sleep is awaited, and drops
-- what is left. The locks on the maps are not modelled, and a call runs to its end before
-- another begins. The loop of an edge node has no bound in the source: its theorem needs an
-- attempt that succeeds, and more fuel than attempts before it; the wait for the first block
-- needs one round for each half second of its timeout. start_node, set_user_wallet, metrics and
-- texts are left out.
--
-- GenesisFunding is src/runtime/services/genesis_funding.rs: the outputs of the first
-- transaction, the funded wallet and the registrations. The texts that are hashed are
-- constructors of Preimage, in place of formatted strings, and Library holds the hashes and the
-- two registrations of lib_blockchain. Whether the build checks sums for overflow, and the
-- length of a key, are in Library too. Constant fields, such as the chain identifier and the
-- time, and the reading of a clock before 1970, which panics, are left out.
--
-- ProtocolFilter is src/security/protocol_filter.rs, with the two functions on letters' cases
-- as the parameter Text; the search of a URI for a host is left out. SecurityLevels is
-- src/config/security.rs, over the levels of Configuration. MetricsHistory is the rolling
-- window of src/server/monitoring/metrics.rs.
--
-- MiningService is src/runtime/services/mining_service.rs: the check and the spawning of start
-- as two steps, a turn of the loop (turn) and turns one after the other (turns). The blocks,
-- the proof of work and the validator manager are the parameter Library, and adding a block may
-- leave any blockchain. The counters of the loop are u64 and u32.
--
-- Base holds what they share: the conditional and tests, keys with a decidable equality, lists,
-- hash maps as association lists in the order of their iteration, and results.
--
-- Not modelled: the command line, the servers that accept connections and the handlers of the
-- API, the mesh, the protocols over Bluetooth and WiFi, the other metrics, the reading of
-- configurations and the wiring of the components' objects, which are mostly input and output
-- or calls of the lib-* packages, whose source is not in this repository.
pub mod AlertManager
pub mod Base
pub mod Component
pub mod ComponentManager
pub mod Configuration
pub mod DependencyInjection
pub mod EventBus
pub mod GenesisFunding
pub mod MetricsHistory
pub mod Middleware
pub mod MiningService
pub mod PeerMonitoring
pub mod ProtocolFilter
pub mod RateLimiter
pub mod RewardOrchestrator
pub mod RewardProcessor
pub mod Router
pub mod RuntimeOrchestrator
pub mod SecurityLevels
pub mod Serialization
pub mod ServiceContainer
pub mod SessionManager
pub mod TopologicalSort
