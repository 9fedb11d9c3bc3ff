-- ===== src/RuntimeOrchestrator/Sequence.antt =====
-- `startup_sequence` of src/runtime/mod.rs: what holds of a node that has started.
use Prim.Native.String.{String}
use zhtp.Base.{
  ℕ, ◌≡◌, refl, sym, ◌∙◌, ap, subst, Option, none, some, Bool, true, false, List, [], ◌∷◌,
  true-ne-false,
}
use zhtp.Base.Lists.{All}
use zhtp.Base.Result.{ok, err, ok-ne-err}
use zhtp.Component.{ComponentId, crypto, network}
use zhtp.RuntimeOrchestrator.{Host, M, Outcome, RuntimeOrchestrator, and_then, sleep, ◌>>◌}
use zhtp.RuntimeOrchestrator.Phases.{
  ExistingNetworkInfo, Services, broadcast_presence, store_peers, wait_for_sync, start_rest,
  enter_network, discover_and_enter, all_components, configure_edge, discover_network_with_retry,
  join_or_create, outside, register_all_components, set_edge_max_headers, set_edge_node,
  set_joined_existing_network, start_blockchain_sync, start_network_components_for_discovery,
  start_new, startup_sequence, wait_for_initial_sync,
}
use zhtp.RuntimeOrchestrator.Starting.{IsRunning, HasEntries}
use zhtp.RuntimeOrchestrator.StartAll.{
  Keeps, Keeps-refl, then-Keeps, outside-Keeps, register_each-Keeps, start_all_components-IsRunning,
  start_all_components-Keeps, start_new-Keeps, world-Keeps,
}

module _ (host : Host) where
  -- A chain that succeeds went on from a call that did.
  and_then-ok :
      {A B : Type 0} (g : A → M host B) (x : Outcome host A) (b : B)
      → (and_then host g x).1 ≡ ok b
      → (a : A) × (x.1 ≡ ok a) × (and_then host g x ≡ g a x.0)
  and_then-ok g (s, ok a) b e = (a, refl, refl)
  and_then-ok g (s, err x) b e = absurd (ok-ne-err (sym e))

  module _ {Environment : Type 0} (services : Services host Environment) where
    pub start_network-Keeps :
        (r : RuntimeOrchestrator host)
        → Keeps host r (start_network_components_for_discovery host services r).0
    unfolding start_network_components_for_discovery
    start_network-Keeps =
        then-Keeps host (start_new host services crypto)
          (◌>>◌ host (start_new host services network) (broadcast_presence host services))
          (start_new-Keeps host services crypto)
          (then-Keeps host (start_new host services network) (broadcast_presence host services)
            (start_new-Keeps host services network)
            (then-Keeps host (outside host services.generate_keypair)
              (λ s. (record s { world = services.start_local_discovery s.world }, ok tt))
              (outside-Keeps host services.generate_keypair) (λ s. world-Keeps host s _)))

    pub discover-Keeps :
        (fuel : ℕ) (edge : Bool) (r : RuntimeOrchestrator host)
        → Keeps host r (discover_network_with_retry host services fuel edge r).0
    unfolding discover_network_with_retry
    discover-Keeps fuel true r = world-Keeps host r _
    discover-Keeps fuel false r = world-Keeps host r _

    pub store_peers-Keeps :
        (peers : List String) (r : RuntimeOrchestrator host)
        → Keeps host r (store_peers host services peers r).0
    store_peers-Keeps [] r = Keeps-refl host r
    store_peers-Keeps (peer ∷ peers) r = world-Keeps host r _

    join-Keeps :
        (fuel : ℕ) (info : ExistingNetworkInfo Environment) (r : RuntimeOrchestrator host)
        → Keeps host r
            (◌>>◌ host
              (start_blockchain_sync host services info)
              (wait_for_sync host services fuel)
              r).0
    unfolding start_blockchain_sync wait_for_initial_sync
    join-Keeps fuel info =
        then-Keeps host (start_blockchain_sync host services info)
          (wait_for_sync host services fuel)
          (then-Keeps host (outside host services.set_new_blockchain)
            (store_peers host services info.bootstrap_peers)
            (outside-Keeps host services.set_new_blockchain)
            (store_peers-Keeps info.bootstrap_peers))
          (λ s. world-Keeps host s _)

    pub join_or_create-HasEntries :
        (fuel : ℕ) (edge : Bool) (found : Option (ExistingNetworkInfo Environment))
        (r : RuntimeOrchestrator host)
        → HasEntries host r
        → let s = (join_or_create host services fuel edge found r).0 in
          HasEntries host s × (s.startup_order ≡ r.startup_order)
    unfolding join_or_create set_joined_existing_network
    join_or_create-HasEntries fuel edge (some info) r t =
        let k = join-Keeps fuel info (set_joined_existing_network host true r) in
        (k.tracked t, k.startup_order)
    join_or_create-HasEntries fuel true none r t = (t, refl)
    join_or_create-HasEntries fuel false none r t = (t, refl)

    -- A network that was found is joined, and an edge node has found one.
    join_or_create-joined :
        (fuel : ℕ) (edge : Bool) (found : Option (ExistingNetworkInfo Environment))
        (r : RuntimeOrchestrator host)
        → (join_or_create host services fuel edge found r).1 ≡ ok tt
        → edge ≡ true
        → (join_or_create host services fuel edge found r).0.joined_existing_network ≡ true
    unfolding join_or_create set_joined_existing_network
    join_or_create-joined fuel edge (some info) r e is_edge =
        (join-Keeps fuel info (set_joined_existing_network host true r)).joined
    join_or_create-joined fuel true none r e is_edge = absurd (ok-ne-err (sym e))
    join_or_create-joined fuel false none r e is_edge = absurd (true-ne-false (sym is_edge))

    pub configure_edge-Keeps :
        (edge : Bool) (max_headers : ℕ) (r : RuntimeOrchestrator host)
        → Keeps host r (configure_edge host services edge max_headers r)
    unfolding set_edge_max_headers set_edge_node
    configure_edge-Keeps true max_headers r = record {
      startup_order = refl;
      joined = refl;
      tracked = λ t. t;
    }
    configure_edge-Keeps false max_headers r = Keeps-refl host r

    start_rest-done :
        (order : List ComponentId) (edge : Bool) (r : RuntimeOrchestrator host)
        → HasEntries host r × (r.startup_order ≡ order)
        → (edge ≡ true → r.joined_existing_network ≡ true)
        → (start_rest host services r).1 ≡ ok tt
        → All (IsRunning host (start_rest host services r).0) order
          × (edge ≡ true → (start_rest host services r).0.joined_existing_network ≡ true)
    unfolding register_all_components
    start_rest-done order edge r (t, same_order) joined e =
        let k = register_each-Keeps host (all_components host) r in
        let s = register_all_components host r in
        let l = start_all_components-Keeps host services s in
        (
          subst (All (IsRunning host (start_rest host services r).0)) (k.startup_order ∙ same_order)
              (start_all_components-IsRunning host services s (k.tracked t) e),
          λ is_edge. l.joined ∙ k.joined ∙ joined is_edge,
        )

    -- If every registered component has a health entry and startup_sequence succeeds: each
    -- component of the startup order is running, and an edge node has joined an existing
    -- network.
    pub startup_sequence-IsRunning :
        (fuel sync_fuel : ℕ) (edge : Bool) (max_headers : ℕ) (r : RuntimeOrchestrator host)
        → HasEntries host r
        → (startup_sequence host services fuel sync_fuel edge max_headers r).1 ≡ ok tt
        → let s = (startup_sequence host services fuel sync_fuel edge max_headers r).0 in
          All (IsRunning host s) r.startup_order × (edge ≡ true → s.joined_existing_network ≡ true)
    unfolding startup_sequence
    startup_sequence-IsRunning fuel sync_fuel edge max_headers r t e =
        let Done = λ (x : Outcome host (Unit {0})).
          All (IsRunning host x.0) r.startup_order
          × (edge ≡ true → x.0.joined_existing_network ≡ true) in
        let k₀ = configure_edge-Keeps edge max_headers r in
        let r₀ = configure_edge host services edge max_headers r in
        let x₁ = start_network_components_for_discovery host services r₀ in
        let k₁ = start_network-Keeps r₀ in
        let g₁ = λ (a : Unit {0}). discover_and_enter host services fuel sync_fuel edge in
        let (a₁, _, e₁) = and_then-ok g₁ x₁ tt e in
        let x₂ = discover_network_with_retry host services fuel edge (sleep host 2000 x₁.0) in
        let k₂ = discover-Keeps fuel edge (sleep host 2000 x₁.0) in
        let (found, _, e₂) =
          and_then-ok (enter_network host services sync_fuel edge) x₂ tt
            (sym (ap (λ x. x.1) e₁) ∙ e) in
        let x₃ = join_or_create host services sync_fuel edge found x₂.0 in
        let ok₃ = sym (ap (λ x. x.1) (e₁ ∙ e₂)) ∙ e in
        let (a₃, done₃, e₃) = and_then-ok (λ (a : Unit {0}). start_rest host services) x₃ tt ok₃ in
        let (t₃, order₃) =
          join_or_create-HasEntries sync_fuel edge found x₂.0
            (k₂.tracked (k₁.tracked (k₀.tracked t))) in
        subst {A = Outcome host (Unit {0})} Done (sym (e₁ ∙ e₂ ∙ e₃)) (
          start_rest-done r.startup_order edge x₃.0
            (t₃, order₃ ∙ k₂.startup_order ∙ k₁.startup_order ∙ k₀.startup_order)
            (join_or_create-joined sync_fuel edge found x₂.0 done₃)
            (sym (ap (λ x. x.1) (e₁ ∙ e₂ ∙ e₃)) ∙ e))
