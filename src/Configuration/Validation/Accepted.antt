-- ===== src/Configuration/Validation/Accepted.antt =====
-- Which configurations are accepted.
use Prim.Native.String.{String}
use zhtp.Base.{
  ℕ, ◌≤◌, ◌≡◌, ◌≢◌, ◌↔◌, ◌⊎◌, refl, inl, inr, true, false, ◌||◌, List, [], arith, string_key,
  nat_key, same, string_dec,
}
use zhtp.Base.Lists.{contains}
use zhtp.Base.Dict.{insert-nil, lookup-cons, lookup-nil}
use zhtp.Base.Result.{ok}
use zhtp.Configuration.{NodeConfig, MeshMode, pure_mesh, hybrid}
use zhtp.Configuration.Mesh.{has_any-three, validate_capabilities}
use zhtp.Configuration.Validation.{
  validate_port_assignments, validate_resource_allocations, validate_pure_mesh_mode,
  validate_mesh_mode_configuration, validate_consensus_parameters, validate_economic_parameters,
  validate_complete_configuration,
}

-- A pure mesh has a protocol of the mesh and none over TCP/IP.
abbrev pub IsMesh : List String → Type 0
IsMesh protocols =
    ((contains "bluetooth" protocols
        || contains "wifi_direct" protocols
        || contains "lorawan" protocols)
      ≡ true)
    × (contains "tcp" protocols ≡ false)
    × (contains "websocket" protocols ≡ false)
    × (contains "quic" protocols ≡ false)

pub record IsValid (config : NodeConfig) : Type 0 where
  pub fits_disk :
      config.storage_config.storage_capacity_gb ≤ config.resource_allocations.max_disk_gb
  pub mesh : config.mesh_mode ≡ pure_mesh → IsMesh config.network_config.protocols
  pub stake : config.consensus_config.consensus_type ≡ "PoS" → config.consensus_config.min_stake ≢ 0
  pub capacity :
      config.consensus_config.consensus_type ≡ "PoStorage"
      → config.storage_config.storage_capacity_gb ≢ 0
  pub peers : config.consensus_config.consensus_type ≡ "PoUW" → config.network_config.max_peers ≢ 0
  pub supply : config.economics_config.total_supply ≢ 0

ports_ok : (config : NodeConfig) → validate_port_assignments config ≡ ok tt
unfolding validate_port_assignments
ports_ok config = ground (
  arith,
  lookup-nil {K = ℕ} {V = String} config.network_config.mesh_port,
  insert-nil {K = ℕ} {V = String} config.network_config.mesh_port "mesh",
  lookup-cons {K = ℕ} {V = String} config.api_port config.network_config.mesh_port "mesh" [],
  lookup-nil {K = ℕ} {V = String} config.api_port,
)

resources_iff :
    (config : NodeConfig)
    → (validate_resource_allocations config ≡ ok tt)
      ↔ (config.storage_config.storage_capacity_gb ≤ config.resource_allocations.max_disk_gb)
unfolding validate_resource_allocations
resources_iff config = (λ e. ground arith, λ h. ground arith)

mode_cases : (mode : MeshMode) → (mode ≡ pure_mesh) ⊎ (mode ≡ hybrid)
mode_cases pure_mesh = inl refl
mode_cases hybrid = inr refl

storage-ne-stake : same {K = String} "PoStorage" "PoS" ≡ false
unfolding string_dec
storage-ne-stake = refl

work-ne-stake : same {K = String} "PoUW" "PoS" ≡ false
unfolding string_dec
work-ne-stake = refl

work-ne-storage : same {K = String} "PoUW" "PoStorage" ≡ false
unfolding string_dec
work-ne-storage = refl

pure_mesh_lem :
    (config : NodeConfig)
    → (validate_mesh_mode_configuration config ≡ ok tt)
      ↔ (config.mesh_mode ≡ pure_mesh → IsMesh config.network_config.protocols)
unfolding validate_mesh_mode_configuration validate_pure_mesh_mode validate_capabilities
pure_mesh_lem config =
    let protocols = config.network_config.protocols in
    (
      λ e p. ground (
        arith,
        has_any-three "bluetooth" "wifi_direct" "lorawan" protocols,
        has_any-three "tcp" "websocket" "quic" protocols,
      ),
      λ h. elim (mode_cases config.mesh_mode) [
        | inl p ↦ ground (
          arith,
          h p,
          has_any-three "bluetooth" "wifi_direct" "lorawan" protocols,
          has_any-three "tcp" "websocket" "quic" protocols,
        )
        | inr n ↦ ground arith
      ],
    )

stake_iff :
    (config : NodeConfig)
    → (validate_consensus_parameters config ≡ ok tt) ↔ (
        (config.consensus_config.consensus_type ≡ "PoS" → config.consensus_config.min_stake ≢ 0)
        × (config.consensus_config.consensus_type ≡ "PoStorage"
            → config.storage_config.storage_capacity_gb ≢ 0)
        × (config.consensus_config.consensus_type ≡ "PoUW" → config.network_config.max_peers ≢ 0))
unfolding validate_consensus_parameters
stake_iff config = (
  λ e. (
    λ t z. ground arith,
    λ t z. ground (arith, storage-ne-stake),
    λ t z. ground (arith, work-ne-stake, work-ne-storage),
  ),
  λ h. ground (arith, h.0, h.1, h.2),
)

supply_iff :
    (config : NodeConfig)
    → (validate_economic_parameters config ≡ ok tt) ↔ (config.economics_config.total_supply ≢ 0)
unfolding validate_economic_parameters
supply_iff config = (λ e. λ z. ground arith, λ h. ground arith)

all_passed :
    (config : NodeConfig)
    → validate_complete_configuration config ≡ ok tt
    → (validate_resource_allocations config ≡ ok tt)
      × (validate_mesh_mode_configuration config ≡ ok tt)
      × (validate_consensus_parameters config ≡ ok tt)
      × (validate_economic_parameters config ≡ ok tt)
unfolding validate_complete_configuration
all_passed config e = ground (arith, ports_ok config)

all_pass :
    (config : NodeConfig)
    → validate_resource_allocations config ≡ ok tt
    → validate_mesh_mode_configuration config ≡ ok tt
    → validate_consensus_parameters config ≡ ok tt
    → validate_economic_parameters config ≡ ok tt
    → validate_complete_configuration config ≡ ok tt
unfolding validate_complete_configuration
all_pass config resources mesh consensus economics = ground (arith, ports_ok config)

-- A configuration is accepted exactly if the storage fits the disk, the total supply is not
-- zero, proof of stake has a minimum stake, proof of storage a capacity and proof of useful
-- work peers, and a pure mesh has a mesh protocol and none of tcp, websocket and quic. The
-- ports play no part.
pub validate_complete_configuration-ok_iff :
    (config : NodeConfig) → (validate_complete_configuration config ≡ ok tt) ↔ IsValid config
unfolding validate_complete_configuration
validate_complete_configuration-ok_iff config = (accepted, valid)
  where
    accepted : validate_complete_configuration config ≡ ok tt → IsValid config
    accepted e =
        let (resources, mesh, consensus, economics) = all_passed config e in
        let (stake, capacity, peers) = (stake_iff config).0 consensus in
        record {
          fits_disk = (resources_iff config).0 resources;
          mesh = (pure_mesh_lem config).0 mesh;
          stake = stake;
          capacity = capacity;
          peers = peers;
          supply = (supply_iff config).0 economics;
        }

    valid : IsValid config → validate_complete_configuration config ≡ ok tt
    valid h =
        all_pass config ((resources_iff config).1 h.fits_disk) ((pure_mesh_lem config).1 h.mesh)
          ((stake_iff config).1 (h.stake, h.capacity, h.peers)) ((supply_iff config).1 h.supply)
