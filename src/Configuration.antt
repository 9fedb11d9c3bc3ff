-- ===== src/Configuration.antt =====
-- src/config/aggregation.rs, validation.rs and mesh_modes.rs: the configuration of a node, as far as
-- its validation reads it. What is only logged, and the checks of floats, which are only logged, are
-- left out.
pub mod Mesh
pub mod Validation
pub mod Health
mod Tests
use Prim.Native.String.{String}
use zhtp.Base.{ℕ, Bool, true, false, Option, none, some, List, string_key}
use zhtp.Base.Lists.{remove}
use zhtp.Base.Dict.{Dict, insert}

pub data MeshMode : Type 0 where
  pure_mesh hybrid : MeshMode

-- `MeshMode::default`
abbrev pub default_mode : MeshMode
default_mode = pure_mesh

pub data SecurityLevel : Type 0 where
  basic medium high maximum : SecurityLevel

pub data Environment : Type 0 where
  development testnet mainnet : Environment

pub record CryptoConfig : Type 0 where
  pub post_quantum_enabled : Bool
  pub dilithium_level : ℕ

pub record ZkConfig : Type 0 where
  pub plonky2_enabled : Bool
  pub verification_threads : ℕ

pub record StorageConfig : Type 0 where
  pub dht_port : ℕ
  pub storage_capacity_gb : ℕ

pub record NetworkConfig : Type 0 where
  pub mesh_port : ℕ
  pub max_peers : ℕ
  pub protocols : List String

pub record ConsensusConfig : Type 0 where
  pub consensus_type : String
  pub validator_enabled : Bool
  pub min_stake : ℕ

pub record EconomicsConfig : Type 0 where
  pub ubi_enabled : Bool
  pub daily_ubi_amount : ℕ
  pub total_supply : ℕ

pub record ResourceAllocations : Type 0 where
  pub max_memory_mb : ℕ
  pub max_disk_gb : ℕ

pub record NodeConfig : Type 0 where
  pub mesh_mode : MeshMode
  pub security_level : SecurityLevel
  pub environment : Environment
  pub data_directory : String
  pub crypto_config : CryptoConfig
  pub zk_config : ZkConfig
  pub storage_config : StorageConfig
  pub network_config : NetworkConfig
  pub network_id : String
  pub consensus_config : ConsensusConfig
  pub economics_config : EconomicsConfig
  pub api_port : ℕ
  pub port_assignments : Dict String ℕ
  pub resource_allocations : ResourceAllocations

-- `CliArgs`, as far as `apply_cli_overrides` reads it
pub record CliArgs : Type 0 where
  pub mesh_port : Option ℕ
  pub pure_mesh : Bool
  pub environment : Environment
  pub data_dir : String

abbrev pub port_or : Option ℕ → ℕ → ℕ
port_or none port = port
port_or (some port) _ = port

abbrev without_tcp : Bool → List String → List String
without_tcp true protocols = remove "tcp" protocols
without_tcp false protocols = protocols

abbrev mode_of : Bool → MeshMode
mode_of true = pure_mesh
mode_of false = hybrid

-- It returns no error.
unfoldable pub apply_cli_overrides : CliArgs → NodeConfig → NodeConfig
apply_cli_overrides args config =
    let port = port_or args.mesh_port config.network_config.mesh_port in
    record config {
      network_config = record config.network_config {
        mesh_port = port;
        protocols = without_tcp args.pure_mesh config.network_config.protocols;
      };
      mesh_mode = mode_of args.pure_mesh;
      environment = args.environment;
      data_directory = args.data_dir;
      port_assignments = insert "api" config.api_port (
          insert "dht" config.storage_config.dht_port (insert "mesh" port config.port_assignments));
    }

-- It returns no error.
pub apply_environment_config : NodeConfig → NodeConfig
apply_environment_config config = elim config.environment [
  | development ↦ record config {
    security_level = medium;
    consensus_config = record config.consensus_config { validator_enabled = false };
    economics_config = record config.economics_config { ubi_enabled = true };
  }
  | testnet ↦ record config {
    security_level = high;
    network_id = "lib-testnet";
    consensus_config = record config.consensus_config { min_stake = 100 };
  }
  | mainnet ↦ record config {
    security_level = maximum;
    crypto_config = record config.crypto_config { dilithium_level = 5 };
    zk_config = record config.zk_config { verification_threads = 8 };
  }
]
