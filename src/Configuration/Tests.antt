-- ===== src/Configuration/Tests.antt =====
-- Configurations at concrete inputs.
use zhtp.Base.{◌≡◌, ◌↔◌, true, false, [], ◌∷◌, string_key}
use zhtp.Base.Result.{ok}
use zhtp.Configuration.{NodeConfig, hybrid, high, development}
use zhtp.Configuration.Validation.{validate_complete_configuration}
use zhtp.Configuration.Validation.Accepted.{IsValid, validate_complete_configuration-ok_iff}

-- `NodeConfig::default`, as far as the validation reads it, with the ports 9334
abbrev default_node : NodeConfig
default_node = record {
  mesh_mode = hybrid;
  security_level = high;
  environment = development;
  data_directory = "./lib-data";
  crypto_config = record { post_quantum_enabled = true; dilithium_level = 3 };
  zk_config = record { plonky2_enabled = true; verification_threads = 4 };
  storage_config = record { dht_port = 33443; storage_capacity_gb = 100 };
  network_config = record {
    mesh_port = 9334;
    max_peers = 100;
    protocols = "mesh" ∷ "bluetooth" ∷ "wifi_direct" ∷ "lorawan" ∷ "tcp" ∷ [];
  };
  network_id = "lib-mainnet";
  consensus_config = record {
    consensus_type = "Hybrid";
    validator_enabled = false;
    min_stake = 1000;
  };
  economics_config = record {
    ubi_enabled = true;
    daily_ubi_amount = 50;
    total_supply = 1_000_000_000;
  };
  api_port = 9334;
  port_assignments = [];
  resource_allocations = record { max_memory_mb = 2048; max_disk_gb = 500 };
}

validate_complete_configuration-ok_iff_example :
    (validate_complete_configuration default_node ≡ ok tt) ↔ IsValid default_node
validate_complete_configuration-ok_iff_example = validate_complete_configuration-ok_iff default_node
