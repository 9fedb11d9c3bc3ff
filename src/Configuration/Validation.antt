-- ===== src/Configuration/Validation.antt =====
-- src/config/validation.rs and load_configuration of src/config/mod.rs: the checks of a complete
-- configuration.
pub mod Accepted
use Prim.Native.String.{String}
use zhtp.Base.{
  ℕ, Bool, true, false, Option, none, some, List, [], ◌∷◌, ◌++◌, if◌then◌else◌, ltb, ◌==◌,
  string_key, nat_key, same,
}
use zhtp.Base.Lists.{contains}
use zhtp.Base.Dict.{Dict, lookup, insert}
use zhtp.Base.Result.{Result, ok, err}
use zhtp.Configuration.{
  NodeConfig, CliArgs, MeshMode, pure_mesh, hybrid, apply_cli_overrides, apply_environment_config,
}
use zhtp.Configuration.Mesh.{ModeError, validate_capabilities}

-- The text of a conflict of resources.
pub data Details : Type 0 where
  storage_exceeds_disk : ℕ → ℕ → Details
  stake_required capacity_required participation_required supply_required : Details

pub data ConfigError : Type 0 where
  port_conflict : ℕ → ConfigError
  invalid_mesh_mode : ConfigError
  mesh_validation_failed : ModeError → ConfigError
  resource_conflict : Details → ConfigError

abbrev pub Check : Type 0
Check = Result ConfigError Unit

-- `?` behind a check
infixr 20 ◌then_check◌
abbrev pub ◌then_check◌ : Check → Check → Check
(ok _) then_check next = next
(err e) then_check next = err e

abbrev Ports : Type 0
Ports = Dict ℕ String

-- `used_ports.insert`, and the conflict with what was there
abbrev use_port : ℕ → String → Ports × List ℕ → Ports × List ℕ
use_port port name (used, conflicts) = elim (lookup port used) [
  | none ↦ (insert port name used, conflicts)
  | some existing ↦ (insert port name used, conflicts ++ port ∷ [])
]

abbrev report : List ℕ → Check
report [] = ok tt
report (port ∷ _) = err (port_conflict port)

pub validate_port_assignments : NodeConfig → Check
validate_port_assignments config =
    let mesh_port = config.network_config.mesh_port in
    let both = use_port config.api_port "protocols-api" (use_port mesh_port "mesh" ([], [])) in
    if mesh_port == config.api_port then report [] else report both.1

pub validate_resource_allocations : NodeConfig → Check
validate_resource_allocations config =
    let capacity = config.storage_config.storage_capacity_gb in
    let disk = config.resource_allocations.max_disk_gb in
    if ltb disk capacity
    then err (resource_conflict (storage_exceeds_disk capacity disk))
    else ok tt

-- It only logs.
abbrev pub validate_security_consistency : NodeConfig → Check
validate_security_consistency config = ok tt

pub validate_pure_mesh_mode : NodeConfig → Check
validate_pure_mesh_mode config = elim config.mesh_mode [
  | hybrid ↦ ok tt
  | pure_mesh ↦
      if contains "tcp" config.network_config.protocols then err invalid_mesh_mode else ok tt
]

abbrev pub capabilities_checked : Result ModeError Unit → Check
capabilities_checked (ok _) = ok tt
capabilities_checked (err e) = err (mesh_validation_failed e)

pub validate_mesh_mode_configuration : NodeConfig → Check
validate_mesh_mode_configuration config =
    validate_pure_mesh_mode config
    then_check capabilities_checked
        (validate_capabilities config.network_config.protocols config.mesh_mode)

pub validate_consensus_parameters : NodeConfig → Check
validate_consensus_parameters config =
    let type = config.consensus_config.consensus_type in
    if same type "PoS"
    then (if config.consensus_config.min_stake == 0
        then err (resource_conflict stake_required)
        else ok tt)
    else if same type "PoStorage"
    then (if config.storage_config.storage_capacity_gb == 0
        then err (resource_conflict capacity_required)
        else ok tt)
    else if same type "PoUW"
    then (if config.network_config.max_peers == 0
        then err (resource_conflict participation_required)
        else ok tt)
    else ok tt

pub validate_economic_parameters : NodeConfig → Check
validate_economic_parameters config =
    if config.economics_config.total_supply == 0
    then err (resource_conflict supply_required)
    else ok tt

-- It only logs.
abbrev pub validate_integration_settings : NodeConfig → Check
validate_integration_settings config = ok tt

unfoldable pub validate_complete_configuration : NodeConfig → Check
validate_complete_configuration config =
    validate_port_assignments config
    then_check validate_resource_allocations config
    then_check validate_security_consistency config
    then_check validate_mesh_mode_configuration config
    then_check validate_consensus_parameters config
    then_check validate_economic_parameters config
    then_check validate_integration_settings config

-- `load_configuration`, from the configurations of the packages on
unfoldable pub load_configuration : CliArgs → NodeConfig → Result ConfigError NodeConfig
load_configuration args aggregated =
    let config = apply_environment_config (apply_cli_overrides args aggregated) in
    elim (validate_complete_configuration config) [ ok _ ↦ ok config | err e ↦ err e ]
