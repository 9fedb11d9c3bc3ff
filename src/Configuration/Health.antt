-- ===== src/Configuration/Health.antt =====
-- src/config/validation.rs: the health check of a configuration and its report.
use Prim.Native.String.{String}
use zhtp.Base.{Bool, true, false, not, ◌&&◌, ◌≡◌, ◌↔◌, ◌≤◌, ◌⊎◌, List, [], ◌∷◌, ◌++◌, ltb, arith}
use zhtp.Configuration.{NodeConfig, Environment, development, testnet, mainnet}

pub record ConfigHealthReport : Type 0 where
  pub critical_issues : List String
  pub warnings : List String
  pub recommendations : List String

-- `ConfigHealthReport::new`
abbrev pub new_report : ConfigHealthReport
new_report = record { critical_issues = []; warnings = []; recommendations = [] }

abbrev pub add_critical : String → ConfigHealthReport → ConfigHealthReport
add_critical issue r = record r { critical_issues = r.critical_issues ++ issue ∷ [] }

abbrev pub add_warning : String → ConfigHealthReport → ConfigHealthReport
add_warning warning r = record r { warnings = r.warnings ++ warning ∷ [] }

abbrev pub add_recommendation : String → ConfigHealthReport → ConfigHealthReport
add_recommendation text r = record r { recommendations = r.recommendations ++ text ∷ [] }

abbrev has_entries : List String → Bool
has_entries [] = false
has_entries (_ ∷ _) = true

pub has_critical_issues : ConfigHealthReport → Bool
has_critical_issues r = has_entries r.critical_issues

abbrev is_mainnet : Environment → Bool
is_mainnet development = false
is_mainnet testnet = false
is_mainnet mainnet = true

abbrev advise : Bool → String → String → ConfigHealthReport → ConfigHealthReport
advise true warning text r = add_recommendation text (add_warning warning r)
advise false warning text r = r

abbrev critical_if : Bool → String → ConfigHealthReport → ConfigHealthReport
critical_if true issue r = add_critical issue r
critical_if false issue r = r

abbrev high_ubi : NodeConfig → Bool
high_ubi config =
    config.economics_config.ubi_enabled && ltb 1000 config.economics_config.daily_ubi_amount

unfoldable pub perform_configuration_health_check : NodeConfig → ConfigHealthReport
perform_configuration_health_check config =
    let critical =
      critical_if (not config.crypto_config.post_quantum_enabled && is_mainnet config.environment)
        "Post-quantum cryptography disabled in mainnet environment" new_report in
    let proofs =
      advise (not config.zk_config.plonky2_enabled)
        "Zero-knowledge proofs disabled - privacy features unavailable"
        "Enable plonky2_enabled = true in zk_config to activate privacy features" critical in
    let peers =
      advise (ltb config.network_config.max_peers 10) "Low peer count may affect network resilience"
        "Consider increasing max_peers to at least 20 for better network redundancy" proofs in
    let memory =
      advise (ltb config.resource_allocations.max_memory_mb 1024)
        "Low memory allocation may affect performance"
        "Increase max_memory_mb to at least 2048 MB for optimal performance" peers in
    advise (high_ubi config) "High UBI amount may affect economic sustainability"
      "Consider reducing daily_ubi_amount below 1000 to maintain economic balance" memory

-- The report has a critical issue exactly for a mainnet without post-quantum cryptography, and no
-- warning exactly if proofs are on, there are peers and memory enough, and the UBI is off or not high.
pub health_check-quiet_iff :
    (config : NodeConfig)
    → ((has_critical_issues (perform_configuration_health_check config) ≡ true)
        ↔ ((config.crypto_config.post_quantum_enabled ≡ false) × (config.environment ≡ mainnet)))
      × (((perform_configuration_health_check config).warnings ≡ []) ↔ (
          (config.zk_config.plonky2_enabled ≡ true)
          × (10 ≤ config.network_config.max_peers)
          × (1024 ≤ config.resource_allocations.max_memory_mb)
          × ((config.economics_config.ubi_enabled ≡ false)
              ⊎ (config.economics_config.daily_ubi_amount ≤ 1000))))
unfolding perform_configuration_health_check has_critical_issues
health_check-quiet_iff config =
    ((λ e. ground arith, λ h. ground arith), (λ e. ground arith, λ h. ground arith))
