-- ===== src/SecurityLevels.antt =====
-- The settings of the security levels in src/config/security.rs. Levels and environments are those
-- of Configuration.
use zhtp.Base.{ℕ, ◌≡◌, refl, Bool, true, false, not, ◌&&◌, ◌||◌, leb}
use zhtp.Configuration.{Environment, SecurityLevel, basic, high, mainnet, maximum, medium}

pub data DilithiumLevel : Type 0 where
  level2 level3 level5 : DilithiumLevel

pub data KyberLevel : Type 0 where
  kyber512 kyber768 kyber1024 : KyberLevel

pub data MigrationStrategy : Type 0 where
  immediate gradual classical : MigrationStrategy

pub data ProofSystem : Type 0 where
  plonky2 groth16 stark : ProofSystem

pub data TlsVersion : Type 0 where
  v1_2 v1_3 : TlsVersion

pub record PostQuantumConfig : Type 0 where
  pub enabled : Bool
  pub dilithium_level : DilithiumLevel
  pub kyber_level : KyberLevel
  pub hybrid_mode : Bool
  pub migration_strategy : MigrationStrategy

pub record ZkSecurityConfig : Type 0 where
  pub proof_system : ProofSystem
  pub circuit_security_level : ℕ
  pub trusted_setup_required : Bool
  pub proof_verification_threads : ℕ
  pub circuit_compilation_cache : Bool

pub record MemorySecurityConfig : Type 0 where
  pub secure_memory_wiping : Bool
  pub stack_protection : Bool
  pub heap_protection : Bool
  pub constant_time_operations : Bool
  pub side_channel_protection : Bool

pub record NetworkSecurityConfig : Type 0 where
  pub tls_min_version : TlsVersion
  pub perfect_forward_secrecy : Bool
  pub certificate_pinning : Bool
  pub encrypted_mesh_traffic : Bool
  pub post_quantum_tls : Bool

pub get_post_quantum_config : SecurityLevel → PostQuantumConfig
get_post_quantum_config basic = record {
  enabled = false;
  dilithium_level = level2;
  kyber_level = kyber512;
  hybrid_mode = true;
  migration_strategy = classical;
}
get_post_quantum_config medium = record {
  enabled = true;
  dilithium_level = level2;
  kyber_level = kyber512;
  hybrid_mode = true;
  migration_strategy = gradual;
}
get_post_quantum_config high = record {
  enabled = true;
  dilithium_level = level3;
  kyber_level = kyber768;
  hybrid_mode = true;
  migration_strategy = gradual;
}
get_post_quantum_config maximum = record {
  enabled = true;
  dilithium_level = level5;
  kyber_level = kyber1024;
  hybrid_mode = false;
  migration_strategy = immediate;
}

-- The parts in which the levels differ: the strength of a circuit, the threads and the cache.
abbrev zk_config : ℕ → ℕ → Bool → ZkSecurityConfig
zk_config strength threads cache = record {
  proof_system = plonky2;
  circuit_security_level = strength;
  trusted_setup_required = false;
  proof_verification_threads = threads;
  circuit_compilation_cache = cache;
}

pub get_zk_security_config : SecurityLevel → ZkSecurityConfig
get_zk_security_config basic = zk_config 128 1 true
get_zk_security_config medium = zk_config 128 2 true
get_zk_security_config high = zk_config 192 4 true
get_zk_security_config maximum = zk_config 256 8 false

abbrev is_high : SecurityLevel → Bool
is_high high = true
is_high maximum = true
is_high _ = false

abbrev is_basic : SecurityLevel → Bool
is_basic basic = true
is_basic _ = false

abbrev is_maximum : SecurityLevel → Bool
is_maximum maximum = true
is_maximum _ = false

pub get_memory_security_config : SecurityLevel → MemorySecurityConfig
get_memory_security_config level = record {
  secure_memory_wiping = is_high level;
  stack_protection = not (is_basic level);
  heap_protection = is_high level;
  constant_time_operations = true;
  side_channel_protection = is_high level;
}

pub get_network_security_config : SecurityLevel → NetworkSecurityConfig
get_network_security_config level = record {
  tls_min_version = elim (is_basic level) [ true ↦ v1_2 | false ↦ v1_3 ];
  perfect_forward_secrecy = is_high level;
  certificate_pinning = is_high level;
  encrypted_mesh_traffic = true;
  post_quantum_tls = is_maximum level;
}

-- Whether the level is accepted.
pub validate_for_environment : SecurityLevel → Environment → Bool
validate_for_environment basic mainnet = false
validate_for_environment _ _ = true

-- The bits of security that the comments of the source give.
pub dilithium_bits : DilithiumLevel → ℕ
dilithium_bits level2 = 128
dilithium_bits level3 = 192
dilithium_bits level5 = 256

pub kyber_bits : KyberLevel → ℕ
kyber_bits kyber512 = 128
kyber_bits kyber768 = 192
kyber_bits kyber1024 = 256

tls_number : TlsVersion → ℕ
tls_number v1_2 = 2
tls_number v1_3 = 3

pub rank : SecurityLevel → ℕ
rank basic = 0
rank medium = 1
rank high = 2
rank maximum = 3

abbrev implies : Bool → Bool → Bool
implies a b = not a || b

-- Whether the second settings protect wherever the first do.
pub covers_memory : MemorySecurityConfig → MemorySecurityConfig → Bool
covers_memory a b =
    implies a.secure_memory_wiping b.secure_memory_wiping
    && implies a.stack_protection b.stack_protection
    && implies a.heap_protection b.heap_protection
    && implies a.constant_time_operations b.constant_time_operations
    && implies a.side_channel_protection b.side_channel_protection

pub covers_network : NetworkSecurityConfig → NetworkSecurityConfig → Bool
covers_network a b =
    leb (tls_number a.tls_min_version) (tls_number b.tls_min_version)
    && implies a.perfect_forward_secrecy b.perfect_forward_secrecy
    && implies a.certificate_pinning b.certificate_pinning
    && implies a.encrypted_mesh_traffic b.encrypted_mesh_traffic
    && implies a.post_quantum_tls b.post_quantum_tls

pub covers_crypto : PostQuantumConfig → PostQuantumConfig → Bool
covers_crypto a b =
    implies a.enabled b.enabled
    && leb (dilithium_bits a.dilithium_level) (dilithium_bits b.dilithium_level)
    && leb (kyber_bits a.kyber_level) (kyber_bits b.kyber_level)

pub covers_zk : ZkSecurityConfig → ZkSecurityConfig → Bool
covers_zk a b =
    leb a.circuit_security_level b.circuit_security_level
    && leb a.proof_verification_threads b.proof_verification_threads
    && implies b.trusted_setup_required a.trusted_setup_required

pub covers : SecurityLevel → SecurityLevel → Bool
covers a b =
    covers_crypto (get_post_quantum_config a) (get_post_quantum_config b)
    && covers_zk (get_zk_security_config a) (get_zk_security_config b)
    && covers_memory (get_memory_security_config a) (get_memory_security_config b)
    && covers_network (get_network_security_config a) (get_network_security_config b)

-- Raising the level gives up no protection, and lowering it gives up some.
pub covers-rank : (a b : SecurityLevel) → covers a b ≡ leb (rank a) (rank b)
unfolding covers covers_crypto covers_zk covers_memory covers_network dilithium_bits kyber_bits
    tls_number rank get_post_quantum_config get_zk_security_config get_memory_security_config
    get_network_security_config
covers-rank basic basic = refl
covers-rank basic medium = refl
covers-rank basic high = refl
covers-rank basic maximum = refl
covers-rank medium basic = refl
covers-rank medium medium = refl
covers-rank medium high = refl
covers-rank medium maximum = refl
covers-rank high basic = refl
covers-rank high medium = refl
covers-rank high high = refl
covers-rank high maximum = refl
covers-rank maximum basic = refl
covers-rank maximum medium = refl
covers-rank maximum high = refl
covers-rank maximum maximum = refl
