-- ===== src/Configuration/Mesh.antt =====
-- src/config/mesh_modes.rs: what a mode of the mesh asks for.
use Prim.Native.String.{String}
use zhtp.Base.{
  ℕ, Bool, true, false, not, ◌||◌, ◌≡◌, List, [], ◌∷◌, if◌then◌else◌, string_key, arith,
}
use zhtp.Base.Lists.{contains, contains-nil, contains-cons}
use zhtp.Base.Result.{Result, ok, err}
use zhtp.Configuration.{MeshMode, pure_mesh, hybrid}

pub record ProtocolSelection : Type 0 where
  pub bluetooth_le : Bool
  pub wifi_direct : Bool
  pub lorawan : Bool
  pub tcp_ip : Bool
  pub websockets : Bool
  pub quic : Bool

pub get_protocol_selection : MeshMode → ProtocolSelection
get_protocol_selection pure_mesh = record {
  bluetooth_le = true;
  wifi_direct = true;
  lorawan = true;
  tcp_ip = false;
  websockets = false;
  quic = false;
}
get_protocol_selection hybrid = record {
  bluetooth_le = true;
  wifi_direct = true;
  lorawan = true;
  tcp_ip = true;
  websockets = true;
  quic = true;
}

pub requires_long_range_relays : MeshMode → Bool
requires_long_range_relays pure_mesh = true
requires_long_range_relays hybrid = false

pub data BootstrapStrategy : Type 0 where
  mesh_discovery tcp_and_mesh : BootstrapStrategy

pub get_bootstrap_strategy : MeshMode → BootstrapStrategy
get_bootstrap_strategy pure_mesh = mesh_discovery
get_bootstrap_strategy hybrid = tcp_and_mesh

pub data DiscoveryMethod : Type 0 where
  tcp_bootstrap bluetooth_scan wifi_direct_scan lorawan_scan satellite_uplink dns_discovery :
      DiscoveryMethod

pub get_discovery_methods : BootstrapStrategy → List DiscoveryMethod
get_discovery_methods mesh_discovery =
    bluetooth_scan ∷ wifi_direct_scan ∷ lorawan_scan ∷ satellite_uplink ∷ []
get_discovery_methods tcp_and_mesh =
    tcp_bootstrap ∷ bluetooth_scan ∷ wifi_direct_scan ∷ dns_discovery ∷ []

pub data ModeError : Type 0 where
  no_mesh_protocol tcp_ip_protocol internet_fallback bypass_disabled : ModeError

-- `iter().any(|p| matches!(p, ..))`
pub has_any : List String → List String → Bool
has_any names [] = false
has_any names (protocol ∷ protocols) = contains protocol names || has_any names protocols

abbrev pub mesh_names : List String
mesh_names = "bluetooth" ∷ "wifi_direct" ∷ "lorawan" ∷ []

abbrev pub tcp_ip_names : List String
tcp_ip_names = "tcp" ∷ "websocket" ∷ "quic" ∷ []

-- The hybrid mode only logs.
unfoldable pub validate_capabilities : List String → MeshMode → Result ModeError Unit
validate_capabilities available hybrid = ok tt
validate_capabilities available pure_mesh =
    if not (has_any mesh_names available)
    then err no_mesh_protocol
    else if has_any tcp_ip_names available
    then err tcp_ip_protocol
    else ok tt

pub record IspBypassConfig : Type 0 where
  pub enabled : Bool
  pub prefer_mesh_routes : Bool
  pub fallback_to_internet : Bool
  pub long_range_relay_timeout_ms : ℕ
  pub mesh_route_priority : ℕ

-- `IspBypassConfig::default`
abbrev pub default_bypass : IspBypassConfig
default_bypass = record {
  enabled = true;
  prefer_mesh_routes = true;
  fallback_to_internet = false;
  long_range_relay_timeout_ms = 10000;
  mesh_route_priority = 255;
}

pub validate_for_mode : IspBypassConfig → MeshMode → Result ModeError Unit
validate_for_mode bypass hybrid = ok tt
validate_for_mode bypass pure_mesh =
    if bypass.fallback_to_internet
    then err internet_fallback
    else if not bypass.enabled
    then err bypass_disabled
    else ok tt

-- A list has one of three names exactly if it has the first, the second or the third.
pub has_any-three :
    (a b c : String) (protocols : List String)
    → has_any (a ∷ b ∷ c ∷ []) protocols
      ≡ (contains a protocols || contains b protocols || contains c protocols)
unfolding has_any
has_any-three a b c [] =
    ground
      (arith, contains-nil {K = String} a, contains-nil {K = String} b, contains-nil {K = String} c)
has_any-three a b c (p ∷ ps) = ground (
  arith,
  has_any-three a b c ps,
  contains-cons p a (b ∷ c ∷ []),
  contains-cons p b (c ∷ []),
  contains-cons p c [],
  contains-nil {K = String} p,
  contains-cons a p ps,
  contains-cons b p ps,
  contains-cons c p ps,
)
