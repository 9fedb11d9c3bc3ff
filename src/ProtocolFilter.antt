-- ===== src/ProtocolFilter.antt =====
-- The `ProtocolFilter` of src/security/protocol_filter.rs, with `to_lowercase` and
-- `eq_ignore_ascii_case` of the standard library as the parameter `Text`.
mod Tests
use Prim.Native.String.{String}
use text.Mathlib.Text.{starts_with}
use zhtp.Base.{
  Bool, true, false, not, ◌&&◌, ◌||◌, ◌≡◌, refl, sym, ◌∙◌, ap, subst, List, [], ◌∷◌, if◌then◌else◌,
  Bool-cases, inl, inr, true-ne-false, string_key, string_dec, arith, same,
}
use zhtp.Base.Lists.{All-contains, contains, contains-cons, contains-nil}

pub data Protocol : Type 0 where
  zhtp_protocol dht blockchain mesh quic http https socks dns smtp ftp ssh unknown : Protocol

pub record Text : Type 0 where
  pub to_lowercase : String → String
  pub eq_ignore_ascii_case : String → String → Bool

-- The names of `from_str`, in the order in which they are tried.
abbrev pub names : List (String × Protocol)
names =
    ("zhtp", zhtp_protocol)
    ∷ ("dht", dht)
    ∷ ("blockchain", blockchain)
    ∷ ("block", blockchain)
    ∷ ("chain", blockchain)
    ∷ ("mesh", mesh)
    ∷ ("quic", quic)
    ∷ ("http", http)
    ∷ ("https", https)
    ∷ ("socks", socks)
    ∷ ("socks5", socks)
    ∷ ("socks4", socks)
    ∷ ("dns", dns)
    ∷ ("smtp", smtp)
    ∷ ("ftp", ftp)
    ∷ ("ftps", ftp)
    ∷ ("ssh", ssh)
    ∷ []

pub named : String → List (String × Protocol) → Protocol
named s [] = unknown
named s ((name, protocol) ∷ rest) = if same s name then protocol else named s rest

pub is_blockchain_protocol : Protocol → Bool
is_blockchain_protocol zhtp_protocol = true
is_blockchain_protocol dht = true
is_blockchain_protocol blockchain = true
is_blockchain_protocol mesh = true
is_blockchain_protocol quic = true
is_blockchain_protocol _ = false

pub is_internet_protocol : Protocol → Bool
is_internet_protocol http = true
is_internet_protocol https = true
is_internet_protocol socks = true
is_internet_protocol smtp = true
is_internet_protocol ftp = true
is_internet_protocol _ = false

pub record ProtocolFilter : Type 0 where
  pub allow_blockchain : Bool
  pub block_internet : Bool
  pub allowed_protocols : List String
  pub blocked_protocols : List String

abbrev pub bootstrap_names : List String
bootstrap_names = "zhtp" ∷ "dht" ∷ "blockchain" ∷ "mesh" ∷ "quic" ∷ []

pub new_bootstrap : ProtocolFilter
new_bootstrap = record {
  allow_blockchain = true;
  block_internet = true;
  allowed_protocols = bootstrap_names;
  blocked_protocols = "http" ∷ "https" ∷ "socks" ∷ "dns" ∷ "smtp" ∷ "ftp" ∷ [];
}

pub new_permissive : ProtocolFilter
new_permissive = record {
  allow_blockchain = true;
  block_internet = false;
  allowed_protocols = [];
  blocked_protocols = [];
}

module _ (text : Text) where
  pub from_str : String → Protocol
  from_str s = named (text.to_lowercase s) names

  pub listed : List String → String → Bool
  listed [] s = false
  listed (p ∷ ps) s = text.eq_ignore_ascii_case p s || listed ps s

  -- What follows the two lists.
  pub general_rules : ProtocolFilter → Protocol → Bool
  general_rules filter protocol =
      if is_blockchain_protocol protocol && filter.allow_blockchain
      then true
      else if is_internet_protocol protocol && filter.block_internet
      then false
      else not filter.block_internet

  pub is_allowed : ProtocolFilter → String → Bool
  is_allowed filter s = elim filter.allowed_protocols [
    | p ∷ ps ↦ listed (p ∷ ps) s
    | [] ↦ if listed filter.blocked_protocols s then false else general_rules filter (from_str s)
  ]

  -- The list of a name that is allowed holds it, but for its case.
  listed-found :
      (ps : List String) (s : String)
      → listed ps s ≡ true
      → (p : String) × (contains p ps ≡ true) × (text.eq_ignore_ascii_case p s ≡ true)
  unfolding listed
  listed-found [] s e = absurd (true-ne-false (sym e))
  listed-found (p ∷ ps) s e = elim (Bool-cases (text.eq_ignore_ascii_case p s)) [
    | inl m ↦ (p, ground (arith, contains-cons p p ps), m)
    | inr m ↦
        let (q, found, same_name) = listed-found ps s (ground (arith, m, e)) in
        (q, ground (arith, found, contains-cons q p ps), same_name)
  ]

  bootstrap-blockchain :
      (p : String)
      → contains p bootstrap_names ≡ true
      → is_blockchain_protocol (named p names) ≡ true
  unfolding named is_blockchain_protocol string_dec
  bootstrap-blockchain p e =
      All-contains (λ q. is_blockchain_protocol (named q names) ≡ true) bootstrap_names p
        (refl, (refl, (refl, (refl, (refl, tt))))) e

  -- If a text that equals a name of the list but for its case is that name in lower case:
  -- what the filter of a bootstrap node allows, from_str takes for a protocol of the
  -- blockchain.
  pub is_allowed-bootstrap :
      ((p s : String)
        → contains p bootstrap_names ≡ true
        → text.eq_ignore_ascii_case p s ≡ true
        → text.to_lowercase s ≡ p)
      → (s : String) → is_allowed new_bootstrap s ≡ true
      → is_blockchain_protocol (from_str s) ≡ true
  unfolding is_allowed from_str new_bootstrap
  is_allowed-bootstrap lower s e =
      let (p, found, same_name) = listed-found bootstrap_names s e in
      ap (λ t. is_blockchain_protocol (named t names)) (lower p s found same_name)
      ∙ bootstrap-blockchain p found
