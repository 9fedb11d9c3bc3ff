-- ===== src/ProtocolFilter/Tests.antt =====
-- The theorems on src/security/protocol_filter.rs at concrete inputs.
use zhtp.Base.{◌≡◌, refl, sym, true, false, same, string_key, string_dec}
use zhtp.Base.Lists.{eq_of_same}
use zhtp.ProtocolFilter.{
  Text, blockchain, from_str, is_allowed, is_allowed-bootstrap, is_blockchain_protocol, listed,
  named, new_bootstrap,
}

-- Names in lower case only.
abbrev text : Text
text = record { to_lowercase = λ s. s; eq_ignore_ascii_case = λ p s. same p s }

quic-allowed : is_allowed text new_bootstrap "quic" ≡ true
unfolding is_allowed new_bootstrap listed string_dec
quic-allowed = refl

is_allowed-bootstrap_example : is_blockchain_protocol (from_str text "quic") ≡ true
is_allowed-bootstrap_example =
    is_allowed-bootstrap text (λ p s found e. sym (eq_of_same p s e)) "quic" quic-allowed

-- `from_str` knows "block" as the protocol of the blockchain, and the list does not.
alias : from_str text "block" ≡ blockchain
unfolding from_str named string_dec
alias = refl

alias-refused : is_allowed text new_bootstrap "block" ≡ false
unfolding is_allowed new_bootstrap listed string_dec
alias-refused = refl
