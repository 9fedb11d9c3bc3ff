-- ===== src/GenesisFunding/Tests.antt =====
-- The theorems on src/runtime/services/genesis_funding.rs at concrete inputs; numbers are identities,
-- hashes and keys.
use zhtp.Base.Lists.{length}
use zhtp.Base.{ℕ, suc, true, ◌%◌, ◌≡◌, refl, none, some, [], ◌∷◌, nat_key, arith}
use zhtp.Base.Dict.{lookup}
use zhtp.GenesisFunding.{
  Chain, GenesisValidator, Library, Output, Preimage, create_genesis_funding, done, genesis_funding,
  identity_owner, literal, missing_identity, user_wallet_commitment, user_wallet_note,
  validator_stake_commitment, validator_stake_note, fund_wallet, finish_genesis,
  register_user_identity, stake_overflows, system_outputs, total_validator_stake, validator_outputs,
}
use zhtp.GenesisFunding.Outcomes.{create_genesis_funding-refused}
use zhtp.GenesisFunding.Spendable.{
  AreApart, create_genesis_funding-spendable, genesis_outputs, get_elem?,
}

abbrev hash : Preimage ℕ → ℕ
hash (genesis_funding i) = i % 256
hash (validator_stake_commitment id stake) = 0
hash (validator_stake_note id index) = 0
hash (user_wallet_commitment id amount) = 0
hash (user_wallet_note id) = 0
hash (literal text) = 0

abbrev lib : Library
lib = record {
  IdentityId = ℕ;
  Hash = ℕ;
  Bytes = ℕ;
  Rest = ℕ;
  id_key = nat_key;
  hash_key = nat_key;
  length = λ key. key;
  overflow_checks = true;
  blake3_hash = hash;
  merkle_root = λ transactions. 0;
  register_identity = λ entry chain. record chain { rest = suc chain.rest };
  register_validator = λ info chain. record chain { rest = suc chain.rest };
}

abbrev validator : GenesisValidator ℕ
validator = record {
  identity_id = 1;
  node_device_id = some 2;
  stake = 1000;
  storage_provided = 0;
  commission_rate = 500;
}

abbrev chain : Chain lib
chain = record {
  blocks = record { transactions = []; merkle_root = 0 } ∷ [];
  utxo_set = [];
  wallet_registry = [];
  rest = 0;
}

no_identity :
    (create_genesis_funding lib (validator ∷ []) (some 7) none [] chain).1 ≡ missing_identity
unfolding create_genesis_funding stake_overflows total_validator_stake fund_wallet
no_identity = refl

create_genesis_funding-refused_example :
    (create_genesis_funding lib (validator ∷ []) (some 7) none [] chain).0 ≡ chain
create_genesis_funding-refused_example =
    create_genesis_funding-refused lib (validator ∷ []) (some 7) none [] chain
      (λ e. ground (arith, e, no_identity)) (λ e. ground (arith, e, no_identity))

funded : (create_genesis_funding lib (validator ∷ []) none none [] chain).1 ≡ done
unfolding create_genesis_funding stake_overflows total_validator_stake fund_wallet finish_genesis
    register_user_identity
funded = refl

abbrev stake : Output lib
stake = record { commitment = 0; note = 0; recipient = identity_owner 1 }

stake-first : get_elem? (genesis_outputs lib (validator ∷ []) none none) 0 ≡ some stake
unfolding get_elem? genesis_outputs validator_outputs
stake-first = refl

apart : AreApart lib (length (genesis_outputs lib (validator ∷ []) none none))
unfolding genesis_outputs validator_outputs system_outputs
apart m n l k e = omega (arith, l, k, e)

create_genesis_funding-spendable_example :
    lookup 0 (create_genesis_funding lib (validator ∷ []) none none [] chain).0.utxo_set
    ≡ some stake
create_genesis_funding-spendable_example =
    create_genesis_funding-spendable lib (validator ∷ []) none none apart (λ entry chain. refl)
      (λ info chain. refl) [] chain funded 0 stake stake-first
