-- ===== src/RewardProcessor/Tests.antt =====
-- A small network, and the theorems at concrete inputs.
use zhtp.Base.{ℕ, ◌≡◌, refl, true, false, none, some, List, [], ◌∷◌, arith}
use zhtp.Base.Lists.{length}
use zhtp.Base.Result.{ok, err}
use zhtp.RewardProcessor.{
  Network, default_config, no_blockchain, Node, cap, get_stats, get_node_id, claim,
  validate_reward_transaction, check_amount, check_chain, process_rewards,
}
use zhtp.RewardProcessor.Cycle.{Claimable}
use zhtp.RewardProcessor.Counter.{process_rewards-claims_iff, process_rewards-claims_once}

-- A server counts its reward; the chain is a list of amounts, all of them accepted.
abbrev counting : Network
counting = record {
  MeshServer = ℕ;
  Blockchain = List ℕ;
  Transaction = ℕ;
  NodeId = ℕ;
  Work = ℕ;
  node_id = λ s. 1;
  work = λ s. s;
  no_work = 0;
  calculate_reward = λ w. w;
  reset_counter = λ s. 0;
  create_reward_transaction = λ id amount. some amount;
  has_zero_hash = λ tx. false;
  get_height = λ chain. length chain;
  add_pending_transaction = λ tx chain. (tx ∷ chain, none);
  calculate_reward-reset = λ s. refl;
}

-- A node that has earned more than a claim can be.
abbrev rich : Node counting
rich = record { mesh_server = some 25000; blockchain = some (1 ∷ []) }

-- A node without a blockchain.
abbrev bare : Node counting
bare = record { mesh_server = some 25000; blockchain = none }

rich_claim : Claimable counting default_config rich
unfolding cap
rich_claim = record {
  server = 25000;
  chain = 1 ∷ [];
  tx = 10000;
  has_server = refl;
  has_chain = refl;
  enough = omega arith;
  positive = omega arith;
  small = omega arith;
  created = refl;
  nonzero = refl;
  started = omega arith;
  accepted = refl;
}

rich_claims : (process_rewards counting default_config rich).1 ≡ ok true
rich_claims = (process_rewards-claims_iff counting default_config rich).1 rich_claim

bare_fails : (process_rewards counting default_config bare).1 ≡ err no_blockchain
unfolding process_rewards get_stats claim get_node_id cap validate_reward_transaction check_amount
    check_chain
bare_fails = refl

process_rewards-claims_once_example :
    let n' = (process_rewards counting default_config rich).0 in
    process_rewards counting default_config n' ≡ (n', ok false)
process_rewards-claims_once_example =
    process_rewards-claims_once counting default_config rich (omega arith) rich_claims
