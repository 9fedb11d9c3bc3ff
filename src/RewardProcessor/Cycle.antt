-- ===== src/RewardProcessor/Cycle.antt =====
-- What one cycle of a reward processor does.
use Prim.Native.String.{String}
use zhtp.Base.{
  ℕ, ◌<◌, ◌≤◌, ◌≡◌, subst, inl, inr, Bool, true, false, none, some, ltb, arith, Option-cases,
  Bool-cases,
}
use zhtp.Base.Result.{Result, ok, err}
use zhtp.RewardProcessor.{
  Network, RewardConfig, Error, add_failed, no_blockchain, no_node_id, creation_failed,
  max_single_claim, Node, get_stats, get_node_id, reset_rewards, cap, check_amount, check_chain,
  validate_reward_transaction, finish_claim, submit, claim, process_rewards,
}

module _ (net : Network) where
  open net use {
    MeshServer, Blockchain, Transaction, NodeId, Work, node_id, work, calculate_reward,
    reset_counter, create_reward_transaction, has_zero_hash, get_height, add_pending_transaction,
    calculate_reward-reset,
  }

  -- A node on which a cycle makes a claim, and what the claim is made of.
  pub record Claimable (config : RewardConfig) (n : Node net) : Type 0 where
    pub server : MeshServer
    pub chain : Blockchain
    pub tx : Transaction
    pub has_server : n.mesh_server ≡ some server
    pub has_chain : n.blockchain ≡ some chain
    pub enough : config.minimum_threshold ≤ calculate_reward (work server)
    pub positive : 0 < cap net config (calculate_reward (work server))
    pub small : cap net config (calculate_reward (work server)) ≤ max_single_claim
    pub created :
        create_reward_transaction (node_id server) (cap net config (calculate_reward (work server)))
        ≡ some tx
    pub nonzero : has_zero_hash tx ≡ false
    pub started : 0 < get_height chain
    pub accepted : (add_pending_transaction tx chain).1 ≡ none

  -- The node after the claim: one transaction more, and the counters reset.
  abbrev pub after : {config : RewardConfig} {n : Node net} → Claimable config n → Node net
  after c = record {
    mesh_server = some (reset_counter c.server);
    blockchain = some (add_pending_transaction c.tx c.chain).0;
  }

  check_amount-none :
      (config : RewardConfig) (amount : ℕ)
      → 0 < amount
      → amount ≤ max_single_claim
      → amount ≤ config.max_batch_size
      → check_amount net config amount ≡ none
  unfolding check_amount
  check_amount-none config amount p q r = ground arith

  cap-le : (config : RewardConfig) (earned : ℕ) → cap net config earned ≤ config.max_batch_size
  unfolding cap
  cap-le config earned = ground arith

  pub process_rewards-of_Claimable :
      (config : RewardConfig) (n : Node net) (c : Claimable config n)
      → process_rewards net config n ≡ (after c, ok true)
  unfolding process_rewards claim get_stats get_node_id validate_reward_transaction check_chain
      submit finish_claim reset_rewards
  process_rewards-of_Claimable config n c =
      let earned = calculate_reward (work c.server) in
      let fine =
        check_amount-none config (cap net config earned) c.positive c.small
          (cap-le config earned) in
      ground (
        arith, c.has_server, c.has_chain, c.enough, c.created, c.nonzero, c.started, c.accepted,
        fine,
      )

  check_amount-bounds :
      (config : RewardConfig) (amount : ℕ)
      → check_amount net config amount ≡ none
      → (0 < amount) × (amount ≤ max_single_claim)
  unfolding check_amount
  check_amount-bounds config amount h = ground arith

  check_chain-passes :
      (tx : Transaction) (n : Node net) (chain : Blockchain)
      → n.blockchain ≡ some chain
      → check_chain net tx n ≡ none
      → (has_zero_hash tx ≡ false) × (0 < get_height chain)
  unfolding check_chain
  check_chain-passes tx n chain e h = ground arith

  -- The outcomes of a cycle.
  pub data Outcome (config : RewardConfig) (n : Node net)
      : Node net × Result Error Bool → Type 0 where
    below :
        calculate_reward (get_stats net n) < config.minimum_threshold
        → Outcome config n (n, ok false)
    unchanged : (e : Error) → Outcome config n (n, err e)
    rejected :
        (tx : Transaction) (chain : Blockchain) (message : String)
        → n.blockchain ≡ some chain
        → (add_pending_transaction tx chain).1 ≡ some message
        → Outcome config n (
          record n { blockchain = some (add_pending_transaction tx chain).0 },
          err (add_failed message),
        )
    claimed : (c : Claimable config n) → Outcome config n (after c, ok true)

  module _ (config : RewardConfig) (n : Node net) (server : MeshServer)
      (has_server : n.mesh_server ≡ some server)
      (enough : config.minimum_threshold ≤ calculate_reward (work server)) where
    amount : ℕ
    amount = cap net config (calculate_reward (work server))

    -- the claim behind the validation
    module _ (tx : Transaction) (made : create_reward_transaction (node_id server) amount ≡ some tx)
        (valid : validate_reward_transaction net config amount tx n ≡ none) where
      Claimable-valid :
          (chain : Blockchain)
          → n.blockchain ≡ some chain
          → (add_pending_transaction tx chain).1 ≡ none
          → Claimable config n
      unfolding validate_reward_transaction amount
      Claimable-valid chain e accepted =
          let bounds = check_amount-bounds config amount (ground arith) in
          let passes = check_chain-passes tx n chain e (ground arith) in
          record {
            server = server;
            chain = chain;
            tx = tx;
            has_server = has_server;
            has_chain = e;
            enough = enough;
            positive = bounds.0;
            small = bounds.1;
            created = made;
            nonzero = passes.0;
            started = passes.1;
            accepted = accepted;
          }

      submit-Outcome : Outcome config n (submit net tx n)
      unfolding submit finish_claim reset_rewards Claimable-valid
      submit-Outcome = elim (Option-cases n.blockchain) [
        | inl e ↦ subst (Outcome config n) (ground (arith, e)) (unchanged no_blockchain)
        | inr (chain, e) ↦ elim (Option-cases (add_pending_transaction tx chain).1) [
          | inr (message, f) ↦
              subst (Outcome config n) (ground (arith, e, f)) (rejected tx chain message e f)
          | inl f ↦
              subst (Outcome config n) (ground (arith, e, f, has_server))
                (claimed (Claimable-valid chain e f))
        ]
      ]

    claim-Outcome : Outcome config n (claim net config amount n)
    unfolding claim get_node_id
    claim-Outcome = elim (Option-cases (create_reward_transaction (node_id server) amount)) [
      | inl e ↦ subst (Outcome config n) (ground (arith, e, has_server)) (unchanged creation_failed)
      | inr (tx, made) ↦ elim (Option-cases (validate_reward_transaction net config amount tx n)) [
        | inl valid ↦
            subst (Outcome config n) (ground (arith, made, valid, has_server))
              (submit-Outcome tx made valid)
        | inr (e, bad) ↦
            subst (Outcome config n) (ground (arith, made, bad, has_server)) (unchanged e)
      ]
    ]

  pub process_rewards-cases :
      (config : RewardConfig) (n : Node net) → Outcome config n (process_rewards net config n)
  unfolding process_rewards get_stats claim get_node_id amount
  process_rewards-cases config n =
      elim (Bool-cases (ltb (calculate_reward (get_stats net n)) config.minimum_threshold)) [
        | inl low ↦ subst (Outcome config n) (ground (arith, low)) (below (ground (arith, low)))
        | inr high ↦ elim (Option-cases n.mesh_server) [
          | inl none_there ↦
              subst (Outcome config n) (ground (arith, high, none_there)) (unchanged no_node_id)
          | inr (server, there) ↦
              subst (Outcome config n) (ground (arith, high, there))
                (claim-Outcome config n server there (ground (arith, high, there)))
        ]
      ]
