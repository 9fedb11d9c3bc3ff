-- ===== src/RewardProcessor/Counter.antt =====
-- What a reward processor does to the counters of the mesh server.
use zhtp.Base.{◌<◌, ◌≡◌, refl, sym, ap, subst, ◌∙◌, ◌↔◌, Bool, true, false, arith}
use zhtp.Base.Result.{Result, ok, err}
use zhtp.RewardProcessor.{
  Network, RewardConfig, Error, Node, get_stats, cap, process_rewards, get_metrics,
}
use zhtp.RewardProcessor.Cycle.{
  Claimable, after, Outcome, below, unchanged, rejected, claimed, process_rewards-of_Claimable,
  process_rewards-cases,
}

module _ (net : Network) where
  open net use {calculate_reward, work, reset_counter, calculate_reward-reset}

  claimed_by :
      {config : RewardConfig} {n : Node net} {r : Node net × Result Error Bool}
      → Outcome net config n r
      → r.1 ≡ ok true
      → Claimable net config n
  claimed_by (below low) h = absurd (cc)
  claimed_by (unchanged e) h = absurd (cc)
  claimed_by (rejected tx chain message e f) h = absurd (cc)
  claimed_by (claimed c) h = c

  -- A cycle claims exactly if the node has a mesh server and a chain with blocks, the reward
  -- reaches the threshold, the capped amount is neither zero nor above the maximum of a
  -- single claim, a transaction with a hash that is not zero can be made for it, and the
  -- chain accepts that transaction.
  pub process_rewards-claims_iff :
      (config : RewardConfig) (n : Node net)
      → ((process_rewards net config n).1 ≡ ok true) ↔ Claimable net config n
  process_rewards-claims_iff config n = (
    claimed_by (process_rewards-cases net config n),
    λ c. ap (λ r. r.1) (process_rewards-of_Claimable net config n c),
  )

  kept_by :
      {config : RewardConfig} {n : Node net} {r : Node net × Result Error Bool} {e : Error}
      → Outcome net config n r
      → r.1 ≡ err e
      → r.0.mesh_server ≡ n.mesh_server
  kept_by (below low) h = refl
  kept_by (unchanged e) h = refl
  kept_by (rejected tx chain message e f) h = refl
  kept_by (claimed c) h = absurd (cc)

  -- A cycle that fails leaves the mesh server as it was: no reward that was earned is lost.
  pub process_rewards-keeps_counter :
      (config : RewardConfig) (n : Node net) (e : Error)
      → (process_rewards net config n).1 ≡ err e
      → (process_rewards net config n).0.mesh_server ≡ n.mesh_server
  process_rewards-keeps_counter config n e h = kept_by (process_rewards-cases net config n) h

  after-earns_nothing :
      {config : RewardConfig} {n : Node net} (c : Claimable net config n)
      → calculate_reward (get_stats net (after net c)) ≡ 0
  unfolding get_stats
  after-earns_nothing c = calculate_reward-reset c.server

  after-below :
      {config : RewardConfig} {n : Node net} (c : Claimable net config n)
      → 0 < config.minimum_threshold
      → process_rewards net config (after net c) ≡ (after net c, ok false)
  unfolding process_rewards
  after-below {config} c p = ground (arith, after-earns_nothing c)

  -- With a threshold above zero, the cycle right after one that claimed does nothing: no
  -- reward is claimed twice.
  pub process_rewards-claims_once :
      (config : RewardConfig) (n : Node net)
      → 0 < config.minimum_threshold
      → (process_rewards net config n).1 ≡ ok true
      → let n' = (process_rewards net config n).0 in process_rewards net config n' ≡ (n', ok false)
  process_rewards-claims_once config n p h =
      let c = (process_rewards-claims_iff config n).0 h in
      subst (λ n'. process_rewards net config n' ≡ (n', ok false))
        (sym (ap (λ r. r.0) (process_rewards-of_Claimable net config n c))) (after-below c p)

  -- When more than the batch size was earned and a cycle claims, the claim is for the batch
  -- size, and no reward is pending after it: the rest is not left for the next cycle.
  pub process_rewards-forfeits :
      (config : RewardConfig) (n : Node net) (c : Claimable net config n)
      → config.max_batch_size < calculate_reward (work c.server)
      → (cap net config (calculate_reward (work c.server)) ≡ config.max_batch_size)
        × ((get_metrics net config (process_rewards net config n).0).pending_rewards ≡ 0)
  unfolding cap get_metrics
  process_rewards-forfeits config n c more = (
    ground (arith, more),
    ap (λ r. calculate_reward (get_stats net r.0)) (process_rewards-of_Claimable net config n c)
        ∙ after-earns_nothing c,
  )
