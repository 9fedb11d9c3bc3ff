-- ===== src/RewardOrchestrator/Tests.antt =====
-- Runs of the orchestrator, and the theorems at concrete inputs.
use zhtp.Base.{ℕ, false, some, ◌<◌, ◌≡◌, refl, true, arith}
use zhtp.RewardOrchestrator.{
  Processor, routing, storage, default_rewards_config, default_orchestrator_config,
  RewardOrchestratorConfig, from_rewards_config, RewardOrchestrator, with_config, handle_of,
  interval_of, is_enabled, is_for, set_handle, spawn, stop, store,
}
use zhtp.RewardOrchestrator.Stages.{
  IsTracked, Reachable, Stage, created, held, is_live, lost, pending, retire, runs, set, spawned,
  stopped, stored, unborn,
}
use zhtp.RewardOrchestrator.Tasks.{Reachable-IsTracked}

-- The two defaults agree.
defaults_agree : from_rewards_config default_rewards_config ≡ default_orchestrator_config
unfolding from_rewards_config
defaults_agree = refl

-- Storage rewards are disabled.
abbrev routing_only : RewardOrchestratorConfig
routing_only = record default_orchestrator_config { enable_storage_rewards = false }

positive : (p : Processor) → 0 < interval_of p routing_only
unfolding interval_of
positive routing = omega arith
positive storage = omega arith

-- Two calls of start_all find no handle, and both of them spawn a task before the first stores its
-- handle; then stop_all is called.
abbrev overlapped : RewardOrchestrator
overlapped =
    stop routing
      (store routing 1 (store routing 0 (spawn routing (spawn routing (with_config routing_only)))))

abbrev both : ℕ → Stage
both = set 1 (pending routing) (set 0 (pending routing) (λ n. unborn))

abbrev after_stores : ℕ → Stage
after_stores = set 1 (held routing) (set 0 (lost routing) (set 0 (held routing) both))

overlapped-Reachable : Reachable routing_only overlapped (retire (some 1) after_stores)
unfolding with_config spawn store stop handle_of set_handle is_enabled
overlapped-Reachable = stopped routing (
    stored routing 1 (stored routing 0 (spawned routing (spawned routing created refl) refl) refl)
      refl)

Reachable-IsTracked_example : IsTracked routing_only overlapped (retire (some 1) after_stores)
Reachable-IsTracked_example = Reachable-IsTracked positive overlapped-Reachable

-- The first of the two tasks runs on.
leaks : runs routing 0 overlapped.tasks ≡ true
unfolding is_live is_for
leaks = (Reachable-IsTracked positive overlapped-Reachable).running routing 0
