-- ===== src/RewardOrchestrator/Status.antt =====
-- The status after `start_all`.
use zhtp.Base.{◌≡◌, false, true, none, arith}
use zhtp.RewardOrchestrator.{
  RewardOrchestrator, get_status, handle_of, is_enabled, is_fully_operational, is_routing_running,
  is_storage_running, set_handle, spawn, start, start_all, store,
}

-- When no disabled processor has a handle, start_all leaves exactly the enabled processors with a
-- handle, so that the status is fully operational, and a second start_all changes nothing.
pub start_all_operational :
    (o : RewardOrchestrator)
    → (o.config.enable_routing_rewards ≡ false → o.routing_handle ≡ none)
    → (o.config.enable_storage_rewards ≡ false → o.storage_handle ≡ none)
    → (is_fully_operational (get_status (start_all o)) ≡ true)
      × (start_all (start_all o) ≡ start_all o)
unfolding is_fully_operational get_status start_all start store spawn handle_of set_handle
    is_enabled is_routing_running is_storage_running
start_all_operational o r s = (ground (arith, r, s), ground (arith, r, s))
