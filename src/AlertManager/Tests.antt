-- ===== src/AlertManager/Tests.antt =====
-- The alert manager at concrete inputs: two alerts are kept.
use zhtp.Base.{◌≡◌, refl, true, false, List, [], string_key}
use zhtp.Base.Result.{err}
use zhtp.AlertManager.{
  Alert, AlertConfig, AlertManager, warning, critical, new_alert, new_manager, start, stop,
  setup_default_channels, trigger_alert, run_task, waiting, ended, failed_to_queue,
}
use zhtp.AlertManager.Recent.{newest}
use zhtp.AlertManager.Refine.{
  Reachable, created, starts, triggers, runs, accepted, taken, Refines, Reachable-Refines,
}
use zhtp.AlertManager.Drain.{drained, drained-newest}
use zhtp.AlertManager.Ended.{Later, IsFrozen, Later-lost}
use zhtp.AlertManager.Ended

abbrev two_kept : AlertConfig
two_kept = record {
  max_alerts = 2;
  default_cooldown = 300;
  notification_timeout = 30;
  enable_email = false;
  enable_webhook = false;
  enable_console = true;
  enable_dashboard = true;
}

abbrev full_disk : Alert
full_disk = new_alert critical "disk" "full" "system" 5000

abbrev slow_peer : Alert
slow_peer = new_alert warning "peer" "slow" "network" 5001

abbrev waiting_task : AlertManager
waiting_task = run_task (start (new_manager two_kept)).1

abbrev one_queued : AlertManager
one_queued = (trigger_alert full_disk waiting_task).1

abbrev two_queued : AlertManager
two_queued = (trigger_alert slow_peer one_queued).1

abbrev two_accepted : List Alert
two_accepted = accepted slow_peer one_queued (accepted full_disk waiting_task [])

two_queued-Reachable :
    Reachable two_kept two_accepted (taken (start (new_manager two_kept)).1 []) two_queued
two_queued-Reachable = triggers slow_peer (triggers full_disk (runs (starts created)))

is_waiting : two_queued.task ≡ waiting
unfolding run_task start setup_default_channels new_manager trigger_alert
is_waiting = refl

is_running : two_queued.running ≡ true
unfolding run_task start setup_default_channels new_manager trigger_alert
is_running = refl

abbrev stopped : AlertManager
stopped = run_task (stop (start (new_manager two_kept)).1)

has_ended : stopped.task ≡ ended
unfolding run_task start stop setup_default_channels new_manager
has_ended = refl

Reachable-Refines_example :
    Refines two_kept two_accepted (taken (start (new_manager two_kept)).1 []) two_queued
Reachable-Refines_example = Reachable-Refines two_kept two_queued-Reachable

drained-newest_example : (drained two_queued.queue two_queued).alerts ≡ newest 2 two_accepted
drained-newest_example = drained-newest two_kept two_queued-Reachable is_running is_waiting

Later-lost_example :
    ((trigger_alert full_disk (start stopped).1).0 ≡ err failed_to_queue)
    × IsFrozen stopped (start stopped).1
Later-lost_example = Later-lost full_disk has_ended (Ended.starts Ended.now)
