-- ===== src/AlertManager/Ended.antt =====
-- Once its task has ended, an alert manager stores and sends nothing, whatever is called.
use zhtp.Base.{◌≡◌, refl, ◌∙◌, arith}
use zhtp.Base.Result.{err}
use zhtp.AlertManager.{
  Alert, AlertManager, NotificationChannel, ended, start, stop, setup_default_channels,
  trigger_alert, failed_to_queue, add_notification_channel, run_task,
}

-- The second manager is the first after some calls and steps of its task.
pub data Later (m : AlertManager) : AlertManager → Type 0 where
  now : Later m m
  starts : {n : AlertManager} → Later m n → Later m (start n).1
  stops : {n : AlertManager} → Later m n → Later m (stop n)
  adds_channel :
      {n : AlertManager} (channel : NotificationChannel)
      → Later m n
      → Later m (add_notification_channel channel n)
  triggers : {n : AlertManager} (alert : Alert) → Later m n → Later m (trigger_alert alert n).1
  runs : {n : AlertManager} → Later m n → Later m (run_task n)

pub record IsFrozen (m n : AlertManager) : Type 0 where
  pub still_ended : n.task ≡ ended
  pub same_alerts : n.alerts ≡ m.alerts
  pub same_notified : n.notified ≡ m.notified

start-frame :
    (n : AlertManager)
    → n.task ≡ ended
    → ((start n).1.task ≡ ended)
      × ((start n).1.alerts ≡ n.alerts)
      × ((start n).1.notified ≡ n.notified)
unfolding start setup_default_channels
start-frame n e = ground arith

trigger_alert-frame :
    (alert : Alert) (n : AlertManager)
    → n.task ≡ ended
    → ((trigger_alert alert n).0 ≡ err failed_to_queue)
      × ((trigger_alert alert n).1.task ≡ ended)
      × ((trigger_alert alert n).1.alerts ≡ n.alerts)
      × ((trigger_alert alert n).1.notified ≡ n.notified)
unfolding trigger_alert
trigger_alert-frame alert n e = ground arith

Later-IsFrozen : {m n : AlertManager} → m.task ≡ ended → Later m n → IsFrozen m n
unfolding stop add_notification_channel run_task
Later-IsFrozen e now = record { still_ended = e; same_alerts = refl; same_notified = refl }
Later-IsFrozen e (starts {n} h) =
    let f = Later-IsFrozen e h in
    let (t, a, s) = start-frame n f.still_ended in
    record { still_ended = t; same_alerts = a ∙ f.same_alerts; same_notified = s ∙ f.same_notified }
Later-IsFrozen e (stops h) =
    let f = Later-IsFrozen e h in
    record {
      still_ended = f.still_ended;
      same_alerts = f.same_alerts;
      same_notified = f.same_notified;
    }
Later-IsFrozen e (adds_channel channel h) =
    let f = Later-IsFrozen e h in
    record {
      still_ended = f.still_ended;
      same_alerts = f.same_alerts;
      same_notified = f.same_notified;
    }
Later-IsFrozen e (triggers {n} alert h) =
    let f = Later-IsFrozen e h in
    let (_, t, a, s) = trigger_alert-frame alert n f.still_ended in
    record { still_ended = t; same_alerts = a ∙ f.same_alerts; same_notified = s ∙ f.same_notified }
Later-IsFrozen e (runs {n} h) =
    let f = Later-IsFrozen e h in
    record {
      still_ended = ground (arith, f.still_ended);
      same_alerts = ground (arith, f.still_ended, f.same_alerts);
      same_notified = ground (arith, f.still_ended, f.same_notified);
    }

-- Once the task has ended, whatever is called and however often the manager is started again:
-- every further alert is refused, and nothing more is stored or sent.
pub Later-lost :
    {m n : AlertManager} (alert : Alert)
    → m.task ≡ ended
    → Later m n
    → ((trigger_alert alert n).0 ≡ err failed_to_queue) × IsFrozen m n
Later-lost {m} {n} alert e h =
    let f = Later-IsFrozen e h in ((trigger_alert-frame alert n f.still_ended).0, f)
