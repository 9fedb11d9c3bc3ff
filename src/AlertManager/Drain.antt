-- ===== src/AlertManager/Drain.antt =====
-- The task of a running alert manager gets to every alert of the queue.
use zhtp.Base.{◌≡◌, refl, true, List, [], ◌∷◌, arith}
use zhtp.AlertManager.{Alert, AlertConfig, AlertManager, waiting, run_task, process_alert}
use zhtp.AlertManager.Recent.{newest}
use zhtp.AlertManager.Refine.{Reachable, runs, taken, Reachable-Refines}

-- Two steps of the task for each alert of a queue.
abbrev pub drained : List Alert → AlertManager → AlertManager
drained [] m = m
drained (_ ∷ queue) m = drained queue (run_task (run_task m))

abbrev pub drained_log : List Alert → AlertManager → List Alert → List Alert
drained_log [] m log = log
drained_log (_ ∷ queue) m log =
    drained_log queue (run_task (run_task m)) (taken (run_task m) (taken m log))

module _ (config : AlertConfig) where
  drained-Reachable :
      (queue acc log : List Alert) (m : AlertManager)
      → Reachable config acc log m
      → Reachable config acc (drained_log queue m log) (drained queue m)
  drained-Reachable [] acc log m h = h
  drained-Reachable (_ ∷ queue) acc log m h = drained-Reachable queue acc _ _ (runs (runs h))

  drained-waiting :
      (queue : List Alert) (m : AlertManager)
      → m.queue ≡ queue
      → m.task ≡ waiting
      → m.running ≡ true
      → ((drained queue m).queue ≡ []) × ((drained queue m).task ≡ waiting)
  unfolding run_task process_alert
  drained-waiting [] m q w r = (q, w)
  drained-waiting (alert ∷ queue) m q w r =
      drained-waiting queue (run_task (run_task m)) (ground arith) (ground arith) (ground arith)

  -- After any calls and any steps of the task, while the manager runs and its task waits: two
  -- steps for each alert of the queue later, the stored alerts are the newest max_alerts of
  -- all that were accepted.
  pub drained-newest :
      {acc log : List Alert} {m : AlertManager}
      → Reachable config acc log m
      → m.running ≡ true
      → m.task ≡ waiting
      → (drained m.queue m).alerts ≡ newest config.max_alerts acc
  drained-newest {acc} {log} {m} h r w =
      let (no_queue, still) = drained-waiting m.queue m refl w r in
      let refines = Reachable-Refines config (drained-Reachable m.queue acc log m h) in
      ground (arith, refines.stored, refines.pending, no_queue, still)
