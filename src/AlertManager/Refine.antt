-- ===== src/AlertManager/Refine.antt =====
-- The alert manager stores the newest alerts of all that its task has taken from the queue, and the
-- task takes them in the order in which they were triggered.
use zhtp.Base.{ℕ, ◌≡◌, ◌≢◌, refl, sym, ap, ◌∙◌, ◌⊎◌, inl, inr, List, [], ◌∷◌, ◌++◌, reverse, arith}
use mathlib.Core.List.{reverse-append, reverse-reverse, reverse-cons, append_assoc}
use zhtp.Base.Lists.{take}
use zhtp.AlertManager.{
  Alert, AlertConfig, AlertManager, NotificationChannel, Task, not_spawned, checking, waiting,
  ended, new_manager, start, stop, setup_default_channels, trigger_alert, enhanced,
  add_notification_channel, run_task, process_alert, get_recent_alerts,
}
use zhtp.AlertManager.Recent.{newest, newest-nil, trim-concat}

-- The alerts that were accepted, the newest first, when one is triggered.
abbrev pub accepted : Alert → AlertManager → List Alert → List Alert
accepted alert m acc = elim m.task [ ended ↦ acc | _ ↦ enhanced m.alert_counter alert ∷ acc ]

abbrev first_of : List Alert → List Alert → List Alert
first_of [] log = log
first_of (alert ∷ _) log = alert ∷ log

-- The alerts that the task took from the queue, the newest first, when it runs on.
abbrev pub taken : AlertManager → List Alert → List Alert
taken m log = elim m.task [ waiting ↦ first_of m.queue log | _ ↦ log ]

accepted_cases :
    (alert : Alert) (m : AlertManager) (acc : List Alert)
    → (accepted alert m acc ≡ acc) ⊎ (accepted alert m acc ≡ enhanced m.alert_counter alert ∷ acc)
accepted_cases alert m acc = ground arith

queue_cases :
    (queue : List Alert)
    → (queue ≡ []) ⊎ ((alert : Alert) × (rest : List Alert) × (queue ≡ alert ∷ rest))
queue_cases [] = inl refl
queue_cases (alert ∷ rest) = inr (alert, rest, refl)

waiting_cases : (task : Task) → (task ≡ waiting) ⊎ (task ≢ waiting)
waiting_cases not_spawned = inr (λ e. cc)
waiting_cases checking = inr (λ e. cc)
waiting_cases waiting = inl refl
waiting_cases ended = inr (λ e. cc)

-- Either the task has nothing to take or it takes the first alert of the queue.
taken_cases :
    (m : AlertManager) (log : List Alert)
    → ((taken m log ≡ log)
        × ((run_task m).alerts ≡ m.alerts)
        × ((run_task m).config ≡ m.config)
        × (((run_task m).task ≡ ended) ⊎ ((m.task ≢ ended) × ((run_task m).queue ≡ m.queue))))
      ⊎ ((alert : Alert) × (queue : List Alert) × (m.task ≡ waiting)
          × (m.queue ≡ alert ∷ queue)
          × (taken m log ≡ alert ∷ log)
          × (run_task m ≡ process_alert alert queue m))
unfolding run_task
taken_cases m log = elim (queue_cases m.queue) [
  | inl none_left ↦ inl (ground arith, ground arith, ground arith, ground arith)
  | inr (alert, queue, q) ↦ elim (waiting_cases m.task) [
    | inl w ↦ inr (alert, queue, w, q, ground arith, ground arith)
    | inr n ↦ inl (ground arith, ground arith, ground arith, ground arith)
  ]
]

-- A manager after any calls and any steps of its task, beside what was accepted and taken.
pub data Reachable (config : AlertConfig) : List Alert → List Alert → AlertManager → Type 0 where
  created : Reachable config [] [] (new_manager config)
  starts :
      {acc log : List Alert} {m : AlertManager}
      → Reachable config acc log m
      → Reachable config acc log (start m).1
  stops :
      {acc log : List Alert} {m : AlertManager}
      → Reachable config acc log m
      → Reachable config acc log (stop m)
  adds_channel :
      {acc log : List Alert} {m : AlertManager} (channel : NotificationChannel)
      → Reachable config acc log m
      → Reachable config acc log (add_notification_channel channel m)
  triggers :
      {acc log : List Alert} {m : AlertManager} (alert : Alert)
      → Reachable config acc log m
      → Reachable config (accepted alert m acc) log (trigger_alert alert m).1
  runs :
      {acc log : List Alert} {m : AlertManager}
      → Reachable config acc log m
      → Reachable config acc (taken m log) (run_task m)

pub record Refines (config : AlertConfig) (acc log : List Alert) (m : AlertManager) : Type 0 where
  pub stored : m.alerts ≡ newest config.max_alerts log
  pub same_config : m.config ≡ config
  pub pending : (m.task ≡ ended) ⊎ (acc ≡ reverse m.queue ++ log)
  pub older : (newer : List Alert) × (acc ≡ newer ++ log)

module _ (config : AlertConfig) where
  created-Refines : Refines config [] [] (new_manager config)
  unfolding new_manager
  created-Refines = record {
    stored = sym (newest-nil config.max_alerts);
    same_config = refl;
    pending = inr refl;
    older = ([], refl);
  }

  start-Refines :
      (acc log : List Alert) (m : AlertManager)
      → Refines config acc log m
      → Refines config acc log (start m).1
  unfolding start setup_default_channels
  start-Refines acc log m r = record {
    stored = ground (arith, r.stored);
    same_config = ground (arith, r.same_config);
    pending = ground (arith, r.pending);
    older = r.older;
  }

  trigger_alert-Refines :
      (alert : Alert) (acc log : List Alert) (m : AlertManager)
      → Refines config acc log m
      → Refines config (accepted alert m acc) log (trigger_alert alert m).1
  unfolding trigger_alert
  trigger_alert-Refines alert acc log m r = record {
    stored = ground (arith, r.stored);
    same_config = ground (arith, r.same_config);
    pending =
        ground (arith, r.pending, reverse-append m.queue (enhanced m.alert_counter alert ∷ []));
    older = elim (accepted_cases alert m acc) [
      | inl e ↦ rw e r.older
      | inr e ↦
          let (newer, p) = r.older in (enhanced m.alert_counter alert ∷ newer, ground (arith, e, p))
    ];
  }

  -- The task takes nothing from the queue.
  idle-Refines :
      (acc log : List Alert) (m : AlertManager)
      → Refines config acc log m
      → taken m log ≡ log
      → (run_task m).alerts ≡ m.alerts
      → (run_task m).config ≡ m.config
      → ((run_task m).task ≡ ended) ⊎ ((m.task ≢ ended) × ((run_task m).queue ≡ m.queue))
      → Refines config acc (taken m log) (run_task m)
  idle-Refines acc log m r same_log same_alerts same_config same_queue = record {
    stored = ground (arith, r.stored);
    same_config = ground (arith, r.same_config);
    pending = ground (arith, r.pending);
    older = rw same_log r.older;
  }

  run_task-Refines :
      (acc log : List Alert) (m : AlertManager)
      → Refines config acc log m
      → Refines config acc (taken m log) (run_task m)
  unfolding run_task process_alert
  run_task-Refines acc log m r = elim (taken_cases m log) [
    | inl (l, a, c, q) ↦ idle-Refines acc log m r l a c q
    | inr (alert, queue, w, q, l, e) ↦ record {
      stored = ground (arith, r.stored, r.same_config, trim-concat config.max_alerts alert log);
      same_config = ground (arith, r.same_config);
      pending = ground (
        arith,
        r.pending,
        reverse-cons alert queue,
        append_assoc (reverse queue) (alert ∷ []) log,
      );
      older = (
        reverse queue,
        ground (
          arith,
          r.pending,
          reverse-cons alert queue,
          append_assoc (reverse queue) (alert ∷ []) log,
        ),
      );
    }
  ]

  -- After any calls and any steps of the task: the stored alerts are the newest max_alerts of
  -- all that the task has taken from the queue, in order; the alerts that were accepted are
  -- those that it has taken, and behind them, unless the task has ended, those in the queue,
  -- in order.
  pub Reachable-Refines :
      {acc log : List Alert} {m : AlertManager}
      → Reachable config acc log m
      → Refines config acc log m
  unfolding stop add_notification_channel
  Reachable-Refines created = created-Refines
  Reachable-Refines (starts h) = start-Refines _ _ _ (Reachable-Refines h)
  Reachable-Refines (stops h) =
      let r = Reachable-Refines h in
      record {
        stored = r.stored;
        same_config = r.same_config;
        pending = r.pending;
        older = r.older;
      }
  Reachable-Refines (adds_channel channel h) =
      let r = Reachable-Refines h in
      record {
        stored = r.stored;
        same_config = r.same_config;
        pending = r.pending;
        older = r.older;
      }
  Reachable-Refines (triggers alert h) = trigger_alert-Refines alert _ _ _ (Reachable-Refines h)
  Reachable-Refines (runs h) = run_task-Refines _ _ _ (Reachable-Refines h)

  pub get_recent_alerts-take :
      (count : ℕ) {acc log : List Alert} {m : AlertManager}
      → Reachable config acc log m
      → get_recent_alerts count m ≡ take count (take config.max_alerts log)
  unfolding get_recent_alerts
  get_recent_alerts-take count {acc} {log} {m} h =
      ap (λ alerts. take count (reverse alerts)) ((Reachable-Refines h).stored)
      ∙ ap (take count) (reverse-reverse (take config.max_alerts log))
