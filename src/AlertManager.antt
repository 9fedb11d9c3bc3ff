-- ===== src/AlertManager.antt =====
-- src/monitoring/alerting.rs: the alert manager, its queue and the task that empties it. A moment is
-- a number of seconds, a counter of 64 bits wraps. The rules, which nothing evaluates, and the texts
-- that a notification shows are left out.
pub mod Recent
pub mod Refine
pub mod Drain
pub mod Stats
pub mod Ended
mod Tests
use Prim.Native.String.{String}
use zhtp.Base.{
  ℕ, suc, ◌+◌, ◌-◌, ◌%◌, ◌^◌, Bool, true, false, ◌&&◌, Option, none, some, List, [], ◌∷◌, ◌++◌, map,
  reverse, if◌then◌else◌, ltb, leb, string_key, same,
}
use zhtp.Base.Lists.{length, take}
use zhtp.Base.Dict.{Dict, lookup, insert}
use zhtp.Base.Result.{Result, ok, err}

pub data AlertLevel : Type 0 where
  info warning critical emergency : AlertLevel

-- `format!("alert_{}", n)`, or what the caller gave, which is not empty
pub data AlertId : Type 0 where
  numbered : ℕ → AlertId
  given : String → AlertId

pub record Alert : Type 0 where
  pub id : AlertId
  pub level : AlertLevel
  pub title : String
  pub message : String
  pub source : String
  pub timestamp : ℕ
  pub metadata : Dict String String

-- `Alert::new`, which leaves the id empty
pub new_alert : AlertLevel → String → String → String → ℕ → Alert
new_alert level title message source now = record {
  id = given "";
  level = level;
  title = title;
  message = message;
  source = source;
  timestamp = now;
  metadata = [];
}

pub with_metadata : String → String → Alert → Alert
with_metadata key value alert = record alert { metadata = insert key value alert.metadata }

pub level_str : AlertLevel → String
level_str info = "INFO"
level_str warning = "WARNING"
level_str critical = "CRITICAL"
level_str emergency = "EMERGENCY"

pub is_critical : AlertLevel → Bool
is_critical info = false
is_critical warning = false
is_critical critical = true
is_critical emergency = true

pub record AlertConfig : Type 0 where
  pub max_alerts : ℕ
  -- in seconds
  pub default_cooldown : ℕ
  pub notification_timeout : ℕ
  pub enable_email : Bool
  pub enable_webhook : Bool
  pub enable_console : Bool
  pub enable_dashboard : Bool

-- `AlertConfig::default`
abbrev pub default_config : AlertConfig
default_config = record {
  max_alerts = 1000;
  default_cooldown = 300;
  notification_timeout = 30;
  enable_email = false;
  enable_webhook = false;
  enable_console = true;
  enable_dashboard = true;
}

-- What `name` and `is_enabled` return.
pub record NotificationChannel : Type 0 where
  pub name : String
  pub enabled : Bool

-- Where the loop of the task stands.
pub data Task : Type 0 where
  not_spawned checking waiting ended : Task

pub record AlertManager : Type 0 where
  pub alerts : List Alert
  pub notification_channels : List NotificationChannel
  pub running : Bool
  pub alert_counter : ℕ
  pub config : AlertConfig
  -- what was sent through `alert_tx` and not received, the oldest first
  pub queue : List Alert
  pub task : Task
  -- the calls of `send_notification`, the latest first
  pub notified : List (NotificationChannel × Alert)

-- `AlertManager::new`, which takes the default configuration
pub new_manager : AlertConfig → AlertManager
new_manager config = record {
  alerts = [];
  notification_channels = [];
  running = false;
  alert_counter = 0;
  config = config;
  queue = [];
  task = not_spawned;
  notified = [];
}

abbrev channel_if : Bool → NotificationChannel → List NotificationChannel
channel_if b channel = if b then channel ∷ [] else []

pub setup_default_channels : AlertManager → AlertManager
setup_default_channels m = record m {
  notification_channels =
      m.notification_channels
      ++ channel_if m.config.enable_console (record { name = "console"; enabled = true })
      ++ channel_if m.config.enable_email (record { name = "email"; enabled = false })
      ++ channel_if m.config.enable_webhook (record { name = "webhook"; enabled = false });
}

pub data AlertError : Type 0 where
  receiver_already_taken failed_to_queue : AlertError

-- `alert_rx` is there until the task is spawned.
abbrev spawn : AlertManager → Result AlertError Unit × AlertManager
spawn m = elim m.task [
  | not_spawned ↦ (ok tt, record m { task = checking })
  | _ ↦ (err receiver_already_taken, m)
]

pub start : AlertManager → Result AlertError Unit × AlertManager
start m =
    if m.running then (ok tt, m) else spawn (setup_default_channels (record m { running = true }))

pub stop : AlertManager → AlertManager
stop m = record m { running = false }

-- The id that `trigger_alert` gives.
abbrev pub enhanced : ℕ → Alert → Alert
enhanced n alert = elim alert.id [
  | numbered k ↦ alert
  | given id ↦ if same id "" then record alert { id = numbered n } else alert
]

-- A message cannot be sent once the task has dropped the receiver.
pub trigger_alert : Alert → AlertManager → Result AlertError Unit × AlertManager
trigger_alert alert m =
    let m' = record m { alert_counter = (m.alert_counter + 1) % 2 ^ 64 } in
    elim m.task [
      | ended ↦ (err failed_to_queue, m')
      | _ ↦ (ok tt, record m' { queue = m.queue ++ enhanced m.alert_counter alert ∷ [] })
    ]

pub add_notification_channel : NotificationChannel → AlertManager → AlertManager
add_notification_channel channel m = record m {
  notification_channels = m.notification_channels ++ channel ∷ [];
}

-- `while alerts.len() > max { pop_front }`
pub trim : ℕ → List Alert → List Alert
trim max [] = []
trim max (alert ∷ alerts) =
    let rest = trim max alerts in if ltb max (length (alert ∷ alerts)) then rest else alert ∷ alerts

-- The calls of `send_notification`; an error of one is logged.
pub notify : List NotificationChannel → Alert → List (NotificationChannel × Alert)
notify [] alert = []
notify (channel ∷ channels) alert =
    let rest = notify channels alert in if channel.enabled then (channel, alert) ∷ rest else rest

-- One round of the loop, behind `recv`.
pub process_alert : Alert → List Alert → AlertManager → AlertManager
process_alert alert queue m = record m {
  queue = queue;
  alerts = trim m.config.max_alerts (m.alerts ++ alert ∷ []);
  notified = reverse (notify m.notification_channels alert) ++ m.notified;
  task = checking;
}

abbrev receive : List Alert → AlertManager → AlertManager
receive [] m = m
receive (alert ∷ queue) m = process_alert alert queue m

-- `alert_processing_loop`, up to the next time that it waits or looks at `running`
pub run_task : AlertManager → AlertManager
run_task m = elim m.task [
  | not_spawned ↦ m
  | checking ↦
      if m.running then record m { task = waiting } else record m { task = ended; queue = [] }
  | waiting ↦ receive m.queue m
  | ended ↦ m
]

pub get_recent_alerts : ℕ → AlertManager → List Alert
get_recent_alerts count m = take count (reverse m.alerts)

abbrev pub get_active_alerts : AlertManager → List Alert
get_active_alerts m = m.alerts

abbrev level_number : AlertLevel → ℕ
level_number info = 0
level_number warning = 1
level_number critical = 2
level_number emergency = 3

-- `==` of levels
abbrev pub same_level : AlertLevel → AlertLevel → Bool
same_level a b = leb (level_number a) (level_number b) && leb (level_number b) (level_number a)

pub of_level : AlertLevel → List Alert → List Alert
of_level level [] = []
of_level level (alert ∷ alerts) =
    let rest = of_level level alerts in if same_level alert.level level then alert ∷ rest else rest

pub get_alerts_by_level : AlertLevel → AlertManager → List Alert
get_alerts_by_level level m = of_level level m.alerts

-- It only logs.
pub resolve_alert : AlertId → AlertManager → AlertManager
resolve_alert id m = m

pub record AlertStats : Type 0 where
  pub total_alerts : ℕ
  pub recent_alerts : ℕ
  pub stats_by_level : Dict String ℕ
  pub last_alert_time : Option ℕ

-- `*entry(level).or_insert(0) += 1`
abbrev pub count_level : String → Dict String ℕ → Dict String ℕ
count_level level stats = elim (lookup level stats) [
  | none ↦ insert level 1 stats
  | some n ↦ insert level (n + 1) stats
]

pub count_alerts : ℕ → List Alert → ℕ → Dict String ℕ → ℕ × Dict String ℕ
count_alerts hour_ago [] recent stats = (recent, stats)
count_alerts hour_ago (alert ∷ alerts) recent stats =
    count_alerts hour_ago alerts (if ltb hour_ago alert.timestamp then recent + 1 else recent)
      (count_level (level_str alert.level) stats)

-- `alerts.back()`
abbrev pub last_of : List Alert → Option Alert
last_of [] = none
last_of (alert ∷ []) = some alert
last_of (_ ∷ next ∷ alerts) = last_of (next ∷ alerts)

abbrev pub timestamp_of : Option Alert → Option ℕ
timestamp_of none = none
timestamp_of (some alert) = some alert.timestamp

-- The hour before `now`, in 64 bits.
pub get_alert_stats : ℕ → AlertManager → AlertStats
get_alert_stats now m =
    let (recent, stats) = count_alerts ((now + 2 ^ 64 - 3600) % 2 ^ 64) m.alerts 0 [] in
    record {
      total_alerts = length m.alerts;
      recent_alerts = recent;
      stats_by_level = stats;
      last_alert_time = timestamp_of (last_of m.alerts);
    }
