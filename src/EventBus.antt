-- ===== src/EventBus.antt =====
-- src/integration/event_bus.rs. The broadcast channels of tokio are the parameter `Env`, beside the
-- world that handlers work in. The number in the id `event_{n}` stands for the id; counters of 64
-- bits wrap. The times that handlers take are left out.
pub mod Publishing
pub mod Limits
mod Tests
use Prim.Native.String.{String, [] as empty, ◌∷◌ as ◌∷∷◌}
use text.Mathlib.Text.{starts_with}
use zhtp.Base.{
  ℕ, ◌+◌, ◌-◌, ◌%◌, ◌^◌, Bool, true, false, ◌||◌, Option, none, some, List, [], ◌∷◌, ◌++◌,
  if◌then◌else◌, ltb, leb, string_key, same,
}
use zhtp.Base.Lists.{length}
use zhtp.Base.Dict.{Dict, lookup, insert, erase, keys}
use zhtp.Base.Result.{Result, ok, err}

pub record Env : Type 1 where
  pub World : Type 0
  -- `serde_json::Value`
  pub Value : Type 0
  -- `broadcast::Sender<Event>`, `broadcast::Receiver<Event>`
  pub Sender : Type 0
  pub Receiver : Type 0

pub record EventBusConfig : Type 0 where
  pub max_subscribers_per_topic : ℕ
  pub channel_buffer_size : ℕ
  pub enable_metrics : Bool
  -- in seconds, and in milliseconds the delay; nothing reads these three
  pub event_retention : ℕ
  pub max_retries : ℕ
  pub retry_delay : ℕ

-- `EventBusConfig::default`
abbrev pub default_bus_config : EventBusConfig
default_bus_config = record {
  max_subscribers_per_topic = 1000;
  channel_buffer_size = 1000;
  enable_metrics = true;
  event_retention = 3600;
  max_retries = 3;
  retry_delay = 100;
}

pub record EventBusMetrics : Type 0 where
  pub total_events_published : ℕ
  pub total_events_processed : ℕ
  pub events_per_topic : Dict String ℕ
  pub failed_events : ℕ
  pub active_subscriptions : ℕ

abbrev no_metrics : EventBusMetrics
no_metrics = record {
  total_events_published = 0;
  total_events_processed = 0;
  events_per_topic = [];
  failed_events = 0;
  active_subscriptions = 0;
}

abbrev pub next_u64 : ℕ → ℕ
next_u64 n = (n + 1) % 2 ^ 64

pub data BusError : Type 0 where
  not_running maximum_subscribers : BusError
  failed_to_publish : String → BusError

-- `ends_with`
pub ends_with : String → String → Bool
ends_with empty suffix = same suffix ""
ends_with (c ∷∷ s) suffix = same (c ∷∷ s) suffix || ends_with s suffix

-- The pattern without its last character, if that is `*`.
pub strip_star : String → Option String
strip_star empty = none
strip_star (c ∷∷ empty) = if same (c ∷∷ empty) "*" then some "" else none
strip_star (c ∷∷ d ∷∷ s) = elim (strip_star (d ∷∷ s)) [ none ↦ none | some t ↦ some (c ∷∷ t) ]

-- The pattern behind its first character.
abbrev behind : String → String
behind empty = ""
behind (c ∷∷ s) = s

pub matches_pattern : String → String → Bool
matches_pattern topic pattern = if same pattern "*" then true else elim (strip_star pattern) [
  | some prefix ↦ starts_with topic prefix
  | none ↦ if starts_with pattern "*" then ends_with topic (behind pattern) else same topic pattern
]

module _ (env : Env) where
  open env use {World, Value, Sender, Receiver}

  pub record Event : Type 0 where
    pub id : ℕ
    pub event_type : String
    pub source : String
    pub data_value : Value
    pub timestamp : ℕ
    pub correlation_id : Option String
    pub metadata : Dict String String

  -- `EventHandler`
  abbrev pub EventHandler : Type 0
  EventHandler = Event → World → Result String Unit × World

  pub record EventBus : Type 0 where
    pub publishers : Dict String Sender
    pub subscribers : Dict String (List EventHandler)
    pub event_counter : ℕ
    pub running : Bool
    pub metrics : EventBusMetrics
    pub config : EventBusConfig

  -- What tokio does with a channel: `channel`, whose receiver the bus drops, `send`, `subscribe`.
  pub record Broadcast : Type 0 where
    pub channel : ℕ → World → Sender × World
    pub send : Sender → Event → World → Result String Unit × World
    pub subscribe_to : Sender → World → Receiver × World

  -- `EventBus::with_config`
  pub new_bus : EventBusConfig → EventBus
  new_bus config = record {
    publishers = [];
    subscribers = [];
    event_counter = 0;
    running = false;
    metrics = no_metrics;
    config = config;
  }

  pub start : EventBus → EventBus
  start bus = if bus.running then bus else record bus { running = true }

  pub stop : EventBus → EventBus
  stop bus = record bus { running = false; publishers = []; subscribers = [] }

  abbrev pub topic_count : String → Dict String ℕ → ℕ
  topic_count topic counts = elim (lookup topic counts) [ none ↦ 0 | some n ↦ n ]

  pub update_publish_metrics : String → EventBus → EventBus
  update_publish_metrics topic bus = record bus {
    metrics = record bus.metrics {
      total_events_published = next_u64 bus.metrics.total_events_published;
      events_per_topic =
          insert topic (next_u64 (topic_count topic bus.metrics.events_per_topic))
            bus.metrics.events_per_topic;
    };
  }

  abbrev pub no_metadata : Dict String String
  no_metadata = []

  abbrev pub event_of : String → Value → Dict String String → ℕ → ℕ → Event
  event_of topic value metadata now id = record {
    id = id;
    event_type = topic;
    source = "event_bus";
    data_value = value;
    timestamp = now;
    correlation_id = none;
    metadata = metadata;
  }

  -- The calls of the handlers, one after the other, and the number of those that failed.
  pub call_handlers : List EventHandler → Event → World → ℕ × World
  call_handlers [] event w = (0, w)
  call_handlers (handler ∷ handlers) event w =
      let (result, w') = handler event w in
      let (failed, w'') = call_handlers handlers event w' in
      elim result [ ok _ ↦ (failed, w'') | err _ ↦ (failed + 1, w'') ]

  abbrev pub note_calls : ℕ → EventBus → EventBus
  note_calls failed bus =
      if bus.config.enable_metrics
      then record bus {
        metrics = record bus.metrics {
          failed_events = (bus.metrics.failed_events + failed) % 2 ^ 64;
          total_events_processed = next_u64 bus.metrics.total_events_processed;
        };
      }
      else bus

  -- It returns no error.
  pub notify_subscribers : String → Event → EventBus → World → EventBus × World
  notify_subscribers topic event bus w = elim (lookup topic bus.subscribers) [
    | none ↦ (bus, w)
    | some handlers ↦
        let (failed, w') = call_handlers handlers event w in (note_calls failed bus, w')
  ]

  module _ (broadcast : Broadcast) where
    open broadcast use {channel, send, subscribe_to}

    -- Get or create the publisher of a topic.
    pub publisher_of : String → EventBus → World → Sender × EventBus × World
    publisher_of topic bus w = elim (lookup topic bus.publishers) [
      | some sender ↦ (sender, bus, w)
      | none ↦
          let (sender, w') = channel bus.config.channel_buffer_size w in
          (sender, record bus { publishers = insert topic sender bus.publishers }, w')
    ]

    -- The part that `publish` and `publish_with_metadata` share.
    pub send_event : String → Event → EventBus → World → Result BusError Unit × EventBus × World
    send_event topic event bus w =
        let (sender, bus', w1) = publisher_of topic bus w in
        let (result, w2) = send sender event w1 in
        elim result [
          | err e ↦ (err (failed_to_publish e), bus', w2)
          | ok _ ↦ let (bus'', w3) = notify_subscribers topic event bus' w2 in (ok tt, bus'', w3)
        ]

    pub publish : String → Value → ℕ → EventBus → World → Result BusError Unit × EventBus × World
    publish topic value now bus w =
        if bus.running
        then (let counted = record bus { event_counter = next_u64 bus.event_counter } in
            let event = event_of topic value no_metadata now bus.event_counter in
            send_event topic event
              (if bus.config.enable_metrics then update_publish_metrics topic counted else counted)
              w)
        else (err not_running, bus, w)

    pub publish_with_metadata :
        String
        → Value
        → Dict String String
        → ℕ
        → EventBus
        → World
        → Result BusError Unit × EventBus × World
    publish_with_metadata topic value metadata now bus w =
        if bus.running
        then (let counted = record bus { event_counter = next_u64 bus.event_counter } in
            send_event topic (event_of topic value metadata now bus.event_counter) counted w)
        else (err not_running, bus, w)

    pub get_receiver : String → EventBus → World → Receiver × EventBus × World
    get_receiver topic bus w =
        let (sender, bus', w1) = publisher_of topic bus w in
        let (receiver, w2) = subscribe_to sender w1 in (receiver, bus', w2)

  abbrev handlers_of : String → EventBus → List EventHandler
  handlers_of topic bus = elim (lookup topic bus.subscribers) [ none ↦ [] | some hs ↦ hs ]

  abbrev with_handlers : String → List EventHandler → EventBus → EventBus
  with_handlers topic handlers bus = record bus {
    subscribers = insert topic handlers bus.subscribers;
  }

  abbrev count_subscription : EventBus → EventBus
  count_subscription bus =
      if bus.config.enable_metrics
      then record bus {
        metrics = record bus.metrics {
          active_subscriptions = bus.metrics.active_subscriptions + 1;
        };
      }
      else bus

  -- The entry of the topic is there afterwards, also when the subscription is refused.
  pub subscribe : String → EventHandler → EventBus → Result BusError Unit × EventBus
  subscribe topic handler bus =
      let handlers = handlers_of topic bus in
      if leb bus.config.max_subscribers_per_topic (length handlers)
      then (err maximum_subscribers, with_handlers topic handlers bus)
      else (ok tt, count_subscription (with_handlers topic (handlers ++ handler ∷ []) bus))

  -- One subscription for each topic that matches, up to the first that is refused.
  pub subscribe_topics :
      List String → String → EventHandler → EventBus → Result BusError Unit × EventBus
  subscribe_topics [] pattern handler bus = (ok tt, bus)
  subscribe_topics (topic ∷ topics) pattern handler bus =
      let (result, bus') = subscribe topic handler bus in
      let rest = subscribe_topics topics pattern handler bus' in
      let others = subscribe_topics topics pattern handler bus in
      if matches_pattern topic pattern
      then elim result [ ok _ ↦ rest | err e ↦ (err e, bus') ]
      else others

  pub subscribe_pattern : String → EventHandler → EventBus → Result BusError Unit × EventBus
  subscribe_pattern pattern handler bus = subscribe_topics (keys bus.publishers) pattern handler bus

  -- Dropping the handle closes its channel, and the task that waits on it ends without a removal.
  pub unsubscribe : EventBus → EventBus
  unsubscribe bus = bus

  abbrev pub get_active_topics : EventBus → List String
  get_active_topics bus = keys bus.publishers

  pub get_subscription_count : String → EventBus → ℕ
  get_subscription_count topic bus = length (handlers_of topic bus)

  pub clear_topic : String → EventBus → EventBus
  clear_topic topic bus = record bus {
    publishers = erase topic bus.publishers;
    subscribers = erase topic bus.subscribers;
  }
