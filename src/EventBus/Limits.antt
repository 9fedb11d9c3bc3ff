-- ===== src/EventBus/Limits.antt =====
-- How many subscribers a topic has.
use Prim.Native.String.{String}
use zhtp.Base.{
  ℕ, ◌≤◌, ◌≡◌, refl, subst, inl, inr, List, [], ◌∷◌, ◌++◌, ◌⊎◌, arith, Bool-cases, string_key,
}
use zhtp.Base.Lists.{length-append}
use zhtp.Base.Dict.{Dict, lookup-insert, lookup-erase, lookup-nil, keys}
use zhtp.Base.Result.{Result, ok, err}
use zhtp.EventBus.{
  Env, EventBus, EventBusConfig, Event, EventHandler, Broadcast, BusError, new_bus, start, stop,
  publisher_of, send_event, publish, publish_with_metadata, notify_subscribers, get_receiver,
  subscribe, subscribe_topics, subscribe_pattern, matches_pattern, unsubscribe, clear_topic,
  get_subscription_count, next_u64, event_of, no_metadata, update_publish_metrics, handlers_of,
}

result_cases : (r : Result BusError Unit) → (r ≡ ok tt) ⊎ ((e : BusError) × (r ≡ err e))
result_cases (ok _) = inl refl
result_cases (err e) = inr (e, refl)

module _ (env : Env) (broadcast : Broadcast env) where
  open env use {World, Value}

  -- A bus after any calls on a new one.
  pub data Reachable (config : EventBusConfig) : EventBus env → Type 0 where
    created : Reachable config (new_bus env config)
    starts : {bus : EventBus env} → Reachable config bus → Reachable config (start env bus)
    stops : {bus : EventBus env} → Reachable config bus → Reachable config (stop env bus)
    publishes :
        {bus : EventBus env} (topic : String) (value : Value) (now : ℕ) (w : World)
        → Reachable config bus
        → Reachable config (publish env broadcast topic value now bus w).1
    publishes_with_metadata :
        {bus : EventBus env} (topic : String) (value : Value) (metadata : Dict String String)
        (now : ℕ) (w : World)
        → Reachable config bus
        → Reachable config (publish_with_metadata env broadcast topic value metadata now bus w).1
    gets_receiver :
        {bus : EventBus env} (topic : String) (w : World)
        → Reachable config bus
        → Reachable config (get_receiver env broadcast topic bus w).1
    subscribes :
        {bus : EventBus env} (topic : String) (handler : EventHandler env)
        → Reachable config bus
        → Reachable config (subscribe env topic handler bus).1
    subscribes_pattern :
        {bus : EventBus env} (pattern : String) (handler : EventHandler env)
        → Reachable config bus
        → Reachable config (subscribe_pattern env pattern handler bus).1
    unsubscribes :
        {bus : EventBus env} → Reachable config bus → Reachable config (unsubscribe env bus)
    clears_topic :
        {bus : EventBus env} (topic : String)
        → Reachable config bus
        → Reachable config (clear_topic env topic bus)

  pub record IsBounded (config : EventBusConfig) (bus : EventBus env) : Type 0 where
    pub same_config : bus.config ≡ config
    pub bounded :
        (topic : String) → get_subscription_count env topic bus ≤ config.max_subscribers_per_topic

  same_subscribers-IsBounded :
      (config : EventBusConfig) (bus bus' : EventBus env)
      → IsBounded config bus
      → bus'.config ≡ bus.config
      → bus'.subscribers ≡ bus.subscribers
      → IsBounded config bus'
  unfolding get_subscription_count
  same_subscribers-IsBounded config bus bus' h c s = record {
    same_config = ground (arith, h.same_config);
    bounded = λ topic. ground (arith, h.bounded topic);
  }

  publisher_of-frame :
      (topic : String) (bus : EventBus env) (w : World)
      → ((publisher_of env broadcast topic bus w).1.subscribers ≡ bus.subscribers)
        × ((publisher_of env broadcast topic bus w).1.config ≡ bus.config)
  unfolding publisher_of
  publisher_of-frame topic bus w = ground arith

  send_event-frame :
      (topic : String) (event : Event env) (bus : EventBus env) (w : World)
      → ((send_event env broadcast topic event bus w).1.subscribers ≡ bus.subscribers)
        × ((send_event env broadcast topic event bus w).1.config ≡ bus.config)
  unfolding send_event notify_subscribers
  send_event-frame topic event bus w = ground (arith, publisher_of-frame topic bus w)

  publish-frame :
      (topic : String) (value : Value) (now : ℕ) (bus : EventBus env) (w : World)
      → ((publish env broadcast topic value now bus w).1.subscribers ≡ bus.subscribers)
        × ((publish env broadcast topic value now bus w).1.config ≡ bus.config)
  unfolding publish update_publish_metrics
  publish-frame topic value now bus w =
      let counted = record bus { event_counter = next_u64 bus.event_counter } in
      let event = event_of env topic value (no_metadata env) now bus.event_counter in
      ground (
        arith,
        send_event-frame topic event counted w,
        send_event-frame topic event (update_publish_metrics env topic counted) w,
      )

  publish_with_metadata-frame :
      (topic : String) (value : Value) (metadata : Dict String String) (now : ℕ)
      (bus : EventBus env) (w : World)
      → ((publish_with_metadata env broadcast topic value metadata now bus w).1.subscribers
          ≡ bus.subscribers)
        × ((publish_with_metadata env broadcast topic value metadata now bus w).1.config
            ≡ bus.config)
  unfolding publish_with_metadata
  publish_with_metadata-frame topic value metadata now bus w =
      let counted = record bus { event_counter = next_u64 bus.event_counter } in
      ground (
        arith,
        send_event-frame topic (event_of env topic value metadata now bus.event_counter) counted w,
      )

  subscribe-IsBounded :
      (config : EventBusConfig) (topic : String) (handler : EventHandler env) (bus : EventBus env)
      → IsBounded config bus
      → IsBounded config (subscribe env topic handler bus).1
  unfolding subscribe get_subscription_count
  subscribe-IsBounded config topic handler bus h = record {
    same_config = ground (arith, h.same_config);
    bounded = λ t. ground (
      arith,
      h.same_config,
      h.bounded t,
      h.bounded topic,
      lookup-insert topic t (handlers_of env topic bus) bus.subscribers,
      lookup-insert topic t (handlers_of env topic bus ++ handler ∷ []) bus.subscribers,
      length-append (handlers_of env topic bus) (handler ∷ []),
    );
  }

  subscribe_topics-IsBounded :
      (config : EventBusConfig) (topics : List String) (pattern : String)
      (handler : EventHandler env) (bus : EventBus env)
      → IsBounded config bus
      → IsBounded config (subscribe_topics env topics pattern handler bus).1
  unfolding subscribe_topics
  subscribe_topics-IsBounded config [] pattern handler bus h = h
  subscribe_topics-IsBounded config (topic ∷ topics) pattern handler bus h =
      let after = (subscribe env topic handler bus).1 in
      let bounded = subscribe-IsBounded config topic handler bus h in
      elim (Bool-cases (matches_pattern topic pattern)) [
        | inr n ↦
            subst (IsBounded config) (ground (arith, n))
              (subscribe_topics-IsBounded config topics pattern handler bus h)
        | inl m ↦ elim (result_cases (subscribe env topic handler bus).0) [
          | inl o ↦
              subst (IsBounded config) (ground (arith, m, o))
                (subscribe_topics-IsBounded config topics pattern handler after bounded)
          | inr (e, refused) ↦ subst (IsBounded config) (ground (arith, m, refused)) bounded
        ]
      ]

  -- After any calls on a new event bus, no topic has more than max_subscribers_per_topic
  -- subscribers.
  pub Reachable-IsBounded :
      {config : EventBusConfig} {bus : EventBus env} → Reachable config bus → IsBounded config bus
  unfolding new_bus start stop unsubscribe clear_topic get_subscription_count get_receiver
      subscribe_pattern
  Reachable-IsBounded {config} created = record {
    same_config = refl;
    bounded = λ topic. ground (arith, lookup-nil {V = List (EventHandler env)} topic);
  }
  Reachable-IsBounded {config} (starts {bus} h) =
      same_subscribers-IsBounded config bus _ (Reachable-IsBounded h) (ground arith) (ground arith)
  Reachable-IsBounded {config} (stops h) = record {
    same_config = (Reachable-IsBounded h).same_config;
    bounded = λ topic. ground (arith, lookup-nil {V = List (EventHandler env)} topic);
  }
  Reachable-IsBounded {config} (publishes {bus} topic value now w h) =
      let (s, c) = publish-frame topic value now bus w in
      same_subscribers-IsBounded config bus _ (Reachable-IsBounded h) c s
  Reachable-IsBounded {config} (publishes_with_metadata {bus} topic value metadata now w h) =
      let (s, c) = publish_with_metadata-frame topic value metadata now bus w in
      same_subscribers-IsBounded config bus _ (Reachable-IsBounded h) c s
  Reachable-IsBounded {config} (gets_receiver {bus} topic w h) =
      let (s, c) = publisher_of-frame topic bus w in
      same_subscribers-IsBounded config bus _ (Reachable-IsBounded h) c s
  Reachable-IsBounded {config} (subscribes {bus} topic handler h) =
      subscribe-IsBounded config topic handler bus (Reachable-IsBounded h)
  Reachable-IsBounded {config} (subscribes_pattern {bus} pattern handler h) =
      subscribe_topics-IsBounded config (keys bus.publishers) pattern handler bus
        (Reachable-IsBounded h)
  Reachable-IsBounded (unsubscribes h) = Reachable-IsBounded h
  Reachable-IsBounded {config} (clears_topic {bus} topic h) =
      let before = Reachable-IsBounded h in
      record {
        same_config = before.same_config;
        bounded = λ t. ground (arith, before.bounded t, lookup-erase topic t bus.subscribers);
      }
