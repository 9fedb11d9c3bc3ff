-- ===== src/EventBus/Publishing.antt =====
-- Who gets an event that is published.
use Prim.Native.String.{String}
use zhtp.Base.{
  ℕ, ◌≡◌, refl, subst, inl, inr, Bool, true, false, none, some, List, arith, Option-cases,
  Bool-cases, string_key,
}
use zhtp.Base.Dict.{lookup, insert}
use zhtp.Base.Result.{Result, ok, err}
use zhtp.EventBus.{
  Env, EventBus, Event, EventHandler, Broadcast, BusError, not_running, failed_to_publish,
  publisher_of, send_event, publish, notify_subscribers, call_handlers, update_publish_metrics,
  next_u64, note_calls, event_of, no_metadata,
}

module _ (env : Env) (broadcast : Broadcast env) where
  open env use {World, Value, Sender}
  open broadcast use {channel, send}

  -- The documented behaviour of `send`: it succeeds where the channel has a receiver, and does
  -- nothing where it has none. A channel whose only receiver was dropped has none.
  pub record SendsToReceivers (has_receivers : Sender → World → Bool) : Type 0 where
    pub heard :
        (sender : Sender) (event : Event env) (w : World)
        → has_receivers sender w ≡ true
        → (send sender event w).0 ≡ ok tt
    pub unheard :
        (sender : Sender) (event : Event env) (w : World)
        → has_receivers sender w ≡ false
        → (text : String) × (send sender event w ≡ (err text, w))
    pub fresh : (size : ℕ) (w : World) → has_receivers (channel size w).0 (channel size w).1 ≡ false

  -- How a publication ends, and what it leaves of the world and of the subscribers.
  pub data Published (has_receivers : Sender → World → Bool) (topic : String) (event : Event env)
      (bus : EventBus env) (w : World) : Result BusError Unit × EventBus env × World → Type 0 where
    bus_stopped :
        bus.running ≡ false → Published has_receivers topic event bus w (err not_running, bus, w)
    no_channel :
        (text : String) (bus' : EventBus env)
        → lookup topic bus.publishers ≡ none
        → bus'.subscribers ≡ bus.subscribers
        → Published has_receivers topic event bus w
            (err (failed_to_publish text), bus', (channel bus.config.channel_buffer_size w).1)
    no_receiver :
        (sender : Sender) (text : String) (bus' : EventBus env)
        → lookup topic bus.publishers ≡ some sender
        → has_receivers sender w ≡ false
        → bus'.subscribers ≡ bus.subscribers
        → Published has_receivers topic event bus w (err (failed_to_publish text), bus', w)
    delivered :
        (sender : Sender) (handlers : List (EventHandler env)) (bus' : EventBus env)
        → lookup topic bus.publishers ≡ some sender
        → has_receivers sender w ≡ true
        → lookup topic bus.subscribers ≡ some handlers
        → bus'.subscribers ≡ bus.subscribers
        → Published has_receivers topic event bus w
            (ok tt, bus', (call_handlers env handlers event (send sender event w).1).1)
    delivered_to_channel :
        (sender : Sender) (bus' : EventBus env)
        → lookup topic bus.publishers ≡ some sender
        → has_receivers sender w ≡ true
        → lookup topic bus.subscribers ≡ none
        → bus'.subscribers ≡ bus.subscribers
        → Published has_receivers topic event bus w (ok tt, bus', (send sender event w).1)

  -- The bus with its counters changed.
  record Counted (bus bus' : EventBus env) : Type 0 where
    same_publishers : bus'.publishers ≡ bus.publishers
    same_subscribers : bus'.subscribers ≡ bus.subscribers
    same_config : bus'.config ≡ bus.config

  heard_Published :
      (has_receivers : Sender → World → Bool) (topic : String) (event : Event env)
      (bus bus' : EventBus env) (w : World) (sender : Sender)
      → Counted bus bus'
      → lookup topic bus.publishers ≡ some sender
      → has_receivers sender w ≡ true
      → (send sender event w).0 ≡ ok tt
      → Published has_receivers topic event bus w (send_event env broadcast topic event bus' w)
  unfolding send_event publisher_of notify_subscribers
  heard_Published has_receivers topic event bus bus' w sender counted s hears sent =
      let w2 = (send sender event w).1 in
      elim (Option-cases (lookup topic bus.subscribers)) [
        | inl n ↦
            subst (Published has_receivers topic event bus w)
              (ground (arith, counted.same_publishers, counted.same_subscribers))
              (delivered_to_channel sender bus' s hears n counted.same_subscribers)
        | inr (handlers, h) ↦
            subst (Published has_receivers topic event bus w)
              (ground (arith, counted.same_publishers, counted.same_subscribers))
              (delivered sender handlers
                (note_calls env (call_handlers env handlers event w2).0 bus') s hears h
                (ground (arith, counted.same_subscribers)))
      ]

  send_event-Published :
      (has_receivers : Sender → World → Bool) (topic : String) (event : Event env)
      (bus bus' : EventBus env) (w : World)
      → SendsToReceivers has_receivers
      → Counted bus bus'
      → Published has_receivers topic event bus w (send_event env broadcast topic event bus' w)
  unfolding send_event publisher_of
  send_event-Published has_receivers topic event bus bus' w law counted =
      elim (Option-cases (lookup topic bus.publishers)) [
        | inl n ↦
            let (sender, w1) = channel bus.config.channel_buffer_size w in
            let (text, e) =
              law.unheard sender event w1 (law.fresh bus.config.channel_buffer_size w) in
            subst (Published has_receivers topic event bus w)
              (ground (arith, counted.same_publishers, counted.same_config, n, e))
              (no_channel text (record bus' { publishers = insert topic sender bus'.publishers }) n
                counted.same_subscribers)
        | inr (sender, s) ↦ elim (Bool-cases (has_receivers sender w)) [
          | inr deaf ↦
              let (text, e) = law.unheard sender event w deaf in
              subst (Published has_receivers topic event bus w)
                (ground (arith, counted.same_publishers, s, e))
                (no_receiver sender text bus' s deaf counted.same_subscribers)
          | inl hears ↦
              heard_Published has_receivers topic event bus bus' w sender counted s hears
                (law.heard sender event w hears)
        ]
      ]

  -- If a channel delivers exactly when it has a receiver, and a new one has none: publish
  -- fails on a bus that is stopped; it fails and calls no handler on a topic without a
  -- channel and on one whose channel has no receiver; else it succeeds, and calls the
  -- handlers of the topic in order, after the channel, whatever they return. The subscribers
  -- stay as they were.
  pub publish-Published :
      (has_receivers : Sender → World → Bool) (topic : String) (value : Value) (now : ℕ)
      (bus : EventBus env) (w : World)
      → SendsToReceivers has_receivers
      → Published has_receivers topic
          (event_of env topic value (no_metadata env) now bus.event_counter)
          bus
          w
          (publish env broadcast topic value now bus w)
  unfolding publish update_publish_metrics
  publish-Published has_receivers topic value now bus w law =
      let event = event_of env topic value (no_metadata env) now bus.event_counter in
      elim (Bool-cases bus.running) [
        | inr stopped ↦
            subst (Published has_receivers topic event bus w) (ground (arith, stopped))
              (bus_stopped stopped)
        | inl runs ↦ elim (Bool-cases bus.config.enable_metrics) [
          | inl on ↦ subst (Published has_receivers topic event bus w) (ground (arith, runs, on)) (
              send_event-Published has_receivers topic event bus
                (update_publish_metrics env topic (counted bus)) w law
                (record { same_publishers = refl; same_subscribers = refl; same_config = refl }))
          | inr off ↦
              subst (Published has_receivers topic event bus w) (ground (arith, runs, off)) (
                send_event-Published has_receivers topic event bus (counted bus) w law
                  (record { same_publishers = refl; same_subscribers = refl; same_config = refl }))
        ]
      ]
    where
      counted : EventBus env → EventBus env
      counted b = record b { event_counter = next_u64 b.event_counter }
