-- ===== src/EventBus/Tests.antt =====
-- The event bus at concrete inputs. The world counts the receivers, which are those of one topic, and
-- the calls of the handler.
use zhtp.Base.{
  ℕ, ◌+◌, ◌≡◌, refl, Bool, true, false, arith, string_key, string_dec, ltb, if◌then◌else◌,
}
use zhtp.Base.Result.{ok, err}
use zhtp.EventBus.{
  Env, EventBus, EventHandler, Broadcast, default_bus_config, new_bus, start, subscribe, publish,
  matches_pattern, strip_star, ends_with, event_of, no_metadata,
}
use zhtp.EventBus.Publishing.{SendsToReceivers, Published, publish-Published}

abbrev env : Env
env = record { World = ℕ × ℕ; Value = ℕ; Sender = Unit; Receiver = Unit }

abbrev has_receivers : Unit {0} → ℕ × ℕ → Bool
has_receivers sender w = ltb 0 w.0

-- A new channel has no receiver.
abbrev broadcast : Broadcast env
broadcast = record {
  channel = λ size w. (tt, (0, w.1));
  send = λ sender event w. if ltb 0 w.0 then (ok tt, w) else (err "no receivers", w);
  subscribe_to = λ sender w. (tt, (w.0 + 1, w.1));
}

channel_law : SendsToReceivers env broadcast has_receivers
channel_law = record {
  heard = λ sender event w h. ground arith;
  unheard = λ sender event w h. ("no receivers", ground arith);
  fresh = λ size w. refl;
}

abbrev counting : EventHandler env
counting event w = (ok tt, (w.0, w.1 + 1))

abbrev subscribed : EventBus env
subscribed = (subscribe env "blocks" counting (start env (new_bus env default_bus_config))).1

prefix_matches : matches_pattern "blocks.new" "blocks.*" ≡ true
unfolding matches_pattern strip_star string_dec
prefix_matches = refl

suffix_matches : matches_pattern "blocks.new" "*.new" ≡ true
unfolding matches_pattern strip_star ends_with string_dec
suffix_matches = refl

other_topic : matches_pattern "blocks.new" "blocks" ≡ false
unfolding matches_pattern strip_star ends_with string_dec
other_topic = refl

publish-Published_example :
    Published env broadcast has_receivers "blocks"
      (event_of env "blocks" 7 (no_metadata env) 100 subscribed.event_counter)
      subscribed
      (0, 0)
      (publish env broadcast "blocks" 7 100 subscribed (0, 0))
publish-Published_example =
    publish-Published env broadcast has_receivers "blocks" 7 100 subscribed (0, 0) channel_law
