-- ===== src/RuntimeOrchestrator/Messages.antt =====
-- The message bus of src/runtime/mod.rs: a broadcast, and the task that handles what was sent.
use zhtp.Base.{
  ℕ, zero, suc, ◌≡◌, refl, ◌∙◌, ap, none, some, true, List, [], ◌∷◌, map, arith, Option-cases, inl,
  inr,
}
use zhtp.Base.Lists.{length}
use zhtp.Base.Dict.{Dict, lookup, keys}
use zhtp.Base.Result.{ok}
use zhtp.Component.{ComponentId, component_key}
use zhtp.RuntimeOrchestrator.{ComponentMessage, Host, RuntimeOrchestrator, broadcast_message}
use zhtp.RuntimeOrchestrator.Shutdown.{handle_next}
use zhtp.RuntimeOrchestrator.Tracked.{send_each-sent}

module _ (host : Host) where
  -- So many messages of the task that `new` spawns.
  pub handle_messages : ℕ → RuntimeOrchestrator host → RuntimeOrchestrator host
  handle_messages zero r = r
  handle_messages (suc n) r = handle_messages n (handle_next host r)

  -- A message for each of the components, in this order.
  pub deliver :
      Dict ComponentId host.Component
      → ComponentMessage host.Blockchain
      → List ComponentId
      → host.World
      → host.World
  deliver components message [] w = w
  deliver components message (id ∷ ids) w =
      deliver components message ids (elim (lookup id components) [
        | none ↦ w
        | some component ↦ host.handle_message component message w
      ])

  abbrev queued :
      List ComponentId
      → ComponentMessage host.Blockchain
      → RuntimeOrchestrator host
      → RuntimeOrchestrator host
  queued ids message r = record r { message_bus = map (λ id. (id, message)) ids }

  handle_messages-deliver :
      (ids : List ComponentId) (message : ComponentMessage host.Blockchain)
      (r : RuntimeOrchestrator host)
      → handle_messages (length ids) (queued ids message r)
        ≡ record r { message_bus = []; world = deliver r.components message ids r.world }
  unfolding handle_messages deliver handle_next
  handle_messages-deliver [] message r = refl
  handle_messages-deliver (id ∷ ids) message r = elim (Option-cases (lookup id r.components)) [
    | inl e ↦ ground (arith, e, handle_messages-deliver ids message r)
    | inr (c, e) ↦
        let w = host.handle_message c message r.world in
        ground (arith, e, handle_messages-deliver ids message (record r { world = w }))
  ]

  -- If the receiving task is there and the bus is empty: broadcast_message succeeds, and when
  -- the task has handled as many messages as there are components, each registered component
  -- has handled it, in the order of the map, and the bus is empty again.
  pub broadcast_message-deliver :
      (message : ComponentMessage host.Blockchain) (r : RuntimeOrchestrator host)
      → r.receiving ≡ true
      → r.message_bus ≡ []
      → let (s, result) = broadcast_message host message r in
        (result ≡ ok tt)
        × (handle_messages (length (keys r.components)) s
            ≡ record r { world = deliver r.components message (keys r.components) r.world })
  unfolding broadcast_message
  broadcast_message-deliver message r open_bus empty =
      let ids = keys r.components in
      let all_sent = send_each-sent host ids message r open_bus in
      let drained = handle_messages-deliver ids message r in
      (
        ap (λ x. x.1) all_sent,
        ap (λ x. handle_messages (length ids) x.0) all_sent ∙ ground (arith, empty, drained),
      )
