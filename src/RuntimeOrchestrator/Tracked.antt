-- ===== src/RuntimeOrchestrator/Tracked.antt =====
-- Lemmas on one component of src/runtime/mod.rs: what a start or a stop of it leaves as it was.
use Prim.Native.String.{String}
use mathlib.Core.List.{append-nil, append_assoc}
use zhtp.Base.{
  ℕ, ◌≡◌, refl, ◌∙◌, ◌≢◌, Option, none, some, Bool, true, false, List, [], ◌∷◌, arith, Option-cases,
  Bool-cases, map, ◌++◌, inl, inr,
}
use zhtp.Base.Dict.{lookup, lookup-adjust, keys}
use zhtp.Base.Result.{ok}
use zhtp.Component.{Attempt, ComponentId, component_key, finished, refused, timed_out}
use zhtp.RuntimeOrchestrator.{
  ComponentHealth, ComponentMessage, Host, RuntimeOrchestrator, already_running, broadcast_message,
  finish_start, mark, mark_error, run_start, send_each, send_message, start_component,
}
use zhtp.RuntimeOrchestrator.Shutdown.{finish_stop, stop_until}

module _ (host : Host) where
  abbrev health_of : RuntimeOrchestrator host → ComponentId → Option (ComponentHealth host.F32)
  health_of r id = lookup id r.component_health

  -- All but the health of `id`, the bus and the world; `id` stays tracked.
  pub record Touches (id : ComponentId) (r r' : RuntimeOrchestrator host) : Type 0 where
    pub components : r'.components ≡ r.components
    pub startup_order : r'.startup_order ≡ r.startup_order
    pub receiving : r'.receiving ≡ r.receiving
    pub joined : r'.joined_existing_network ≡ r.joined_existing_network
    pub others :
        (j : ComponentId) → j ≢ id → lookup j r'.component_health ≡ lookup j r.component_health
    pub kept : lookup id r.component_health ≢ none → lookup id r'.component_health ≢ none
    pub absent : lookup id r.component_health ≡ none → lookup id r'.component_health ≡ none

  pub Touches-refl : (id : ComponentId) (r : RuntimeOrchestrator host) → Touches id r r
  Touches-refl id r = record {
    components = refl;
    startup_order = refl;
    receiving = refl;
    joined = refl;
    others = λ j n. refl;
    kept = λ h. h;
    absent = λ h. h;
  }

  pub Touches-trans :
      {id : ComponentId} {r r' r'' : RuntimeOrchestrator host}
      → Touches id r r'
      → Touches id r' r''
      → Touches id r r''
  Touches-trans t u = record {
    components = u.components ∙ t.components;
    startup_order = u.startup_order ∙ t.startup_order;
    receiving = u.receiving ∙ t.receiving;
    joined = u.joined ∙ t.joined;
    others = λ j n. u.others j n ∙ t.others j n;
    kept = λ h. u.kept (t.kept h);
    absent = λ h. u.absent (t.absent h);
  }

  pub mark-Touches :
      (id : ComponentId) (f : ComponentHealth host.F32 → ComponentHealth host.F32)
      (r : RuntimeOrchestrator host)
      → Touches id r (mark host id f r)
  mark-Touches id f r = record {
    components = refl;
    startup_order = refl;
    receiving = refl;
    joined = refl;
    others = λ j n. ground (arith, lookup-adjust id j f r.component_health);
    kept = λ h. ground (arith, lookup-adjust id id f r.component_health);
    absent = λ h. ground (arith, lookup-adjust id id f r.component_health);
  }

  pub world-Touches :
      (id : ComponentId) (r : RuntimeOrchestrator host) (w : host.World)
      → Touches id r (record r { world = w })
  world-Touches id r w = record {
    components = refl;
    startup_order = refl;
    receiving = refl;
    joined = refl;
    others = λ j n. refl;
    kept = λ h. h;
    absent = λ h. h;
  }

  abbrev pub sent :
      List ComponentId
      → ComponentMessage host.Blockchain
      → RuntimeOrchestrator host
      → RuntimeOrchestrator host
  sent ids message r = record r { message_bus = r.message_bus ++ map (λ id. (id, message)) ids }

  pub send_each-sent :
      (ids : List ComponentId) (message : ComponentMessage host.Blockchain)
      (r : RuntimeOrchestrator host)
      → r.receiving ≡ true
      → send_each host ids message r ≡ (sent ids message r, ok tt)
  unfolding send_each send_message
  send_each-sent [] message r e = ground (arith, append-nil r.message_bus)
  send_each-sent (j ∷ ids) message r e =
      let queue = r.message_bus ++ (j, message) ∷ [] in
      ground (
        arith,
        send_each-sent ids message (record r { message_bus = queue }) e,
        append_assoc r.message_bus ((j, message) ∷ []) (map (λ id. (id, message)) ids),
      )

  pub send_each-closed :
      (ids : List ComponentId) (message : ComponentMessage host.Blockchain)
      (r : RuntimeOrchestrator host)
      → r.receiving ≡ false
      → (send_each host ids message r).0 ≡ r
  unfolding send_each send_message
  send_each-closed [] message r e = refl
  send_each-closed (j ∷ ids) message r e = rw e refl

  bus-Touches :
      (id : ComponentId) (ids : List ComponentId) (message : ComponentMessage host.Blockchain)
      (r : RuntimeOrchestrator host)
      → Touches id r (sent ids message r)
  bus-Touches id ids message r = record {
    components = refl;
    startup_order = refl;
    receiving = refl;
    joined = refl;
    others = λ j n. refl;
    kept = λ h. h;
    absent = λ h. h;
  }

  pub send_each-Touches :
      (id : ComponentId) (ids : List ComponentId) (message : ComponentMessage host.Blockchain)
      (r : RuntimeOrchestrator host)
      → Touches id r (send_each host ids message r).0
  send_each-Touches id ids message r = elim (Bool-cases r.receiving) [
    | inl e ↦ rw (send_each-sent ids message r e) (bus-Touches id ids message r)
    | inr e ↦ rw (send_each-closed ids message r e) (Touches-refl id r)
  ]

  after_broadcast :
      (id : ComponentId) (message : ComponentMessage host.Blockchain) (r : RuntimeOrchestrator host)
      → Touches id r (broadcast_message host message r).0
  unfolding broadcast_message
  after_broadcast id message r = send_each-Touches id (keys r.components) message r

  finish_start-Touches :
      (id : ComponentId) (started : ℕ) (failure : Option String) (r : RuntimeOrchestrator host)
      → Touches id r (finish_start host id started failure r).0
  unfolding finish_start
  finish_start-Touches id started none r =
      Touches-trans (mark-Touches id _ r)
        (Touches-trans (world-Touches id _ _) (after_broadcast id _ _))
  finish_start-Touches id started (some e) r = mark-Touches id (mark_error e) r

  run_start-Touches :
      (id : ComponentId) (r : RuntimeOrchestrator host) → Touches id r (run_start host id r).0
  unfolding run_start
  run_start-Touches id r = elim (Option-cases (lookup id r.components)) [
    | inl e ↦ rw (run_start, e) (Touches-refl id r)
    | inr (c, e) ↦
        rw (run_start, e) (Touches-trans (world-Touches id r _) (finish_start-Touches id _ _ _))
  ]

  pub start_component-Touches :
      (id : ComponentId) (r : RuntimeOrchestrator host) → Touches id r (start_component host id r).0
  unfolding start_component
  start_component-Touches id r = elim (Bool-cases (already_running host id r)) [
    | inl e ↦ rw e (Touches-refl id r)
    | inr e ↦ rw e (Touches-trans (mark-Touches id _ r) (run_start-Touches id _))
  ]

  finish_stop-Touches :
      (over : host.World → Bool) (id : ComponentId) (c : host.Component) (a : Attempt)
      (r : RuntimeOrchestrator host)
      → Touches id r (finish_stop host over id c a r).0
  unfolding finish_stop
  finish_stop-Touches over id c finished r = mark-Touches id _ r
  finish_stop-Touches over id c (refused e) r = mark-Touches id _ r
  finish_stop-Touches over id c timed_out r =
      let w = host.force_stop c 5000 r.world in
      elim (Bool-cases (over w)) [
        | inl e ↦ rw e (world-Touches id r w)
        | inr e ↦ rw e (Touches-trans (world-Touches id r w) (mark-Touches id _ _))
      ]

  pub stop_until-Touches :
      (over : host.World → Bool) (id : ComponentId) (r : RuntimeOrchestrator host)
      → Touches id r (stop_until host over id r).0
  unfolding stop_until
  stop_until-Touches over id r = elim (Option-cases (lookup id r.components)) [
    | inl e ↦ rw (stop_until, e) (mark-Touches id _ r)
    | inr (c, e) ↦
        let w = (host.stop c 10000 r.world).1 in
        elim (Bool-cases (over w)) [
          | inl d ↦
              rw (stop_until, e, d) (Touches-trans (mark-Touches id _ r) (world-Touches id _ w))
          | inr d ↦
              rw (stop_until, e, d)
                (Touches-trans (mark-Touches id _ r)
                  (Touches-trans (world-Touches id _ w) (finish_stop-Touches over id c _ _)))
        ]
  ]

  pub status_after :
      (id : ComponentId) (f : ComponentHealth host.F32 → ComponentHealth host.F32)
      (r : RuntimeOrchestrator host) (h : ComponentHealth host.F32)
      → lookup id r.component_health ≡ some h
      → lookup id (mark host id f r).component_health ≡ some (f h)
  status_after id f r h e = ground (arith, lookup-adjust id id f r.component_health)
