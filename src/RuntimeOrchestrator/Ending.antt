-- ===== src/RuntimeOrchestrator/Ending.antt =====
-- The end of `shutdown_all_components` of src/runtime/mod.rs, in order and by force.
use zhtp.Base.{
  ℕ, ◌≡◌, refl, sym, ◌∙◌, ap, subst, ◌≢◌, ◌⊎◌, none, Bool, true, false, List, [], ◌∷◌, reverse,
  arith, Option-cases, Bool-cases, inl, inr, true-ne-false,
}
use zhtp.Base.Lists.{contains, contains-cons, contains-nil, contains-reverse}
use zhtp.Base.Dict.{lookup, keys, contains-keys-lookup}
use zhtp.Component.{
  Attempt, finished, refused, timed_out, ComponentId, ComponentStatus, ComponentId-discrete,
  component_key, error, failed, registered, running, starting, stopped, stopping,
}
use zhtp.RuntimeOrchestrator.{
  ComponentHealth, Host, RuntimeOrchestrator, mark, mark_stopping, sleep, stop_by_force,
}
use zhtp.RuntimeOrchestrator.Shutdown.{
  end_shutdown, finish_stop, force_each, shutdown_all_components, stop_each, stop_until,
}
use zhtp.RuntimeOrchestrator.Tracked.{mark-Touches, stop_until-Touches}
use zhtp.RuntimeOrchestrator.Starting.{HasEntries}
use zhtp.RuntimeOrchestrator.Stopping.{
  Ended, HasEnded, in_order, mark-HasEnded, stop_until-finish, stop_each-Steady, stop_each-keeps,
}

stop_by_force-Ended :
    {F : Type 0} (now : ℕ) (h : ComponentHealth F) → Ended (stop_by_force now h).status
stop_by_force-Ended now h = go h.status refl
  where
    go : (s : ComponentStatus) → h.status ≡ s → Ended (stop_by_force now h).status
    go stopped e = subst Ended (sym (ground (arith, e))) in_order
    go running e = subst Ended (sym (ground (arith, e))) in_order
    go starting e = subst Ended (sym (ground (arith, e))) in_order
    go stopping e = subst Ended (sym (ground (arith, e))) in_order
    go registered e = subst Ended (sym (ground (arith, e))) in_order
    go failed e = subst Ended (sym (ground (arith, e))) in_order
    go (error m) e = subst Ended (sym (ground (arith, e))) in_order

module _ (host : Host) where
  force_each-HasEnded :
      (ids : List ComponentId) (j : ComponentId) (r : RuntimeOrchestrator host)
      → lookup j r.component_health ≢ none
      → HasEnded host r j ⊎ (contains j ids ≡ true)
      → HasEnded host (force_each host ids r) j
  unfolding force_each
  force_each-HasEnded [] j r tracked (inl ended) = ended
  force_each-HasEnded [] j r tracked (inr l) = absurd (true-ne-false (sym l ∙ contains-nil j))
  force_each-HasEnded (id ∷ ids) j r tracked case =
      let f = stop_by_force (host.now r.world) in
      let t = mark-Touches host id f r in
      elim (ComponentId-discrete j id) [
        | yes p ↦
            let here = λ (n : lookup id r.component_health ≡ none).
              tracked (ap (λ i. lookup i r.component_health) p ∙ n) in
            let ended = mark-HasEnded host id f r (stop_by_force-Ended (host.now r.world)) here in
            force_each-HasEnded ids j (mark host id f r)
              (λ n.
                t.kept here (ap (λ i. lookup i (mark host id f r).component_health) (sym p) ∙ n))
              (inl (subst (HasEnded host (mark host id f r)) (sym p) ended))
        | no n ↦
            force_each-HasEnded ids j (mark host id f r) (λ m. tracked (sym (t.others j n) ∙ m))
              (elim case [
                | inl (h, e, ended) ↦ inl (h, t.others j n ∙ e, ended)
                | inr l ↦ inr (ground (arith, contains-cons j id ids))
              ])
      ]

  end_shutdown-HasEnded :
      (id : ComponentId) (x : RuntimeOrchestrator host × Bool)
      → lookup id x.0.components ≢ none
      → HasEntries host x.0
      → (x.1 ≡ true → HasEnded host x.0 id)
      → HasEnded host (end_shutdown host x) id
  end_shutdown-HasEnded id (r, true) there t whole = whole refl
  end_shutdown-HasEnded id (r, false) there t whole =
      force_each-HasEnded (keys r.components) id r (t id there) (
        inr (elim (Option-cases (lookup id r.components)) [
          | inl n ↦ absurd (there n)
          | inr (c, e) ↦ ground (arith, contains-keys-lookup id r.components)
        ]))

  end_shutdown-signal :
      (x : RuntimeOrchestrator host × Bool) → (end_shutdown host x).shutdown_signal ≡ false
  end_shutdown-signal (r, true) = refl
  end_shutdown-signal (r, false) = refl

  -- If every registered component has a health entry: after shutdown_all_components, whatever
  -- fails on the way and wherever the overall timeout cuts it, a registered component of the
  -- startup order is stopped or ended with an error, and the shutdown signal is taken.
  pub shutdown_all_components-HasEnded :
      (r : RuntimeOrchestrator host) (id : ComponentId)
      → HasEntries host r
      → lookup id r.components ≢ none
      → contains id r.startup_order ≡ true
      → HasEnded host (shutdown_all_components host r) id
        × ((shutdown_all_components host r).shutdown_signal ≡ false)
  unfolding shutdown_all_components
  shutdown_all_components-HasEnded r id t there ordered =
      let s = record r { world = host.stop_reward_orchestrator r.world } in
      let x = stop_each host host.shutdown_over (reverse r.startup_order) s in
      let (same, kept) = stop_each-Steady host host.shutdown_over (reverse r.startup_order) s in
      (
        end_shutdown-HasEnded id x (λ n. there (ap (λ d. lookup id d) (sym same) ∙ n)) (kept t)
            (λ e.
              stop_each-keeps host host.shutdown_over (reverse r.startup_order) id s t there e
                (inr (contains-reverse id r.startup_order ∙ ordered))),
        end_shutdown-signal x,
      )

  stop_each-others :
      (over : host.World → Bool) (ids : List ComponentId) (j : ComponentId)
      (r : RuntimeOrchestrator host)
      → contains j ids ≡ false
      → lookup j (stop_each host over ids r).0.component_health ≡ lookup j r.component_health
  unfolding stop_each
  stop_each-others over [] j r absent = refl
  stop_each-others over (id ∷ ids) j r absent =
      let x = stop_until host over id r in
      let r₂ = sleep host 200 x.0 in
      let other = λ (p : j ≡ id). true-ne-false (ground (arith, p, contains-cons j id ids)) in
      let first = (stop_until-Touches host over id r).others j other in
      let rest = stop_each-others over ids j r₂ (ground (arith, contains-cons j id ids)) in
      elim (Option-cases x.1) [
        | inl n ↦ ground (arith, n, first)
        | inr (y, s) ↦ elim (Bool-cases (over r₂.world)) [
          | inl d ↦ ground (arith, s, d, first)
          | inr d ↦ ground (arith, s, d, first, rest)
        ]
      ]

  finish_stop-in_time :
      (over : host.World → Bool) (id : ComponentId) (c : host.Component) (a : Attempt)
      (r : RuntimeOrchestrator host)
      → ((w : host.World) → over w ≡ false)
      → (finish_stop host over id c a r).1 ≢ none
  unfolding finish_stop
  finish_stop-in_time over id c finished r in_time n = ground (arith, n)
  finish_stop-in_time over id c (refused e) r in_time n = ground (arith, n)
  finish_stop-in_time over id c timed_out r in_time n =
      ground (arith, n, in_time (host.force_stop c 5000 r.world))

  stop_until-in_time :
      (over : host.World → Bool) (id : ComponentId) (r : RuntimeOrchestrator host)
      → ((w : host.World) → over w ≡ false)
      → (stop_until host over id r).1 ≢ none
  unfolding stop_until
  stop_until-in_time over id r in_time n = elim (Option-cases (lookup id r.components)) [
    | inl e ↦ ground (arith, n, e)
    | inr (c, e) ↦
        let (a, w) = host.stop c 10000 r.world in
        let r₂ = record (mark host id (mark_stopping (host.now r.world)) r) { world = w } in
        finish_stop-in_time over id c a r₂ in_time
          (ground (arith, n, e, in_time w, stop_until-finish host over id c r e (in_time w)))
  ]

  stop_each-in_time :
      (over : host.World → Bool) (ids : List ComponentId) (r : RuntimeOrchestrator host)
      → ((w : host.World) → over w ≡ false)
      → (stop_each host over ids r).1 ≡ true
  unfolding stop_each
  stop_each-in_time over [] r in_time = refl
  stop_each-in_time over (id ∷ ids) r in_time =
      let x = stop_until host over id r in
      let r₂ = sleep host 200 x.0 in
      elim (Option-cases x.1) [
        | inl n ↦ absurd (stop_until-in_time over id r in_time n)
        | inr (y, s) ↦ ground (arith, s, in_time r₂.world, stop_each-in_time over ids r₂ in_time)
      ]

  -- If the overall timeout is never over, shutdown_all_components leaves the health of a
  -- component that is not in the startup order as it was.
  pub lookup-shutdown_all_components :
      (r : RuntimeOrchestrator host) (id : ComponentId)
      → ((w : host.World) → host.shutdown_over w ≡ false)
      → contains id r.startup_order ≡ false
      → lookup id (shutdown_all_components host r).component_health ≡ lookup id r.component_health
  unfolding shutdown_all_components
  lookup-shutdown_all_components r id in_time left_out =
      let s = record r { world = host.stop_reward_orchestrator r.world } in
      let ids = reverse r.startup_order in
      let x = stop_each host host.shutdown_over ids s in
      go x (stop_each-in_time host.shutdown_over ids s in_time)
      ∙ stop_each-others host.shutdown_over ids id s
          (contains-reverse id r.startup_order ∙ left_out)
    where
      go :
          (x : RuntimeOrchestrator host × Bool)
          → x.1 ≡ true
          → lookup id (end_shutdown host x).component_health ≡ lookup id x.0.component_health
      go (t, true) e = refl
      go (t, false) e = absurd (true-ne-false (sym e))
