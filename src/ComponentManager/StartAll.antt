-- ===== src/ComponentManager/StartAll.antt =====
-- `start_all`: what a success means, and when there is one.
use zhtp.Base.{
  ◌≡◌, refl, sym, ap, subst, ◌∙◌, true, false, List, [], ◌∷◌, arith, inl, inr, ◌⊎◌, if◌then◌else◌,
}
use zhtp.Base.Lists.{contains, contains-cons}
use zhtp.Component.{
  ComponentId, ComponentId-discrete, running, Environment, Error, Result, ok, err, component_key,
  while_starting,
}
use zhtp.ComponentManager.{
  Manager, Handler, and_then, map_err, ◌>>=◌, status_of, start_component, start_each, start_all,
  with_context,
}
use zhtp.ComponentManager.Starting.{
  AllRunning, HasHandle, Touches-HasHandle, Touches-status, start_component_outcome, ok-ne-err,
}

-- The two outcomes of a step under `with_context`, followed by another step.
module _ {S : Type 0} (wrap : Error → Error) (f g : Handler S (Unit {0})) {s s' : S} where
  wrapped-ok : f s ≡ (s', ok tt) → (with_context wrap f >>= λ _. g) s ≡ g s'
  wrapped-ok p = ap (λ r. and_then (λ _. g) (map_err wrap r)) p

  wrapped-err :
      {e : Error} → f s ≡ (s', err e) → (with_context wrap f >>= λ _. g) s ≡ (s', err (wrap e))
  wrapped-err p = ap (λ r. and_then (λ _. g) (map_err wrap r)) p

Result-cases : (r : Result (Unit {0})) → (r ≡ ok tt) ⊎ ((e : Error) × (r ≡ err e))
Result-cases (ok tt) = inl refl
Result-cases (err e) = inr (e, refl)

module _ (env : Environment) where
  -- One round of the loop when no shutdown is requested.
  pub start_each-cons :
      (id : ComponentId) (ids : List ComponentId) (m : Manager env)
      → m.shutdown_requested ≡ false
      → let r = start_component env id m in
        (r.1 ≡ ok tt) × (start_each env (id ∷ ids) m ≡ start_each env ids r.0)
        ⊎ ((e : Error) × (r.1 ≡ err e)
            × (start_each env (id ∷ ids) m ≡ (r.0, err (while_starting id e))))
  unfolding start_each
  start_each-cons id ids m quiet = elim (Result-cases (start_component env id m).1) [
    | inl p ↦ inl (
      p,
      go_on
          ∙ wrapped-ok (while_starting id) (start_component env id) (start_each env ids)
              (λ i. ((start_component env id m).0, p i)),
    )
    | inr (e, p) ↦ inr (
      e,
      p,
      go_on
          ∙ wrapped-err (while_starting id) (start_component env id) (start_each env ids)
              (λ i. ((start_component env id m).0, p i)),
    )
  ]
    where
      round : Manager env × Result (Unit {0})
      round =
          (with_context (while_starting id) (start_component env id) >>= λ _. start_each env ids) m

      go_on : start_each env (id ∷ ids) m ≡ round
      go_on = ap (λ b. if b then (m, ok tt) else round) quiet

  -- A successful start of `id` leaves every running component running.
  pub start_component-keeps :
      (id j : ComponentId) (m : Manager env)
      → HasHandle env m id
      → (start_component env id m).1 ≡ ok tt
      → status_of env m j ≡ running
      → status_of env (start_component env id m).0 j ≡ running
  start_component-keeps id j m h p up =
      let o = start_component_outcome env id m h in
      elim (ComponentId-discrete j id) [
        | yes e ↦
            subst (λ k. status_of env (start_component env id m).0 k ≡ running) (sym e)
              (o.success p).0
        | no n ↦ Touches-status env j o.touches n ∙ up
      ]

  -- What a successful loop over `ids` leaves.
  record StartedEach (ids : List ComponentId) (m m' : Manager env) : Type 0 where
    started : AllRunning env m' ids
    kept : (j : ComponentId) → status_of env m j ≡ running → status_of env m' j ≡ running

  StartedEach-cons :
      (id : ComponentId) (ids : List ComponentId) (m : Manager env) {m' : Manager env}
      → HasHandle env m id
      → (start_component env id m).1 ≡ ok tt
      → StartedEach ids (start_component env id m).0 m'
      → StartedEach (id ∷ ids) m m'
  StartedEach-cons id ids m h up s = record {
    started = (s.kept id ((start_component_outcome env id m h).success up).0, s.started);
    kept = λ j r. s.kept j (start_component-keeps id j m h up r);
  }

  start_each-StartedEach :
      (ids : List ComponentId) (m : Manager env)
      → m.shutdown_requested ≡ false
      → ((j : ComponentId) → contains j ids ≡ true → HasHandle env m j)
      → (start_each env ids m).1 ≡ ok tt
      → StartedEach ids m (start_each env ids m).0
  unfolding start_each
  start_each-StartedEach [] m quiet has p = record { started = tt; kept = λ j up. up }
  start_each-StartedEach (id ∷ ids) m quiet has p = elim (start_each-cons id ids m quiet) [
    | inl (up, e) ↦ subst (StartedEach (id ∷ ids) m) (sym (ap (λ r. r.0) e)) (
        StartedEach-cons id ids m (has id here) up (
          start_each-StartedEach ids (start_component env id m).0 (still_quiet (has id here))
            (λ j l. still_there j (has id here) (has j (later j l))) (sym (ap (λ r. r.1) e) ∙ p)))
    | inr (e, bad, q) ↦ absurd (ok-ne-err (sym p ∙ ap (λ r. r.1) q))
  ]
    where
      here : contains id (id ∷ ids) ≡ true
      here = ground (arith, contains-cons id id ids)

      later : (j : ComponentId) → contains j ids ≡ true → contains j (id ∷ ids) ≡ true
      later j l = ground (arith, contains-cons j id ids)

      still_quiet : HasHandle env m id → (start_component env id m).0.shutdown_requested ≡ false
      still_quiet h = (start_component_outcome env id m h).touches.shutdown_requested ∙ quiet

      still_there :
          (j : ComponentId)
          → HasHandle env m id
          → HasHandle env m j
          → HasHandle env (start_component env id m).0 j
      still_there j h k = Touches-HasHandle env j (start_component_outcome env id m h).touches k

  -- When start_all succeeds and no shutdown was requested, every component of the startup
  -- order is running, whatever the components, their retries and time-outs did. The
  -- components of the order have handles.
  pub start_all-AllRunning :
      (m : Manager env)
      → m.shutdown_requested ≡ false
      → ((j : ComponentId) → contains j m.startup_order ≡ true → HasHandle env m j)
      → (start_all env m).1 ≡ ok tt
      → AllRunning env (start_all env m).0 m.startup_order
  unfolding start_all
  start_all-AllRunning m quiet has p =
      (start_each-StartedEach m.startup_order m quiet has p).started
