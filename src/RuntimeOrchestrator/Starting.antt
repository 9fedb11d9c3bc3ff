-- ===== src/RuntimeOrchestrator/Starting.antt =====
-- `start_component` and the loop of `start_all_components` of src/runtime/mod.rs: which components
-- run when they succeed, and what makes them succeed.
use zhtp.Base.{
  ℕ, ◌≡◌, refl, sym, ◌∙◌, ap, subst, ◌≢◌, Option, none, some, true, false, List, [], ◌∷◌, arith,
  Option-cases, Bool-cases, inl, inr, true-ne-false,
}
use zhtp.Base.Lists.{All}
use zhtp.Base.Dict.{lookup}
use zhtp.Base.Result.{Result, ok, Result-cases}
use zhtp.Component.{
  ComponentId, ComponentStatus, ComponentId-discrete, component_key, error, failed, registered,
  running, starting, stopped, stopping,
}
use zhtp.RuntimeOrchestrator.{
  ComponentHealth, ComponentMessage, Error, Host, RuntimeOrchestrator, already_running,
  broadcast_message, finish_start, is_running, mark, mark_starting, run_start, sleep,
  start_component, mark_running, send_each,
}
use zhtp.RuntimeOrchestrator.Phases.{start_each}
use zhtp.RuntimeOrchestrator.Tracked.{
  Touches, mark-Touches, send_each-sent, send_each-closed, start_component-Touches, status_after,
}

is_running-eq : (s : ComponentStatus) → is_running s ≡ true → s ≡ running
is_running-eq running e = refl
is_running-eq stopped e = absurd (true-ne-false (sym e))
is_running-eq starting e = absurd (true-ne-false (sym e))
is_running-eq stopping e = absurd (true-ne-false (sym e))
is_running-eq registered e = absurd (true-ne-false (sym e))
is_running-eq failed e = absurd (true-ne-false (sym e))
is_running-eq (error m) e = absurd (true-ne-false (sym e))

some-ne-none : {A : Type 0} {a : A} → ◌≡◌ {A = Option A} (some a) none → ⊥
some-ne-none h = cc

module _ (host : Host) where
  abbrev Outcome : Type 0
  Outcome = RuntimeOrchestrator host × Result Error (Unit {0})

  abbrev pub IsRunning : RuntimeOrchestrator host → ComponentId → Type 0
  IsRunning r id =
      (h : ComponentHealth host.F32) × (lookup id r.component_health ≡ some h)
      × (h.status ≡ running)

  -- Every registered component has a health entry.
  abbrev pub HasEntries : RuntimeOrchestrator host → Type 0
  HasEntries r =
      (id : ComponentId) → lookup id r.components ≢ none → lookup id r.component_health ≢ none

  pub Touches-HasEntries :
      (id : ComponentId) (r r' : RuntimeOrchestrator host)
      → Touches host id r r'
      → HasEntries r
      → HasEntries r'
  Touches-HasEntries id r r' t tracked j has = elim (ComponentId-discrete j id) [
    | yes e ↦
        subst (λ i. lookup i r'.component_health ≢ none) (sym e)
          (t.kept (
            tracked id (λ none_there. has (
              ap (λ d. lookup j d) t.components ∙ ap (λ i. lookup i r.components) e ∙ none_there))))
    | no n ↦ λ absent.
        tracked j (λ none_there. has (ap (λ d. lookup j d) t.components ∙ none_there))
          (sym (t.others j n) ∙ absent)
  ]

  same_health-IsRunning :
      (id : ComponentId) (r r' : RuntimeOrchestrator host)
      → lookup id r'.component_health ≡ lookup id r.component_health
      → IsRunning r id
      → IsRunning r' id
  same_health-IsRunning id r r' e (h, there, status) = (h, e ∙ there, status)

  already_running-IsRunning :
      (id : ComponentId) (r : RuntimeOrchestrator host)
      → already_running host id r ≡ true
      → IsRunning r id
  already_running-IsRunning id r e = elim (Option-cases (lookup id r.component_health)) [
    | inl none_there ↦ absurd (ground (arith, none_there))
    | inr (h, there) ↦ (h, there, is_running-eq h.status (ground (arith, there)))
  ]

  send_each-health :
      (ids : List ComponentId) (message : ComponentMessage host.Blockchain)
      (r : RuntimeOrchestrator host)
      → (send_each host ids message r).0.component_health ≡ r.component_health
  send_each-health ids message r = elim (Bool-cases r.receiving) [
    | inl e ↦ ap (λ x. x.0.component_health) (send_each-sent host ids message r e)
    | inr e ↦ ap (λ s. s.component_health) (send_each-closed host ids message r e)
  ]

  finish_start-IsRunning :
      (id : ComponentId) (started : ℕ) (r : RuntimeOrchestrator host)
      → lookup id r.component_health ≢ none
      → IsRunning (finish_start host id started none r).0 id
  unfolding finish_start broadcast_message
  finish_start-IsRunning id started r tracked = elim (Option-cases (lookup id r.component_health)) [
    | inl e ↦ absurd (tracked e)
    | inr (h, e) ↦ (
      mark_running started (host.now r.world) h,
      ap (λ d. lookup id d) (send_each-health _ _ _) ∙ status_after host id _ r h e,
      refl,
    )
  ]

  run_start-started :
      (id : ComponentId) (r : RuntimeOrchestrator host)
      → (run_start host id r).1 ≡ ok tt
      → (c : host.Component) × (lookup id r.components ≡ some c)
        × (run_start host id r
            ≡ finish_start host id
                (host.now r.world)
                none
                (record r { world = (host.start c r.world).1 }))
  unfolding run_start finish_start
  run_start-started id r e = elim (Option-cases (lookup id r.components)) [
    | inl absent ↦ absurd (ground (arith, absent))
    | inr (c, there) ↦ elim (Option-cases (host.start c r.world).0) [
      | inr (failure, f) ↦ absurd (ground (arith, there, f))
      | inl f ↦ (c, there, ground (arith, there, f))
    ]
  ]

  run_start-IsRunning :
      (id : ComponentId) (r : RuntimeOrchestrator host)
      → (lookup id r.components ≢ none → lookup id r.component_health ≢ none)
      → (run_start host id r).1 ≡ ok tt
      → IsRunning (run_start host id r).0 id
  run_start-IsRunning id r tracked e =
      let (c, there, started) = run_start-started id r e in
      subst {A = Outcome} (λ x. IsRunning x.0 id) (sym started)
        (finish_start-IsRunning id (host.now r.world)
          (record r { world = (host.start c r.world).1 })
          (tracked (λ absent. some-ne-none (sym there ∙ absent))))

  start_component-running :
      (id : ComponentId) (r : RuntimeOrchestrator host)
      → already_running host id r ≡ true
      → start_component host id r ≡ (r, ok tt)
  unfolding start_component
  start_component-running id r a = ground (arith, a)

  start_component-runs :
      (id : ComponentId) (r : RuntimeOrchestrator host)
      → already_running host id r ≡ false
      → start_component host id r
        ≡ run_start host id (mark host id (mark_starting (host.now r.world)) r)
  unfolding start_component
  start_component-runs id r a = ground (arith, a)

  pub start_component-IsRunning :
      (id : ComponentId) (r : RuntimeOrchestrator host)
      → HasEntries r
      → (start_component host id r).1 ≡ ok tt
      → IsRunning (start_component host id r).0 id
  start_component-IsRunning id r tracked e = elim (Bool-cases (already_running host id r)) [
    | inl a ↦
        subst {A = Outcome} (λ x. IsRunning x.0 id) (sym (start_component-running id r a))
          (already_running-IsRunning id r a)
    | inr a ↦
        let s = mark host id (mark_starting (host.now r.world)) r in
        let runs = start_component-runs id r a in
        subst {A = Outcome} (λ x. IsRunning x.0 id) (sym runs)
          (run_start-IsRunning id s
            (λ has.
              (mark-Touches host id (mark_starting (host.now r.world)) r).kept (tracked id has))
            (sym (ap (λ x. x.1) runs) ∙ e))
  ]

  start_component-keeps :
      (id j : ComponentId) (r : RuntimeOrchestrator host)
      → HasEntries r
      → (start_component host id r).1 ≡ ok tt
      → IsRunning r j
      → IsRunning (start_component host id r).0 j
  start_component-keeps id j r tracked e up = elim (ComponentId-discrete j id) [
    | yes p ↦
        subst (IsRunning (start_component host id r).0) (sym p)
          (start_component-IsRunning id r tracked e)
    | no n ↦
        same_health-IsRunning j r (start_component host id r).0
          ((start_component-Touches host id r).others j n) up
  ]

  start_each-cons :
      (id : ComponentId) (ids : List ComponentId) (r : RuntimeOrchestrator host)
      → (start_each host (id ∷ ids) r).1 ≡ ok tt
      → ((start_component host id r).1 ≡ ok tt)
        × (start_each host (id ∷ ids) r
            ≡ start_each host ids (sleep host 500 (start_component host id r).0))
  unfolding start_each
  start_each-cons id ids r e = elim (Result-cases (start_component host id r).1) [
    | inl (a, p) ↦ (p, ground (arith, p))
    | inr (x, p) ↦ absurd (ground (arith, p, e))
  ]

  pub start_each-keeps :
      (ids : List ComponentId) (j : ComponentId) (r : RuntimeOrchestrator host)
      → HasEntries r
      → (start_each host ids r).1 ≡ ok tt
      → IsRunning r j
      → IsRunning (start_each host ids r).0 j
  unfolding start_each
  start_each-keeps [] j r tracked e up = up
  start_each-keeps (id ∷ ids) j r tracked e up =
      let (started, rest) = start_each-cons id ids r e in
      let s = (start_component host id r).0 in
      subst {A = Outcome} (λ x. IsRunning x.0 j) (sym rest)
        (start_each-keeps ids j (sleep host 500 s)
          (Touches-HasEntries id r s (start_component-Touches host id r) tracked)
          (sym (ap (λ x. x.1) rest) ∙ e) (start_component-keeps id j r tracked started up))

  pub start_each-IsRunning :
      (ids : List ComponentId) (r : RuntimeOrchestrator host)
      → HasEntries r
      → (start_each host ids r).1 ≡ ok tt
      → All (IsRunning (start_each host ids r).0) ids
  start_each-IsRunning [] r tracked e = tt
  start_each-IsRunning (id ∷ ids) r tracked e =
      let (started, rest) = start_each-cons id ids r e in
      let s = (start_component host id r).0 in
      let here = Touches-HasEntries id r s (start_component-Touches host id r) tracked in
      let ok_rest = sym (ap (λ x. x.1) rest) ∙ e in
      subst {A = Outcome} (λ x. All (IsRunning x.0) (id ∷ ids)) (sym rest)
        (
          start_each-keeps ids id (sleep host 500 s) here ok_rest
              (start_component-IsRunning id r tracked started),
          start_each-IsRunning ids (sleep host 500 s) here ok_rest,
        )
