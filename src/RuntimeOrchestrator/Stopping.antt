-- ===== src/RuntimeOrchestrator/Stopping.antt =====
-- `stop_component` and `shutdown_all_components` of src/runtime/mod.rs: which components have ended.
use Prim.Native.String.{String}
use zhtp.Base.{
  ◌≡◌, refl, sym, ◌∙◌, ap, subst, ◌≢◌, ◌⊎◌, Option, none, some, Bool, true, false, List, [], ◌∷◌,
  arith, Option-cases, Bool-cases, inl, inr, true-ne-false, same,
}
use zhtp.Base.Lists.{contains, contains-cons, contains-nil}
use zhtp.Base.Dict.{lookup}
use zhtp.Base.Result.{Result}
use zhtp.Component.{
  Attempt, ComponentId, ComponentStatus, ComponentId-discrete, component_key, error, finished,
  refused, stopped, timed_out,
}
use zhtp.RuntimeOrchestrator.{
  ComponentHealth, Error, Host, RuntimeOrchestrator, mark, mark_error, mark_stopped, mark_stopping,
  sleep,
}
use zhtp.RuntimeOrchestrator.Shutdown.{finish_stop, stop_each, stop_until}
use zhtp.RuntimeOrchestrator.Tracked.{mark-Touches, status_after, stop_until-Touches}
use zhtp.RuntimeOrchestrator.Starting.{HasEntries, Touches-HasEntries}

pub data Ended : ComponentStatus → Type 0 where
  in_order : Ended stopped
  with_error : (e : String) → Ended (error e)

module _ (host : Host) where
  -- Its last state is `Stopped` or an error.
  abbrev pub HasEnded : RuntimeOrchestrator host → ComponentId → Type 0
  HasEnded r id =
      (h : ComponentHealth host.F32) × (lookup id r.component_health ≡ some h) × Ended h.status

  pub mark-HasEnded :
      (id : ComponentId) (f : ComponentHealth host.F32 → ComponentHealth host.F32)
      (r : RuntimeOrchestrator host)
      → ((h : ComponentHealth host.F32) → Ended (f h).status)
      → lookup id r.component_health ≢ none
      → HasEnded (mark host id f r) id
  mark-HasEnded id f r ends tracked = elim (Option-cases (lookup id r.component_health)) [
    | inl e ↦ absurd (tracked e)
    | inr (h, e) ↦ (f h, status_after host id f r h e, ends h)
  ]

  finish_stop-HasEnded :
      (over : host.World → Bool) (id : ComponentId) (c : host.Component) (a : Attempt)
      (r : RuntimeOrchestrator host)
      → lookup id r.component_health ≢ none
      → (finish_stop host over id c a r).1 ≢ none
      → HasEnded (finish_stop host over id c a r).0 id
  unfolding finish_stop
  finish_stop-HasEnded over id c finished r tracked done =
      mark-HasEnded id (mark_stopped (host.now r.world)) r (λ h. in_order) tracked
  finish_stop-HasEnded over id c (refused e) r tracked done =
      mark-HasEnded id (mark_error e) r (λ h. with_error e) tracked
  finish_stop-HasEnded over id c timed_out r tracked done =
      let w = host.force_stop c 5000 r.world in
      elim (Bool-cases (over w)) [
        | inl e ↦ absurd (done (rw e refl))
        | inr e ↦ rw e (
            mark-HasEnded id (mark_stopped (host.now w)) (record r { world = w }) (λ h. in_order)
              tracked)
      ]

  abbrev Outcome : Type 0
  Outcome = RuntimeOrchestrator host × Option (Result Error (Unit {0}))

  pub stop_until-finish :
      (over : host.World → Bool) (id : ComponentId) (c : host.Component)
      (r : RuntimeOrchestrator host)
      → lookup id r.components ≡ some c
      → over (host.stop c 10000 r.world).1 ≡ false
      → stop_until host over id r
        ≡ finish_stop host over id c
            (host.stop c 10000 r.world).0
            (record (mark host id (mark_stopping (host.now r.world)) r) {
              world = (host.stop c 10000 r.world).1;
            })
  unfolding stop_until
  stop_until-finish over id c r e d = ground (arith, e, d)

  -- A component that is registered has ended when the call for it was not dropped.
  stop_until-HasEnded :
      (over : host.World → Bool) (id : ComponentId) (r : RuntimeOrchestrator host)
      → HasEntries host r
      → lookup id r.components ≢ none
      → (stop_until host over id r).1 ≢ none
      → HasEnded (stop_until host over id r).0 id
  unfolding stop_until
  stop_until-HasEnded over id r tracked there done = elim (Option-cases (lookup id r.components)) [
    | inl e ↦ absurd (there e)
    | inr (c, e) ↦
        let (attempt, w) = host.stop c 10000 r.world in
        let f = mark_stopping (host.now r.world) in
        let kept = (mark-Touches host id f r).kept (tracked id there) in
        elim (Bool-cases (over w)) [
          | inl d ↦ absurd (done (ground (arith, e, d)))
          | inr d ↦
              let r₂ = record (mark host id f r) { world = w } in
              let same_end = stop_until-finish over id c r e d in
              subst {A = Outcome} (λ x. HasEnded x.0 id) (sym same_end)
                (finish_stop-HasEnded over id c attempt r₂ kept
                  (λ n. done (ap (λ x. x.1) same_end ∙ n)))
        ]
  ]

  stop_until-keeps :
      (over : host.World → Bool) (id j : ComponentId) (r : RuntimeOrchestrator host)
      → HasEntries host r
      → lookup j r.components ≢ none
      → (stop_until host over id r).1 ≢ none
      → HasEnded r j
      → HasEnded (stop_until host over id r).0 j
  stop_until-keeps over id j r tracked there done (h, e, ended) = elim (ComponentId-discrete j id) [
    | yes p ↦ subst (HasEnded (stop_until host over id r).0) (sym p) (
        stop_until-HasEnded over id r tracked (λ n. there (ap (λ i. lookup i r.components) p ∙ n))
          done)
    | no n ↦ (h, (stop_until-Touches host over id r).others j n ∙ e, ended)
  ]

  stop_each-cons :
      (over : host.World → Bool) (id : ComponentId) (ids : List ComponentId)
      (r : RuntimeOrchestrator host)
      → (stop_each host over (id ∷ ids) r).1 ≡ true
      → ((stop_until host over id r).1 ≢ none)
        × (stop_each host over (id ∷ ids) r
            ≡ stop_each host over ids (sleep host 200 (stop_until host over id r).0))
  unfolding stop_each
  stop_each-cons over id ids r e = elim (Option-cases (stop_until host over id r).1) [
    | inl n ↦ absurd (ground (arith, n, e))
    | inr (x, s) ↦ elim (Bool-cases (over (host.sleep 200 (stop_until host over id r).0.world))) [
      | inl d ↦ absurd (ground (arith, s, d, e))
      | inr d ↦ ((λ n. absurd (ground (arith, s, n))), ground (arith, s, d))
    ]
  ]

  -- What a shutdown keeps of the components, wherever it is cut.
  abbrev pub Steady : RuntimeOrchestrator host → RuntimeOrchestrator host → Type 0
  Steady r r' = (r'.components ≡ r.components) × (HasEntries host r → HasEntries host r')

  pub stop_each-Steady :
      (over : host.World → Bool) (ids : List ComponentId) (r : RuntimeOrchestrator host)
      → Steady r (stop_each host over ids r).0
  unfolding stop_each
  stop_each-Steady over [] r = (refl, λ t. t)
  stop_each-Steady over (id ∷ ids) r =
      let x = stop_until host over id r in
      let t = stop_until-Touches host over id r in
      let whole = (stop_each host over (id ∷ ids) r).0 in
      let r₂ = sleep host 200 x.0 in
      let (same, kept) = stop_each-Steady over ids r₂ in
      let here = Touches-HasEntries host id r x.0 t in
      elim (Option-cases x.1) [
        | inl n ↦ subst (Steady r) {x = x.0} {y = whole} (ground (arith, n)) (t.components, here)
        | inr (y, s) ↦ elim (Bool-cases (over r₂.world)) [
          | inl d ↦
              subst (Steady r) {x = r₂} {y = whole} (ground (arith, s, d)) (t.components, here)
          | inr d ↦
              subst (Steady r) {x = (stop_each host over ids r₂).0} {y = whole}
                (ground (arith, s, d)) (same ∙ t.components, λ u. kept (here u))
        ]
      ]

  pub stop_each-keeps :
      (over : host.World → Bool) (ids : List ComponentId) (j : ComponentId)
      (r : RuntimeOrchestrator host)
      → HasEntries host r
      → lookup j r.components ≢ none
      → (stop_each host over ids r).1 ≡ true
      → HasEnded r j ⊎ (contains j ids ≡ true)
      → HasEnded (stop_each host over ids r).0 j
  unfolding stop_each
  stop_each-keeps over [] j r tracked there e (inl ended) = ended
  stop_each-keeps over [] j r tracked there e (inr l) =
      absurd (true-ne-false (sym l ∙ contains-nil j))
  stop_each-keeps over (id ∷ ids) j r tracked there e case =
      let (done, rest) = stop_each-cons over id ids r e in
      let t = stop_until-Touches host over id r in
      let s = (stop_until host over id r).0 in
      let on =
        stop_each-keeps over ids j (sleep host 200 s) (Touches-HasEntries host id r s t tracked)
          (λ n. there (ap (λ d. lookup j d) (sym t.components) ∙ n))
          (sym (ap (λ x. x.1) rest) ∙ e) in
      subst {A = RuntimeOrchestrator host × Bool} (λ x. HasEnded x.0 j) (sym rest)
        (elim case [
          | inl ended ↦ on (inl (stop_until-keeps over id j r tracked there done ended))
          | inr l ↦ elim (ComponentId-discrete j id) [
            | yes p ↦ on (
                inl (
                  subst (HasEnded s) (sym p) (
                    stop_until-HasEnded over id r tracked
                      (λ n. there (ap (λ i. lookup i r.components) p ∙ n)) done)))
            | no n ↦ on (inr (ground (arith, contains-cons j id ids)))
          ]
        ])
