-- ===== src/RuntimeOrchestrator/StartAll.antt =====
-- `start_all_components` and `startup_sequence` of src/runtime/mod.rs: what runs at their end, and
-- in which network.
use Prim.Native.String.{String}
use zhtp.Base.{
  ◌≡◌, refl, sym, ◌∙◌, subst, Option, List, [], ◌∷◌, arith, Option-cases, Bool-cases, inl, inr,
}
use zhtp.Base.Lists.{All}
use zhtp.Base.Dict.{lookup, lookup-insert}
use zhtp.Base.Result.{Result, ok, err, ok-ne-err}
use zhtp.Component.{ComponentId, component_key}
use zhtp.RuntimeOrchestrator.{
  Error, Host, M, RuntimeOrchestrator, and_then, map_err, while_starting, with_context, ◌>>=◌, ◌>>◌,
  new_health, register_component, sleep, start_component,
}
use zhtp.RuntimeOrchestrator.Phases.{
  Services, all_components, ensure_blockchain, outside, register_all_components, register_each,
  register_if_absent, register_new, start_all_components, start_each, start_new,
}
use zhtp.RuntimeOrchestrator.Tracked.{Touches, start_component-Touches}
use zhtp.RuntimeOrchestrator.Starting.{
  IsRunning, HasEntries, Touches-HasEntries, start_each-IsRunning,
}

module _ (host : Host) where
  -- What every phase keeps.
  pub record Keeps (r r' : RuntimeOrchestrator host) : Type 0 where
    pub startup_order : r'.startup_order ≡ r.startup_order
    pub joined : r'.joined_existing_network ≡ r.joined_existing_network
    pub tracked : HasEntries host r → HasEntries host r'

  pub Keeps-refl : (r : RuntimeOrchestrator host) → Keeps r r
  Keeps-refl r = record { startup_order = refl; joined = refl; tracked = λ t. t }

  pub Keeps-trans : {r r' r'' : RuntimeOrchestrator host} → Keeps r r' → Keeps r' r'' → Keeps r r''
  Keeps-trans k l = record {
    startup_order = l.startup_order ∙ k.startup_order;
    joined = l.joined ∙ k.joined;
    tracked = λ t. l.tracked (k.tracked t);
  }

  pub world-Keeps :
      (r : RuntimeOrchestrator host) (w : host.World) → Keeps r (record r { world = w })
  world-Keeps r w = record { startup_order = refl; joined = refl; tracked = λ t. t }

  pub Touches-Keeps :
      (id : ComponentId) (r r' : RuntimeOrchestrator host) → Touches host id r r' → Keeps r r'
  Touches-Keeps id r r' t = record {
    startup_order = t.startup_order;
    joined = t.joined;
    tracked = Touches-HasEntries host id r r' t;
  }

  pub start_component-Keeps :
      (id : ComponentId) (r : RuntimeOrchestrator host) → Keeps r (start_component host id r).0
  start_component-Keeps id r = Touches-Keeps id r _ (start_component-Touches host id r)

  pub register_component-Keeps :
      (c : host.Component) (r : RuntimeOrchestrator host) → Keeps r (register_component host c r)
  unfolding register_component
  register_component-Keeps c r = record {
    startup_order = refl;
    joined = refl;
    tracked = λ t j has absent.
        t j
          (λ e. has (
            ground (
              arith,
              lookup-insert (host.id c) j c r.components,
              lookup-insert (host.id c) j (new_health host (host.now r.world)) r.component_health,
            )))
          (ground (
            arith,
            lookup-insert (host.id c) j (new_health host (host.now r.world)) r.component_health,
          ));
  }

  pub bind-Keeps :
      {A B : Type 0} (r : RuntimeOrchestrator host) (f : M host A) (g : A → M host B)
      → Keeps r (f r).0
      → ((a : A) (s : RuntimeOrchestrator host) → Keeps s (g a s).0)
      → Keeps r (◌>>=◌ host f g r).0
  bind-Keeps {A = A} {B = B} r f g k h = go (f r) k
    where
      go :
          (x : RuntimeOrchestrator host × Result Error A)
          → Keeps r x.0
          → Keeps r (and_then host g x).0
      go (s, ok a) l = Keeps-trans l (h a s)
      go (s, err e) l = l

  pub then-Keeps :
      {B : Type 0} (f : M host (Unit {0})) (g : M host B)
      → ((r : RuntimeOrchestrator host) → Keeps r (f r).0)
      → ((r : RuntimeOrchestrator host) → Keeps r (g r).0)
      → (r : RuntimeOrchestrator host) → Keeps r (◌>>◌ host f g r).0
  then-Keeps f g k l r = bind-Keeps r f (λ a. g) (k r) (λ a s. l s)

  with_context-Keeps :
      {A : Type 0} (r : RuntimeOrchestrator host) (wrap : Error → Error) (f : M host A)
      → Keeps r (f r).0
      → Keeps r (with_context host wrap f r).0
  with_context-Keeps {A = A} r wrap f k = go (f r) k
    where
      go :
          (x : RuntimeOrchestrator host × Result Error A)
          → Keeps r x.0
          → Keeps r (map_err host wrap x).0
      go (s, ok a) l = l
      go (s, err e) l = l

  register_if_absent-Keeps :
      (id : ComponentId) (r : RuntimeOrchestrator host) → Keeps r (register_if_absent host id r)
  unfolding register_if_absent
  register_if_absent-Keeps id r = elim (Option-cases (lookup id r.components)) [
    | inl e ↦ rw (register_if_absent, e) (register_component-Keeps _ r)
    | inr (c, e) ↦ rw (register_if_absent, e) (Keeps-refl r)
  ]

  pub register_each-Keeps :
      (ids : List ComponentId) (r : RuntimeOrchestrator host) → Keeps r (register_each host ids r)
  unfolding register_each
  register_each-Keeps [] r = Keeps-refl r
  register_each-Keeps (id ∷ ids) r =
      Keeps-trans (register_if_absent-Keeps id r) (register_each-Keeps ids _)

  start_each-Keeps :
      (ids : List ComponentId) (r : RuntimeOrchestrator host) → Keeps r (start_each host ids r).0
  unfolding start_each
  start_each-Keeps [] r = Keeps-refl r
  start_each-Keeps (id ∷ ids) r =
      bind-Keeps r (with_context host (while_starting id) (start_component host id))
        (λ a s. start_each host ids (sleep host 500 s))
        (with_context-Keeps r (while_starting id) (start_component host id)
          (start_component-Keeps id r))
        (λ a s. Keeps-trans (world-Keeps s _) (start_each-Keeps ids (sleep host 500 s)))

  pub outside-Keeps :
      (f : host.World → Option String × host.World) (r : RuntimeOrchestrator host)
      → Keeps r (outside host f r).0
  outside-Keeps f r = world-Keeps r _

  pub start_new-Keeps :
      {Environment : Type 0} (services : Services host Environment) (id : ComponentId)
      (r : RuntimeOrchestrator host)
      → Keeps r (start_new host services id r).0
  start_new-Keeps services id r =
      Keeps-trans (register_component-Keeps _ r) (start_component-Keeps id (register_new host id r))

  module _ {Environment : Type 0} (services : Services host Environment) where
    ensure_blockchain-Keeps :
        (r : RuntimeOrchestrator host) → Keeps r (ensure_blockchain host services r).0
    ensure_blockchain-Keeps r = elim (Bool-cases (services.blockchain_available r.world)) [
      | inl e ↦ rw e (Keeps-refl r)
      | inr e ↦ rw e (world-Keeps r _)
    ]

    pub start_all_components-Keeps :
        (r : RuntimeOrchestrator host) → Keeps r (start_all_components host services r).0
    unfolding start_all_components register_all_components
    start_all_components-Keeps r =
        let s = register_all_components host r in
        Keeps-trans (register_each-Keeps (all_components host) r) (
          bind-Keeps s (ensure_blockchain host services) (λ a t. start_each host t.startup_order t)
            (ensure_blockchain-Keeps s) (λ a t. start_each-Keeps t.startup_order t))

    pub start_all_components-IsRunning :
        (r : RuntimeOrchestrator host)
        → HasEntries host r
        → (start_all_components host services r).1 ≡ ok tt
        → All (IsRunning host (start_all_components host services r).0) r.startup_order
    unfolding start_all_components register_all_components
    start_all_components-IsRunning r tracked e =
        let registered = register_each-Keeps (all_components host) r in
        go (ensure_blockchain host services s) (Keeps-trans registered (ensure_blockchain-Keeps s))
          e
      where
        s : RuntimeOrchestrator host
        s = register_each host (all_components host) r

        start_rest : Unit {0} → M host (Unit {0})
        start_rest a t = start_each host t.startup_order t

        go :
            (x : RuntimeOrchestrator host × Result Error (Unit {0}))
            → Keeps r x.0
            → ((and_then host start_rest x).1 ≡ ok tt)
            → All (IsRunning host (and_then host start_rest x).0) r.startup_order
        go (t, ok a) k e =
            subst (All (IsRunning host (start_each host t.startup_order t).0)) k.startup_order
              (start_each-IsRunning host t.startup_order t (k.tracked tracked) e)
        go (t, err x) k e = absurd (ok-ne-err (sym e))
