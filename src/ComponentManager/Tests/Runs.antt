-- ===== src/ComponentManager/Tests/Runs.antt =====
-- Runs of two components, one of which needs the other, and the theorems at concrete inputs.
use zhtp.Base.{◌≡◌, refl, sym, subst, true, false, some, inl, inr, [], ◌∷◌, arith, same, Bool-cases}
use zhtp.Base.Lists.{eq_of_same, same_refl, contains, contains-cons, contains-nil}
use zhtp.Base.Dict.{lookup, lookup-nil, lookup-cons}
use zhtp.Component.{
  ComponentId, network, blockchain, ComponentStatus, running, registered, Environment,
  ComponentHandle, ok, component_key, new_handle,
}
use zhtp.ComponentManager.{Manager, status_of, is_live, start_all, shutdown_all}
use zhtp.ComponentManager.Startup.{IsOrdered}
use zhtp.ComponentManager.Starting.{HasHandle, AllRunning}
use zhtp.ComponentManager.StartAll.{start_all-AllRunning}
use zhtp.ComponentManager.Retries.{Startable, start_all_total}
use zhtp.ComponentManager.Stopping.{IsPaired, shutdown_all-Stopped}
use zhtp.ComponentManager.Tests.{shy, keen, registration_of}

abbrev handle_in : ComponentStatus → ComponentId → ComponentHandle
handle_in s id = record (new_handle id) { status = s }

-- `blockchain` needs `network`, and both have the status `s`.
abbrev two : (env : Environment) → env.Component → ComponentStatus → env.World → Manager env
two env c s w = record {
  components =
      (blockchain, registration_of env c blockchain (network ∷ []))
      ∷ (network, registration_of env c network [])
      ∷ [];
  handles = (blockchain, handle_in s blockchain) ∷ (network, handle_in s network) ∷ [];
  startup_order = network ∷ blockchain ∷ [];
  health_checker = false;
  shutdown_requested = false;
  world = w;
}

two-HasHandle :
    (env : Environment) (c : env.Component) (s : ComponentStatus) (w : env.World) (j : ComponentId)
    → contains j (network ∷ blockchain ∷ []) ≡ true
    → HasHandle env (two env c s w) j
two-HasHandle env c s w j l e = ground (
  arith,
  contains-cons j network (blockchain ∷ []),
  contains-cons j blockchain [],
  contains-nil j,
  eq_of_same j network,
  eq_of_same j blockchain,
  same_refl j,
  lookup-cons j blockchain (handle_in s blockchain) ((network, handle_in s network) ∷ []),
  lookup-cons j network (handle_in s network) [],
)

two-find :
    (env : Environment) (c : env.Component) (s : ComponentStatus) (w : env.World)
    → (lookup blockchain (two env c s w).components
        ≡ some (registration_of env c blockchain (network ∷ [])))
      × (lookup network (two env c s w).components ≡ some (registration_of env c network []))
two-find env c s w = (
  ground (
    arith,
    same_refl blockchain,
    lookup-cons blockchain blockchain (registration_of env c blockchain (network ∷ []))
        ((network, registration_of env c network []) ∷ []),
  ),
  ground (
    arith,
    same_refl network,
    eq_of_same blockchain network,
    lookup-cons network blockchain (registration_of env c blockchain (network ∷ []))
        ((network, registration_of env c network []) ∷ []),
    lookup-cons network network (registration_of env c network []) [],
  ),
)

two-IsOrdered : IsOrdered keen (two keen network registered 0)
two-IsOrdered = record {
  first = (
    ground (arith, (two-find keen network registered 0).1),
    ground (arith, contains-nil network),
    (
      ground (
        arith,
        (two-find keen network registered 0).0,
        contains-cons network network [],
        same_refl network,
      ),
      ground (
        arith,
        contains-cons blockchain network [],
        contains-nil blockchain,
        eq_of_same blockchain network,
      ),
      tt,
    ),
  );
  complete = (
    ground (
      arith,
      contains-cons blockchain network (blockchain ∷ []),
      contains-cons blockchain blockchain [],
      same_refl blockchain,
    ),
    (ground (arith, contains-cons network network (blockchain ∷ []), same_refl network), tt),
  );
}

two-Startable :
    (j : ComponentId)
    → contains j (network ∷ blockchain ∷ []) ≡ true
    → Startable keen (two keen network registered 0) j
two-Startable j l = elim (Bool-cases (same j network)) [
  | inl e ↦
      subst (Startable keen (two keen network registered 0)) (sym (eq_of_same j network e))
        (record {
          registration = registration_of keen network network [];
          found = (two-find keen network registered 0).1;
          tries = omega arith;
          starts = λ w. refl;
          handle = two-HasHandle keen network registered 0 network (
              subst (λ i. contains i (network ∷ blockchain ∷ []) ≡ true) (eq_of_same j network e)
                l);
        })
  | inr n ↦ subst (Startable keen (two keen network registered 0)) (sym (is_blockchain n)) (record {
    registration = registration_of keen network blockchain (network ∷ []);
    found = (two-find keen network registered 0).0;
    tries = omega arith;
    starts = λ w. refl;
    handle =
        two-HasHandle keen network registered 0 blockchain
          (subst (λ i. contains i (network ∷ blockchain ∷ []) ≡ true) (is_blockchain n) l);
  })
]
  where
    is_blockchain : same j network ≡ false → j ≡ blockchain
    is_blockchain n = ground (
      arith,
      contains-cons j network (blockchain ∷ []),
      contains-cons j blockchain [],
      contains-nil j,
      eq_of_same j blockchain,
    )

start_all_total_example :
    ((start_all keen (two keen network registered 0)).1 ≡ ok tt)
    × AllRunning keen (start_all keen (two keen network registered 0)).0 (network ∷ blockchain ∷ [])
start_all_total_example =
    start_all_total keen (two keen network registered 0) two-IsOrdered refl two-Startable

start_all-AllRunning_example :
    AllRunning keen (start_all keen (two keen network registered 0)).0 (network ∷ blockchain ∷ [])
start_all-AllRunning_example =
    start_all-AllRunning keen (two keen network registered 0) refl
      (two-HasHandle keen network registered 0) start_all_total_example.0

two-IsPaired : IsPaired shy (two shy network running 5)
two-IsPaired j h e = h (
    ground (
      arith,
      lookup-cons j blockchain (handle_in running blockchain)
          ((network, handle_in running network) ∷ []),
      lookup-cons j network (handle_in running network) [],
      lookup-cons j blockchain (registration_of shy network blockchain (network ∷ []))
          ((network, registration_of shy network network []) ∷ []),
      lookup-cons j network (registration_of shy network network []) [],
      lookup-nil {V = ComponentHandle} j,
    ))

shutdown_all-Stopped_example :
    let m = two shy network running 5 in
    let r = shutdown_all shy m in
    (r.1 ≡ ok tt)
    × (r.0.shutdown_requested ≡ true)
    × ((j : ComponentId)
        → contains j m.startup_order ≡ true
        → is_live (status_of shy r.0 j) ≡ false)
shutdown_all-Stopped_example = shutdown_all-Stopped shy (two shy network running 5) two-IsPaired
