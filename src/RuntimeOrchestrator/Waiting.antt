-- ===== src/RuntimeOrchestrator/Waiting.antt =====
-- The loops of src/runtime/mod.rs that wait: `wait_for_initial_sync` ends with its timeout, and the
-- discovery of an edge node with the first attempt that finds a network.
use zhtp.Base.{
  ℕ, zero, suc, ◌+◌, ◌-◌, ◌*◌, ◌≤◌, ◌<◌, ◌≡◌, sym, subst, ◌⊎◌, inl, inr, none, some, true, false,
  arith, Option-cases, Bool-cases, ltb,
}
use zhtp.Base.Result.{Result, ok, err}
use zhtp.RuntimeOrchestrator.{Error, Host, RuntimeOrchestrator, sync_timeout}
use zhtp.RuntimeOrchestrator.Phases.{
  ExistingNetworkInfo, Services, discover_network, discover_until, wait_for_initial_sync,
  wait_until,
}

module _ (host : Host) {Environment : Type 0} (services : Services host Environment) where
  -- A blockchain is there, or the time is over.
  abbrev pub HasWaited : ℕ → ℕ → Result Error (Unit {0}) × host.World → Type 0
  HasWaited timeout begin x =
      ((x.0 ≡ ok tt) × (0 < services.blockchain_height x.1))
      ⊎ ((x.0 ≡ err sync_timeout) × (timeout < host.now x.1 - begin))

  module _ (timeout begin : ℕ) (w : host.World) (fuel : ℕ) where
    over :
        ltb timeout (host.now w - begin) ≡ true
        → HasWaited timeout begin (wait_until host services (suc fuel) timeout begin w)
    unfolding wait_until
    over e = inr (ground (arith, e))

    there :
        ltb timeout (host.now w - begin) ≡ false
        → ltb 0 (services.blockchain_height w) ≡ true
        → HasWaited timeout begin (wait_until host services (suc fuel) timeout begin w)
    unfolding wait_until
    there e h = inl (ground (arith, e, h))

    sleeps :
        ltb timeout (host.now w - begin) ≡ false
        → ltb 0 (services.blockchain_height w) ≡ false
        → wait_until host services (suc fuel) timeout begin w
          ≡ wait_until host services fuel timeout begin (host.sleep 500 w)
    unfolding wait_until
    sleeps e h = ground (arith, e, h)

  wait_until-HasWaited :
      ((ms : ℕ) (w : host.World) → host.now w + ms ≤ host.now (host.sleep ms w))
      → (fuel timeout begin : ℕ) (w : host.World) → begin ≤ host.now w
      → timeout < host.now w - begin + fuel * 500
      → HasWaited timeout begin (wait_until host services (suc fuel) timeout begin w)
  wait_until-HasWaited clock zero timeout begin w started enough =
      elim (Bool-cases (ltb timeout (host.now w - begin))) [
        | inl e ↦ over timeout begin w zero e
        | inr e ↦ absurd (ground (arith, e, enough))
      ]
  wait_until-HasWaited clock (suc fuel) timeout begin w started enough =
      elim (Bool-cases (ltb timeout (host.now w - begin))) [
        | inl e ↦ over timeout begin w (suc fuel) e
        | inr e ↦ elim (Bool-cases (ltb 0 (services.blockchain_height w))) [
          | inl h ↦ there timeout begin w (suc fuel) e h
          | inr h ↦
              subst {A = Result Error (Unit {0}) × host.World} (HasWaited timeout begin)
                (sym (sleeps timeout begin w (suc fuel) e h))
                (wait_until-HasWaited clock fuel timeout begin (host.sleep 500 w)
                  (omega (arith, started, clock 500 w))
                  (omega (arith, started, enough, clock 500 w)))
        ]
      ]

  -- If a sleep lasts at least as long as asked for, and the fuel, less one, is more than the
  -- timeout in half seconds: wait_for_initial_sync ends. It succeeds with a block height
  -- above zero, or fails with the timeout when more than that time has passed.
  pub wait_for_initial_sync-HasWaited :
      (fuel timeout : ℕ) (r : RuntimeOrchestrator host)
      → ((ms : ℕ) (w : host.World) → host.now w + ms ≤ host.now (host.sleep ms w))
      → timeout < fuel * 500
      → let (s, result) = wait_for_initial_sync host services (suc fuel) timeout r in
        HasWaited timeout (host.now r.world) (result, s.world)
  unfolding wait_for_initial_sync
  wait_for_initial_sync-HasWaited fuel timeout r clock enough =
      wait_until-HasWaited clock fuel timeout (host.now r.world) r.world (omega arith)
        (omega (arith, enough))

  -- The world before an attempt, when those before it found nothing.
  unfoldable pub before_attempt : ℕ → host.World → host.World
  before_attempt zero w = w
  before_attempt (suc n) w = before_attempt n (host.sleep 5000 (discover_network host services w).1)

  -- The attempt with the number `k` is the first that finds a network, which is returned.
  pub record FirstFound (fuel : ℕ) (w : host.World) (k : ℕ)
      (found : ExistingNetworkInfo Environment) : Type 0 where
    pub returned : (discover_until host services fuel w).0 ≡ ok found
    pub found_then : (discover_network host services (before_attempt k w)).0 ≡ some found
    pub failed_before :
        (j : ℕ) → j < k → (discover_network host services (before_attempt j w)).0 ≡ none

  -- If one of the attempts of an edge node would find a network, those before it having
  -- failed, and the fuel is more than the number of those before it: discover_until returns
  -- the network of the first attempt that finds one, which is that attempt or one before it.
  pub discover_until-found :
      (n fuel : ℕ) (w : host.World) (info : ExistingNetworkInfo Environment)
      → n < fuel
      → (discover_network host services (before_attempt n w)).0 ≡ some info
      → (k : ℕ) × (k ≤ n) × (found : ExistingNetworkInfo Environment) × FirstFound fuel w k found
  unfolding discover_until before_attempt
  discover_until-found n zero w info lt e = absurd (omega (arith, lt))
  discover_until-found zero (suc fuel) w info lt e = (
    zero,
    omega arith,
    info,
    record {
      returned = ground (arith, e);
      found_then = e;
      failed_before = λ j l. absurd (omega (arith, l));
    },
  )
  discover_until-found (suc n) (suc fuel) w info lt e =
      elim (Option-cases (discover_network host services w).0) [
        | inr (early, s) ↦ (
          zero,
          omega arith,
          early,
          record {
            returned = ground (arith, s);
            found_then = s;
            failed_before = λ j l. absurd (omega (arith, l));
          },
        )
        | inl none_yet ↦
            let next = host.sleep 5000 (discover_network host services w).1 in
            let (k, le, found, f) = discover_until-found n fuel next info (omega (arith, lt)) e in
            (
              suc k,
              omega (arith, le),
              found,
              record {
                returned = ground (arith, none_yet, f.returned);
                found_then = f.found_then;
                failed_before = failed none_yet k f.failed_before;
              },
            )
      ]
    where
      failed :
          (discover_network host services w).0 ≡ none
          → (k : ℕ)
          → ((j : ℕ)
              → j < k
              → (discover_network host services
                  (before_attempt j (host.sleep 5000 (discover_network host services w).1))).0
                ≡ none)
          → (j : ℕ) → j < suc k
          → (discover_network host services (before_attempt j w)).0 ≡ none
      failed none_yet k h zero l = none_yet
      failed none_yet k h (suc j) l = h j (omega (arith, l))
