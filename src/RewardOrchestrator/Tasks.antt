-- ===== src/RewardOrchestrator/Tasks.antt =====
-- How the handles of the orchestrator and the tasks that run stand to each other after any steps of
-- `start_all` and `stop_all` of src/runtime/reward_orchestrator.rs.
use zhtp.Base.{
  ℕ, ◌<◌, ◌≡◌, refl, sym, ap, ◌∙◌, true, false, ◌&&◌, not, none, some, if◌then◌else◌, ◌==◌, arith,
  inl, inr, Option-cases, Bool-cases, true-ne-false,
}
use zhtp.RewardOrchestrator.{
  Processor, routing, storage, RewardOrchestratorConfig, RewardOrchestrator, abort, handle_of,
  interval_of, is_enabled, is_for, set_handle, spawn, start, start_all, stop,
}
use zhtp.RewardOrchestrator.Stages.{
  IsTracked, Reachable, Stage, aborted, created, eq_of_is_for, handle_of-set_handle, held,
  held_apart, is_live, pending, retire, runs, runs-abort, set, set_handle-Others, spawned, stopped,
  stored, with_config-IsTracked,
}
use zhtp.RewardOrchestrator.Storing.{store-IsTracked}

module _ {config : RewardOrchestratorConfig} (positive : (p : Processor) → 0 < interval_of p config)
    {o : RewardOrchestrator} {stages : ℕ → Stage} (t : IsTracked config o stages) where
  spawn-IsTracked :
      (p : Processor)
      → is_enabled p o.config ≡ true
      → IsTracked config (spawn p o) (set o.spawned (pending p) stages)
  unfolding spawn runs is_live handle_of
  spawn-IsTracked p on = record {
    running = λ q n. elim (Bool-cases (o.spawned == n)) [
      | inl e ↦ ground (arith, e, t.running q n, t.fresh n, positive p, t.configured, some_interval)
      | inr e ↦ ground (arith, e, t.running q n, some_interval)
    ];
    names = λ q n e. ground (arith, t.names q n (unspawned q e), t.fresh n);
    named = λ q n e. same_handle q ∙ t.named q n (ground (arith, e));
    disabled = λ q n off. elim (Bool-cases (o.spawned == n)) [
      | inl e ↦ ground (arith, e, enabled_apart q off)
      | inr e ↦ ground (arith, e, t.disabled q n off)
    ];
    fresh = λ n le. ground (arith, t.fresh n, le);
    configured = t.configured;
  }
    where
      some_interval : (interval_of p o.config == 0) ≡ false
      some_interval = ground (arith, positive p, ap (interval_of p) t.configured)

      same_handle : (q : Processor) → handle_of q (spawn p o) ≡ handle_of q o
      same_handle routing = refl
      same_handle storage = refl

      unspawned :
          (q : Processor) {n : ℕ} → handle_of q (spawn p o) ≡ some n → handle_of q o ≡ some n
      unspawned q e = sym (same_handle q) ∙ e

      enabled_apart : (q : Processor) → is_enabled q config ≡ false → is_for p q ≡ false
      enabled_apart q off = elim (Bool-cases (is_for p q)) [
        | inr e ↦ e
        | inl e ↦ absurd (
            true-ne-false (
              sym on
              ∙ ap (is_enabled p) t.configured
              ∙ ap (λ r. is_enabled r config) (eq_of_is_for p q e)
              ∙ off))
      ]

  module _ (p : Processor) (m : ℕ) (there : handle_of p o ≡ some m) where
    abbrev stopped_one : RewardOrchestrator
    stopped_one = record (set_handle p none o) { tasks = abort m o.tasks }

    handle_of-stopped_one :
        (q : Processor) → handle_of q stopped_one ≡ (if is_for p q then none else handle_of q o)
    unfolding handle_of
    handle_of-stopped_one q = sym (same_handle q) ∙ handle_of-set_handle p q none o
      where
        same_handle : (r : Processor) → handle_of r (set_handle p none o) ≡ handle_of r stopped_one
        same_handle routing = refl
        same_handle storage = refl

    stop_one-names :
        (q : Processor) (k : ℕ) → handle_of q stopped_one ≡ some k → set m aborted stages k ≡ held q
    stop_one-names q k h = elim (Bool-cases (is_for p q)) [
      | inl for_q ↦ absurd (ground (arith, for_q, h, handle_of-stopped_one q))
      | inr not_for ↦
          let before : handle_of q o ≡ some k =
            ground (arith, h, handle_of-stopped_one q, not_for) in
          elim (Bool-cases (m == k)) [
            | inl same ↦ absurd (
                held_apart p q not_for
                  (sym (t.names p k (ground (arith, there, same))) ∙ t.names q k before))
            | inr other ↦ ground (arith, other, t.names q k before)
          ]
    ]

    stop_one-named :
        (q : Processor) (k : ℕ) → set m aborted stages k ≡ held q → handle_of q stopped_one ≡ some k
    stop_one-named q k h = elim (Bool-cases (m == k)) [
      | inl same ↦ absurd (ground (arith, same, h))
      | inr other ↦
          let before : handle_of q o ≡ some k = t.named q k (ground (arith, other, h)) in
          elim (Bool-cases (is_for p q)) [
            | inl for_q ↦ absurd (
                ground
                  (arith, other, there, ap (λ r. handle_of r o) (eq_of_is_for p q for_q) ∙ before))
            | inr not_for ↦ ground (arith, handle_of-stopped_one q, not_for, before)
          ]
    ]

    is_live-stop_one :
        (q : Processor) (k : ℕ)
        → is_live q (set m aborted stages k) ≡ (not (m == k) && is_live q (stages k))
    unfolding is_live
    is_live-stop_one q k = elim (Bool-cases (m == k)) [
      | inl same ↦ ground (arith, same)
      | inr other ↦ ground (arith, other)
    ]

    stop_one-IsTracked : IsTracked config stopped_one (set m aborted stages)
    stop_one-IsTracked =
        let others = set_handle-Others p none o in
        record {
          running =
              λ q k. ground (arith, runs-abort q k m o.tasks, t.running q k, is_live-stop_one q k);
          names = stop_one-names;
          named = stop_one-named;
          disabled = λ q k off. ground (arith, is_live-stop_one q k, t.disabled q k off);
          fresh = λ k le. elim (Bool-cases (m == k)) [
            | inl same ↦ absurd (
                ground (
                  arith,
                  t.names p k (ground (arith, there, same)),
                  t.fresh k (ground (arith, le, others.spawned)),
                ))
            | inr other ↦ ground (arith, other, t.fresh k (ground (arith, le, others.spawned)))
          ];
          configured = others.config ∙ t.configured;
        }

  stop-IsTracked : (p : Processor) → IsTracked config (stop p o) (retire (handle_of p o) stages)
  unfolding stop
  stop-IsTracked p = elim (Option-cases (handle_of p o)) [
    | inl e ↦ rw (e, stop) t
    | inr (m, e) ↦ rw (e, stop) (stop_one-IsTracked p m e)
  ]

-- With check intervals above zero, after the steps of any calls of start_all and stop_all, also
-- of calls that overlap: a task of a processor runs exactly if the call that spawned it has not
-- stored its handle yet, the handle names it, or it was named until another call stored its own
-- handle; the handle names no other task, and a processor that is not enabled has no task.
pub Reachable-IsTracked :
    {config : RewardOrchestratorConfig} {o : RewardOrchestrator} {stages : ℕ → Stage}
    → ((p : Processor) → 0 < interval_of p config)
    → Reachable config o stages
    → IsTracked config o stages
Reachable-IsTracked {config} positive created = with_config-IsTracked config
Reachable-IsTracked positive (spawned p r on) =
    spawn-IsTracked positive (Reachable-IsTracked positive r) p on
Reachable-IsTracked positive (stored p n r e) =
    store-IsTracked (Reachable-IsTracked positive r) p n e
Reachable-IsTracked positive (stopped p r) =
    stop-IsTracked positive (Reachable-IsTracked positive r) p

module _ {config : RewardOrchestratorConfig} where
  start-Reachable :
      {o : RewardOrchestrator} {stages : ℕ → Stage} (p : Processor)
      → Reachable config o stages
      → is_enabled p o.config ≡ true
      → (stages' : ℕ → Stage) × Reachable config (start p o) stages'
  unfolding start
  start-Reachable {o} {stages} p r on = elim (Option-cases (handle_of p o)) [
    | inr (n, e) ↦ rw (e, start) (stages, r)
    | inl e ↦ rw (e, start) (_, stored p o.spawned (spawned p r on) (ground arith))
  ]

  -- A start_all with no call between its steps is one of the ways to go.
  pub start_all-Reachable :
      {o : RewardOrchestrator} {stages : ℕ → Stage}
      → Reachable config o stages
      → (stages' : ℕ → Stage) × Reachable config (start_all o) stages'
  unfolding start_all
  start_all-Reachable {o} {stages} r = elim (Bool-cases (is_enabled routing o.config)) [
    | inl e ↦
        let (stages₁, r₁) = start-Reachable routing r e in
        elim (Bool-cases (is_enabled storage (start routing o).config)) [
          | inl f ↦ rw (e, f) (start-Reachable storage r₁ f)
          | inr f ↦ rw (e, f) (stages₁, r₁)
        ]
    | inr e ↦ elim (Bool-cases (is_enabled storage o.config)) [
      | inl f ↦ rw (e, f) (start-Reachable storage r f)
      | inr f ↦ rw (e, f) (stages, r)
    ]
  ]
