-- ===== src/RewardOrchestrator/Storing.antt =====
-- What a call of `start_all` of src/runtime/reward_orchestrator.rs does to the handles and the tasks
-- when it stores the handle of the task that it spawned.
use zhtp.Base.{
  ℕ, ◌≤◌, ◌≡◌, ◌≢◌, ◌⊎◌, refl, sym, ap, ◌∙◌, some, if◌then◌else◌, ◌==◌, arith, inl, inr,
  Option-cases, Bool-cases,
}
use zhtp.RewardOrchestrator.{
  Processor, RewardOrchestratorConfig, RewardOrchestrator, handle_of, is_for, store,
}
use zhtp.RewardOrchestrator.Stages.{
  IsTracked, Others, Stage, eq_of_is_for, handle_of-set_handle, held, held_apart, is_live, lose,
  lost, pending, runs, set, set_handle-Others,
}

module _ {config : RewardOrchestratorConfig} {o : RewardOrchestrator} {stages : ℕ → Stage}
    (t : IsTracked config o stages) where
  module _ (p : Processor) (n : ℕ) (e : stages n ≡ pending p) where
    not_fresh : o.spawned ≤ n → ⊥
    not_fresh le = ground (arith, e, t.fresh n le)

    not_held : (q : Processor) → stages n ≡ held q → ⊥
    not_held q h = ground (arith, e, h)

    handle-store :
        (q : Processor) → handle_of q (store p n o) ≡ (if is_for p q then some n else handle_of q o)
    unfolding store
    handle-store q = handle_of-set_handle p q (some n) o

    store-Others : Others o (store p n o)
    unfolding store
    store-Others = set_handle-Others p (some n) o

    abbrev lost_all : ℕ → Stage
    lost_all = lose p (handle_of p o) stages

    -- Another task keeps its stage, or loses its handle.
    lost_all-cases :
        (k : ℕ)
        → (handle_of p o ≡ some k) × (lost_all k ≡ lost p) × (stages k ≡ held p)
          ⊎ (handle_of p o ≢ some k) × (lost_all k ≡ stages k)
    lost_all-cases k = elim (Option-cases (handle_of p o)) [
      | inl none_there ↦ inr (λ h. ground (arith, none_there, h), rw none_there refl)
      | inr (m, there) ↦ elim (Bool-cases (m == k)) [
        | inl same ↦ inl (
          ground (arith, there, same),
          ground (arith, there, same),
          t.names p k (ground (arith, there, same)),
        )
        | inr other ↦ inr (λ h. ground (arith, there, h, other), ground (arith, there, other))
      ]
    ]

    is_live-lost_all : (q : Processor) (k : ℕ) → is_live q (lost_all k) ≡ is_live q (stages k)
    unfolding is_live
    is_live-lost_all q k = elim (lost_all-cases k) [
      | inl (_, l, h) ↦ ground (arith, l, h)
      | inr (_, same) ↦ ap (is_live q) same
    ]

    is_live-stored :
        (q : Processor) (k : ℕ) → is_live q (set n (held p) lost_all k) ≡ is_live q (stages k)
    unfolding is_live
    is_live-stored q k = elim (Bool-cases (n == k)) [
      | inl same ↦ ground (arith, same, e)
      | inr other ↦ ground (arith, other, is_live-lost_all q k)
    ]

    store-names :
        (q : Processor) (k : ℕ)
        → handle_of q (store p n o) ≡ some k
        → set n (held p) lost_all k ≡ held q
    store-names q k h = elim (Bool-cases (is_for p q)) [
      | inl for_q ↦ ground (arith, h, handle-store q, for_q, eq_of_is_for p q for_q)
      | inr not_for ↦
          let before : handle_of q o ≡ some k = ground (arith, h, handle-store q, not_for) in
          elim (Bool-cases (n == k)) [
            | inl same ↦ absurd (not_held q (ground (arith, same, t.names q k before)))
            | inr other ↦ elim (lost_all-cases k) [
              | inl (_, _, held_p) ↦
                  absurd (held_apart p q not_for (sym held_p ∙ t.names q k before))
              | inr (_, same) ↦ ground (arith, other, same, t.names q k before)
            ]
          ]
    ]

    store-named :
        (q : Processor) (k : ℕ)
        → set n (held p) lost_all k ≡ held q
        → handle_of q (store p n o) ≡ some k
    store-named q k h = elim (Bool-cases (n == k)) [
      | inl same ↦ elim (Bool-cases (is_for p q)) [
        | inl for_q ↦ ground (arith, same, handle-store q, for_q)
        | inr not_for ↦ absurd (held_apart p q not_for (ground (arith, same, h)))
      ]
      | inr other ↦ elim (lost_all-cases k) [
        | inl (_, l, _) ↦ absurd (ground (arith, other, l, h))
        | inr (not_this, same) ↦
            let before : handle_of q o ≡ some k = t.named q k (ground (arith, other, same, h)) in
            elim (Bool-cases (is_for p q)) [
              | inl for_q ↦
                  absurd (not_this (ap (λ r. handle_of r o) (eq_of_is_for p q for_q) ∙ before))
              | inr not_for ↦ ground (arith, handle-store q, not_for, before)
            ]
      ]
    ]

    pub store-IsTracked : IsTracked config (store p n o) (set n (held p) lost_all)
    store-IsTracked = record {
      running = λ q k. ap (runs q k) store-Others.tasks ∙ t.running q k ∙ sym (is_live-stored q k);
      names = store-names;
      named = store-named;
      disabled = λ q k off. is_live-stored q k ∙ t.disabled q k off;
      fresh = λ k le. elim (Bool-cases (n == k)) [
        | inl same ↦ absurd (not_fresh (ground (arith, same, le, store-Others.spawned)))
        | inr other ↦ elim (lost_all-cases k) [
          | inl (_, _, held_p) ↦
              absurd (ground (arith, held_p, t.fresh k (ground (arith, le, store-Others.spawned))))
          | inr (_, same) ↦
              ground (arith, other, same, t.fresh k (ground (arith, le, store-Others.spawned)))
        ]
      ];
      configured = store-Others.config ∙ t.configured;
    }
