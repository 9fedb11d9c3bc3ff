-- ===== src/RewardOrchestrator/Stages.antt =====
-- The tasks of the orchestrator of src/runtime/reward_orchestrator.rs when calls of `start_all` and
-- `stop_all` overlap: the steps of the calls, and what has become of each task.
use zhtp.Base.{
  ℕ, ◌≤◌, ◌≡◌, refl, sym, ◌∙◌, Bool, true, false, ◌&&◌, ◌||◌, not, Option, none, some, List, [],
  ◌∷◌, if◌then◌else◌, ◌==◌, arith, true-ne-false,
}
use zhtp.RewardOrchestrator.{
  Processor, routing, storage, Task, RewardOrchestratorConfig, RewardOrchestrator, with_config,
  handle_of, set_handle, is_enabled, is_for, spawn, store, stop, abort,
}

-- Whether the task with a number runs, for the processor.
unfoldable pub runs : Processor → ℕ → List Task → Bool
runs p n [] = false
runs p n ((k, q) ∷ tasks) = let rest = runs p n tasks in k == n && is_for q p || rest

-- What has become of the task with a number: not spawned yet, spawned by a call that has not stored
-- its handle, named by the handle, no longer named since another call has stored its own, or aborted.
pub data Stage : Type 0 where
  unborn aborted : Stage
  pending held lost : Processor → Stage

abbrev pub set : ℕ → Stage → (ℕ → Stage) → ℕ → Stage
set n x stages k = if n == k then x else stages k

-- `lost` for the task that a handle names
abbrev pub lose : Processor → Option ℕ → (ℕ → Stage) → ℕ → Stage
lose p none stages = stages
lose p (some n) stages = set n (lost p) stages

abbrev pub retire : Option ℕ → (ℕ → Stage) → ℕ → Stage
retire none stages = stages
retire (some n) stages = set n aborted stages

-- The orchestrators and tasks that overlapping calls of `start_all` and `stop_all` lead to, step by
-- step. A call may have read at any earlier moment, the creation among them, that there is no handle,
-- so that an enabled processor may be spawned at any time.
pub data Reachable (config : RewardOrchestratorConfig)
    : RewardOrchestrator → (ℕ → Stage) → Type 0 where
  created : Reachable config (with_config config) (λ n. unborn)
  spawned :
      {o : RewardOrchestrator} {stages : ℕ → Stage} (p : Processor)
      → Reachable config o stages
      → is_enabled p o.config ≡ true
      → Reachable config (spawn p o) (set o.spawned (pending p) stages)
  stored :
      {o : RewardOrchestrator} {stages : ℕ → Stage} (p : Processor) (n : ℕ)
      → Reachable config o stages
      → stages n ≡ pending p
      → Reachable config (store p n o) (set n (held p) (lose p (handle_of p o) stages))
  stopped :
      {o : RewardOrchestrator} {stages : ℕ → Stage} (p : Processor)
      → Reachable config o stages
      → Reachable config (stop p o) (retire (handle_of p o) stages)

-- Whether a task at this stage runs, for the processor.
unfoldable pub is_live : Processor → Stage → Bool
is_live p unborn = false
is_live p aborted = false
is_live p (pending q) = is_for q p
is_live p (held q) = is_for q p
is_live p (lost q) = is_for q p

-- A task of a processor runs exactly while it is pending, held or lost, the handle names the task
-- that is held, and a processor that is not enabled has no task.
pub record IsTracked (config : RewardOrchestratorConfig) (o : RewardOrchestrator)
    (stages : ℕ → Stage) : Type 0 where
  pub running : (p : Processor) (n : ℕ) → runs p n o.tasks ≡ is_live p (stages n)
  pub names : (p : Processor) (n : ℕ) → handle_of p o ≡ some n → stages n ≡ held p
  pub named : (p : Processor) (n : ℕ) → stages n ≡ held p → handle_of p o ≡ some n
  pub disabled :
      (p : Processor) (n : ℕ) → is_enabled p config ≡ false → is_live p (stages n) ≡ false
  pub fresh : (n : ℕ) → o.spawned ≤ n → stages n ≡ unborn
  pub configured : o.config ≡ config

pub runs-abort :
    (p : Processor) (n m : ℕ) (tasks : List Task)
    → runs p n (abort m tasks) ≡ (not (m == n) && runs p n tasks)
unfolding runs abort
runs-abort p n m [] = ground arith
runs-abort p n m ((k, q) ∷ tasks) = ground (arith, runs-abort p n m tasks)

pub handle_of-set_handle :
    (p q : Processor) (handle : Option ℕ) (o : RewardOrchestrator)
    → handle_of q (set_handle p handle o) ≡ (if is_for p q then handle else handle_of q o)
unfolding handle_of set_handle is_for
handle_of-set_handle routing routing handle o = refl
handle_of-set_handle routing storage handle o = refl
handle_of-set_handle storage routing handle o = refl
handle_of-set_handle storage storage handle o = refl

-- `set_handle` writes nothing else.
pub record Others (o o' : RewardOrchestrator) : Type 0 where
  pub tasks : o'.tasks ≡ o.tasks
  pub config : o'.config ≡ o.config
  pub spawned : o'.spawned ≡ o.spawned

pub set_handle-Others :
    (p : Processor) (handle : Option ℕ) (o : RewardOrchestrator) → Others o (set_handle p handle o)
unfolding set_handle
set_handle-Others routing handle o = record { tasks = refl; config = refl; spawned = refl }
set_handle-Others storage handle o = record { tasks = refl; config = refl; spawned = refl }

pub is_for_refl : (p : Processor) → is_for p p ≡ true
unfolding is_for
is_for_refl routing = refl
is_for_refl storage = refl

pub eq_of_is_for : (p q : Processor) → is_for p q ≡ true → p ≡ q
unfolding is_for
eq_of_is_for routing routing e = refl
eq_of_is_for routing storage e = absurd (true-ne-false (sym e))
eq_of_is_for storage routing e = absurd (true-ne-false (sym e))
eq_of_is_for storage storage e = refl

pub held_apart : (p q : Processor) → is_for p q ≡ false → held p ≡ held q → ⊥
held_apart routing storage e h = cc
held_apart storage routing e h = cc
held_apart routing routing e h = true-ne-false (sym (is_for_refl routing) ∙ e)
held_apart storage storage e h = true-ne-false (sym (is_for_refl storage) ∙ e)

pub with_config-IsTracked :
    (config : RewardOrchestratorConfig) → IsTracked config (with_config config) (λ n. unborn)
unfolding with_config runs is_live handle_of
with_config-IsTracked config = record {
  running = λ p n. refl;
  names = λ p n e. absurd (no_handle p n e);
  named = λ p n e. absurd (cc);
  disabled = λ p n e. refl;
  fresh = λ n le. refl;
  configured = refl;
}
  where
    no_handle : (p : Processor) (n : ℕ) → handle_of p (with_config config) ≡ some n → ⊥
    no_handle routing n e = cc
    no_handle storage n e = cc
