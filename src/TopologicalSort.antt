-- ===== src/TopologicalSort.antt =====
-- The depth-first sort that src/integration/component_manager.rs and
-- src/integration/dependency_injection.rs both write out: `topological_sort_visit` and the loop
-- of `update_startup_order` and `update_initialization_order`. `deps x` is the list of
-- dependencies of `x`, empty if `x` is not registered. The recursion takes fuel.
pub mod Sound
pub mod Failures
pub mod Cycles
pub mod Fuel
mod Tests
use zhtp.Base.{ℕ, zero, suc, List, [], ◌∷◌, ◌++◌, if◌then◌else◌, Key}
use zhtp.Base.Lists.{contains, remove}

-- The three mutable collections that the recursion is handed.
pub record Marks {ℓ} (K : Type ℓ) : Type ℓ where
  pub visited : List K
  pub temp_visited : List K
  pub order : List K

pub data Visit {ℓ} (K : Type ℓ) : Type ℓ where
  done : Marks K → Visit K
  circular : K → Visit K
  out_of_fuel : Visit K

-- The operator `?`.
infixl 5 ◌>>=◌
abbrev pub ◌>>=◌ {ℓ} : {K : Type ℓ} → Visit K → (Marks K → Visit K) → Visit K
done m >>= f = f m
circular x >>= f = circular x
out_of_fuel >>= f = out_of_fuel

abbrev pub no_marks {ℓ} : {K : Type ℓ} → Marks K
no_marks = record { visited = []; temp_visited = []; order = [] }

-- `for dep_id in &registration.dependencies`
pub visit_all {ℓ} : {K : Type ℓ} → (K → Marks K → Visit K) → List K → Marks K → Visit K
visit_all visit_one [] m = done m
visit_all visit_one (x ∷ xs) m = do m' ← visit_one x m; visit_all visit_one xs m'

module _ {ℓ} {K : Type ℓ} ⦃k : Key K⦄ where
  abbrev pub enter : K → Marks K → Marks K
  enter x m = record m { temp_visited = x ∷ m.temp_visited }

  abbrev pub leave : K → Marks K → Marks K
  leave x m = record m {
    temp_visited = remove x m.temp_visited;
    visited = x ∷ m.visited;
    order = m.order ++ x ∷ [];
  }

  module _ (deps : K → List K) where
    pub topological_sort_visit : ℕ → K → Marks K → Visit K
    topological_sort_visit zero x m = out_of_fuel
    topological_sort_visit (suc fuel) x m =
        let below = visit_all (topological_sort_visit fuel) (deps x) (enter x m) in
        let after = (do m' ← below; done (leave x m')) in
        if contains x m.temp_visited
        then circular x
        else if contains x m.visited
        then done m
        else after

    pub visit_new : ℕ → K → Marks K → Visit K
    visit_new fuel x m = if contains x m.visited then done m else topological_sort_visit fuel x m

    -- `for component_id in components.keys()`
    pub sort : ℕ → List K → Visit K
    sort fuel registered = visit_all (visit_new fuel) registered no_marks
