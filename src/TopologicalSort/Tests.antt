-- ===== src/TopologicalSort/Tests.antt =====
-- The sort on three keys, 3 after 2 after 1.
use zhtp.Base.{ℕ, ◌≡◌, false, List, [], ◌∷◌, arith, ◌⊎◌, nat_key, if◌then◌else◌, ◌==◌}
use zhtp.Base.Lists.{contains, contains-cons}
use zhtp.TopologicalSort.{Marks, done, circular, sort}
use zhtp.TopologicalSort.Fuel.{sort_total}

abbrev chain : ℕ → List ℕ
chain x = if x == 3 then 2 ∷ [] else if x == 2 then 1 ∷ [] else []

chain-leaf : (x : ℕ) → contains x (3 ∷ 2 ∷ 1 ∷ []) ≡ false → chain x ≡ []
chain-leaf x h = ground (arith, contains-cons x 3 (2 ∷ 1 ∷ []), contains-cons x 2 (1 ∷ []))

sort_total_example :
    ((m : Marks ℕ) × (sort chain 4 (3 ∷ 2 ∷ 1 ∷ []) ≡ done m))
    ⊎ ((x : ℕ) × (sort chain 4 (3 ∷ 2 ∷ 1 ∷ []) ≡ circular x))
sort_total_example = sort_total chain (3 ∷ 2 ∷ 1 ∷ []) chain-leaf 4 (omega arith)
