-- ===== src/TopologicalSort/Fuel.antt =====
-- Fuel above the number of registered keys is enough, whatever the dependencies: the keys that
-- are being visited are distinct and registered, all but the last.
use zhtp.Base.{
  ℕ, zero, suc, ◌+◌, ◌<◌, ◌≡◌, refl, sym, ap, subst, ◌∙◌, true, false, List, [], ◌∷◌, arith,
  Bool-cases, inl, inr, ◌⊎◌, Key,
}
use zhtp.Base.Lists.{
  length, contains, contains-cons, contains-nil, Distinct, Covers, length-le_of_Covers,
}
use zhtp.TopologicalSort.{
  Marks, Visit, done, circular, out_of_fuel, no_marks, topological_sort_visit, visit_new, sort,
}
use zhtp.TopologicalSort.Sound.{IsSorted, no_marks-IsSorted, visit_new-Visited}
use zhtp.TopologicalSort.Failures.{visit_all_fails, visit_fails}

out_of_fuel-ne-done {ℓ} : {K : Type ℓ} (m : Marks K) → out_of_fuel ≡ done m → ⊥
out_of_fuel-ne-done m h = cc

circular-ne-out_of_fuel {ℓ} : {K : Type ℓ} {x : K} → circular x ≡ out_of_fuel → ⊥
circular-ne-out_of_fuel h = cc

module _ {ℓ} {K : Type ℓ} ⦃k : Key K⦄ (deps : K → List K) (registered : List K)
    (leaf : (x : K) → contains x registered ≡ false → deps x ≡ []) where
  has_dependency : (x d : K) → contains d (deps x) ≡ true → contains x registered ≡ true
  has_dependency x d h = elim (Bool-cases (contains x registered)) [
    | inl r ↦ r
    | inr u ↦ absurd (no_dependency (ap (contains d) (leaf x u)))
  ]
    where
      no_dependency : contains d (deps x) ≡ contains d [] → ⊥
      no_dependency e = ground (arith, contains-nil d)

  visit_fuel :
      (fuel : ℕ) (x : K) (m : Marks K)
      → IsSorted deps m
      → Distinct m.temp_visited
      → Covers registered m.temp_visited
      → length registered < fuel + length m.temp_visited
      → topological_sort_visit deps fuel x m ≡ out_of_fuel
      → ⊥
  unfolding topological_sort_visit
  visit_fuel zero x m s d c n h = omega (arith, length-le_of_Covers m.temp_visited registered d c)
  visit_fuel (suc fuel) x m s d c n h = elim (Bool-cases (contains x m.temp_visited)) [
    | inl again ↦ circular-ne-out_of_fuel (rw again at h)
    | inr free ↦
        let f = visit_fails deps fuel x m s out_of_fuel-ne-done free h in
        let here = has_dependency x f.key f.listed in
        visit_fuel fuel f.key f.marks f.sorted (subst Distinct (sym f.temp) (free, d))
          (subst (Covers registered) (sym f.temp) (covers here))
          (subst (λ t. length registered < fuel + length t) (sym f.temp) (omega arith)) f.failed
  ]
    where
      covers : contains x registered ≡ true → Covers registered (x ∷ m.temp_visited)
      covers here y p = elim (k.dec y x) [
        | yes e ↦ ap (λ z. contains z registered) e ∙ here
        | no n ↦ c y (ground (arith, contains-cons y x m.temp_visited))
      ]

  sort-ne-out_of_fuel :
      (fuel : ℕ) → length registered < fuel → sort deps fuel registered ≡ out_of_fuel → ⊥
  unfolding sort visit_new
  sort-ne-out_of_fuel fuel n h =
      let f =
        visit_all_fails deps _ (visit_new-Visited deps fuel) registered no_marks
          (no_marks-IsSorted deps) out_of_fuel-ne-done h in
      elim (Bool-cases (contains f.key f.marks.visited)) [
        | inl old ↦ out_of_fuel-ne-done f.marks (sym (rw (old, visit_new) at f.failed))
        | inr new ↦
            visit_fuel fuel f.key f.marks f.sorted (subst Distinct (sym f.temp) tt)
              (subst (Covers registered) (sym f.temp) (λ y p. nothing y p))
              (subst (λ t. length registered < fuel + length t) (sym f.temp) (omega arith))
              (rw (new, visit_new) at f.failed)
      ]
    where
      nothing : (y : K) → contains y [] ≡ true → contains y registered ≡ true
      nothing y p = ground (arith, contains-nil y)

  -- If keys that are not registered have no dependencies, then with fuel above the number of
  -- registered keys the sort ends: in an order, or in the report of a circular dependency.
  pub sort_total :
      (fuel : ℕ)
      → length registered < fuel
      → ((m : Marks K) × (sort deps fuel registered ≡ done m))
        ⊎ ((x : K) × (sort deps fuel registered ≡ circular x))
  sort_total fuel n = go (sort deps fuel registered) refl
    where
      go :
          (r : Visit K)
          → sort deps fuel registered ≡ r
          → ((m : Marks K) × (sort deps fuel registered ≡ done m))
            ⊎ ((x : K) × (sort deps fuel registered ≡ circular x))
      go (done m) e = inl (m, e)
      go (circular x) e = inr (x, e)
      go out_of_fuel e = absurd (sort-ne-out_of_fuel fuel n e)
