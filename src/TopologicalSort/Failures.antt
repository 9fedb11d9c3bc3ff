-- ===== src/TopologicalSort/Failures.antt =====
-- Where a failure comes from: a visit of several keys fails by the visit of one of them, and a
-- visit of one key that got past its two tests fails by the visit of a dependency.
use zhtp.Base.{
  ℕ, suc, ◌≡◌, refl, sym, ◌∙◌, true, false, List, [], ◌∷◌, arith, Bool-cases, inl, inr, ◌⊎◌, Key,
}
use zhtp.Base.Lists.{contains, contains-cons}
use zhtp.TopologicalSort.{
  Marks, Visit, done, circular, out_of_fuel, ◌>>=◌, visit_all, enter, leave, topological_sort_visit,
}
use zhtp.TopologicalSort.Sound.{IsSorted, Sound, visit-Visited}

-- The result of a visit that did not succeed.
abbrev pub IsFailure {ℓ} : {K : Type ℓ} → Visit K → Type ℓ
IsFailure {K} r = (m : Marks K) → r ≡ done m → ⊥

>>=-fails {ℓ} :
    {K : Type ℓ} (v : Visit K) (f : Marks K → Visit K) {r : Visit K}
    → IsFailure r
    → (v >>= f) ≡ r
    → (v ≡ r) ⊎ ((m : Marks K) × (v ≡ done m) × (f m ≡ r))
>>=-fails (done m) f bad h = inr (m, refl, h)
>>=-fails (circular x) f bad h = inl h
>>=-fails out_of_fuel f bad h = inl h

module _ {ℓ} {K : Type ℓ} ⦃k : Key K⦄ (deps : K → List K) where
  -- The visit of `key`, a member of `xs`, failed with `r`.
  pub record Culprit (visit_one : K → Marks K → Visit K) (xs : List K) (m : Marks K) (r : Visit K)
      : Type ℓ where
    pub key : K
    pub marks : Marks K
    pub listed : contains key xs ≡ true
    pub sorted : IsSorted deps marks
    pub temp : marks.temp_visited ≡ m.temp_visited
    pub failed : visit_one key marks ≡ r

  pub visit_all_fails :
      (visit_one : K → Marks K → Visit K)
      → Sound deps visit_one
      → (xs : List K) (m : Marks K) {r : Visit K} → IsSorted deps m
      → IsFailure r
      → visit_all visit_one xs m ≡ r
      → Culprit visit_one xs m r
  unfolding visit_all
  visit_all_fails v sound [] m s bad h = absurd (bad m (sym h))
  visit_all_fails v sound (x ∷ xs) m s bad h = elim (>>=-fails (v x m) (visit_all v xs) bad h) [
    | inl here ↦ record {
      key = x;
      marks = m;
      listed = ground (arith, contains-cons x x xs);
      sorted = s;
      temp = refl;
      failed = here;
    }
    | inr (m', first, rest) ↦
        let w = sound x m m' s first in
        let c = visit_all_fails v sound xs m' w.sorted bad rest in
        record {
          key = c.key;
          marks = c.marks;
          listed = ground (arith, contains-cons c.key x xs, c.listed);
          sorted = c.sorted;
          temp = c.temp ∙ w.temp;
          failed = c.failed;
        }
  ]

  pub visit_fails :
      (fuel : ℕ) (x : K) (m : Marks K) {r : Visit K}
      → IsSorted deps m
      → IsFailure r
      → contains x m.temp_visited ≡ false
      → topological_sort_visit deps (suc fuel) x m ≡ r
      → Culprit (topological_sort_visit deps fuel) (deps x) (enter x m) r
  unfolding topological_sort_visit
  visit_fails fuel x m s bad free h = elim (Bool-cases (contains x m.visited)) [
    | inl old ↦ absurd (bad m (sym (rw (free, old) at h)))
    | inr new ↦ elim (>>=-fails _ (λ m₁. done (leave x m₁)) bad (rw (free, new) at h)) [
      | inl below ↦
          visit_all_fails _ (visit-Visited deps fuel) (deps x) (enter x m)
            (record { ordered = s.ordered; listed = s.listed }) bad below
      | inr (m', below, left) ↦ absurd (bad (leave x m') (sym left))
    ]
  ]
