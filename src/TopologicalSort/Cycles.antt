-- ===== src/TopologicalSort/Cycles.antt =====
-- A sort reports a circular dependency exactly when there is one.
use zhtp.Base.{
  ℕ, zero, suc, ◌≡◌, sym, ap, subst, ◌∙◌, true, false, List, [], ◌∷◌, arith, Bool-cases, inl, inr,
  Key,
}
use zhtp.Base.Lists.{contains, contains-cons, contains-nil, All, All-map, All-contains}
use zhtp.TopologicalSort.{Marks, done, circular, no_marks, topological_sort_visit, visit_new, sort}
use zhtp.TopologicalSort.Sound.{
  IsSorted, DependenciesFirst, circular-ne-done, no_marks-IsSorted, visit_new-Visited,
  sort-DependenciesFirst,
}
use zhtp.TopologicalSort.Failures.{visit_all_fails, visit_fails}

-- `Leads x y`: `y` is a dependency of `x`, or of a dependency, and so on.
pub data Leads {ℓ} {K : Type ℓ} ⦃k : Key K⦄ (deps : K → List K) (x : K) : K → Type ℓ where
  direct : {y : K} → contains y (deps x) ≡ true → Leads deps x y
  through : {y z : K} → Leads deps x y → contains z (deps y) ≡ true → Leads deps x z

false-ne-true : false ≡ true → ⊥
false-ne-true h = cc

module _ {ℓ} {K : Type ℓ} ⦃k : Key K⦄ (deps : K → List K) where
  circular-injective : {x y : K} → circular x ≡ circular y → x ≡ y
  circular-injective h = cc

  extend :
      (x d y : K) (temp : List K)
      → ((z : K) → contains z temp ≡ true → Leads deps z x)
      → contains d (deps x) ≡ true
      → contains y (x ∷ temp) ≡ true
      → Leads deps y d
  extend x d y temp path edge h = elim (k.dec y x) [
    | yes e ↦ subst (λ z. Leads deps z d) (sym e) (direct edge)
    | no n ↦ through (path y (ground (arith, contains-cons y x temp))) edge
  ]

  visit-circular :
      (fuel : ℕ) (x : K) (m : Marks K) (c : K)
      → IsSorted deps m
      → ((y : K) → contains y m.temp_visited ≡ true → Leads deps y x)
      → topological_sort_visit deps fuel x m ≡ circular c
      → Leads deps c c
  unfolding topological_sort_visit
  visit-circular zero x m c s path h = cc
  visit-circular (suc fuel) x m c s path h = elim (Bool-cases (contains x m.temp_visited)) [
    | inl again ↦
        let e : x ≡ c = circular-injective (rw again at h) in
        subst (λ z. Leads deps z z) e (path x again)
    | inr free ↦
        let f = visit_fails deps fuel x m s (λ m' e. circular-ne-done e) free h in
        visit-circular fuel f.key f.marks c f.sorted
          (λ y p. extend x f.key y m.temp_visited path f.listed (sym (ap (contains y) f.temp) ∙ p))
          f.failed
  ]

  -- A sort that fails names a key that depends on itself, directly or through others.
  pub sort-circular :
      (fuel : ℕ) (registered : List K) {c : K}
      → sort deps fuel registered ≡ circular c
      → Leads deps c c
  unfolding sort visit_new
  sort-circular fuel registered {c} h =
      let f =
        visit_all_fails deps _ (visit_new-Visited deps fuel) registered no_marks
          (no_marks-IsSorted deps) (λ m' e. circular-ne-done e) h in
      elim (Bool-cases (contains f.key f.marks.visited)) [
        | inl old ↦ absurd (circular-ne-done (sym (rw (old, visit_new) at f.failed)))
        | inr new ↦
            visit-circular fuel f.key f.marks c f.sorted
              (λ y p.
                absurd (false-ne-true (sym (contains-nil y) ∙ sym (ap (contains y) f.temp) ∙ p)))
              (rw (new, visit_new) at f.failed)
      ]

  -- Everything that a key of `before` depends on is in `before`.
  abbrev IsClosed : List K → Type ℓ
  IsClosed before =
      (x y : K) → contains x before ≡ true → contains y (deps x) ≡ true → contains y before ≡ true

  IsClosed-cons :
      (before : List K) (x : K)
      → IsClosed before
      → All (λ d. contains d before ≡ true) (deps x)
      → IsClosed (x ∷ before)
  IsClosed-cons before x closed h y z p q = elim (k.dec y x) [
    | yes e ↦ ground (
      arith,
      contains-cons z x before,
      All-contains _ (deps x) z h (ap (λ w. contains z (deps w)) (sym e) ∙ q),
    )
    | no n ↦ ground (arith, contains-cons z x before, contains-cons y x before, closed y z)
  ]

  Leads-closed :
      (before : List K) (x : K)
      → IsClosed before
      → All (λ d. contains d before ≡ true) (deps x)
      → {y : K} → Leads deps x y
      → contains y before ≡ true
  Leads-closed before x closed h (direct {y} e) = All-contains _ (deps x) y h e
  Leads-closed before x closed h (through {y} {z} l e) =
      closed y z (Leads-closed before x closed h l) e

  DependenciesFirst-acyclic :
      (before xs : List K)
      → DependenciesFirst deps before xs
      → IsClosed before
      → (x : K) → contains x xs ≡ true
      → Leads deps x x
      → ⊥
  DependenciesFirst-acyclic before [] o closed x h l =
      absurd (false-ne-true (sym (contains-nil x) ∙ h))
  DependenciesFirst-acyclic before (y ∷ xs) (ds, fresh, o) closed x h l = elim (k.dec x y) [
    | yes e ↦
        false-ne-true
          (sym fresh ∙ Leads-closed before y closed ds (subst (λ z. Leads deps z z) e l))
    | no n ↦
        DependenciesFirst-acyclic (y ∷ before) xs o (IsClosed-cons before y closed ds) x
          (ground (arith, contains-cons x y xs)) l
  ]

  -- After a sort that succeeds no registered key depends on itself, directly or through others.
  pub sort-acyclic :
      (fuel : ℕ) (registered : List K) {m : Marks K}
      → sort deps fuel registered ≡ done m
      → All (λ x. ¬ Leads deps x x) registered
  sort-acyclic fuel registered {m} h =
      let (first, listed) = sort-DependenciesFirst deps fuel registered h in
      All-map
        (λ x p.
          DependenciesFirst-acyclic [] m.order first
            (λ y z q r. absurd (false-ne-true (sym (contains-nil y) ∙ q))) x p)
        registered listed
