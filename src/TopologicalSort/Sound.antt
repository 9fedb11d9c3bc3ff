-- ===== src/TopologicalSort/Sound.antt =====
-- A sort that succeeds lists each key once, behind all its dependencies.
use zhtp.Base.{
  ℕ, zero, suc, ◌≡◌, refl, sym, ap, subst, ◌∙◌, true, false, ◌||◌, List, [], ◌∷◌, ◌++◌, arith,
  Bool-cases, inl, inr, Key,
}
use zhtp.Base.Lists.{
  contains, remove, contains-cons, contains-nil, contains-concat, remove-cons_self, All, All-map,
}
use zhtp.TopologicalSort.{
  Marks, Visit, done, circular, out_of_fuel, ◌>>=◌, no_marks, visit_all, enter, leave,
  topological_sort_visit, visit_new, sort,
}

pub >>=-eq-done {ℓ} :
    {K : Type ℓ} (v : Visit K) (f : Marks K → Visit K) {m : Marks K}
    → (v >>= f) ≡ done m
    → (m' : Marks K) × (v ≡ done m') × (f m' ≡ done m)
>>=-eq-done (done m') f h = (m', refl, h)
>>=-eq-done (circular x) f h = cc
>>=-eq-done out_of_fuel f h = cc

pub done-injective {ℓ} : {K : Type ℓ} {m m' : Marks K} → done m ≡ done m' → m ≡ m'
done-injective h = cc

pub circular-ne-done {ℓ} : {K : Type ℓ} {x : K} {m : Marks K} → circular x ≡ done m → ⊥
circular-ne-done h = cc

module _ {ℓ} {K : Type ℓ} ⦃k : Key K⦄ (deps : K → List K) where
  -- Each key of the list stands behind its dependencies and stands there once; `before` holds
  -- the keys in front of the list.
  abbrev pub DependenciesFirst : List K → List K → Type 0
  DependenciesFirst before [] = Unit
  DependenciesFirst before (x ∷ xs) =
      All (λ d. contains d before ≡ true) (deps x)
      × (contains x before ≡ false)
      × DependenciesFirst (x ∷ before) xs

  move_front :
      (before xs : List K) (y d : K)
      → (contains d before || contains d (y ∷ xs)) ≡ (contains d (y ∷ before) || contains d xs)
  move_front before xs y d = ground (arith, contains-cons d y xs, contains-cons d y before)

  DependenciesFirst-concat :
      (before xs : List K) (x : K)
      → DependenciesFirst before xs
      → All (λ d. (contains d before || contains d xs) ≡ true) (deps x)
      → (contains x before || contains x xs) ≡ false
      → DependenciesFirst before (xs ++ x ∷ [])
  DependenciesFirst-concat before [] x o h fresh = (
    All-map (λ d p. ground (arith, contains-nil d)) (deps x) h,
    ground (arith, contains-nil x),
    tt,
  )
  DependenciesFirst-concat before (y ∷ xs) x (p, q, o) h fresh = (
    p,
    q,
    DependenciesFirst-concat (y ∷ before) xs x o
        (All-map (λ d e. sym (move_front before xs y d) ∙ e) (deps x) h)
        (sym (move_front before xs y x) ∙ fresh),
  )

  pub record IsSorted (m : Marks K) : Type ℓ where
    pub ordered : DependenciesFirst [] m.order
    pub listed : (y : K) → contains y m.visited ≡ contains y m.order

  -- What a visit of the keys `xs` leaves behind.
  pub record Visited (xs : List K) (m m' : Marks K) : Type ℓ where
    pub sorted : IsSorted m'
    pub temp : m'.temp_visited ≡ m.temp_visited
    pub has : All (λ x. contains x m'.visited ≡ true) xs
    pub grows : (y : K) → contains y m.visited ≡ true → contains y m'.visited ≡ true
    pub keeps :
        (y : K) → contains y m.temp_visited ≡ true → contains y m'.visited ≡ contains y m.visited

  Visited-nil : (m : Marks K) → IsSorted m → Visited [] m m
  Visited-nil m s = record {
    sorted = s;
    temp = refl;
    has = tt;
    grows = λ y h. h;
    keeps = λ y h. refl;
  }

  Visited-cons :
      (x : K) (xs : List K) (m m' m'' : Marks K)
      → Visited (x ∷ []) m m'
      → Visited xs m' m''
      → Visited (x ∷ xs) m m''
  Visited-cons x xs m m' m'' v w = record {
    sorted = w.sorted;
    temp = w.temp ∙ v.temp;
    has = (w.grows x v.has.0, w.has);
    grows = λ y h. w.grows y (v.grows y h);
    keeps = λ y h. w.keeps y (ap (contains y) v.temp ∙ h) ∙ v.keeps y h;
  }

  again : (x : K) (m : Marks K) → IsSorted m → contains x m.visited ≡ true → Visited (x ∷ []) m m
  again x m s old = record {
    sorted = s;
    temp = refl;
    has = (old, tt);
    grows = λ y h. h;
    keeps = λ y h. refl;
  }

  abbrev pub Sound : (K → Marks K → Visit K) → Type ℓ
  Sound visit_one =
      (x : K) (m m' : Marks K) → IsSorted m → visit_one x m ≡ done m' → Visited (x ∷ []) m m'

  visit_all-Visited :
      (visit_one : K → Marks K → Visit K)
      → Sound visit_one
      → (xs : List K) (m m' : Marks K) → IsSorted m
      → visit_all visit_one xs m ≡ done m'
      → Visited xs m m'
  unfolding visit_all
  visit_all-Visited v sound [] m m' s h = subst (Visited [] m) (done-injective h) (Visited-nil m s)
  visit_all-Visited v sound (x ∷ xs) m m'' s h =
      let (m', one, rest) = >>=-eq-done (v x m) (visit_all v xs) h in
      let first = sound x m m' s one in
      Visited-cons x xs m m' m'' first (visit_all-Visited v sound xs m' m'' first.sorted rest)

  leave-Visited :
      (x : K) (m m' : Marks K)
      → contains x m.temp_visited ≡ false
      → contains x m.visited ≡ false
      → Visited (deps x) (enter x m) m'
      → Visited (x ∷ []) m (leave x m')
  leave-Visited x m m' free new v = record {
    sorted = record {
      ordered =
          DependenciesFirst-concat [] m'.order x v.sorted.ordered
            (All-map (λ d p. ground (arith, contains-nil d, v.sorted.listed d)) (deps x) v.has)
            (ground (
              arith,
              contains-nil x,
              v.sorted.listed x,
              v.keeps x,
              contains-cons x x m.temp_visited,
            ));
      listed = λ y.
          ground
            (arith, contains-cons y x m'.visited, contains-concat y x m'.order, v.sorted.listed y);
    };
    temp = ap (remove x) v.temp ∙ remove-cons_self x m.temp_visited free;
    has = (ground (arith, contains-cons x x m'.visited), tt);
    grows = λ y h. ground (arith, contains-cons y x m'.visited, v.grows y h);
    keeps = λ y h.
        ground (arith, v.keeps y, contains-cons y x m.temp_visited, contains-cons y x m'.visited);
  }

  pub visit-Visited : (fuel : ℕ) → Sound (topological_sort_visit deps fuel)
  unfolding topological_sort_visit
  visit-Visited zero x m m' s h = cc
  visit-Visited (suc fuel) x m m' s h = elim (Bool-cases (contains x m.temp_visited)) [
    | inl open_ ↦ absurd (circular-ne-done (rw open_ at h))
    | inr free ↦ elim (Bool-cases (contains x m.visited)) [
      | inl old ↦
          subst (Visited (x ∷ []) m) (done-injective (rw (free, old) at h)) (again x m s old)
      | inr new ↦
          let (m₁, below, left) = >>=-eq-done _ (λ m₁. done (leave x m₁)) (rw (free, new) at h) in
          subst (Visited (x ∷ []) m) (done-injective left) (
            leave-Visited x m m₁ free new (
              visit_all-Visited _ (visit-Visited fuel) (deps x) (enter x m) m₁
                (record { ordered = s.ordered; listed = s.listed }) below))
    ]
  ]

  pub visit_new-Visited : (fuel : ℕ) → Sound (visit_new deps fuel)
  unfolding visit_new
  visit_new-Visited fuel x m m' s h = elim (Bool-cases (contains x m.visited)) [
    | inl old ↦ subst (Visited (x ∷ []) m) (done-injective (rw old at h)) (again x m s old)
    | inr new ↦ visit-Visited fuel x m m' s (rw new at h)
  ]

  pub no_marks-IsSorted : IsSorted no_marks
  no_marks-IsSorted = record { ordered = tt; listed = λ y. refl }

  -- A sort that succeeds lists every registered key, each key once, and each key behind all its
  -- dependencies.
  pub sort-DependenciesFirst :
      (fuel : ℕ) (registered : List K) {m : Marks K}
      → sort deps fuel registered ≡ done m
      → DependenciesFirst [] m.order × All (λ x. contains x m.order ≡ true) registered
  unfolding sort
  sort-DependenciesFirst fuel registered {m} h =
      let v =
        visit_all-Visited _ (visit_new-Visited fuel) registered no_marks m no_marks-IsSorted h in
      (v.sorted.ordered, All-map (λ x p. sym (v.sorted.listed x) ∙ p) registered v.has)
