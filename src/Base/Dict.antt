-- ===== src/Base/Dict.antt =====
-- Hash maps as association lists, in the order in which they are iterated.
use Prim.Native.Nat.{suc}
use mathlib.Core.Path.{◌≡◌, refl, ap}
use mathlib.Core.Bool.{true, false, ◌||◌}
use mathlib.Core.List.{List, [], ◌∷◌}
use mathlib.Core.Option.{Option, none, some}
use native.Mathlib.Omega.{arith}
use mathlib.Core.Logic.{inl, inr}
use zhtp.Base.Lists.{length, contains, contains-nil, contains-cons, Distinct}
use zhtp.Base.Tests.{if◌then◌else◌, Key, same, Option-cases}

abbrev pub Dict {ℓ κ} : Type ℓ → Type κ → Type (ℓ ⊔ κ)
Dict K V = List (K × V)

module _ {ℓ κ} {K : Type ℓ} {V : Type κ} ⦃k : Key K⦄ where
  -- `get`
  unfoldable pub lookup : K → Dict K V → Option V
  lookup x [] = none
  lookup x ((y, v) ∷ d) = if same y x then some v else lookup x d

  -- `insert`: overwrites in place, and a new key is iterated last
  unfoldable pub insert : K → V → Dict K V → Dict K V
  insert x v [] = (x, v) ∷ []
  insert x v ((y, w) ∷ d) = if same y x then (x, v) ∷ d else (y, w) ∷ insert x v d

  -- `remove`
  pub erase : K → Dict K V → Dict K V
  erase x [] = []
  erase x ((y, w) ∷ d) = if same y x then erase x d else (y, w) ∷ erase x d

  abbrev pub keys : Dict K V → List K
  keys [] = []
  keys (e ∷ d) = e.0 ∷ keys d

  pub lookup-nil : (x : K) → lookup x [] ≡ none
  unfolding lookup
  lookup-nil x = refl

  pub lookup-cons :
      (x y : K) (v : V) (d : Dict K V)
      → lookup x ((y, v) ∷ d) ≡ (if same y x then some v else lookup x d)
  unfolding lookup
  lookup-cons x y v d = refl

  pub lookup-insert :
      (x y : K) (v : V) (d : Dict K V)
      → lookup y (insert x v d) ≡ (if same x y then some v else lookup y d)
  unfolding lookup insert
  lookup-insert x y v [] = refl
  lookup-insert x y v ((z, w) ∷ d) = ground (arith, lookup-insert x y v d)

  pub lookup-erase :
      (x y : K) (d : Dict K V) → lookup y (erase x d) ≡ (if same x y then none else lookup y d)
  unfolding lookup erase
  lookup-erase x y [] = ground arith
  lookup-erase x y ((z, w) ∷ d) = ground (arith, lookup-erase x y d)

  -- `if let Some(v) = d.get_mut(x)` and a write to `v`
  abbrev pub adjust : K → (V → V) → Dict K V → Dict K V
  adjust x f d = elim (lookup x d) [ none ↦ d | some v ↦ insert x (f v) d ]

  pub lookup-adjust :
      (x y : K) (f : V → V) (d : Dict K V)
      → lookup y (adjust x f d)
        ≡ (if same x y then elim (lookup y d) [ none ↦ none | some v ↦ some (f v) ] else lookup y d)
  lookup-adjust x y f d = elim (Option-cases (lookup x d)) [
    | inl e ↦ rw (e, adjust) (ground arith)
    | inr (v, e) ↦ rw (e, adjust) (ground (arith, lookup-insert x y (f v) d))
  ]

  pub length-keys : (d : Dict K V) → length (keys d) ≡ length d
  length-keys [] = refl
  length-keys (e ∷ d) = ap suc (length-keys d)

  pub lookup-eq-none : (x : K) (d : Dict K V) → contains x (keys d) ≡ false → lookup x d ≡ none
  unfolding lookup
  lookup-eq-none x [] h = refl
  lookup-eq-none x ((y, v) ∷ d) h = ground (arith, contains-cons x y (keys d), lookup-eq-none x d)

  pub insert-nil : (x : K) (v : V) → insert x v [] ≡ (x, v) ∷ []
  unfolding insert
  insert-nil x v = refl

  pub insert-cons :
      (x y : K) (v w : V) (d : Dict K V)
      → insert x v ((y, w) ∷ d) ≡ (if same y x then (x, v) ∷ d else (y, w) ∷ insert x v d)
  unfolding insert
  insert-cons x y v w d = refl

  contains-keys-insert :
      (x y : K) (v : V) (d : Dict K V)
      → contains y (keys (insert x v d)) ≡ (same y x || contains y (keys d))
  unfolding insert
  contains-keys-insert x y v [] = ground (arith, contains-cons y x [])
  contains-keys-insert x y v ((z, w) ∷ d) = ground (
    arith,
    contains-cons y z (keys d),
    contains-cons y x (keys d),
    contains-cons y z (keys (insert x v d)),
    contains-keys-insert x y v d,
  )

  contains-keys-erase :
      (x y : K) (d : Dict K V)
      → contains y (keys (erase x d)) ≡ (if same x y then false else contains y (keys d))
  unfolding erase
  contains-keys-erase x y [] = ground (arith, contains-nil y)
  contains-keys-erase x y ((z, w) ∷ d) = ground (
    arith,
    contains-cons y z (keys d),
    contains-cons y z (keys (erase x d)),
    contains-keys-erase x y d,
  )

  pub insert-Distinct :
      (x : K) (v : V) (d : Dict K V) → Distinct (keys d) → Distinct (keys (insert x v d))
  unfolding insert
  insert-Distinct x v [] h = ground (arith, contains-nil x)
  insert-Distinct x v ((z, w) ∷ d) (fresh, h) =
      ground (arith, contains-keys-insert x z v d, insert-Distinct x v d h)

  pub erase-Distinct : (x : K) (d : Dict K V) → Distinct (keys d) → Distinct (keys (erase x d))
  unfolding erase
  erase-Distinct x [] h = tt
  erase-Distinct x ((z, w) ∷ d) (fresh, h) =
      ground (arith, contains-keys-erase x z d, erase-Distinct x d h)

  pub contains-keys-lookup :
      (x : K) (d : Dict K V)
      → contains x (keys d) ≡ elim (lookup x d) [ none ↦ false | some _ ↦ true ]
  unfolding lookup
  contains-keys-lookup x [] = contains-nil x
  contains-keys-lookup x ((y, v) ∷ d) =
      ground (arith, contains-cons x y (keys d), contains-keys-lookup x d)
