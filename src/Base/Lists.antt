-- ===== src/Base/Lists.antt =====
-- Lists with native lengths, and lists used as sets of keys.
use Prim.Native.Nat.{ℕ, zero, suc, ◌+◌, ◌≤◌, ◌<◌}
use mathlib.Core.Logic.{◌⊎◌, inl, inr}
use mathlib.Core.Path.{◌∙◌, ◌≡◌, refl, sym, ap, subst}
use mathlib.Core.Bool.{Bool, true, false, ◌||◌}
use mathlib.Core.List.{List, [], ◌∷◌, ◌++◌, reverse, reverse-cons}
use native.Mathlib.Omega.{arith}
use zhtp.Base.Tests.{if◌then◌else◌, Key, same}

module _ {ℓ} {A : Type ℓ} where
  abbrev pub length : List A → ℕ
  length [] = 0
  length (x ∷ xs) = suc (length xs)

  pub length-append : (xs ys : List A) → length (xs ++ ys) ≡ length xs + length ys
  length-append [] ys = omega arith
  length-append (x ∷ xs) ys = omega (arith, length-append xs ys)

module _ {ℓ κ} {A : Type ℓ} (P : A → Type κ) where
  abbrev pub All : List A → Type κ
  All [] = Unit
  All (x ∷ xs) = P x × All xs

  pub All-append : (xs ys : List A) → All xs → All ys → All (xs ++ ys)
  All-append [] ys _ k = k
  All-append (x ∷ xs) ys (p, h) k = (p, All-append xs ys h k)

pub All-map {ℓ κ μ} :
    {A : Type ℓ} {P : A → Type κ} {Q : A → Type μ} (f : (x : A) → P x → Q x) (xs : List A)
    → All P xs
    → All Q xs
All-map f [] h = tt
All-map f (x ∷ xs) (p, h) = (f x p, All-map f xs h)

module _ {ℓ} {K : Type ℓ} ⦃k : Key K⦄ where
  -- `contains` of a set or a vector
  unfoldable pub contains : K → List K → Bool
  contains x [] = false
  contains x (y ∷ ys) = same x y || contains x ys

  -- `retain(|t| t != x)`, and `remove` of a set
  unfoldable pub remove : K → List K → List K
  remove x [] = []
  remove x (y ∷ ys) = if same x y then remove x ys else y ∷ remove x ys

  pub same_refl : (x : K) → same x x ≡ true
  same_refl x = ground arith

  pub eq_of_same : (x y : K) → same x y ≡ true → x ≡ y
  eq_of_same x y h = ground arith

  pub contains-cons : (x y : K) (ys : List K) → contains x (y ∷ ys) ≡ (same x y || contains x ys)
  unfolding contains
  contains-cons x y ys = refl

  pub contains-nil : (x : K) → contains x [] ≡ false
  unfolding contains
  contains-nil x = refl

  pub contains-append :
      (x : K) (ys zs : List K) → contains x (ys ++ zs) ≡ (contains x ys || contains x zs)
  unfolding contains
  contains-append x [] zs = refl
  contains-append x (y ∷ ys) zs = ground (arith, contains-append x ys zs)

  pub contains-concat :
      (x y : K) (ys : List K) → contains x (ys ++ y ∷ []) ≡ (same x y || contains x ys)
  unfolding contains
  contains-concat x y ys = ground (arith, contains-append x ys (y ∷ []))

  pub contains-remove :
      (x y : K) (ys : List K)
      → contains x (remove y ys) ≡ (if same y x then false else contains x ys)
  unfolding contains remove
  contains-remove x y [] = ground arith
  contains-remove x y (z ∷ ys) = ground (arith, contains-remove x y ys)

  pub remove_absent : (x : K) (ys : List K) → contains x ys ≡ false → remove x ys ≡ ys
  unfolding contains remove
  remove_absent x [] h = refl
  remove_absent x (y ∷ ys) h = ground (arith, remove_absent x ys)

  pub remove-cons_self : (x : K) (ys : List K) → contains x ys ≡ false → remove x (x ∷ ys) ≡ ys
  unfolding remove
  remove-cons_self x ys h = ground (arith, remove_absent x ys)

  pub length-remove-le : (x : K) (ys : List K) → length (remove x ys) ≤ length ys
  unfolding remove
  length-remove-le x [] = omega arith
  length-remove-le x (y ∷ ys) = ground (arith, length-remove-le x ys)

  pub length-remove-lt :
      (x : K) (ys : List K) → contains x ys ≡ true → length (remove x ys) < length ys
  unfolding contains remove
  length-remove-lt x [] h = cc
  length-remove-lt x (y ∷ ys) h = ground (arith, length-remove-lt x ys, length-remove-le x ys)

  -- No key twice.
  abbrev pub Distinct : List K → Type 0
  Distinct [] = Unit
  Distinct (x ∷ xs) = (contains x xs ≡ false) × Distinct xs

  -- `xs` has every key that `ys` has.
  abbrev pub Covers : List K → List K → Type ℓ
  Covers xs ys = (y : K) → contains y ys ≡ true → contains y xs ≡ true

  -- The pigeonhole principle.
  pub length-le_of_Covers : (ys xs : List K) → Distinct ys → Covers xs ys → length ys ≤ length xs
  length-le_of_Covers [] xs d c = omega arith
  length-le_of_Covers (y ∷ ys) xs (fresh, d) c = omega (
    arith,
    length-le_of_Covers ys (remove y xs) d covers_rest,
    length-remove-lt y xs (c y (ground (arith, contains-cons y y ys))),
  )
    where
      covers_rest : Covers (remove y xs) ys
      covers_rest z h = ground (arith, contains-remove z y xs, c z, contains-cons z y ys)

  pub All-contains {κ} :
      (P : K → Type κ) (xs : List K) (x : K) → All P xs → contains x xs ≡ true → P x
  unfolding contains
  All-contains P [] x h c = cc
  All-contains P (y ∷ xs) x (p, h) c = elim (k.dec x y) [
    | yes e ↦ subst P (sym e) p
    | no n ↦ All-contains P xs x h (ground arith)
  ]

  pub contains-reverse : (x : K) (ys : List K) → contains x (reverse ys) ≡ contains x ys
  contains-reverse x [] = refl
  contains-reverse x (y ∷ ys) =
      ap (contains x) (reverse-cons y ys)
      ∙ ground
          (arith, contains-concat x y (reverse ys), contains-cons x y ys, contains-reverse x ys)

  pub remove-nil : (x : K) → remove x [] ≡ []
  unfolding remove
  remove-nil x = refl

-- The library's `take` and `drop`, over the native numbers.
module _ {ℓ} {A : Type ℓ} where
  unfoldable pub take : ℕ → List A → List A
  take zero xs = []
  take (suc n) [] = []
  take (suc n) (x ∷ xs) = x ∷ take n xs

  unfoldable pub drop : ℕ → List A → List A
  drop zero xs = xs
  drop (suc n) [] = []
  drop (suc n) (x ∷ xs) = drop n xs

  pub take-append : (xs ys : List A) → take (length xs) (xs ++ ys) ≡ xs
  unfolding take
  take-append [] ys = refl
  take-append (x ∷ xs) ys = ap (λ zs. x ∷ zs) (take-append xs ys)

  pub append-take-drop : (n : ℕ) (xs : List A) → take n xs ++ drop n xs ≡ xs
  unfolding take drop
  append-take-drop zero xs = refl
  append-take-drop (suc n) [] = refl
  append-take-drop (suc n) (x ∷ xs) = ap (λ zs. x ∷ zs) (append-take-drop n xs)

  pub length-take : (n : ℕ) (xs : List A) → n ≤ length xs → length (take n xs) ≡ n
  unfolding take
  length-take zero xs h = refl
  length-take (suc n) [] h = absurd (omega arith)
  length-take (suc n) (x ∷ xs) h = omega (arith, length-take n xs)

  pub take-append_le : (n : ℕ) (xs ys : List A) → n ≤ length xs → take n (xs ++ ys) ≡ take n xs
  unfolding take
  take-append_le zero xs ys h = refl
  take-append_le (suc n) [] ys h = absurd (omega arith)
  take-append_le (suc n) (x ∷ xs) ys h = ap (λ zs. x ∷ zs) (take-append_le n xs ys (omega arith))

  pub take_all : (n : ℕ) (xs : List A) → length xs ≤ n → take n xs ≡ xs
  unfolding take
  take_all zero [] h = refl
  take_all zero (x ∷ xs) h = absurd (omega arith)
  take_all (suc n) [] h = refl
  take_all (suc n) (x ∷ xs) h = ap (λ zs. x ∷ zs) (take_all n xs (omega arith))

  pub take-cons_take : (n : ℕ) (x : A) (xs : List A) → take n (x ∷ take n xs) ≡ take n (x ∷ xs)
  unfolding take
  take-cons_take zero x xs = refl
  take-cons_take (suc n) x [] = refl
  take-cons_take (suc n) x (y ∷ ys) = ap (λ zs. x ∷ zs) (take-cons_take n y ys)

  pub length-reverse : (xs : List A) → length (reverse xs) ≡ length xs
  length-reverse [] = refl
  length-reverse (x ∷ xs) = rw (reverse-cons, length-append) (omega (arith, length-reverse xs))

pub List-cases {ℓ} :
    {A : Type ℓ} (xs : List A) → (xs ≡ []) ⊎ ((x : A) × (rest : List A) × (xs ≡ x ∷ rest))
List-cases [] = inl refl
List-cases (x ∷ xs) = inr (x, xs, refl)
