-- ===== src/Base/Tests.antt =====
-- Boolean tests on the native numbers, the conditional, keys with a decidable equality.
use Prim.Native.Nat.{ℕ, compare, Ordering}
use Prim.Native.String.{String}
use mathlib.Core.Path.{◌≡◌, refl, sym, ◌∙◌}
use mathlib.Core.Logic.{◌⊎◌, inl, inr}
use mathlib.Core.Bool.{Bool, true, false}
use mathlib.Core.Option.{Option, none, some}
use text.Mathlib.Text.{◌==◌ as str_eq}
use text.Mathlib.TextEquality.{eq_iff}
use native.Mathlib.Decide.{ℕ_discrete}

abbrev pub ltb : ℕ → ℕ → Bool
ltb a b = elim (compare a b) [ Ordering.lt ↦ true | _ ↦ false ]

abbrev pub leb : ℕ → ℕ → Bool
leb a b = elim (compare a b) [ Ordering.gt ↦ false | _ ↦ true ]

infix 50 ◌==◌
abbrev pub ◌==◌ : ℕ → ℕ → Bool
a == b = elim (compare a b) [ Ordering.eq ↦ true | _ ↦ false ]

infix 1 if◌then◌else◌
abbrev pub if◌then◌else◌ {ℓ} : {A : Type ℓ} → Bool → A → A → A
if true then x else y = x
if false then x else y = y

pub Bool-cases : (b : Bool) → (b ≡ true) ⊎ (b ≡ false)
Bool-cases true = inl refl
Bool-cases false = inr refl

pub Option-cases {ℓ} : {A : Type ℓ} (o : Option A) → (o ≡ none) ⊎ ((a : A) × (o ≡ some a))
Option-cases none = inl refl
Option-cases (some a) = inr (a, refl)

pub true-ne-false : true ≡ false → ⊥
true-ne-false h = cc

-- A type of keys, as `Eq + Hash` is in the source.
pub record Key {ℓ} (K : Type ℓ) : Type ℓ where
  pub dec : Discrete K

instance abbrev pub nat_key : Key ℕ
nat_key = record { dec = ℕ_discrete }

-- The test `a == b` on keys.
abbrev pub same {ℓ} : {K : Type ℓ} ⦃k : Key K⦄ → K → K → Bool
same ⦃k⦄ a b = elim (k.dec a b) [ yes _ ↦ true | no _ ↦ false ]

unfoldable pub string_dec : Discrete String
unfolding Bool-cases
string_dec a b = elim (Bool-cases (str_eq a b)) [
  | inl e ↦ yes ((eq_iff a b).0 e)
  | inr e ↦ no (λ p. true-ne-false (sym ((eq_iff a b).1 p) ∙ e))
]

instance abbrev pub string_key : Key String
string_key = record { dec = string_dec }
