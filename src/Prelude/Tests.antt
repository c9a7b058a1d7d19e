-- ===== src/Prelude/Tests.antt =====
-- Boolean tests, keys that are compared by a test, and case splits that keep an equation.
use Prim.Native.Nat.{ℕ, ◌≤◌, compare, Ordering}
use Prim.Native.String.{String, compare as text_compare}
use mathlib.Core.Path.{◌≡◌, refl}
use mathlib.Core.Logic.{◌↔◌, ◌⊎◌, inl, inr}
use mathlib.Core.Bool.{Bool, true, false, ◌&&◌}
use mathlib.Core.Option.{Option, none, some}
use mathlib.Core.List.{List, [], ◌∷◌}
use native.Mathlib.Omega.{arith}
use text.Mathlib.Text.{◌==◌ as text_eq}
use text.Mathlib.TextEquality.{eq_iff}

abbrev pub ltb : ℕ → ℕ → Bool
ltb a b = elim (compare a b) [ Ordering.lt ↦ true | _ ↦ false ]

abbrev pub leb : ℕ → ℕ → Bool
leb a b = elim (compare a b) [ Ordering.gt ↦ false | _ ↦ true ]

abbrev pub eqb : ℕ → ℕ → Bool
eqb a b = leb a b && leb b a

infix 1 if◌then◌else◌
abbrev pub if◌then◌else◌ {ℓ} : {A : Type ℓ} → Bool → A → A → A
if true then x else y = x
if false then x else y = y

pub leb→le : (a b : ℕ) → leb a b ≡ true → a ≤ b
leb→le a b h = ground arith

pub le→leb : (a b : ℕ) → a ≤ b → leb a b ≡ true
le→leb a b h = ground arith

pub Bool-cases : (b : Bool) → (b ≡ true) ⊎ (b ≡ false)
Bool-cases true = inl refl
Bool-cases false = inr refl

pub Option-cases {ℓ} : {A : Type ℓ} (o : Option A) → (o ≡ none) ⊎ ((a : A) × (o ≡ some a))
Option-cases none = inl refl
Option-cases (some a) = inr (a, refl)

pub &&_iff : (a b : Bool) → ((a && b) ≡ true) ↔ ((a ≡ true) × (b ≡ true))
&&_iff a b = ground arith

-- The order of texts: by code points, as Python compares them.
abbrev pub text_le : String → String → Bool
text_le s t = elim (text_compare s t) [ Ordering.gt ↦ false | _ ↦ true ]

-- A type whose values Python compares by `==` or uses as dictionary keys.
pub record Key {ℓ} (K : Type ℓ) : Type ℓ where
  pub same : K → K → Bool
  pub same_iff : (a b : K) → (same a b ≡ true) ↔ (a ≡ b)

infix 50 ◌==◌
abbrev pub ◌==◌ {ℓ} : {K : Type ℓ} ⦃k : Key K⦄ → K → K → Bool
◌==◌ ⦃k⦄ = k.same

instance abbrev pub text_key : Key String
text_key = record { same = text_eq; same_iff = eq_iff }

module _ {ℓ} {A B : Type ℓ} ⦃k : Key A⦄ ⦃m : Key B⦄ where
  abbrev pair_same : A × B → A × B → Bool
  pair_same (a, b) (c, d) = a == c && b == d

  pub pair_same_iff : (x y : A × B) → (pair_same x y ≡ true) ↔ (x ≡ y)
  pair_same_iff (a, b) (c, d) = ground (arith, k.same_iff a c, m.same_iff b d)

  instance abbrev pub pair_key : Key (A × B)
  pair_key = record { same = pair_same; same_iff = pair_same_iff }

module _ {ℓ} {A : Type ℓ} ⦃k : Key A⦄ where
  abbrev option_same : Option A → Option A → Bool
  option_same none none = true
  option_same (some a) (some b) = a == b
  option_same _ _ = false

  pub option_same_iff : (x y : Option A) → (option_same x y ≡ true) ↔ (x ≡ y)
  option_same_iff none none = ground arith
  option_same_iff none (some b) = ground arith
  option_same_iff (some a) none = ground arith
  option_same_iff (some a) (some b) = ground (arith, k.same_iff a b)

  instance abbrev pub option_key : Key (Option A)
  option_key = record { same = option_same; same_iff = option_same_iff }

module _ {ℓ} {K : Type ℓ} ⦃k : Key K⦄ where
  pub same_refl : (a : K) → (a == a) ≡ true
  same_refl a = (k.same_iff a a).1 refl

  pub same→eq : (a b : K) → (a == b) ≡ true → a ≡ b
  same→eq a b = (k.same_iff a b).0

  pub eq→same : (a b : K) → a ≡ b → (a == b) ≡ true
  eq→same a b = (k.same_iff a b).1

  pub same_sym : (a b : K) → (a == b) ≡ (b == a)
  same_sym a b = ground (arith, k.same_iff a b, k.same_iff b a)

  -- An optional filter: `wanted is None or wanted == value`.
  abbrev pub allows : Option K → K → Bool
  allows none value = true
  allows (some wanted) value = value == wanted

-- The order of pairs of texts: by the first, then by the second.
abbrev pub pair_le : String × String → String × String → Bool
pair_le (a, b) (c, d) = if a == c then text_le b d else text_le a c

module _ {ℓ} {A : Type ℓ} ⦃k : Key A⦄ where
  abbrev list_same : List A → List A → Bool
  list_same [] [] = true
  list_same (x ∷ xs) (y ∷ ys) = x == y && list_same xs ys
  list_same _ _ = false

  pub list_same_iff : (x y : List A) → (list_same x y ≡ true) ↔ (x ≡ y)
  list_same_iff [] [] = ground arith
  list_same_iff [] (y ∷ ys) = ground arith
  list_same_iff (x ∷ xs) [] = ground arith
  list_same_iff (x ∷ xs) (y ∷ ys) = ground (arith, k.same_iff x y, list_same_iff xs ys)

  instance abbrev pub list_key : Key (List A)
  list_key = record { same = list_same; same_iff = list_same_iff }
