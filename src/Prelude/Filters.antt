-- ===== src/Prelude/Filters.antt =====
-- Comprehensions with an `if`, `any`, `all`, `sum(1 for ...)` and membership tests, on Boolean tests.
use Prim.Native.Nat.{ℕ, suc, ◌+◌, ◌≤◌}
use mathlib.Core.Path.{◌≡◌, refl}
use mathlib.Core.Logic.{◌↔◌, ◌⊎◌, inl, inr}
use mathlib.Core.Bool.{Bool, true, false, not, ◌&&◌, ◌||◌}
use mathlib.Core.Bool.{false≢true}
use mathlib.Core.List.{List, [], ◌∷◌, ◌++◌, Memᴰ}
use mathlib.Core.List.Memᴰ
use native.Mathlib.Omega.{arith}
use nesy_reasoning_mcp.Prelude.Tests.{if◌then◌else◌, Bool-cases, Key, ◌==◌, same_refl, same→eq}
use nesy_reasoning_mcp.Prelude.Lists.{length, All, Memᴰ-cons}

module _ {ℓ} {A : Type ℓ} where
  -- [x for x in xs if p(x)]
  abbrev pub filter : (A → Bool) → List A → List A
  filter p [] = []
  filter p (x ∷ xs) = if p x then x ∷ filter p xs else filter p xs

  abbrev pub any : (A → Bool) → List A → Bool
  any p [] = false
  any p (x ∷ xs) = p x || any p xs

  abbrev pub all : (A → Bool) → List A → Bool
  all p [] = true
  all p (x ∷ xs) = p x && all p xs

  -- sum(1 for x in xs if p(x))
  abbrev pub count_if : (A → Bool) → List A → ℕ
  count_if p [] = 0
  count_if p (x ∷ xs) = if p x then suc (count_if p xs) else count_if p xs

-- x in xs
abbrev pub contains {ℓ} : {K : Type ℓ} ⦃k : Key K⦄ → List K → K → Bool
contains xs a = any (λ x. a == x) xs

-- The set of a list, in order of first occurrence: list(dict.fromkeys(xs)).
module _ {ℓ} {K : Type ℓ} ⦃k : Key K⦄ where
  abbrev pub dedupe_onto : List K → List K → List K
  dedupe_onto seen [] = []
  dedupe_onto seen (x ∷ xs) =
      let kept = x ∷ dedupe_onto (x ∷ seen) xs in
      let skipped = dedupe_onto seen xs in if contains seen x then skipped else kept

  abbrev pub dedupe : List K → List K
  dedupe = dedupe_onto []

module _ {ℓ} {A : Type ℓ} (p : A → Bool) where
  pub length-filter-count_if : (xs : List A) → length (filter p xs) ≡ count_if p xs
  length-filter-count_if [] = refl
  length-filter-count_if (x ∷ xs) = ground (arith, length-filter-count_if xs)

  pub length-filter-not :
      (xs : List A) → count_if p xs + length (filter (λ x. not (p x)) xs) ≡ length xs
  length-filter-not [] = refl
  length-filter-not (x ∷ xs) = ground (arith, length-filter-not xs)

  pub filter-append : (xs ys : List A) → filter p (xs ++ ys) ≡ filter p xs ++ filter p ys
  filter-append [] ys = refl
  filter-append (x ∷ xs) ys = ground (arith, filter-append xs ys)

  pub All-filter : (xs : List A) → All (λ x. p x ≡ true) (filter p xs)
  All-filter [] = tt
  All-filter (x ∷ xs) = elim (Bool-cases (p x)) [
    | inl e ↦ rw e (e, All-filter xs)
    | inr e ↦ rw e (All-filter xs)
  ]

  pub Memᴰ-filter : (a : A) (xs : List A) → Memᴰ a (filter p xs) ↔ (Memᴰ a xs × (p a ≡ true))
  Memᴰ-filter a [] = (λ m. absurd (Memᴰ.not-nil m), λ m. absurd (Memᴰ.not-nil m.0))
  Memᴰ-filter a (x ∷ xs) = elim (Bool-cases (p x)) [
    | inl e ↦ rw e (ground (arith, Memᴰ-filter a xs, Memᴰ-cons a x xs, Memᴰ-cons a x (filter p xs)))
    | inr e ↦ rw e (ground (arith, Memᴰ-filter a xs, Memᴰ-cons a x xs))
  ]

  pub any-eq-true : (xs : List A) → any p xs ≡ true → (x : A) × Memᴰ x xs × (p x ≡ true)
  any-eq-true [] h = cc
  any-eq-true (x ∷ xs) h = elim (Bool-cases (p x)) [
    | inl e ↦ (x, Memᴰ.head refl, e)
    | inr e ↦ let (y, m, q) = any-eq-true xs (ground arith) in (y, Memᴰ.tail m, q)
  ]

  pub any_of_Memᴰ : {a : A} (xs : List A) → Memᴰ a xs → p a ≡ true → any p xs ≡ true
  any_of_Memᴰ [] m h = elim m [ ]
  any_of_Memᴰ (x ∷ xs) (Memᴰ.head e) h = ground arith
  any_of_Memᴰ (x ∷ xs) (Memᴰ.tail m) h = ground (arith, any_of_Memᴰ xs m h)

  pub all_Memᴰ : {a : A} (xs : List A) → all p xs ≡ true → Memᴰ a xs → p a ≡ true
  all_Memᴰ [] h m = elim m [ ]
  all_Memᴰ (x ∷ xs) h (Memᴰ.head e) = ground arith
  all_Memᴰ (x ∷ xs) h (Memᴰ.tail m) = all_Memᴰ xs (ground arith) m

module _ {ℓ} {K : Type ℓ} ⦃k : Key K⦄ where
  pub contains_iff : (xs : List K) (a : K) → (contains xs a ≡ true) ↔ Memᴰ a xs
  contains_iff xs a = (
    λ h. let (x, m, e) = any-eq-true (λ x. a == x) xs h in Memᴰ.cast (same→eq a x e) m,
    λ m. any_of_Memᴰ (λ x. a == x) xs m (same_refl a),
  )

  dedupe_onto-Memᴰ :
      (xs seen : List K) (a : K) → Memᴰ a xs → Memᴰ a seen ⊎ Memᴰ a (dedupe_onto seen xs)
  dedupe_onto-Memᴰ [] seen a m = absurd (Memᴰ.not-nil m)
  dedupe_onto-Memᴰ (x ∷ xs) seen a m = elim (Bool-cases (contains seen x)) [
    | inl e ↦ rw e (elim (Memᴰ.cases_cons m) [
      | inl p ↦ inl (rw p ((contains_iff seen x).0 e))
      | inr t ↦ dedupe_onto-Memᴰ xs seen a t
    ])
    | inr e ↦ rw e (elim (Memᴰ.cases_cons m) [
      | inl p ↦ inr (Memᴰ.head p)
      | inr t ↦ elim (dedupe_onto-Memᴰ xs (x ∷ seen) a t) [
        | inl s ↦ elim (Memᴰ.cases_cons s) [ inl p ↦ inr (Memᴰ.head p) | inr u ↦ inl u ]
        | inr u ↦ inr (Memᴰ.tail u)
      ]
    ])
  ]

  pub dedupe-Memᴰ : (xs : List K) (a : K) → Memᴰ a xs → Memᴰ a (dedupe xs)
  dedupe-Memᴰ xs a m = elim (dedupe_onto-Memᴰ xs [] a m) [
    | inl s ↦ absurd (Memᴰ.not-nil s)
    | inr u ↦ u
  ]

  dedupe_onto-All {κ} : (P : K → Type κ) (xs seen : List K) → All P xs → All P (dedupe_onto seen xs)
  dedupe_onto-All P [] seen h = tt
  dedupe_onto-All P (x ∷ xs) seen (p, h) = elim (Bool-cases (contains seen x)) [
    | inl e ↦ rw e (dedupe_onto-All P xs seen h)
    | inr e ↦ rw e (p, dedupe_onto-All P xs (x ∷ seen) h)
  ]

  pub dedupe-All {κ} : (P : K → Type κ) (xs : List K) → All P xs → All P (dedupe xs)
  dedupe-All P xs = dedupe_onto-All P xs []

  pub lacks_iff : (xs : List K) (a : K) → (not (contains xs a) ≡ true) ↔ (¬ Memᴰ a xs)
  lacks_iff xs a = (
    λ h m. false≢true (ground (arith, (contains_iff xs a).1 m, h)),
    λ n. ground (arith, contains_iff xs a, n),
  )

module _ {ℓ} {A : Type ℓ} where
  pub count_if-filter :
      (p q : A → Bool) (xs : List A) → count_if p (filter q xs) ≡ count_if (λ x. p x && q x) xs
  count_if-filter p q [] = refl
  count_if-filter p q (x ∷ xs) = ground (arith, count_if-filter p q xs)

  pub count_if-append :
      (p : A → Bool) (xs ys : List A) → count_if p (xs ++ ys) ≡ count_if p xs + count_if p ys
  count_if-append p [] ys = omega arith
  count_if-append p (x ∷ xs) ys = ground (arith, count_if-append p xs ys)

  pub count_if-le : (p : A → Bool) (xs : List A) → count_if p xs ≤ length xs
  count_if-le p [] = omega arith
  count_if-le p (x ∷ xs) = ground (arith, count_if-le p xs)

  pub count_if-none : (p : A → Bool) (xs : List A) → All (λ x. p x ≡ false) xs → count_if p xs ≡ 0
  count_if-none p [] h = refl
  count_if-none p (x ∷ xs) h = ground (arith, count_if-none p xs)

  pub count_if-cong :
      (p q : A → Bool) (xs : List A) → ((x : A) → p x ≡ q x) → count_if p xs ≡ count_if q xs
  count_if-cong p q [] h = refl
  count_if-cong p q (x ∷ xs) h = ground (arith, h x, count_if-cong p q xs h)
