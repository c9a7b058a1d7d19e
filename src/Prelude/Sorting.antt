-- ===== src/Prelude/Sorting.antt =====
-- `sorted` and `list.sort`: a stable insertion sort by a Boolean order.
use Prim.Native.Nat.{suc}
use mathlib.Core.Path.{◌≡◌, refl, ◌∙◌}
use mathlib.Core.Logic.{◌↔◌, ◌⊎◌, inl, inr}
use mathlib.Core.Bool.{Bool}
use mathlib.Core.List.{List, [], ◌∷◌, Memᴰ}
use native.Mathlib.Omega.{arith}
use nesy_reasoning_mcp.Prelude.Tests.{if◌then◌else◌, Bool-cases}
use nesy_reasoning_mcp.Prelude.Lists.{length, Memᴰ-cons}
use nesy_reasoning_mcp.Prelude.Filters.{count_if}

module _ {ℓ} {A : Type ℓ} (le : A → A → Bool) where
  abbrev pub insert_by : A → List A → List A
  insert_by x [] = x ∷ []
  insert_by x (y ∷ ys) = if le x y then x ∷ y ∷ ys else y ∷ insert_by x ys

  abbrev pub sort_by : List A → List A
  sort_by [] = []
  sort_by (x ∷ xs) = insert_by x (sort_by xs)

  length-insert_by : (x : A) (ys : List A) → length (insert_by x ys) ≡ suc (length ys)
  length-insert_by x [] = refl
  length-insert_by x (y ∷ ys) = ground (arith, length-insert_by x ys)

  pub length-sort_by : (xs : List A) → length (sort_by xs) ≡ length xs
  length-sort_by [] = refl
  length-sort_by (x ∷ xs) = length-insert_by x (sort_by xs) ∙ rw (length-sort_by xs)

  count_if-insert_by :
      (p : A → Bool) (x : A) (ys : List A) → count_if p (insert_by x ys) ≡ count_if p (x ∷ ys)
  count_if-insert_by p x [] = refl
  count_if-insert_by p x (y ∷ ys) = ground (arith, count_if-insert_by p x ys)

  pub count_if-sort_by : (p : A → Bool) (xs : List A) → count_if p (sort_by xs) ≡ count_if p xs
  count_if-sort_by p [] = refl
  count_if-sort_by p (x ∷ xs) =
      count_if-insert_by p x (sort_by xs) ∙ ground (arith, count_if-sort_by p xs)

  pub Memᴰ-insert_by : (a x : A) (ys : List A) → Memᴰ a (insert_by x ys) ↔ ((a ≡ x) ⊎ Memᴰ a ys)
  Memᴰ-insert_by a x [] = Memᴰ-cons a x []
  Memᴰ-insert_by a x (y ∷ ys) = elim (Bool-cases (le x y)) [
    | inl e ↦ rw e (Memᴰ-cons a x (y ∷ ys))
    | inr e ↦
        rw e
          (ground (arith, Memᴰ-cons a y (insert_by x ys), Memᴰ-cons a y ys, Memᴰ-insert_by a x ys))
  ]

  pub Memᴰ-sort_by : (a : A) (xs : List A) → Memᴰ a (sort_by xs) ↔ Memᴰ a xs
  Memᴰ-sort_by a [] = (λ m. m, λ m. m)
  Memᴰ-sort_by a (x ∷ xs) =
      ground (arith, Memᴰ-insert_by a x (sort_by xs), Memᴰ-sort_by a xs, Memᴰ-cons a x xs)
