-- ===== src/Prelude/Uniqueness.antt =====
-- Lists in which no two elements have the same key.
use Prim.Native.Nat.{ℕ, zero, suc, ◌+◌}
use mathlib.Core.Path.{◌≡◌, refl, sym, ap, ◌∙◌}
use mathlib.Core.Logic.{inl, inr}
use mathlib.Core.Bool.{Bool, true, false, ◌||◌}
use mathlib.Core.List.{List, [], ◌∷◌, ◌++◌, map, Memᴰ}
use mathlib.Core.List.Memᴰ
use mathlib.Core.Bool.{false≢true}
use native.Mathlib.Omega.{arith}
use nesy_reasoning_mcp.Prelude.Tests.{Bool-cases, Key, ◌==◌, same→eq}
use nesy_reasoning_mcp.Prelude.Lists.{length, take, All-of_Memᴰ, Memᴰ-take, Memᴰ-cons}
use nesy_reasoning_mcp.Prelude.Filters.{
  filter, count_if, contains, contains_iff, Memᴰ-filter, count_if-none, dedupe_onto, dedupe,
}
use nesy_reasoning_mcp.Prelude.Sorting.{insert_by, sort_by, Memᴰ-sort_by, Memᴰ-insert_by}
use nesy_reasoning_mcp.Prelude.Dicts.{Distinct}

pub Memᴰ-map :
    {A B : Type 0} (f : A → B) (xs : List A) (b : B)
    → Memᴰ b (map f xs)
    → (a : A) × Memᴰ a xs × (b ≡ f a)
Memᴰ-map f [] b m = absurd (Memᴰ.not-nil m)
Memᴰ-map f (x ∷ xs) b m = elim (Memᴰ.cases_cons m) [
  | inl e ↦ (x, Memᴰ.head refl, e)
  | inr t ↦ let (a, n, e) = Memᴰ-map f xs b t in (a, Memᴰ.tail n, e)
]

pub map-Memᴰ : {A B : Type 0} (f : A → B) (xs : List A) (a : A) → Memᴰ a xs → Memᴰ (f a) (map f xs)
map-Memᴰ f [] a m = absurd (Memᴰ.not-nil m)
map-Memᴰ f (x ∷ xs) a (Memᴰ.head e) = Memᴰ.head (ap f e)
map-Memᴰ f (x ∷ xs) a (Memᴰ.tail m) = Memᴰ.tail (map-Memᴰ f xs a m)

pub append-Distinct :
    {K : Type 0} (xs ys : List K)
    → Distinct xs
    → Distinct ys
    → ((a : K) → Memᴰ a xs → ¬ Memᴰ a ys)
    → Distinct (xs ++ ys)
append-Distinct [] ys h1 h2 apart = h2
append-Distinct (x ∷ xs) ys (new, h1) h2 apart = (
  λ m. elim (Memᴰ.append_cases xs m) [ inl p ↦ new p | inr q ↦ apart x (Memᴰ.head refl) q ],
  append-Distinct xs ys h1 h2 (λ a m. apart a (Memᴰ.tail m)),
)

-- No two elements have the same key.
abbrev pub Unique : {A K : Type 0} → (A → K) → List A → Type 0
Unique key xs = Distinct (map key xs)

module _ {A K : Type 0} (key : A → K) where
  -- A key of some elements of a list is a key of the list.
  fresh_in_part :
      (a : K) (part whole : List A)
      → ((x : A) → Memᴰ x part → Memᴰ x whole)
      → ¬ Memᴰ a (map key whole)
      → ¬ Memᴰ a (map key part)
  fresh_in_part a part whole sub new m =
      let (x, n, e) = Memᴰ-map key part a m in new (rw e (map-Memᴰ key whole x (sub x n)))

  -- Two elements with one key are the same element.
  pub Unique-eq :
      (xs : List A) (x y : A) → Unique key xs → Memᴰ x xs → Memᴰ y xs → key x ≡ key y → x ≡ y
  Unique-eq [] x y u mx my e = absurd (Memᴰ.not-nil mx)
  Unique-eq (z ∷ zs) x y (new, u) mx my e = elim (Memᴰ.cases_cons mx) [
    | inl p ↦ elim (Memᴰ.cases_cons my) [
      | inl q ↦ p ∙ sym q
      | inr t ↦ absurd (new (rw (sym (ap key p) ∙ e) (map-Memᴰ key zs y t)))
    ]
    | inr s ↦ elim (Memᴰ.cases_cons my) [
      | inl q ↦ absurd (new (rw (sym (ap key q) ∙ sym e) (map-Memᴰ key zs x s)))
      | inr t ↦ Unique-eq zs x y u s t e
    ]
  ]

  pub filter-Unique : (p : A → Bool) (xs : List A) → Unique key xs → Unique key (filter p xs)
  filter-Unique p [] u = u
  filter-Unique p (x ∷ xs) (new, u) = elim (Bool-cases (p x)) [
    | inl e ↦ rw e (
      fresh_in_part (key x) (filter p xs) xs (λ y m. ((Memᴰ-filter p y xs).0 m).0) new,
      filter-Unique p xs u,
    )
    | inr e ↦ rw e (filter-Unique p xs u)
  ]

  pub take-Unique : (n : ℕ) (xs : List A) → Unique key xs → Unique key (take n xs)
  take-Unique zero xs u = tt
  take-Unique (suc n) [] u = tt
  take-Unique (suc n) (x ∷ xs) (new, u) =
      (fresh_in_part (key x) (take n xs) xs (λ y m. Memᴰ-take n xs m) new, take-Unique n xs u)

  insert_by-Unique :
      (le : A → A → Bool) (x : A) (ys : List A)
      → Unique key (x ∷ ys)
      → Unique key (insert_by le x ys)
  insert_by-Unique le x [] u = u
  insert_by-Unique le x (y ∷ ys) (new, old) = elim (Bool-cases (le x y)) [
    | inl e ↦ rw e (new, old)
    | inr e ↦ rw e (
      λ m.
          let (z, n, q) = Memᴰ-map key (insert_by le x ys) (key y) m in
          elim ((Memᴰ-insert_by le z x ys).0 n) [
            | inl same ↦ new (Memᴰ.head (sym (q ∙ ap key same)))
            | inr t ↦ old.0 (rw q (map-Memᴰ key ys z t))
          ],
      insert_by-Unique le x ys (λ m. new (Memᴰ.tail m), old.1),
    )
  ]

  pub sort_by-Unique :
      (le : A → A → Bool) (xs : List A) → Unique key xs → Unique key (sort_by le xs)
  sort_by-Unique le [] u = u
  sort_by-Unique le (x ∷ xs) (new, u) = insert_by-Unique le x (sort_by le xs) (
    fresh_in_part (key x) (sort_by le xs) xs (λ y m. (Memᴰ-sort_by le y xs).0 m) new,
    sort_by-Unique le xs u,
  )

module _ {A K : Type 0} ⦃k : Key K⦄ (key : A → K) where
  count_if-absent :
      (a : K) (xs : List A) → ¬ Memᴰ a (map key xs) → count_if (λ x. key x == a) xs ≡ 0
  count_if-absent a [] new = refl
  count_if-absent a (x ∷ xs) new = ground (
    arith,
    k.same_iff (key x) a,
    k.same_iff a (key x),
    Memᴰ-cons a (key x) (map key xs),
    new,
    count_if-absent a xs,
  )

  count_if-one :
      (xs : List A) (y : A) → Unique key xs → Memᴰ y xs → count_if (λ x. key x == key y) xs ≡ 1
  count_if-one [] y u m = absurd (Memᴰ.not-nil m)
  count_if-one (x ∷ xs) y (new, u) (Memᴰ.head e) =
      ground (arith, k.same_iff (key x) (key y), count_if-absent (key x) xs new, ap key e)
  count_if-one (x ∷ xs) y (new, u) (Memᴰ.tail m) = elim (Bool-cases (key x == key y)) [
    | inl e ↦ absurd (new (rw (same→eq (key x) (key y) e) (map-Memᴰ key xs y m)))
    | inr e ↦ rw e (count_if-one xs y u m)
  ]

  count_if-or :
      (p q : A → Bool) (xs : List A)
      → ((x : A) → p x ≡ true → q x ≡ false)
      → count_if (λ x. p x || q x) xs ≡ count_if p xs + count_if q xs
  count_if-or p q [] h = refl
  count_if-or p q (x ∷ xs) h = ground (arith, h x, count_if-or p q xs h)

  -- As many elements of a list have the key of one of `ys` as there are `ys`.
  pub count_if-keys :
      (xs ys : List A)
      → Unique key xs
      → Unique key ys
      → ((y : A) → Memᴰ y ys → Memᴰ y xs)
      → count_if (λ x. contains (map key ys) (key x)) xs ≡ length ys
  count_if-keys xs [] u v sub = count_if-none _ xs (All-of_Memᴰ _ xs (λ x m. refl))
  count_if-keys xs (y ∷ ys) u (new, v) sub =
      count_if-or (λ x. key x == key y) (λ x. contains (map key ys) (key x)) xs
        (λ x e. ground (arith, same→eq (key x) (key y) e, contains_iff (map key ys) (key x), new))
      ∙ omega (
        arith,
        count_if-one xs y u (sub y (Memᴰ.head refl)),
        count_if-keys xs ys u v (λ z m. sub z (Memᴰ.tail m)),
      )

-- Updates that keep every element's key keep the keys of the list.
pub map-keys_kept :
    {A K : Type 0} (key : A → K) (f : A → A) (xs : List A)
    → ((x : A) → key (f x) ≡ key x)
    → map key (map f xs) ≡ map key xs
map-keys_kept key f [] h = refl
map-keys_kept key f (x ∷ xs) h =
    ap (λ k. k ∷ map key (map f xs)) (h x) ∙ ap (λ l. key x ∷ l) (map-keys_kept key f xs h)

module _ {K : Type 0} ⦃k : Key K⦄ where
  dedupe_onto-Distinct :
      (xs seen : List K)
      → Distinct (dedupe_onto seen xs) × ((a : K) → Memᴰ a (dedupe_onto seen xs) → ¬ Memᴰ a seen)
  dedupe_onto-Distinct [] seen = (tt, λ a m. absurd (Memᴰ.not-nil m))
  dedupe_onto-Distinct (x ∷ xs) seen = elim (Bool-cases (contains seen x)) [
    | inl e ↦ rw e (dedupe_onto-Distinct xs seen)
    | inr e ↦
        let (u, new) = dedupe_onto-Distinct xs (x ∷ seen) in
        rw e (
          (λ m. new x m (Memᴰ.head refl), u),
          λ a m s. elim (Memᴰ.cases_cons m) [
            | inl p ↦ false≢true (sym e ∙ (contains_iff seen x).1 (rw p at s))
            | inr t ↦ new a t (Memᴰ.tail s)
          ],
        )
  ]

  pub dedupe-Distinct : (xs : List K) → Distinct (dedupe xs)
  dedupe-Distinct xs = (dedupe_onto-Distinct xs []).0

map-same : {A : Type 0} (xs : List A) → map (λ x. x) xs ≡ xs
map-same [] = refl
map-same (x ∷ xs) = ap (λ l. x ∷ l) (map-same xs)

-- A list without repetitions keeps that when it is sorted.
pub sort_by-Distinct :
    {A : Type 0} (le : A → A → Bool) (xs : List A) → Distinct xs → Distinct (sort_by le xs)
sort_by-Distinct le xs u =
    rw (map-same (sort_by le xs)) at (sort_by-Unique (λ x. x) le xs (rw (map-same xs) u))
