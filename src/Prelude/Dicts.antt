-- ===== src/Prelude/Dicts.antt =====
-- Python's `dict` as an association list in insertion order, with at most one entry for each key.
use mathlib.Core.Path.{◌≡◌, refl, sym, ◌∙◌}
use mathlib.Core.Logic.{◌↔◌, ◌⊎◌, inl, inr}
use mathlib.Core.Bool.{false≢true}
use mathlib.Core.List.{List, [], ◌∷◌, map, Memᴰ}
use mathlib.Core.List.Memᴰ
use mathlib.Core.Option.{Option, none, some}
use native.Mathlib.Omega.{arith}
use nesy_reasoning_mcp.Prelude.Lists.{All}
use nesy_reasoning_mcp.Prelude.Tests.{if◌then◌else◌, Key, ◌==◌, Bool-cases, same→eq}

abbrev pub Dict {ℓ} : Type ℓ → Type ℓ → Type ℓ
Dict K V = List (K × V)

module _ {ℓ} {K V : Type ℓ} ⦃k : Key K⦄ where
  -- d.get(key)
  abbrev pub lookup : K → Dict K V → Option V
  lookup key [] = none
  lookup key ((j, v) ∷ d) = if j == key then some v else lookup key d

  -- d[key] = v: the entry keeps its place
  abbrev pub insert : K → V → Dict K V → Dict K V
  insert key v [] = (key, v) ∷ []
  insert key v ((j, w) ∷ d) = if j == key then (j, v) ∷ d else (j, w) ∷ insert key v d

  -- d.pop(key, None)
  abbrev pub erase : K → Dict K V → Dict K V
  erase key [] = []
  erase key ((j, w) ∷ d) = let rest = erase key d in if j == key then rest else (j, w) ∷ rest

  pub lookup-insert :
      (key j : K) (v : V) (d : Dict K V)
      → lookup j (insert key v d) ≡ (if key == j then some v else lookup j d)
  lookup-insert key j v [] = refl
  lookup-insert key j v ((i, w) ∷ d) =
      ground (arith, k.same_iff key j, k.same_iff i key, k.same_iff i j, lookup-insert key j v d)

  pub lookup-erase :
      (key j : K) (d : Dict K V) → lookup j (erase key d) ≡ (if key == j then none else lookup j d)
  lookup-erase key j [] = ground arith
  lookup-erase key j ((i, w) ∷ d) =
      ground (arith, k.same_iff key j, k.same_iff i key, k.same_iff i j, lookup-erase key j d)

-- No element stands twice in the list.
abbrev pub Distinct {ℓ} : {A : Type ℓ} → List A → Type ℓ
Distinct [] = Unit
Distinct (x ∷ xs) = (¬ Memᴰ x xs) × Distinct xs

module _ {ℓ} {K V : Type ℓ} where
  abbrev pub keys : Dict K V → List K
  keys = map (λ entry. entry.0)

module _ {ℓ} {K V : Type ℓ} ⦃k : Key K⦄ where
  keys-insert :
      (key a : K) (v : V) (d : Dict K V)
      → Memᴰ a (keys (insert key v d))
      → (a ≡ key) ⊎ Memᴰ a (keys d)
  keys-insert key a v [] m = Memᴰ.cases_cons m
  keys-insert key a v ((j, w) ∷ d) m = elim (Bool-cases (j == key)) [
    | inl e ↦ inr (rw e at m)
    | inr e ↦ elim (Memᴰ.cases_cons (rw e at m)) [
      | inl h ↦ inr (Memᴰ.head h)
      | inr h ↦ elim (keys-insert key a v d h) [ inl q ↦ inl q | inr q ↦ inr (Memᴰ.tail q) ]
    ]
  ]

  keys_insert_old :
      (key a : K) (v : V) (d : Dict K V) → Memᴰ a (keys d) → Memᴰ a (keys (insert key v d))
  keys_insert_old key a v [] m = absurd (Memᴰ.not-nil m)
  keys_insert_old key a v ((j, w) ∷ d) m = elim (Bool-cases (j == key)) [
    | inl e ↦ rw e m
    | inr e ↦ rw e (elim (Memᴰ.cases_cons m) [
      | inl h ↦ Memᴰ.head h
      | inr h ↦ Memᴰ.tail (keys_insert_old key a v d h)
    ])
  ]

  keys_insert_new : (key : K) (v : V) (d : Dict K V) → Memᴰ key (keys (insert key v d))
  keys_insert_new key v [] = Memᴰ.head refl
  keys_insert_new key v ((j, w) ∷ d) = elim (Bool-cases (j == key)) [
    | inl e ↦ rw e (Memᴰ.head (sym (same→eq j key e)))
    | inr e ↦ rw e (Memᴰ.tail (keys_insert_new key v d))
  ]

  pub keys-insert_iff :
      (key a : K) (v : V) (d : Dict K V)
      → Memᴰ a (keys (insert key v d)) ↔ ((a ≡ key) ⊎ Memᴰ a (keys d))
  keys-insert_iff key a v d = (
    keys-insert key a v d,
    λ s. elim s [ inl e ↦ rw e (keys_insert_new key v d) | inr m ↦ keys_insert_old key a v d m ],
  )

  pub insert-Distinct :
      (key : K) (v : V) (d : Dict K V) → Distinct (keys d) → Distinct (keys (insert key v d))
  insert-Distinct key v [] h = (Memᴰ.not-nil, tt)
  insert-Distinct key v ((j, w) ∷ d) (new, h) = elim (Bool-cases (j == key)) [
    | inl e ↦ rw e (new, h)
    | inr e ↦ rw e (
      λ m. elim (keys-insert key j v d m) [
        | inl q ↦ absurd (false≢true (sym e ∙ (k.same_iff j key).1 q))
        | inr q ↦ new q
      ],
      insert-Distinct key v d h,
    )
  ]

  pub All-insert {κ} :
      (P : K × V → Type κ) (key : K) (v : V) (d : Dict K V)
      → ((j : K) → j ≡ key → P (j, v))
      → All P d
      → All P (insert key v d)
  All-insert P key v [] new h = (new key refl, tt)
  All-insert P key v ((j, w) ∷ d) new h = elim (Bool-cases (j == key)) [
    | inl e ↦ rw e (new j (same→eq j key e), h.1)
    | inr e ↦ rw e (h.0, All-insert P key v d new h.1)
  ]

module _ {ℓ} {K V : Type ℓ} ⦃k : Key K⦄ where
  -- What a lookup finds is an entry.
  pub lookup-Memᴰ : (key : K) (v : V) (d : Dict K V) → lookup key d ≡ some v → Memᴰ (key, v) d
  lookup-Memᴰ key v [] h = cc
  lookup-Memᴰ key v ((j, w) ∷ d) h = elim (Bool-cases (j == key)) [
    | inl e ↦
        let q : some w ≡ some v = rw e at h in
        let p : w ≡ v = cc in Memᴰ.head (rw (same→eq j key e, p) refl)
    | inr e ↦ Memᴰ.tail (lookup-Memᴰ key v d (rw e at h))
  ]
