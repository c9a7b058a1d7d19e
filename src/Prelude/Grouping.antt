-- ===== src/Prelude/Grouping.antt =====
-- A dictionary of lists, and the elements of a list by their key.
use mathlib.Core.Path.{◌≡◌, refl, sym}
use mathlib.Core.Logic.{inl, inr}
use mathlib.Core.List.{List, [], ◌∷◌, ◌++◌, Memᴰ}
use mathlib.Core.List.Memᴰ
use mathlib.Core.List.{append_assoc, append-nil}
use native.Mathlib.Omega.{arith}
use nesy_reasoning_mcp.Prelude.Filters.{filter}
use nesy_reasoning_mcp.Prelude.Lists.{All, All-append}
use nesy_reasoning_mcp.Prelude.Tests.{if◌then◌else◌, Key, ◌==◌, Bool-cases, same→eq}
use nesy_reasoning_mcp.Prelude.Dicts.{Dict}

module _ {K V : Type 0} ⦃k : Key K⦄ where
  -- d.setdefault(key, []).append(v)
  abbrev pub append_to : K → V → Dict K (List V) → Dict K (List V)
  append_to key v [] = (key, v ∷ []) ∷ []
  append_to key v ((j, vs) ∷ d) =
      let rest = append_to key v d in if j == key then (j, vs ++ v ∷ []) ∷ d else (j, vs) ∷ rest

  abbrev pub group_onto : (V → K) → Dict K (List V) → List V → Dict K (List V)
  group_onto f d [] = d
  group_onto f d (v ∷ vs) = group_onto f (append_to (f v) v d) vs

  abbrev pub group_by : (V → K) → List V → Dict K (List V)
  group_by f = group_onto f []

  -- Each value of an entry has the entry's key, and the property.
  abbrev pub Keyed {ℓ} : (V → K) → (V → Type ℓ) → Dict K (List V) → Type ℓ
  Keyed f P = All (λ entry. All (λ v. (f v ≡ entry.0) × P v) entry.1)

  append_to-Keyed {ℓ} :
      (f : V → K) (P : V → Type ℓ) (v : V) (d : Dict K (List V))
      → P v
      → Keyed f P d
      → Keyed f P (append_to (f v) v d)
  append_to-Keyed f P v [] p h = (((refl, p), tt), tt)
  append_to-Keyed f P v ((j, vs) ∷ d) p (h, hs) = elim (Bool-cases (j == f v)) [
    | inl e ↦
        rw e
          (All-append (λ w. (f w ≡ j) × P w) vs (v ∷ []) h ((sym (same→eq j (f v) e), p), tt), hs)
    | inr e ↦ rw e (h, append_to-Keyed f P v d p hs)
  ]

  group_onto-Keyed {ℓ} :
      (f : V → K) (P : V → Type ℓ) (vs : List V) (d : Dict K (List V))
      → All P vs
      → Keyed f P d
      → Keyed f P (group_onto f d vs)
  group_onto-Keyed f P [] d h s = s
  group_onto-Keyed f P (v ∷ vs) d (p, h) s =
      group_onto-Keyed f P vs (append_to (f v) v d) h (append_to-Keyed f P v d p s)

  pub group_by-Keyed {ℓ} :
      (f : V → K) (P : V → Type ℓ) (vs : List V) → All P vs → Keyed f P (group_by f vs)
  group_by-Keyed f P vs h = group_onto-Keyed f P vs [] h tt

module _ {K V : Type 0} ⦃k : Key K⦄ where
  -- d.get(key, [])
  abbrev pub group_of : K → Dict K (List V) → List V
  group_of key [] = []
  group_of key ((j, vs) ∷ d) = if j == key then vs else group_of key d

  group_of-append_to :
      (key j : K) (v : V) (d : Dict K (List V))
      → group_of j (append_to key v d) ≡ (if key == j then group_of j d ++ v ∷ [] else group_of j d)
  group_of-append_to key j v [] = refl
  group_of-append_to key j v ((i, vs) ∷ d) =
      ground
        (arith, k.same_iff key j, k.same_iff i key, k.same_iff i j, group_of-append_to key j v d)

  group_of-group_onto :
      (f : V → K) (j : K) (vs : List V) (d : Dict K (List V))
      → group_of j (group_onto f d vs) ≡ group_of j d ++ filter (λ v. f v == j) vs
  group_of-group_onto f j [] d = sym (append-nil (group_of j d))
  group_of-group_onto f j (v ∷ vs) d =
      rw (group_of-group_onto f j vs (append_to (f v) v d), group_of-append_to (f v) j v d)
        (elim (Bool-cases (f v == j)) [
          | inl e ↦ rw e (append_assoc (group_of j d) (v ∷ []) (filter (λ v. f v == j) vs))
          | inr e ↦ rw e refl
        ])

  -- The group of a key is the elements with that key, in their order.
  pub group_of-group_by :
      (f : V → K) (j : K) (vs : List V) → group_of j (group_by f vs) ≡ filter (λ v. f v == j) vs
  group_of-group_by f j vs = group_of-group_onto f j vs []

  -- A group with an element is an entry.
  pub group_of-entry :
      (j : K) (v : V) (d : Dict K (List V)) → Memᴰ v (group_of j d) → Memᴰ (j, group_of j d) d
  group_of-entry j v [] m = absurd (Memᴰ.not-nil m)
  group_of-entry j v ((i, vs) ∷ d) m = elim (Bool-cases (i == j)) [
    | inl e ↦ rw e (Memᴰ.head (rw (same→eq i j e) refl))
    | inr e ↦ rw e (Memᴰ.tail (group_of-entry j v d (rw e at m)))
  ]
