-- ===== src/Prelude/Finding.antt =====
-- The first record of a list that has an id, after a record is replaced and after an update.
use Prim.Native.String.{String}
use mathlib.Core.Path.{◌≡◌, refl}
use mathlib.Core.Bool.{Bool, not, ◌&&◌}
use mathlib.Core.Option.{Option, none, some}
use mathlib.Core.List.{List, [], ◌∷◌, ◌++◌, map}
use native.Mathlib.Omega.{arith}
use text.Mathlib.TextEquality.{eq_iff}
use nesy_reasoning_mcp.Prelude.Tests.{if◌then◌else◌, ◌==◌, text_key}
use nesy_reasoning_mcp.Prelude.Filters.{filter}

-- What an update makes of the record that it finds.
abbrev pub touched {ℓ} : {A : Type ℓ} → (A → Bool) → (A → A) → Option A → Option A
touched p change none = none
touched p change (some x) = if p x then some (change x) else some x

module _ {ℓ} {A : Type ℓ} (key : A → String) where
  -- next((x for x in xs if key(x) == id), None)
  abbrev pub first_with : String → List A → Option A
  first_with id [] = none
  first_with id (x ∷ xs) = if key x == id then some x else first_with id xs

  pub first_with-replace :
      (id other : String) (xs : List A) (x : A)
      → key x ≡ id
      → first_with other (filter (λ y. not (key y == id)) xs ++ (x ∷ []))
        ≡ (if id == other then some x else first_with other xs)
  first_with-replace id other [] x e = rw e refl
  first_with-replace id other (y ∷ ys) x e = ground (
    arith,
    eq_iff (key y) id,
    eq_iff (key y) other,
    eq_iff id other,
    first_with-replace id other ys x e,
  )

  pub first_with-update :
      (id other : String) (p : A → Bool) (change : A → A)
      → ((x : A) → key (change x) ≡ key x)
      → (xs : List A)
      → first_with other (map (λ y. if key y == id && p y then change y else y) xs)
        ≡ (if id == other then touched p change (first_with id xs) else first_with other xs)
  first_with-update id other p change keeps [] = ground arith
  first_with-update id other p change keeps (y ∷ ys) = ground (
    arith,
    keeps y,
    eq_iff (key y) id,
    eq_iff (key y) other,
    eq_iff id other,
    first_with-update id other p change keeps ys,
  )
