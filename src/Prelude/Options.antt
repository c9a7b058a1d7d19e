-- ===== src/Prelude/Options.antt =====
-- `Option` as the result of code that may raise, or that may find nothing.
use mathlib.Core.Path.{◌≡◌, refl}
use mathlib.Core.List.{List, [], ◌∷◌}
use mathlib.Core.Option.{Option, none, some}
use nesy_reasoning_mcp.Prelude.Lists.{All}

module _ {ℓ κ} {A : Type ℓ} {B : Type κ} where
  infixl 5 ◌>>=◌
  abbrev pub ◌>>=◌ : Option A → (A → Option B) → Option B
  some value >>= next = next value
  none >>= next = none

pub some_inj {ℓ} : {A : Type ℓ} (a b : A) → some a ≡ some b → a ≡ b
some_inj a b h = cc

-- Inversion of a block that returned.
pub bind_some {ℓ κ} :
    {A : Type ℓ} {B : Type κ} (o : Option A) (f : A → Option B) (b : B)
    → (o >>= f) ≡ some b
    → (a : A) × (o ≡ some a) × (f a ≡ some b)
bind_some none f b h = cc
bind_some (some a) f b h = (a, refl, h)

-- A comprehension over a call that may raise.
abbrev pub map_option {ℓ κ} : {A : Type ℓ} {B : Type κ} → (A → Option B) → List A → Option (List B)
map_option f [] = some []
map_option f (x ∷ xs) = do y ← f x; ys ← map_option f xs; some (y ∷ ys)

module _ {ℓ κ μ} {A : Type ℓ} {B : Type κ} (f : A → Option B) (P : B → Type μ) where
  -- A comprehension returns if every call does.
  pub map_option_total :
      (xs : List A)
      → All (λ x. (y : B) × (f x ≡ some y) × P y) xs
      → (ys : List B) × (map_option f xs ≡ some ys) × All P ys
  map_option_total [] h = ([], refl, tt)
  map_option_total (x ∷ xs) ((y, e, p), h) =
      let (ys, es, ps) = map_option_total xs h in (y ∷ ys, rw (e, es) refl, (p, ps))
