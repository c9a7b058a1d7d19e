-- ===== src/Storage/Error.antt =====
-- The ValueErrors that the storage code raises, and functions that may raise.
use nesy_reasoning_mcp.Prelude.{String, ◌≡◌, refl}

pub data Error : Type 0 where
  unsupported_mode : String → Error
  unsupported_scope : String → Error
  negative_limit : Error
  -- the key, the id that it maps to and the id that it should map to
  alias_conflict : String → String → String → Error

-- The result of a call that may raise.
pub data Result {ℓ} (A : Type ℓ) : Type ℓ where
  err : Error → Result A
  ok : A → Result A

module _ {ℓ κ} {A : Type ℓ} {B : Type κ} where
  infixl 5 ◌>>=◌
  abbrev pub ◌>>=◌ : Result A → (A → Result B) → Result B
  err raised >>= next = err raised
  ok value >>= next = next value

  -- A block that returned has a first call that returned.
  pub bind_ok :
      (call : Result A) (next : A → Result B) (out : B)
      → (call >>= next) ≡ ok out
      → (value : A) × (call ≡ ok value) × (next value ≡ ok out)
  bind_ok (err raised) next out h = cc
  bind_ok (ok value) next out h = (value, refl, h)

pub ok_inj {ℓ} : {A : Type ℓ} (a b : A) → ok a ≡ ok b → a ≡ b
ok_inj a b h = cc
