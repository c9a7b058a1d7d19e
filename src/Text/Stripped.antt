-- ===== src/Text/Stripped.antt =====
-- Python's `str.strip`: a stripped text is stripped.
use Prim.Native.String.{String}
use nesy_reasoning_mcp.Prelude.{
  ◌≡◌, refl, ◌∙◌, ap, false, Bool-cases, inl, inr, ◌&&◌, ◌==◌, text_key,
}
use nesy_reasoning_mcp.Text.{is_space, lstrip, rstrip, strip}

-- The text is empty or begins with a character that is no space.
abbrev BeginsClean : String → Type 0
BeginsClean String.[] = Unit
BeginsClean (String.◌∷◌ c s) = is_space c ≡ false

lstrip-BeginsClean : (s : String) → BeginsClean (lstrip s)
unfolding lstrip
lstrip-BeginsClean String.[] = tt
lstrip-BeginsClean (String.◌∷◌ c s) = elim (Bool-cases (is_space c)) [
  | inl space ↦ rw space (lstrip-BeginsClean s)
  | inr other ↦ rw other other
]

lstrip_clean : (s : String) → BeginsClean s → lstrip s ≡ s
unfolding lstrip
lstrip_clean String.[] h = refl
lstrip_clean (String.◌∷◌ c s) h = rw h refl

rstrip-BeginsClean : (s : String) → BeginsClean s → BeginsClean (rstrip s)
unfolding rstrip
rstrip-BeginsClean String.[] h = tt
rstrip-BeginsClean (String.◌∷◌ c s) h = rw h h

rstrip-rstrip : (s : String) → rstrip (rstrip s) ≡ rstrip s
unfolding rstrip
rstrip-rstrip String.[] = refl
rstrip-rstrip (String.◌∷◌ c s) = elim (Bool-cases (is_space c && rstrip s == "")) [
  | inl gone ↦ rw gone refl
  | inr kept ↦ rw kept (rw (rstrip-rstrip s) (rw kept refl))
]

pub strip-strip : (s : String) → strip (strip s) ≡ strip s
unfolding strip
strip-strip s =
    ap rstrip
      (lstrip_clean (rstrip (lstrip s)) (rstrip-BeginsClean (lstrip s) (lstrip-BeginsClean s)))
    ∙ rstrip-rstrip (lstrip s)
