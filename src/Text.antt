-- ===== src/Text.antt =====
-- Python's `str.strip`, and text.py of auto_ingest.
pub mod Stripped
use Prim.Native.Char.{Char, code}
use Prim.Native.String.{String}
use nesy_reasoning_mcp.Prelude.{
  ℕ, Bool, ◌&&◌, ◌||◌, List, map, filter, not, if◌then◌else◌, leb, ◌==◌, text_key, dedupe, ◌≡◌,
  refl,
}

within : ℕ → ℕ → ℕ → Bool
within low high c = leb low c && leb c high

-- The code points that `str.isspace` accepts.
unfoldable pub is_space : Char → Bool
unfolding within
is_space ch =
    let c = code ch in
    within 9 13 c
    || within 28 32 c
    || within 133 133 c
    || within 160 160 c
    || within 5760 5760 c
    || within 8192 8202 c
    || within 8232 8233 c
    || within 8239 8239 c
    || within 8287 8287 c
    || within 12288 12288 c

lstrip : String → String
unfolding is_space
lstrip String.[] = String.[]
lstrip (String.◌∷◌ c s) = let rest = lstrip s in if is_space c then rest else String.◌∷◌ c s

rstrip : String → String
unfolding is_space
rstrip String.[] = String.[]
rstrip (String.◌∷◌ c s) =
    let rest = rstrip s in if is_space c && rest == "" then "" else String.◌∷◌ c rest

unfoldable pub strip : String → String
unfolding lstrip rstrip
strip s = rstrip (lstrip s)

unfoldable pub dedupe_non_empty_text : List String → List String
dedupe_non_empty_text values = dedupe (filter (λ v. not (v == "")) (map strip values))

strip_test : strip "  a b\n" ≡ "a b"
unfolding strip
strip_test = refl
