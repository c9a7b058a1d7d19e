-- ===== src/Scheduler/Texts.antt =====
-- Python's `int`, `str.split` and `str.split(separator, 1)`, as the cron parser uses them.
use Prim.Native.Char.{Char, code}
use Prim.Native.String.{String}
use nesy_reasoning_mcp.Prelude.{
  ℕ, ◌+◌, ◌-◌, ◌*◌, zero, suc, Bool, true, false, ◌&&◌, if◌then◌else◌, leb, ltb, eqb, Option, some,
  none, List, [], ◌∷◌, filter, not, ◌==◌, text_key, ◌≡◌, refl,
}
use nesy_reasoning_mcp.Text.{strip, is_space}

-- `negsuc n` is -(n + 1).
pub data ℤ : Type 0 where
  pos : ℕ → ℤ
  negsuc : ℕ → ℤ

abbrev pub ltb_ℤ : ℤ → ℤ → Bool
ltb_ℤ (pos a) (pos b) = ltb a b
ltb_ℤ (pos a) (negsuc b) = false
ltb_ℤ (negsuc a) (pos b) = true
ltb_ℤ (negsuc a) (negsuc b) = ltb b a

prepend : Char → List String → List String
prepend c [] = String.◌∷◌ c "" ∷ []
prepend c (s ∷ ss) = String.◌∷◌ c s ∷ ss

-- The parts of a text between the characters that `at` accepts.
unfoldable pub split_at : (Char → Bool) → String → List String
unfolding prepend
split_at at String.[] = "" ∷ []
split_at at (String.◌∷◌ c s) =
    let rest = split_at at s in if at c then "" ∷ rest else prepend c rest

abbrev pub comma : Char → Bool
comma c = eqb (code c) 44

-- str.split()
unfoldable pub words : String → List String
unfolding split_at is_space
words s = filter (λ w. not (w == "")) (split_at is_space s)

-- s.split(separator, 1), or `None` if the separator is not in the text.
unfoldable pub split_once : ℕ → String → Option (String × String)
split_once separator String.[] = none
split_once separator (String.◌∷◌ c s) =
    let rest = split_once separator s in
    if eqb (code c) separator
    then some ("", s)
    else elim rest [ none ↦ none | some (before, after) ↦ some (String.◌∷◌ c before, after) ]

is_digit : Char → Bool
is_digit c = leb 48 (code c) && leb (code c) 57

-- The digits of a number, with single underscores between them.
digits : ℕ → Bool → String → Option ℕ
unfolding is_digit
digits value after_digit String.[] = if after_digit then some value else none
digits value after_digit (String.◌∷◌ c s) = elim (is_digit c) [
  | true ↦ digits (value * 10 + (code c - 48)) true s
  | false ↦ elim (eqb (code c) 95 && after_digit) [ true ↦ digits value false s | false ↦ none ]
]

negated : ℕ → ℤ
negated zero = pos 0
negated (suc n) = negsuc n

signed : String → Option ℤ
unfolding digits negated
signed String.[] = none
signed (String.◌∷◌ c s) =
    if eqb (code c) 45
    then elim (digits 0 false s) [ none ↦ none | some n ↦ some (negated n) ]
    else elim (digits 0 false (if eqb (code c) 43 then s else String.◌∷◌ c s)) [
      | none ↦ none
      | some n ↦ some (pos n)
    ]

-- int(text), for texts in ASCII.
unfoldable pub to_int : String → Option ℤ
unfolding signed strip
to_int s = signed (strip s)

to_int_test : to_int " +1_0 " ≡ some (pos 10)
unfolding to_int
to_int_test = refl

words_test : words " 0  12\t* " ≡ "0" ∷ "12" ∷ "*" ∷ []
unfolding words
words_test = refl
