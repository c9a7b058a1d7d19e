-- ===== src/Storage/Common/Aliases/Exact.antt =====
-- storage/common.py: what `_proposition_alias_index` answers, and when it raises.
use nesy_reasoning_mcp.Prelude.{
  ◌≡◌, ◌≢◌, ◌↔◌, ◌⊎◌, inl, inr, refl, sym, ◌∙◌, ap, String, some, List, [], ◌∷◌, ◌++◌, map, arith,
  text_key, if◌then◌else◌, Dict, lookup, insert, lookup-insert, Memᴰ, Option-cases,
}
use mathlib.Core.List.Memᴰ
use nesy_reasoning_mcp.Text.{strip}
use nesy_reasoning_mcp.Schemas.{PropositionRecord}
use nesy_reasoning_mcp.Storage.Error.{
  Error, alias_conflict, Result, ok, err, ◌>>=◌, bind_ok, ok_inj,
}
use nesy_reasoning_mcp.Storage.Common.Aliases.{
  agrees, existing_of, add_term, add_terms, terms_of, alias_index_onto, proposition_alias_index,
}

-- A proposition's id, label and aliases, each with the id.
abbrev pub entries_of : PropositionRecord → List (String × String)
entries_of p = map (λ t. (strip t, p.id)) (terms_of p)

abbrev pub names_of : List PropositionRecord → List (String × String)
names_of [] = []
names_of (p ∷ ps) = entries_of p ++ names_of ps

abbrev add_entry : Dict String String → String × String → Result (Dict String String)
add_entry index (key, id) =
    if agrees (lookup key index) id
    then ok (insert key id index)
    else err (alias_conflict key (existing_of (lookup key index)) id)

abbrev add_entries : Dict String String → List (String × String) → Result (Dict String String)
add_entries index [] = ok index
add_entries index (e ∷ es) = add_entry index e >>= (λ index'. add_entries index' es)

bind_assoc :
    {A : Type 0} (m : Result A) (f g : A → Result A) → ((m >>= f) >>= g) ≡ (m >>= (λ a. f a >>= g))
bind_assoc (ok a) f g = refl
bind_assoc (err e) f g = refl

bind_cong :
    {A : Type 0} (m : Result A) (f g : A → Result A) → ((a : A) → f a ≡ g a) → (m >>= f) ≡ (m >>= g)
bind_cong (ok a) f g h = h a
bind_cong (err e) f g h = refl

add_terms-entries :
    (id : String) (terms : List String) (index : Dict String String) (rest : List (String × String))
    → (add_terms id index terms >>= (λ i. add_entries i rest))
      ≡ add_entries index (map (λ t. (strip t, id)) terms ++ rest)
unfolding add_terms add_term
add_terms-entries id [] index rest = refl
add_terms-entries id (t ∷ terms) index rest =
    bind_assoc (add_term id index t) (λ i. add_terms id i terms) (λ i. add_entries i rest)
    ∙ bind_cong (add_term id index t) _ _ (λ i. add_terms-entries id terms i rest)

alias_index_onto-entries :
    (ps : List PropositionRecord) (index : Dict String String)
    → alias_index_onto index ps ≡ add_entries index (names_of ps)
unfolding alias_index_onto
alias_index_onto-entries [] index = refl
alias_index_onto-entries (p ∷ ps) index =
    bind_cong (add_terms p.id index (terms_of p)) _ _ (λ i. alias_index_onto-entries ps i)
    ∙ add_terms-entries p.id (terms_of p) index (names_of ps)

add_entry-ok :
    (index out : Dict String String) (key id : String)
    → add_entry index (key, id) ≡ ok out
    → (k i : String)
    → (lookup k out ≡ some i) ↔ ((lookup k index ≡ some i) ⊎ ((k ≡ key) × (i ≡ id)))
add_entry-ok index out key id h k i = ground (
  arith,
  lookup-insert key k id index,
  text_key.same_iff key k,
  text_key.same_iff i id,
  Option-cases (lookup key index),
)

add_entry-err :
    (index : Dict String String) (key id : String) (e : Error)
    → add_entry index (key, id) ≡ err e
    → (a : String) × (e ≡ alias_conflict key a id) × (lookup key index ≡ some a) × (a ≢ id)
add_entry-err index key id e h = elim (Option-cases (lookup key index)) [
  | inl q ↦ ground (arith, q, h)
  | inr (a, q) ↦ (
    a,
    ground (arith, q, h, text_key.same_iff a id),
    q,
    ground (arith, q, h, text_key.same_iff a id),
  )
]

pair_mem :
    (k i key id : String) (es : List (String × String))
    → Memᴰ (k, i) ((key, id) ∷ es) ↔ (((k ≡ key) × (i ≡ id)) ⊎ Memᴰ (k, i) es)
pair_mem k i key id es = (
  λ m. elim (Memᴰ.cases_cons m) [ inl e ↦ inl (ap (λ p. p.0) e, ap (λ p. p.1) e) | inr t ↦ inr t ],
  λ s. elim s [ inl e ↦ Memᴰ.head (rw (e.0, e.1) refl) | inr t ↦ Memᴰ.tail t ],
)

add_entries-ok :
    (es : List (String × String)) (index out : Dict String String)
    → add_entries index es ≡ ok out
    → (k i : String) → (lookup k out ≡ some i) ↔ ((lookup k index ≡ some i) ⊎ Memᴰ (k, i) es)
add_entries-ok [] index out h k i =
    rw (ok_inj index out h)
      (λ q. inl q, λ q. elim q [ inl p ↦ p | inr m ↦ absurd (Memᴰ.not-nil m) ])
add_entries-ok ((key, id) ∷ es) index out h k i =
    let (mid, p, q) = bind_ok (add_entry index (key, id)) _ out h in
    ground (
      arith,
      add_entry-ok index mid key id p k i,
      add_entries-ok es mid out q k i,
      pair_mem k i key id es,
    )

bind_err :
    {A B : Type 0} (m : Result A) (f : A → Result B) (e : Error)
    → (m >>= f) ≡ err e
    → (m ≡ err e) ⊎ ((a : A) × (m ≡ ok a) × (f a ≡ err e))
bind_err (ok a) f e h = inr (a, refl, h)
bind_err (err d) f e h = inl cc

-- The error that two names of one key cause.
abbrev pub Conflict : (String → String → Type 0) → Error → Type 0
Conflict Named e =
    (key a b : String) × (e ≡ alias_conflict key a b) × (a ≢ b) × Named key a × Named key b

add_entries-err :
    (es : List (String × String)) (index : Dict String String) (e : Error)
    → add_entries index es ≡ err e
    → Conflict (λ k i. (lookup k index ≡ some i) ⊎ Memᴰ (k, i) es) e
add_entries-err [] index e h = cc
add_entries-err ((key, id) ∷ es) index e h = elim (bind_err (add_entry index (key, id)) _ e h) [
  | inl q ↦
      let (a, same, found, new) = add_entry-err index key id e q in
      (key, a, id, same, new, inl found, inr (Memᴰ.head refl))
  | inr (mid, p, q) ↦
      let (k, a, b, same, new, na, nb) = add_entries-err es mid e q in
      (
        k,
        a,
        b,
        same,
        new,
        ground (arith, na, add_entry-ok index mid key id p k a, pair_mem k a key id es),
        ground (arith, nb, add_entry-ok index mid key id p k b, pair_mem k b key id es),
      )
]

-- The alias index of propositions maps a text to an id exactly if a proposition with that id has
-- the text, up to surrounding white space, as id, label or alias. Building the index raises only
-- for a text that names two propositions with different ids, and the error names the text and
-- both ids.
pub proposition_alias_index_exact :
    (ps : List PropositionRecord)
    → ((index : Dict String String)
        → proposition_alias_index ps ≡ ok index
        → (key id : String) → (lookup key index ≡ some id) ↔ Memᴰ (key, id) (names_of ps))
      × ((e : Error)
          → proposition_alias_index ps ≡ err e
          → Conflict (λ key id. Memᴰ (key, id) (names_of ps)) e)
unfolding proposition_alias_index
proposition_alias_index_exact ps = (
  λ index h key id. ground (
    arith,
    add_entries-ok (names_of ps) [] index (sym (alias_index_onto-entries ps []) ∙ h) key id,
  ),
  λ e h.
      let (k, a, b, same, new, na, nb) =
        add_entries-err (names_of ps) [] e (sym (alias_index_onto-entries ps []) ∙ h) in
      (k, a, b, same, new, ground (arith, na), ground (arith, nb)),
)
