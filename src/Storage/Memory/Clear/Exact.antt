-- ===== src/Storage/Memory/Clear/Exact.antt =====
-- storage/memory.py: `clear_relations` removes what its scope matches, and counts it.
use nesy_reasoning_mcp.Prelude.{
  ◌+◌, ◌≡◌, ◌↔◌, refl, sym, ◌∙◌, String, Bool, true, false, not, ◌||◌, List, [], ◌∷◌, count_if,
  filter, length, arith, ◌==◌, text_key, if◌then◌else◌, Bool-cases, inl, inr, length-filter-not,
  Memᴰ, Memᴰ-filter,
}
use mathlib.Core.List.Memᴰ
use mathlib.Core.Bool.{false≢true}
use nesy_reasoning_mcp.Schemas.{RelationRecord}
use nesy_reasoning_mcp.Storage.Error.{unsupported_scope, ok, err}
use nesy_reasoning_mcp.Storage.Memory.{MemoryStore}
use nesy_reasoning_mcp.Storage.Memory.Clear.{
  ClearRequest, Cleared, clear_predicate, clear_all, clear_scope, clear_relations,
  group_matches_clear,
}

-- Which relations a request selects.
abbrev pub selects : ClearRequest → RelationRecord → Bool
selects q r = if q.scope == "all" then true else clear_predicate q r

-- What a request does to the store that it is given.
abbrev pub Clears : MemoryStore → ClearRequest → Cleared → Type 0
Clears s q out =
    (out.removed ≡ count_if (selects q) s.relations)
    × (q.dry_run ≡ true → out.store ≡ s)
    × (q.dry_run ≡ false
        → (out.removed + length out.store.relations ≡ length s.relations)
          × (out.removed_groups + length out.store.exclusive_groups ≡ length s.exclusive_groups)
          × ((r : RelationRecord)
              → Memᴰ r out.store.relations ↔ (Memᴰ r s.relations × (selects q r ≡ false))))

count_if-true :
    {A : Type 0} (p : A → Bool) (xs : List A) → ((x : A) → p x ≡ true) → count_if p xs ≡ length xs
count_if-true p [] h = refl
count_if-true p (x ∷ xs) h = ground (arith, h x, count_if-true p xs h)

count_if-cong :
    {A : Type 0} (p q : A → Bool) (xs : List A)
    → ((x : A) → p x ≡ q x)
    → count_if p xs ≡ count_if q xs
count_if-cong p q [] h = refl
count_if-cong p q (x ∷ xs) h = ground (arith, h x, count_if-cong p q xs h)

selects-all :
    (q : ClearRequest) (r : RelationRecord) → (q.scope == "all") ≡ true → selects q r ≡ true
selects-all q r h = rw h refl

selects-scoped :
    (q : ClearRequest) (r : RelationRecord)
    → (q.scope == "all") ≡ false
    → selects q r ≡ clear_predicate q r
selects-scoped q r h = rw h refl

clear_all-Clears :
    (s : MemoryStore) (q : ClearRequest) → (q.scope == "all") ≡ true → Clears s q (clear_all s q)
unfolding clear_all clear_predicate
clear_all-Clears s q all = (
  sym (count_if-true (selects q) s.relations (λ r. selects-all q r all)),
  λ d. rw d refl,
  λ d. rw d (
    omega arith,
    ground arith,
    λ r. (λ m. absurd (Memᴰ.not-nil m), λ m. absurd (false≢true (sym m.1 ∙ selects-all q r all))),
  ),
)

kept_by_scope :
    (q : ClearRequest) (xs : List RelationRecord) (r : RelationRecord)
    → (q.scope == "all") ≡ false
    → Memᴰ r (filter (λ r. not (clear_predicate q r)) xs) ↔ (Memᴰ r xs × (selects q r ≡ false))
kept_by_scope q xs r scoped =
    ground (arith, Memᴰ-filter (λ r. not (clear_predicate q r)) r xs, selects-scoped q r scoped)

clear_scope-Clears :
    (s : MemoryStore) (q : ClearRequest) → (q.scope == "all") ≡ false → Clears s q (clear_scope s q)
unfolding clear_scope
clear_scope-Clears s q scoped = (
  count_if-cong (clear_predicate q) (selects q) s.relations (λ r. sym (selects-scoped q r scoped)),
  λ d. rw d refl,
  λ d. rw d (
    length-filter-not (clear_predicate q) s.relations,
    ground (arith, length-filter-not (group_matches_clear q) s.exclusive_groups),
    λ r. kept_by_scope q s.relations r scoped,
  ),
)

-- The scopes that `clear_relations` knows.
abbrev pub known_scope : String → Bool
known_scope scope = scope == "all" || (scope == "store" || scope == "context" || scope == "filter")

-- Clearing an unknown scope is an error. Clearing a known one returns the number of the selected
-- relations; a dry run leaves the store as it is; otherwise exactly the selected relations are
-- removed, and the two returned numbers are those by which the relations and the groups shrink.
pub clear_relations_exact :
    (s : MemoryStore) (q : ClearRequest)
    → (known_scope q.scope ≡ false → clear_relations s q ≡ err (unsupported_scope q.scope))
      × (known_scope q.scope ≡ true
          → (out : Cleared) × (clear_relations s q ≡ ok out) × Clears s q out)
unfolding clear_relations
clear_relations_exact s q = elim (Bool-cases (q.scope == "all")) [
  | inl all ↦ (λ h. ground arith, λ h. (clear_all s q, rw all refl, clear_all-Clears s q all))
  | inr scoped ↦
      (λ h. ground arith, λ h. (clear_scope s q, ground arith, clear_scope-Clears s q scoped))
]
