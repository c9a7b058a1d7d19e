-- ===== src/Reasoning/Negation.antt =====
-- reasoning.py: contradictions between a proposition and its explicit negation. `none` is the
-- ValueError of `find_paths`.
pub mod Pairs
pub mod Searches
pub mod Sound
use Prim.Native.Char.{Char, code}
use nesy_reasoning_mcp.Prelude.{
  ℕ, String, Bool, true, false, not, ◌&&◌, ◌||◌, Option, some, none, List, [], ◌∷◌, ◌++◌, map,
  if◌then◌else◌, Key, ◌==◌, text_key, pair_key, contains, is_empty, length, leb, ltb, eqb, dedupe,
  sort_by, text_le, pair_le, list_key, zero, suc, ◌+◌, Dict, group_by, concat_map, ◌>>=◌,
}
use nesy_reasoning_mcp.Text.{strip}
use nesy_reasoning_mcp.Schemas.{RelationRecord, PropositionRecord}
use nesy_reasoning_mcp.Reasoning.Networkx.{Host}
use nesy_reasoning_mcp.Reasoning.Index.{GraphIndex, build_graph}
use nesy_reasoning_mcp.Reasoning.Paths.{ReasoningPath, find_paths}
use nesy_reasoning_mcp.Reasoning.Temporal.{paths_temporally_compatible}
use nesy_reasoning_mcp.Reasoning.Exclusive.{member_query, path_fact_ids}

pub data NegationType : Type 0 where
  cycle_to_exclusion direct_opposition : NegationType

-- The entries of a contradiction; `severity` is "hard" and `reason` a fixed text.
pub record NegationContradiction : Type 0 where
  pub type : NegationType
  pub source : String
  pub targets : List String
  pub path : Option (List String)
  pub context_id : String
  pub store_id : String
  pub fact_ids : List String

-- The ASCII capitals in lower case; no other character has one of n, o, t as its lower case.
lower_letter : ℕ → ℕ
lower_letter c = if leb 65 c && leb c 90 then c + 32 else c

-- value.lower().startswith(prefix), for a prefix of such letters, ":" and " "
starts_lower : String → String → Bool
unfolding lower_letter
starts_lower s String.[] = true
starts_lower String.[] (String.◌∷◌ d p) = false
starts_lower (String.◌∷◌ c s) (String.◌∷◌ d p) =
    eqb (lower_letter (code c)) (code d) && starts_lower s p

drop_chars : ℕ → String → String
drop_chars zero s = s
drop_chars (suc n) String.[] = String.[]
drop_chars (suc n) (String.◌∷◌ c s) = drop_chars n s

-- value.startswith("¬")
starts_not_sign : String → Bool
starts_not_sign String.[] = false
starts_not_sign (String.◌∷◌ c s) = eqb (code c) 172

-- base or None
abbrev text_or_none : String → Option String
text_or_none base = if base == "" then none else some base

unfoldable pub explicit_negation_base : String → Option String
unfolding starts_lower drop_chars starts_not_sign
explicit_negation_base value =
    let stripped = strip value in
    if starts_not_sign stripped
    then text_or_none (strip (drop_chars 1 stripped))
    else if starts_lower stripped "not:"
    then text_or_none (strip (drop_chars 4 stripped))
    else if starts_lower stripped "not "
    then text_or_none (strip (drop_chars 4 stripped))
    else none

-- the first loop: what the proposition adds to `pairs`
unfoldable pub declared_pair : List String → PropositionRecord → List (String × String)
declared_pair nodes p = elim p.negates [
  | none ↦ []
  | some base ↦ if contains nodes p.id && contains nodes base then (p.id, base) ∷ [] else []
]

-- the second loop: what the node adds to `pairs`
unfoldable pub spelled_pair : List String → String → List (String × String)
spelled_pair nodes node = elim (explicit_negation_base node) [
  | none ↦ []
  | some base ↦ if contains nodes base then (node, base) ∷ [] else []
]

unfoldable pub negation_pairs_for_nodes :
    List String → List PropositionRecord → List (String × String)
negation_pairs_for_nodes nodes propositions = sort_by pair_le (
    dedupe (concat_map (declared_pair nodes) propositions ++ concat_map (spelled_pair nodes) nodes))

abbrev pub relations_by_scope : List RelationRecord → Dict (String × String) (List RelationRecord)
relations_by_scope = group_by (λ (r : RelationRecord). (r.fields.store_id, r.fields.context_id))

-- The key of `_dedupe_contradictions`, with the value of `type`.
abbrev pub NegationKey : Type 0
NegationKey = String × (String × (List String × (String × (String × List String))))

unfoldable pub negation_key : NegationContradiction → NegationKey
negation_key c = (
  elim c.type [
    | NegationType.cycle_to_exclusion ↦ "cycle_to_exclusion"
    | NegationType.direct_opposition ↦ "direct_opposition"
  ],
  (c.source, (c.targets, (c.context_id, (c.store_id, c.fact_ids)))),
)

unfoldable pub dedupe_from :
    List NegationKey → List NegationContradiction → List NegationContradiction
dedupe_from seen [] = []
dedupe_from seen (item ∷ items) = elim (contains seen (negation_key item)) [
  | true ↦ dedupe_from seen items
  | false ↦ item ∷ dedupe_from (negation_key item ∷ seen) items
]

unfoldable pub dedupe_contradictions : List NegationContradiction → List NegationContradiction
unfolding dedupe_from
dedupe_contradictions = dedupe_from []

module _ (host : Host) where
  -- The variables that the two loops over `negated_nodes` share.
  pub record SourceSearch : Type 0 where
    pub index : GraphIndex host
    pub source : String
    pub context_id : String
    pub store_id : String
    pub max_depth : ℕ
    pub min_confidence : ℕ

  unfoldable pub search_paths : SourceSearch → String → Option (List ReasoningPath)
  search_paths q target =
      find_paths host q.index q.source target (member_query q.max_depth q.min_confidence)

  -- the body of `_cycle_to_exclusion_contradictions` after `base != source`
  unfoldable pub cycle_of : SourceSearch → String → List ReasoningPath → List NegationContradiction
  cycle_of q negated [] = []
  cycle_of q negated (path ∷ _) =
      if leb (length path.edges) 1
      then []
      else if not (paths_temporally_compatible host.iso (path ∷ []))
      then []
      else record {
        type = NegationType.cycle_to_exclusion;
        source = q.source;
        targets = q.source ∷ negated ∷ [];
        path = some path.nodes;
        context_id = q.context_id;
        store_id = q.store_id;
        fact_ids = path_fact_ids (path ∷ []);
      }
        ∷ []

  unfoldable pub cycle_to_exclusion_contradictions :
      SourceSearch → List (String × String) → Option (List NegationContradiction)
  cycle_to_exclusion_contradictions q [] = some []
  cycle_to_exclusion_contradictions q ((negated, base) ∷ pairs) = do
    paths ← if base == q.source then search_paths q negated else some []
    rest ← cycle_to_exclusion_contradictions q pairs
    some (cycle_of q negated paths ++ rest)

  -- the body of `_direct_opposition_contradictions`
  unfoldable pub opposition_of :
      SourceSearch
      → String
      → String
      → List ReasoningPath
      → List ReasoningPath
      → List NegationContradiction
  opposition_of q negated base (positive ∷ _) (negative ∷ _) =
      if q.source == base && ltb 1 (length negative.edges)
      then []
      else if not (paths_temporally_compatible host.iso (positive ∷ negative ∷ []))
      then []
      else record {
        type = NegationType.direct_opposition;
        source = q.source;
        targets = base ∷ negated ∷ [];
        path = none;
        context_id = q.context_id;
        store_id = q.store_id;
        fact_ids = path_fact_ids (positive ∷ negative ∷ []);
      }
        ∷ []
  opposition_of q negated base _ _ = []

  unfoldable pub direct_opposition_contradictions :
      SourceSearch → List (String × String) → Option (List NegationContradiction)
  direct_opposition_contradictions q [] = some []
  direct_opposition_contradictions q ((negated, base) ∷ pairs) = do
    positive_paths ← search_paths q base
    negative_paths ← search_paths q negated
    rest ← direct_opposition_contradictions q pairs
    some (opposition_of q negated base positive_paths negative_paths ++ rest)

  -- the loop over the sources of a scope
  unfoldable pub negations_from :
      (String → SourceSearch)
      → List (String × String)
      → List String
      → Option (List NegationContradiction)
  negations_from at_source pairs [] = some []
  negations_from at_source pairs (source ∷ sources) = do
    cycles ← cycle_to_exclusion_contradictions (at_source source) pairs
    oppositions ← direct_opposition_contradictions (at_source source) pairs
    rest ← negations_from at_source pairs sources
    some (cycles ++ (oppositions ++ rest))

  -- the body of the loop over the scopes
  unfoldable pub scope_negations :
      List PropositionRecord
      → ℕ
      → ℕ
      → (String × String) × List RelationRecord
      → Option (List NegationContradiction)
  scope_negations propositions max_depth min_confidence (scope, relations) =
      let index = build_graph host relations none in
      let nodes = sort_by text_le (host.nodes index.graph) in
      let pairs = negation_pairs_for_nodes nodes propositions in
      if is_empty pairs
      then some []
      else negations_from
          (λ source. record {
            index = index;
            source = source;
            context_id = scope.1;
            store_id = scope.0;
            max_depth = max_depth;
            min_confidence = min_confidence;
          })
          pairs nodes

  unfoldable pub scopes_negations :
      List PropositionRecord
      → ℕ
      → ℕ
      → Dict (String × String) (List RelationRecord)
      → Option (List NegationContradiction)
  scopes_negations propositions max_depth min_confidence [] = some []
  scopes_negations propositions max_depth min_confidence (entry ∷ entries) = do
    found ← scope_negations propositions max_depth min_confidence entry
    rest ← scopes_negations propositions max_depth min_confidence entries
    some (found ++ rest)

  unfoldable pub explicit_negation_contradictions :
      List RelationRecord → ℕ → ℕ → List PropositionRecord → Option (List NegationContradiction)
  explicit_negation_contradictions relations max_depth min_confidence propositions = do
    found ← scopes_negations propositions max_depth min_confidence (relations_by_scope relations)
    some (dedupe_contradictions found)
