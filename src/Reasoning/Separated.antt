-- ===== src/Reasoning/Separated.antt =====
-- reasoning.py: members of an exclusive group that one source implies over several contexts.
-- A Python set of texts is a list without repetitions. `none` is the ValueError of `find_paths`.
pub mod Collected
pub mod Reports
pub mod Sound
use nesy_reasoning_mcp.Prelude.{
  ℕ, String, Bool, true, false, ◌&&◌, Option, some, none, List, [], ◌∷◌, ◌++◌, map, foldl,
  if◌then◌else◌, Key, ◌==◌, text_key, pair_key, list_key, contains, filter, is_empty, length, ltb,
  dedupe, sort_by, text_le, Dict, keys, concat_map, ◌>>=◌,
}
use nesy_reasoning_mcp.Schemas.{RelationRecord, ExclusiveGroupRecord, ContextFilter}
use nesy_reasoning_mcp.Reasoning.Networkx.{Host}
use nesy_reasoning_mcp.Reasoning.Scope.{relations_compatible_with_filter}
use nesy_reasoning_mcp.Reasoning.Index.{GraphIndex, build_graph}
use nesy_reasoning_mcp.Reasoning.Paths.{ReasoningPath}
use nesy_reasoning_mcp.Reasoning.Exclusive.{reachable_group_members}

-- `severity` is "not_contradiction", and `type` and `reason` are fixed texts.
pub record SeparatedConflict : Type 0 where
  pub source : String
  pub targets : List String
  pub exclusive_group_id : String
  pub contexts : List String

-- The contexts in which each member is reached.
abbrev pub MemberContexts : Type 0
MemberContexts = Dict String (List String)

-- d.setdefault(member, set()).add(context)
abbrev pub add_context : String → String → MemberContexts → MemberContexts
add_context context member [] = (member, context ∷ []) ∷ []
add_context context member ((j, cs) ∷ d) =
    let rest = add_context context member d in
    if j == member
    then (j, if contains cs context then cs else cs ++ (context ∷ [])) ∷ d
    else (j, cs) ∷ rest

abbrev pub add_contexts : String → List String → MemberContexts → MemberContexts
add_contexts context [] d = d
add_contexts context (member ∷ members) d =
    add_contexts context members (add_context context member d)

-- The loop over the hits of a source, on `hits_by_source.setdefault(source, {})`.
abbrev pub add_source :
    String → String → List String → Dict String MemberContexts → Dict String MemberContexts
add_source context source members [] = (source, add_contexts context members []) ∷ []
add_source context source members ((j, hits) ∷ d) =
    let rest = add_source context source members d in
    if j == source then (j, add_contexts context members hits) ∷ d else (j, hits) ∷ rest

abbrev pub context_relations :
    List RelationRecord → ExclusiveGroupRecord → String → List RelationRecord
context_relations compatible group context =
    filter
      (λ (r : RelationRecord).
        r.fields.store_id == group.store_id && r.fields.context_id == context)
      compatible

abbrev pub contexts_of : List RelationRecord → ExclusiveGroupRecord → List String
contexts_of compatible group = sort_by text_le (
    dedupe (
      map (λ (r : RelationRecord). r.fields.context_id)
        (filter (λ (r : RelationRecord). r.fields.store_id == group.store_id) compatible)))

abbrev pub involved_contexts : MemberContexts → List String
involved_contexts hits = sort_by text_le (dedupe (concat_map (λ entry. entry.1) hits))

-- the body of the last loop
unfoldable pub conflict_of : ExclusiveGroupRecord → String × MemberContexts → List SeparatedConflict
conflict_of group (source, hits) =
    if ltb (length hits) 2
    then []
    else if ltb (length (involved_contexts hits)) 2
    then []
    else record {
      source = source;
      targets = sort_by text_le (keys hits);
      exclusive_group_id = group.group_id;
      contexts = involved_contexts hits;
    }
      ∷ []

module _ (host : Host) (group : ExclusiveGroupRecord) (max_depth min_confidence : ℕ) where
  abbrev pub record_hits :
      String
      → String
      → Dict String MemberContexts
      → Dict String ReasoningPath
      → Dict String MemberContexts
  record_hits context source found hits =
      if is_empty hits then found else add_source context source (keys hits) found

  -- the loop over the sources of a context
  unfoldable pub hits_of_sources :
      GraphIndex host
      → String
      → List String
      → Dict String MemberContexts
      → Option (Dict String MemberContexts)
  hits_of_sources index context [] found = some found
  hits_of_sources index context (source ∷ sources) found = do
    hits ← reachable_group_members host index source group.members max_depth min_confidence
    hits_of_sources index context sources (record_hits context source found hits)

  -- the body of the loop over the contexts
  unfoldable pub hits_of_context :
      List RelationRecord
      → String
      → Dict String MemberContexts
      → Option (Dict String MemberContexts)
  hits_of_context compatible context found =
      let index = build_graph host (context_relations compatible group context) none in
      if is_empty (context_relations compatible group context)
      then some found
      else hits_of_sources index context (sort_by text_le (host.nodes index.graph)) found

  unfoldable pub hits_of_contexts :
      List RelationRecord
      → List String
      → Dict String MemberContexts
      → Option (Dict String MemberContexts)
  hits_of_contexts compatible [] found = some found
  hits_of_contexts compatible (context ∷ contexts) found = do
    more ← hits_of_context compatible context found
    hits_of_contexts compatible contexts more

  unfoldable pub context_separated_conflicts :
      List RelationRecord → ContextFilter → Option (List SeparatedConflict)
  context_separated_conflicts relations f = do
    hits_by_source ←
        hits_of_contexts (relations_compatible_with_filter host.iso relations f)
          (contexts_of (relations_compatible_with_filter host.iso relations f) group) []
    some (concat_map (conflict_of group) hits_by_source)

-- The key of `_dedupe_context_separated`.
abbrev pub SeparatedKey : Type 0
SeparatedKey = String × (List String × (String × List String))

abbrev pub separated_key : SeparatedConflict → SeparatedKey
separated_key c = (c.source, (c.targets, (c.exclusive_group_id, c.contexts)))

abbrev pub separated_from : List SeparatedKey → List SeparatedConflict → List SeparatedConflict
separated_from seen [] = []
separated_from seen (item ∷ items) =
    let skipped = separated_from seen items in
    let kept = item ∷ separated_from (separated_key item ∷ seen) items in
    if contains seen (separated_key item) then skipped else kept

unfoldable pub dedupe_context_separated : List SeparatedConflict → List SeparatedConflict
dedupe_context_separated = separated_from []
