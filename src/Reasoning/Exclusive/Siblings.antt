-- ===== src/Reasoning/Exclusive/Siblings.antt =====
-- reasoning.py: the first exclusive sibling that a classification's source also reaches. The outer
-- `none` is the ValueError of `find_paths`.
pub mod Sound
use nesy_reasoning_mcp.Prelude.{
  ℕ, String, Bool, true, false, not, ◌||◌, Option, some, none, List, [], ◌∷◌, if◌then◌else◌, ◌==◌,
  text_key, contains, filter, is_empty, sort_by, text_le, dedupe, map, ◌++◌, ◌>>=◌,
}
use nesy_reasoning_mcp.Schemas.{
  RelationRecord, ExclusiveGroupRecord, ContextFilter, ConfidencePolicy, PathStrategy,
}
use nesy_reasoning_mcp.Reasoning.Networkx.{Host}
use nesy_reasoning_mcp.Reasoning.Scope.{exclusive_group_compatible, relations_for_group}
use nesy_reasoning_mcp.Reasoning.Index.{GraphIndex, build_graph}
use nesy_reasoning_mcp.Reasoning.Paths.{ReasoningPath, PathQuery, find_paths}
use nesy_reasoning_mcp.Reasoning.Temporal.{paths_temporally_compatible}
use nesy_reasoning_mcp.Reasoning.Exclusive.{path_fact_ids}

pub record ClassificationContradiction : Type 0 where
  pub exclusive_group_id : String
  pub context_id : String
  pub store_id : String
  pub target : String
  pub conflicting_target : String
  pub target_path : ReasoningPath
  pub conflicting_path : ReasoningPath

-- The property `fact_ids` of a contradiction.
unfoldable pub contradiction_fact_ids : ClassificationContradiction → List String
contradiction_fact_ids c = path_fact_ids (c.target_path ∷ c.conflicting_path ∷ [])

abbrev pub sibling_query : ℕ → ConfidencePolicy → Bool → ℕ → PathQuery
sibling_query max_depth policy direct_only min_confidence = record {
  max_depth = max_depth;
  strategy = PathStrategy.best_confidence;
  max_paths = 1;
  confidence_policy = policy;
  direct_only = direct_only;
  min_confidence = min_confidence;
}

module _ (host : Host) (source target : String) (q : PathQuery) where
  abbrev Found : Type 0
  Found = Option ClassificationContradiction

  -- the body of the loop over the siblings, with what the later ones find
  unfoldable pub sibling_step :
      ExclusiveGroupRecord
      → ReasoningPath
      → String
      → Option Found
      → List ReasoningPath
      → Option Found
  sibling_step group target_path member later [] = later
  sibling_step group target_path member later (conflicting_path ∷ _) =
      if not (paths_temporally_compatible host.iso (target_path ∷ conflicting_path ∷ []))
      then later
      else some (
          some (record {
            exclusive_group_id = group.group_id;
            context_id = group.context_id;
            store_id = group.store_id;
            target = target;
            conflicting_target = member;
            target_path = target_path;
            conflicting_path = conflicting_path;
          }))

  -- the loop over the siblings, with the first path to the target
  unfoldable pub conflicting_sibling :
      GraphIndex host → ExclusiveGroupRecord → ReasoningPath → List String → Option Found
  conflicting_sibling index group target_path [] = some none
  conflicting_sibling index group target_path (member ∷ members) =
      let later = conflicting_sibling index group target_path members in
      find_paths host index source member q >>= sibling_step group target_path member later

  abbrev siblings : ExclusiveGroupRecord → List String
  siblings group = sort_by text_le (filter (λ item. not (item == target)) group.members)

  -- `if not target_paths: continue`
  unfoldable pub from_target :
      GraphIndex host → ExclusiveGroupRecord → List ReasoningPath → Option Found
  from_target index group [] = some none
  from_target index group (target_path ∷ _) =
      conflicting_sibling index group target_path (siblings group)

  -- the body of the loop over the groups: what the group finds
  unfoldable pub group_sibling :
      List RelationRecord → ExclusiveGroupRecord → ContextFilter → Option Found
  group_sibling relations group f =
      let group_relations = relations_for_group host.iso relations group f in
      let index = build_graph host group_relations none in
      if not (contains group.members target) || not (exclusive_group_compatible group f)
      then some none
      else if is_empty group_relations
      then some none
      else find_paths host index source target q >>= from_target index group

  abbrev pub first_found : Option Found → Found → Option Found
  first_found later none = later
  first_found later (some c) = some (some c)

  unfoldable pub find_classification_contradiction :
      List RelationRecord → List ExclusiveGroupRecord → ContextFilter → Option Found
  find_classification_contradiction relations [] f = some none
  find_classification_contradiction relations (group ∷ groups) f =
      let later = find_classification_contradiction relations groups f in
      group_sibling relations group f >>= first_found later
