-- ===== src/Reasoning/Scope.antt =====
-- reasoning.py: which relations and exclusive groups a context filter lets through.
use nesy_reasoning_mcp.Prelude.{
  String, Bool, true, false, not, ◌&&◌, Option, some, none, List, ◌==◌, text_key, allows, contains,
  all, filter, if◌then◌else◌,
}
use nesy_reasoning_mcp.Schemas.{
  RelationRecord, TemporalWindow, ExclusiveGroupRecord, ExclusiveScope, ContextFilter, in_domain,
}
use nesy_reasoning_mcp.TimeUtils.{Datetime, before, parse_datetime_value}

-- An optional text that is empty filters nothing.
abbrev pub given : Option String → Option String
given none = none
given (some s) = if s == "" then none else some s

abbrev domain_allows : Option String → RelationRecord → Bool
domain_allows none relation = true
domain_allows (some wanted) relation = in_domain relation.metadata wanted

abbrev valid_from_of : Option TemporalWindow → Option String
valid_from_of none = none
valid_from_of (some w) = w.valid_from

abbrev valid_to_of : Option TemporalWindow → Option String
valid_to_of none = none
valid_to_of (some w) = w.valid_to

-- `bound is None or not (earlier < later)`, for the lower and for the upper bound
abbrev starts_by : Option Datetime → Datetime → Bool
starts_by none at = true
starts_by (some bound) at = not (before at bound)

abbrev lasts_to : Option Datetime → Datetime → Bool
lasts_to none at = true
lasts_to (some bound) at = not (before bound at)

module _ (iso : String → Datetime) where
  unfoldable pub valid_at_matches : RelationRecord → Datetime → Bool
  unfolding parse_datetime_value
  valid_at_matches relation valid_at =
      let valid_from =
        parse_datetime_value iso (valid_from_of relation.temporal) none (some valid_at) in
      let valid_to =
        parse_datetime_value iso (valid_to_of relation.temporal) none (some valid_at) in
      if starts_by valid_from valid_at then lasts_to valid_to valid_at else false

  abbrev time_allows : Option Datetime → RelationRecord → Bool
  time_allows none relation = true
  time_allows (some valid_at) relation = valid_at_matches relation valid_at

  -- the branches of `_context_compatible` for a filter that is given
  unfoldable pub context_compatible_with : RelationRecord → ContextFilter → Bool
  unfolding valid_at_matches in_domain
  context_compatible_with relation f =
      if not (allows (given f.store_id) relation.store_id)
      then false
      else if not (allows (given f.context_id) relation.context_id)
      then false
      else if not (domain_allows (given f.domain) relation)
      then false
      else if not (all (contains relation.assumptions) f.assumptions)
      then false
      else time_allows f.valid_at relation

  unfoldable pub context_compatible : RelationRecord → Option ContextFilter → Bool
  context_compatible relation none = true
  context_compatible relation (some f) = context_compatible_with relation f

  unfoldable pub relations_compatible_with_filter :
      List RelationRecord → ContextFilter → List RelationRecord
  unfolding context_compatible
  relations_compatible_with_filter relations f =
      filter (λ relation. context_compatible relation (some f)) relations

abbrev pub is_same_context : ExclusiveScope → Bool
is_same_context ExclusiveScope.same_context = true
is_same_context ExclusiveScope.global = false

unfoldable pub exclusive_group_compatible : ExclusiveGroupRecord → ContextFilter → Bool
exclusive_group_compatible group f =
    if not (allows (given f.store_id) group.store_id)
    then false
    else if is_same_context group.scope
    then allows (given f.context_id) group.context_id
    else true

module _ (iso : String → Datetime) where
  unfoldable pub relations_for_group :
      List RelationRecord → ExclusiveGroupRecord → ContextFilter → List RelationRecord
  unfolding relations_compatible_with_filter
  relations_for_group relations group f =
      let compatible = relations_compatible_with_filter iso relations f in
      if is_same_context group.scope
      then filter
          (λ relation.
            relation.store_id == group.store_id && relation.context_id == group.context_id)
          compatible
      else filter (λ relation. relation.store_id == group.store_id) compatible
