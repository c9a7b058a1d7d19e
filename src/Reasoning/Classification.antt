-- ===== src/Reasoning/Classification.antt =====
-- reasoning.py: `classify_reachability` and `expected_relation_matches`.
pub mod Valid
use nesy_reasoning_mcp.Prelude.{Bool, true, false, not, List, is_empty, if◌then◌else◌}
use nesy_reasoning_mcp.Schemas.{Classification, ExpectedRelation}
use nesy_reasoning_mcp.Reasoning.Paths.{ReasoningPath}

unfoldable pub classify_reachability : List ReasoningPath → List ReasoningPath → Classification
classify_reachability source_to_target target_to_source =
    let forward = not (is_empty source_to_target) in
    let reverse = not (is_empty target_to_source) in
    if forward
    then if reverse then Classification.equivalent else Classification.sufficient
    else if reverse
    then Classification.necessary
    else Classification.unknown

unfoldable pub expected_relation_matches : ExpectedRelation → Classification → Bool
expected_relation_matches ExpectedRelation.any Classification.unknown = false
expected_relation_matches ExpectedRelation.any _ = true
expected_relation_matches ExpectedRelation.sufficient Classification.sufficient = true
expected_relation_matches ExpectedRelation.sufficient Classification.equivalent = true
expected_relation_matches ExpectedRelation.sufficient _ = false
expected_relation_matches ExpectedRelation.necessary Classification.necessary = true
expected_relation_matches ExpectedRelation.necessary Classification.equivalent = true
expected_relation_matches ExpectedRelation.necessary _ = false
expected_relation_matches ExpectedRelation.equivalent Classification.equivalent = true
expected_relation_matches ExpectedRelation.equivalent _ = false
