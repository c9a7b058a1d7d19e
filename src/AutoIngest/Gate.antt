-- ===== src/AutoIngest/Gate.antt =====
-- auto_ingest/gate.py: `run_dry_run_gate`. The outcome of the reasoning call and the detector of
-- semantic duplicates are arguments, as is the formatting of a confidence; the diagnostics and the
-- reasoning payload, which the gate passes on, are left out.
pub mod Screening
pub mod Safe
use Prim.Native.String.{◌++◌ as text_append}
use nesy_reasoning_mcp.Prelude.{
  ℕ, String, Bool, true, false, not, ◌&&◌, ◌||◌, Option, some, none, List, [], ◌∷◌, ◌++◌, map, ltb,
  ◌==◌, text_key, if◌then◌else◌, filter, is_empty, Dict, lookup, insert,
}
use nesy_reasoning_mcp.Schemas.{
  RelationType, RelationInput, Value, Items, Fields, no_items, item, end, field, bool, text, arr,
  obj,
}
use nesy_reasoning_mcp.Normalization.{ImplicationPreview, normalized_implication_preview}
use nesy_reasoning_mcp.AutoIngest.Decisions.{
  DecisionValue, approve, downgrade, reject, needs_human, decision_key, ReviewDecision,
}
use nesy_reasoning_mcp.AutoIngest.Voting.Summary.{decision_value, type_value, texts}
use nesy_reasoning_mcp.AutoIngest.Records.{CandidateRelation, GateAction, GateResult}

-- What the gate uses of the rest of the program: the outcome of checking the approved relations,
-- the concern that each of them is a duplicate, if it is one, and `f"{confidence:.3f}"`.
pub record GateHost : Type 0 where
  pub reasoning_fails : List RelationInput → Bool
  pub finds_hard_contradiction : List RelationInput → Bool
  pub duplicate_concerns : List RelationInput → List (Option Fields)
  pub show_confidence : ℕ → String

abbrev pub gate : CandidateRelation → GateAction → List String → Fields → GateResult
gate c action reasons metadata = record {
  candidate_id = c.id;
  action = action;
  reasons = reasons;
  metadata = metadata;
}

-- `{review.candidate_id: review for review in reviews}`, onto the entries `d`
unfoldable pub review_by_id :
    Dict String ReviewDecision → List ReviewDecision → Dict String ReviewDecision
review_by_id d [] = d
review_by_id d (r ∷ rs) = review_by_id (insert r.candidate_id r d) rs

abbrev pub or_else {ℓ} : {A : Type ℓ} → Option A → A → A
or_else none a = a
or_else (some b) a = b

abbrev or_reasons : List String → List String → List String
or_reasons [] default = default
or_reasons (r ∷ rs) default = r ∷ rs

previews : List ImplicationPreview → Items
previews [] = no_items
previews (p ∷ ps) =
    item (obj (field "antecedent" (text p.antecedent) (field "consequent" (text p.consequent) end)))
      (previews ps)

unfoldable pub normalized_implication_metadata : CandidateRelation → ReviewDecision → Fields
unfolding previews type_value normalized_implication_preview
normalized_implication_metadata c r =
    let type = or_else r.final_relation_type c.relation_type in
    field "relation_type" (text (type_value type))
      (field "edges" (arr (previews (normalized_implication_preview c.source c.target type))) end)

-- What the first loop makes of a candidate: a result, or an approved candidate with its review.
pub data Screened : Type 0 where
  stopped : GateResult → Screened
  passed : ReviewDecision → Screened

abbrev pub confirmed : Option Bool → Bool
confirmed (some b) = b
confirmed none = false

abbrev review_reasons : ReviewDecision → Fields
review_reasons r = field "review_reasons" (arr (texts r.reasons)) end

abbrev pub written_confidence : CandidateRelation → ReviewDecision → ℕ
written_confidence c r = or_else r.final_confidence c.confidence

unfoldable pub screen : GateHost → ℕ → CandidateRelation → Option ReviewDecision → Screened
unfolding normalized_implication_metadata texts decision_value
screen host min_write c none =
    stopped (gate c GateAction.queue ("missing reviewer decision" ∷ []) end)
screen host min_write c (some r) =
    if r.decision == reject
    then stopped
        (gate c GateAction.reject (or_reasons r.reasons ("reviewer rejected candidate" ∷ [])) end)
    else if (r.decision == approve || r.decision == downgrade)
        && not (confirmed r.normalized_implication_supported)
    then stopped (
        gate c GateAction.queue ("normalized implication support was not confirmed" ∷ []) (
          field "review_reasons" (arr (texts r.reasons))
            (field "normalized_implications" (obj (normalized_implication_metadata c r)) end)))
    else if r.decision == downgrade || r.decision == needs_human
    then stopped (
        gate c GateAction.queue
          (or_reasons r.reasons
            (text_append "reviewer decision: " (decision_value r.decision) ∷ []))
          end)
    else if ltb (written_confidence c r) min_write
    then stopped (
        gate c GateAction.queue
          (text_append "final confidence " (
              text_append (host.show_confidence (written_confidence c r))
                (text_append " below write threshold " (host.show_confidence min_write)))
            ∷ [])
          (review_reasons r))
    else passed r

-- The results of the first loop, and the approved candidates.
abbrev pub Approved : Type 0
Approved = List (CandidateRelation × ReviewDecision)

abbrev pub add_screened :
    CandidateRelation → Screened → List GateResult × Approved → List GateResult × Approved
add_screened c (stopped g) (gs, more) = (g ∷ gs, more)
add_screened c (passed r) (gs, more) = (gs, (c, r) ∷ more)

unfoldable pub screen_all :
    GateHost → ℕ → Dict String ReviewDecision → List CandidateRelation → List GateResult × Approved
unfolding screen
screen_all host min_write reviews [] = ([], [])
screen_all host min_write reviews (c ∷ cs) =
    add_screened c (screen host min_write c (lookup c.id reviews))
      (screen_all host min_write reviews cs)

abbrev objects : List Fields → Items
objects [] = no_items
objects (f ∷ fs) = item (obj f) (objects fs)

abbrev optional_text : Option String → Value
optional_text none = Value.null
optional_text (some s) = text s

abbrev optional_bool : Option Bool → Value
optional_bool none = Value.null
optional_bool (some b) = bool b

-- The relation that is written for a candidate.
unfoldable pub relation_from_review : CandidateRelation → ReviewDecision → RelationInput
unfolding decision_value texts
relation_from_review c r = record {
  id = none;
  fields = record {
    source = c.source;
    source_id = c.source_id;
    target = c.target;
    target_id = c.target_id;
    relation_type = or_else r.final_relation_type c.relation_type;
    confidence = written_confidence c r;
    context_id = c.context_id;
    store_id = c.store_id;
    temporal = none;
    assumptions = [];
    provenance = some (
        field "candidate_id" (text c.id) (
          field "evidence" (arr (objects c.evidence)) (
            field "review"
              (obj (
                field "decision" (text (decision_value r.decision)) (
                  field "reasons" (arr (texts r.reasons)) (
                    field "risk_flags" (arr (texts r.risk_flags)) (
                      field "reviewer_model" (optional_text r.reviewer_model) (
                        field "normalized_implication_supported"
                          (optional_bool r.normalized_implication_supported)
                          (field "metadata" (obj r.metadata) end)))))))
              end)));
    metadata = c.metadata;
  };
}

abbrev pub relations_of : Approved → List RelationInput
relations_of approved =
    map (λ (a : CandidateRelation × ReviewDecision). relation_from_review a.0 a.1) approved

abbrev add_concern : String → Option Fields → Dict String Fields → Dict String Fields
add_concern id none d = d
add_concern id (some concern) d = insert id concern d

-- `{candidate.id: concern for ... in zip(items, concerns) if concern is not None}`
unfoldable pub concerns_by_candidate :
    Dict String Fields → Approved → List (Option Fields) → Dict String Fields
concerns_by_candidate d ((c, r) ∷ more) (o ∷ os) =
    concerns_by_candidate (add_concern c.id o d) more os
concerns_by_candidate d _ _ = d

-- What the second loop knows.
pub record Outcome : Type 0 where
  pub failed : Bool
  pub hard : Bool
  pub duplicates : Dict String Fields

unfoldable pub outcome_of : GateHost → Bool → Approved → Outcome
unfolding relation_from_review concerns_by_candidate
outcome_of host write_enabled approved =
    let relations = relations_of approved in
    let failed = not (is_empty approved) && host.reasoning_fails relations in
    let hard = not (is_empty approved) && host.finds_hard_contradiction relations in
    record {
      failed = failed;
      hard = hard;
      duplicates =
          if write_enabled && (not failed && not hard)
          then concerns_by_candidate [] approved (host.duplicate_concerns relations)
          else [];
    }

abbrev is_known : Option Fields → Bool
is_known none = false
is_known (some f) = true

abbrev pub is_duplicate : Outcome → CandidateRelation → Bool
is_duplicate o c = is_known (lookup c.id o.duplicates)

abbrev write_reason : Bool → String
write_reason true = "write approved; persistent assertion may proceed"
write_reason false = "dry-run approved; no persistent write performed"

unfoldable pub decide : Outcome → Bool → CandidateRelation → ReviewDecision → GateResult
unfolding texts
decide o write_enabled c r =
    if o.failed
    then gate c GateAction.queue ("dry-run reasoning failed" ∷ []) (review_reasons r)
    else if o.hard
    then gate c GateAction.queue ("hard contradiction found in dry-run reasoning" ∷ [])
        (review_reasons r)
    else if is_duplicate o c
    then gate c GateAction.queue ("likely semantic duplicate relation requires human review" ∷ []) (
        field "review_reasons" (arr (texts r.reasons))
          (field "semantic_duplicate" (obj (or_else (lookup c.id o.duplicates) end)) end))
    else gate c GateAction.auto_write (write_reason write_enabled ∷ []) (review_reasons r)

unfoldable pub durable_approved : Outcome → Approved → List RelationInput
unfolding relation_from_review
durable_approved o approved =
    if o.hard || o.failed
    then []
    else relations_of
        (filter (λ (a : CandidateRelation × ReviewDecision). not (is_duplicate o a.0)) approved)

-- The gate's results and the relations that may be written.
unfoldable pub run_dry_run_gate :
    GateHost
    → List CandidateRelation
    → List ReviewDecision
    → ℕ
    → Bool
    → List GateResult × List RelationInput
unfolding screen_all outcome_of decide durable_approved review_by_id
run_dry_run_gate host candidates reviews min_write write_enabled =
    let (results, approved) = screen_all host min_write (review_by_id [] reviews) candidates in
    let outcome = outcome_of host write_enabled approved in
    (
      results
          ++ map (λ (a : CandidateRelation × ReviewDecision). decide outcome write_enabled a.0 a.1)
              approved,
      durable_approved outcome approved,
    )
