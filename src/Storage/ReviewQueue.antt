-- ===== src/Storage/ReviewQueue.antt =====
-- storage/memory.py: the review queue, the list `_review_queue` of the store, and its records in
-- auto_ingest/schemas.py. A function that changes the queue returns the new queue with its result;
-- `now` is the time that the call reads.
pub mod Consistency
pub mod Claims
use nesy_reasoning_mcp.Prelude.{
  ℕ, zero, suc, ◌≡◌, ◌↔◌, String, Bool, true, false, not, ◌&&◌, ◌||◌, Option, some, none, List, [],
  ◌∷◌, map, arith, ◌==◌, text_key, Key, if◌then◌else◌, text_le, filter, count_if, contains, allows,
  is_empty, take, drop, sort_by, Dict, lookup, insert, eqb,
}
use nesy_reasoning_mcp.Schemas.{RelationType, PropositionRecord, Fields, field, end, text, obj}
use nesy_reasoning_mcp.AutoIngest.Decisions.{ReviewDecision}
use nesy_reasoning_mcp.AutoIngest.Records.{
  ReviewQueueStatus, pending, reviewing, committed, resolved, failed, status_key, GateAction,
  auto_write, queue, reject, action_key, CandidateRelation, GateResult, ReviewQueueRecord,
  action_allowed, candidate_consistent, ReviewQueueFilter,
}
use nesy_reasoning_mcp.Storage.Error.{Error, negative_limit, Result, ok, err}
use nesy_reasoning_mcp.Storage.Replace.{replace_by}
use nesy_reasoning_mcp.Storage.Jobs.{Queued}
use nesy_reasoning_mcp.Storage.Memory.Relations.{limited}

abbrev pub Records : Type 0
Records = List ReviewQueueRecord

abbrev pub record_id : ReviewQueueRecord → String
record_id r = r.id

-- `(created_at, id) > (after_created_at, after_id)`, if both are given
abbrev pub after_cursor : Option String → Option String → ReviewQueueRecord → Bool
after_cursor (some created_at) (some id) r =
    not (text_le r.created_at created_at) || r.created_at == created_at && not (text_le r.id id)
after_cursor _ _ r = true

unfoldable pub review_queue_matches_filter : ReviewQueueRecord → ReviewQueueFilter → Bool
review_queue_matches_filter r f =
    if not (is_empty f.ids) && not (contains f.ids r.id)
    then false
    else if not (allows f.status r.status)
    then false
    else if not (allows f.run_id r.run_id)
    then false
    else if not (allows f.candidate_id r.candidate.id)
    then false
    else if not (allows f.store_id r.candidate.store_id)
    then false
    else if not (allows f.context_id r.candidate.context_id)
    then false
    else after_cursor f.after_created_at f.after_id r

-- The stored records and the number of updates.
unfoldable pub enqueue_review_queue : Records → Records → Queued ReviewQueueRecord (Records × ℕ)
unfolding replace_by
enqueue_review_queue current incoming =
    let replaced = replace_by record_id current incoming in
    record { queue = replaced.items; result = (incoming, replaced.updated) }

abbrev pub older_first : ReviewQueueRecord → ReviewQueueRecord → Bool
older_first a b =
    not (text_le b.created_at a.created_at) || a.created_at == b.created_at && text_le a.id b.id

abbrev queue_filter_allows : Option ReviewQueueFilter → ReviewQueueRecord → Bool
queue_filter_allows none r = true
queue_filter_allows (some f) r = review_queue_matches_filter r f

unfoldable pub list_review_queue : Records → Option ReviewQueueFilter → Option ℕ → ℕ → Records
unfolding review_queue_matches_filter
list_review_queue current f limit offset =
    limited limit (drop offset (sort_by older_first (filter (queue_filter_allows f) current)))

abbrev or_empty : Option String → String
or_empty none = ""
or_empty (some s) = s

-- `now or timestamp`: an empty text counts as None.
abbrev pub or_timestamp : Option String → String → String
or_timestamp none timestamp = timestamp
or_timestamp (some now) timestamp = if now == "" then timestamp else now

abbrev retry_due : String → ℕ → Option String → Bool
retry_due due_before attempts none = eqb attempts 0
retry_due due_before attempts (some at) = text_le at due_before

unfoldable pub is_due : String → ReviewQueueRecord → Bool
is_due due_before r = r.status == pending && retry_due due_before r.attempt_count r.next_retry_at

-- The order of the tuples (next_retry_at or "", created_at, id).
abbrev pub due_first : ReviewQueueRecord → ReviewQueueRecord → Bool
due_first a b =
    let x = or_empty a.next_retry_at in
    let y = or_empty b.next_retry_at in not (text_le y x) || x == y && older_first a b

-- `pending[:limit]`
unfoldable pub first_due : String → Records → ℕ → Records
unfolding is_due
first_due due_before current limit =
    take limit (sort_by due_first (filter (is_due due_before) current))

abbrev pub id_among : Records → ReviewQueueRecord → Bool
id_among rs r = contains (map record_id rs) r.id

abbrev pub start_review : String → ReviewQueueRecord → ReviewQueueRecord
start_review timestamp r = record r {
  status = reviewing;
  attempt_count = suc r.attempt_count;
  updated_at = timestamp;
}

-- `timestamp` is the time that the call reads, `now` its argument. The limit is an `int`, whose
-- negative values are `none`.
unfoldable pub claim_pending_review_queue_records :
    String → Records → Option ℕ → Option String → Result (Queued ReviewQueueRecord Records)
unfolding first_due
claim_pending_review_queue_records timestamp current none now = err negative_limit
claim_pending_review_queue_records timestamp current (some zero) now =
    ok (record { queue = current; result = [] })
claim_pending_review_queue_records timestamp current (some (suc n)) now =
    let selected = first_due (or_timestamp now timestamp) current (suc n) in
    let start = start_review timestamp in
    if is_empty selected
    then ok (record { queue = current; result = [] })
    else ok (record {
      queue = map (λ r. if id_among selected r then start r else r) current;
      result = sort_by due_first (map start (filter (id_among selected) current));
    })

-- `{record.id: record for record in incoming}`, onto the entries `d`
unfoldable pub records_by_id :
    Dict String ReviewQueueRecord → Records → Dict String ReviewQueueRecord
records_by_id d [] = d
records_by_id d (r ∷ rs) = records_by_id (insert r.id r d) rs

abbrev pub replaces : Option ReviewQueueStatus → Option ReviewQueueRecord → ReviewQueueRecord → Bool
replaces expected none r = false
replaces expected (some new) r = allows expected r.status

abbrev pub replaced_or : ReviewQueueRecord → Option ReviewQueueRecord → ReviewQueueRecord
replaced_or r none = r
replaced_or r (some new) = new

unfoldable pub update_review_queue_records :
    Records → Records → Option ReviewQueueStatus → Queued ReviewQueueRecord ℕ
unfolding records_by_id
update_review_queue_records current incoming expected =
    let by_id = records_by_id [] incoming in
    record {
      queue =
          map
            (λ (r : ReviewQueueRecord).
              let found = lookup r.id by_id in
              if replaces expected found r then replaced_or r found else r)
            current;
      result =
          count_if (λ (r : ReviewQueueRecord). replaces expected (lookup r.id by_id) r) current;
    }

abbrev ids_or_none : Option (List String) → List String
ids_or_none none = []
ids_or_none (some ids) = ids

abbrev pub commit : String → Dict String (List String) → ReviewQueueRecord → ReviewQueueRecord
commit now relation_ids r = record r {
  status = committed;
  updated_at = now;
  committed_relation_ids = ids_or_none (lookup r.id relation_ids);
}

unfoldable pub mark_review_queue_committed :
    String → Records → List String → Dict String (List String) → Queued ReviewQueueRecord ℕ
mark_review_queue_committed now current ids relation_ids = record {
  queue =
      map (λ (r : ReviewQueueRecord). if contains ids r.id then commit now relation_ids r else r)
        current;
  result = count_if (λ (r : ReviewQueueRecord). contains ids r.id) current;
}

abbrev pub resolve : String → String → Fields → ReviewQueueRecord → ReviewQueueRecord
resolve now reason metadata r = record r {
  status = resolved;
  updated_at = now;
  resolution =
      field "reason" (text reason)
        (field "metadata" (obj metadata) (field "resolved_at" (text now) end));
}

unfoldable pub resolve_review_queue :
    String → Records → List String → String → Fields → Queued ReviewQueueRecord ℕ
resolve_review_queue now current ids reason metadata = record {
  queue =
      map
        (λ (r : ReviewQueueRecord). if contains ids r.id then resolve now reason metadata r else r)
        current;
  result = count_if (λ (r : ReviewQueueRecord). contains ids r.id) current;
}
