-- ===== src/Examples/ReviewQueue.antt =====
-- The theorems on the review queue at a queue of two records.
use nesy_reasoning_mcp.Prelude.{
  ◌≤◌, String, ◌≡◌, refl, true, Option, some, none, [], ◌∷◌, Memᴰ, length, count_if, map, All-Memᴰ,
  contains_iff, text_key,
}
use mathlib.Core.Bool.{false≢true}
use mathlib.Core.List.Memᴰ
use nesy_reasoning_mcp.Schemas.{RelationType, end}
use nesy_reasoning_mcp.Storage.Error.{ok, err}
use nesy_reasoning_mcp.Storage.Jobs.{Queued}
use nesy_reasoning_mcp.AutoIngest.Records.{ReviewQueueRecord, pending, queue, candidate_consistent}
use nesy_reasoning_mcp.Storage.ReviewQueue.{
  Records, record_id, is_due, first_due, start_review, claim_pending_review_queue_records,
  enqueue_review_queue, mark_review_queue_committed,
}
use nesy_reasoning_mcp.Storage.ReviewQueue.Claims.{
  Started, claim_pending_review_queue_records_exact,
}
use nesy_reasoning_mcp.Storage.ReviewQueue.Consistency.{
  Sound, QueuedAmong, ReviewReachable, empty, after, enqueued, claimed, committed_as,
  review_queue_invariant,
}

abbrev queued_record : String → Option String → ReviewQueueRecord
queued_record id next_retry_at = record {
  id = id;
  status = pending;
  run_id = "run";
  run_metadata = end;
  candidate = record {
    id = "c1";
    source = "a";
    source_id = none;
    target = "b";
    target_id = none;
    relation_type = RelationType.sufficient;
    confidence = 1;
    context_id = "default";
    store_id = "default";
    evidence = [];
    metadata = end;
  };
  review = none;
  gate_result = record { candidate_id = "c1"; action = queue; reasons = []; metadata = end };
  diagnostics = [];
  propositions = [];
  context_metadata = end;
  source_job_ids = [];
  attempt_count = 0;
  next_retry_at = next_retry_at;
  created_at = "2026-01-01";
  updated_at = "2026-01-01";
  committed_relation_ids = [];
  resolution = end;
}

-- The second record waits for its next retry.
abbrev two_records : Records
two_records = queued_record "q1" none ∷ queued_record "q2" (some "2026-02-01") ∷ []

abbrev claim : Queued ReviewQueueRecord Records
claim = elim (claim_pending_review_queue_records "2026-01-02" two_records (some 5) none) [
  | ok q ↦ q
  | err e ↦ record { queue = []; result = [] }
]

claim_run :
    (claim_pending_review_queue_records "2026-01-02" two_records (some 5) none ≡ ok claim)
    × (claim.result ≡ start_review "2026-01-02" (queued_record "q1" none) ∷ [])
unfolding claim_pending_review_queue_records first_due is_due
claim_run = (refl, refl)

two_records-Sound : Sound two_records
unfolding candidate_consistent
two_records-Sound = (
  λ r m. All-Memᴰ (λ x. candidate_consistent x ≡ true) two_records (refl, (refl, tt)) m,
  (λ m. absurd (false≢true ((contains_iff ("q2" ∷ []) "q1").1 m)), (Memᴰ.not-nil, tt)),
)

built : ReviewReachable two_records
unfolding enqueue_review_queue
built = after [] two_records empty (enqueued [] two_records two_records-Sound)

claim_pending_review_queue_records_exact_example :
    (5 ≤ count_if (is_due "2026-01-02") two_records → length claim.result ≡ 5)
    × (count_if (is_due "2026-01-02") two_records ≤ 5
        → length claim.result ≡ count_if (is_due "2026-01-02") two_records)
    × ((r : ReviewQueueRecord)
        → Memᴰ r claim.result
        → Started "2026-01-02" "2026-01-02" two_records r × Memᴰ r claim.queue)
    × ((r : ReviewQueueRecord)
        → Memᴰ r two_records
        → (¬ Memᴰ r.id (map record_id claim.result))
        → Memᴰ r claim.queue)
    × (map record_id claim.queue ≡ map record_id two_records)
claim_pending_review_queue_records_exact_example =
    claim_pending_review_queue_records_exact "2026-01-02" two_records 5 none claim
      two_records-Sound.1 claim_run.0

-- Both records are claimed or left, and the first one is then committed.
all_queued : QueuedAmong ("q1" ∷ []) claim.queue
unfolding claim_pending_review_queue_records first_due is_due
all_queued = λ r m _.
    All-Memᴰ (λ (x : ReviewQueueRecord). x.gate_result.action ≡ queue) claim.queue
      (refl, (refl, tt)) m

review_queue_invariant_example :
    Sound (mark_review_queue_committed "2026-01-03" claim.queue ("q1" ∷ []) []).queue
review_queue_invariant_example =
    review_queue_invariant
      (mark_review_queue_committed "2026-01-03" claim.queue ("q1" ∷ []) []).queue
      (after claim.queue _
        (after two_records claim.queue built
          (claimed "2026-01-02" two_records (some 5) none claim claim_run.0))
        (committed_as "2026-01-03" claim.queue ("q1" ∷ []) [] all_queued))
