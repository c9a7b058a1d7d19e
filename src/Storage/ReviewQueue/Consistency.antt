-- ===== src/Storage/ReviewQueue/Consistency.antt =====
-- storage/memory.py, auto_ingest/schemas.py: the stored copies skip the validator
-- `require_candidate_consistency`; the calls keep it true nevertheless.
use nesy_reasoning_mcp.Prelude.{
  ℕ, ◌≡◌, inl, inr, refl, sym, String, Bool, true, Option, some, none, List, [], ◌∷◌, map, ◌==◌,
  text_key, if◌then◌else◌, All, All-Memᴰ, All-insert, Memᴰ, Memᴰ-map, Bool-cases, Option-cases,
  contains, Dict, lookup, insert, lookup-Memᴰ, Unique, map-keys_kept, &&_iff,
}
use mathlib.Core.List.Memᴰ
use nesy_reasoning_mcp.Schemas.{Fields}
use nesy_reasoning_mcp.Storage.Error.{ok}
use nesy_reasoning_mcp.Storage.Replace.{replace_by_exact, replace_by-Unique}
use nesy_reasoning_mcp.Storage.Jobs.{Queued}
use nesy_reasoning_mcp.AutoIngest.Records.{
  ReviewQueueRecord, ReviewQueueStatus, pending, status_key, queue, action_key, action_allowed,
  candidate_consistent,
}
use nesy_reasoning_mcp.Storage.ReviewQueue.{
  Records, record_id, is_due, first_due, id_among, start_review, or_timestamp,
  claim_pending_review_queue_records, enqueue_review_queue, update_review_queue_records,
  records_by_id, replaces, replaced_or, mark_review_queue_committed, commit, resolve_review_queue,
  resolve,
}
use nesy_reasoning_mcp.Storage.ReviewQueue.Claims.{claim-Takes, selected-IsDue}

abbrev pub Consistent : ReviewQueueRecord → Type 0
Consistent r = candidate_consistent r ≡ true

-- What holds of the whole queue.
abbrev pub Sound : Records → Type 0
Sound rs = ((r : ReviewQueueRecord) → Memᴰ r rs → Consistent r) × Unique record_id rs

-- Whether the record that is to be changed is one that the gate has queued.
abbrev pub QueuedAmong : List String → Records → Type 0
QueuedAmong ids rs =
    (r : ReviewQueueRecord) → Memᴰ r rs → contains ids r.id ≡ true → r.gate_result.action ≡ queue

start_review-Consistent :
    (timestamp due_before : String) (r : ReviewQueueRecord)
    → is_due due_before r ≡ true
    → Consistent r
    → Consistent (start_review timestamp r)
unfolding candidate_consistent is_due
start_review-Consistent timestamp due_before r due c =
    let (idle, _) = (&&_iff (r.status == pending) _).0 due in
    rw ((status_key.same_iff r.status pending).0 idle) at c

commit-Consistent :
    (now : String) (relation_ids : Dict String (List String)) (r : ReviewQueueRecord)
    → r.gate_result.action ≡ queue
    → Consistent r
    → Consistent (commit now relation_ids r)
unfolding candidate_consistent
commit-Consistent now relation_ids r q c =
    rw q ((&&_iff (action_allowed r.status r.gate_result.action) _).0 c).1

resolve-Consistent :
    (now reason : String) (metadata : Fields) (r : ReviewQueueRecord)
    → r.gate_result.action ≡ queue
    → Consistent r
    → Consistent (resolve now reason metadata r)
unfolding candidate_consistent
resolve-Consistent now reason metadata r q c =
    rw q ((&&_iff (action_allowed r.status r.gate_result.action) _).0 c).1

-- Changing the records that a test selects.
change-Sound :
    (p : ReviewQueueRecord → Bool) (f : ReviewQueueRecord → ReviewQueueRecord) (rs : Records)
    → ((r : ReviewQueueRecord) → p r ≡ true → (f r).id ≡ r.id)
    → ((r : ReviewQueueRecord) → Memᴰ r rs → p r ≡ true → Consistent r → Consistent (f r))
    → Sound rs
    → Sound (map (λ r. if p r then f r else r) rs)
change-Sound p f rs keeps sound (all, u) = (
  λ r m.
      let (old, n, e) = Memᴰ-map (λ r. if p r then f r else r) rs r m in
      rw e (elim (Bool-cases (p old)) [
        | inl y ↦ rw y (sound old n y (all old n))
        | inr y ↦ rw y (all old n)
      ]),
  let same =
        map-keys_kept record_id (λ r. if p r then f r else r) rs
          (λ r. elim (Bool-cases (p r)) [ inl y ↦ rw y (keeps r y) | inr y ↦ rw y refl ]) in
      rw same u,
)

abbrev Stored : String × ReviewQueueRecord → Type 0
Stored e = (e.0 ≡ e.1.id) × Consistent e.1

records_by_id-Stored :
    (rs : Records) (d : Dict String ReviewQueueRecord)
    → All Consistent rs
    → All Stored d
    → All Stored (records_by_id d rs)
unfolding records_by_id
records_by_id-Stored [] d c h = h
records_by_id-Stored (r ∷ rs) d (c, cs) h =
    records_by_id-Stored rs (insert r.id r d) cs (All-insert Stored r.id r d (λ j e. (e, c)) h)

found-Stored :
    (rs : Records) (id : String) (r : ReviewQueueRecord)
    → All Consistent rs
    → lookup id (records_by_id [] rs) ≡ some r
    → (id ≡ r.id) × Consistent r
found-Stored rs id r c h =
    All-Memᴰ Stored (records_by_id [] rs) (records_by_id-Stored rs [] c tt)
      (lookup-Memᴰ id r (records_by_id [] rs) h)

enqueue-Sound :
    (current incoming : Records)
    → Sound current
    → Sound incoming
    → Sound (enqueue_review_queue current incoming).queue
unfolding enqueue_review_queue
enqueue-Sound current incoming (all, u) (new, v) = (
  λ r m. elim (((replace_by_exact record_id current incoming).0 r).0 m) [
    | inl old ↦ all r old.0
    | inr fresh ↦ new r fresh
  ],
  replace_by-Unique record_id current incoming u v,
)

claim-Sound :
    (timestamp : String) (current : Records) (limit : Option ℕ) (now : Option String)
    (out : Queued ReviewQueueRecord Records)
    → claim_pending_review_queue_records timestamp current limit now ≡ ok out
    → Sound current
    → Sound out.queue
unfolding claim_pending_review_queue_records
claim-Sound timestamp current none now out h sound = cc
claim-Sound timestamp current (some n) now out h sound =
    let due_before = or_timestamp now timestamp in
    rw (claim-Takes timestamp current n now out h).0 (
      change-Sound (id_among (first_due due_before current n)) (start_review timestamp) current
        (λ r _. refl)
        (λ r m e.
          start_review-Consistent timestamp due_before r
            (selected-IsDue due_before current n r sound.1 m e))
        sound)

update-Sound :
    (current incoming : Records) (expected : Option ReviewQueueStatus)
    → All Consistent incoming
    → Sound current
    → Sound (update_review_queue_records current incoming expected).queue
unfolding update_review_queue_records
update-Sound current incoming expected c sound =
    let found = λ (r : ReviewQueueRecord). lookup r.id (records_by_id [] incoming) in
    change-Sound (λ r. replaces expected (found r) r) (λ r. replaced_or r (found r)) current
      (λ r e. elim (Option-cases (found r)) [
        | inl n ↦ rw n refl
        | inr (new, n) ↦ rw n (sym (found-Stored incoming r.id new c n).0)
      ])
      (λ r m e old. elim (Option-cases (found r)) [
        | inl n ↦ rw n old
        | inr (new, n) ↦ rw n (found-Stored incoming r.id new c n).1
      ])
      sound

-- The calls that change the review queue. Records are validated when they are constructed; the
-- callers commit and resolve records that the gate has queued.
pub data ReviewStep : Records → Records → Type 0 where
  enqueued :
      (current incoming : Records)
      → Sound incoming
      → ReviewStep current (enqueue_review_queue current incoming).queue
  claimed :
      (timestamp : String) (current : Records) (limit : Option ℕ) (now : Option String)
      (out : Queued ReviewQueueRecord Records)
      → claim_pending_review_queue_records timestamp current limit now ≡ ok out
      → ReviewStep current out.queue
  updated :
      (current incoming : Records) (expected : Option ReviewQueueStatus)
      → All Consistent incoming
      → ReviewStep current (update_review_queue_records current incoming expected).queue
  committed_as :
      (now : String) (current : Records) (ids : List String)
      (relation_ids : Dict String (List String))
      → QueuedAmong ids current
      → ReviewStep current (mark_review_queue_committed now current ids relation_ids).queue
  resolved_as :
      (now : String) (current : Records) (ids : List String) (reason : String) (metadata : Fields)
      → QueuedAmong ids current
      → ReviewStep current (resolve_review_queue now current ids reason metadata).queue

pub data ReviewReachable : Records → Type 0 where
  empty : ReviewReachable []
  after :
      (before next : Records)
      → ReviewReachable before
      → ReviewStep before next
      → ReviewReachable next

step-Sound : (before next : Records) → ReviewStep before next → Sound before → Sound next
unfolding mark_review_queue_committed resolve_review_queue
step-Sound _ _ (enqueued current incoming new) sound = enqueue-Sound current incoming sound new
step-Sound _ _ (claimed timestamp current limit now out h) sound =
    claim-Sound timestamp current limit now out h sound
step-Sound _ _ (updated current incoming expected c) sound =
    update-Sound current incoming expected c sound
step-Sound _ _ (committed_as now current ids relation_ids q) sound =
    change-Sound (λ (r : ReviewQueueRecord). contains ids r.id) (commit now relation_ids) current
      (λ r _. refl) (λ r m e. commit-Consistent now relation_ids r (q r m e)) sound
step-Sound _ _ (resolved_as now current ids reason metadata q) sound =
    change-Sound (λ (r : ReviewQueueRecord). contains ids r.id) (resolve now reason metadata)
      current (λ r _. refl) (λ r m e. resolve-Consistent now reason metadata r (q r m e)) sound

-- Whatever calls the review queue has seen since it was empty, if enqueued records are valid and
-- have distinct ids, updates are valid, and only records with the gate action `queue` are committed
-- or resolved, then every record in the queue would pass the validator and no two share an id.
pub review_queue_invariant : (current : Records) → ReviewReachable current → Sound current
review_queue_invariant _ empty = (λ r m. absurd (Memᴰ.not-nil m), tt)
review_queue_invariant _ (after before next r s) =
    step-Sound before next s (review_queue_invariant before r)
