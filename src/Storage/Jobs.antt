-- ===== src/Storage/Jobs.antt =====
-- storage/memory.py: the queue of conversation turns, the list `_ingestion_jobs` of the store.
-- A function that changes the queue returns the new queue with its result; `now` is the time that
-- the call reads.
pub mod Queue
pub mod Claims
pub mod Depth
use nesy_reasoning_mcp.Prelude.{
  ℕ, zero, suc, ◌+◌, ◌≡◌, ◌↔◌, String, Bool, true, false, not, ◌&&◌, ◌||◌, Option, some, none, List,
  [], ◌∷◌, ◌++◌, map, arith, ltb, leb, ◌==◌, text_key, Key, if◌then◌else◌, text_le, filter,
  count_if, contains, allows, length, is_empty, take, drop, sort_by, Dict, insert,
}
use nesy_reasoning_mcp.Storage.Error.{Error, negative_limit, Result, ok, err}
use nesy_reasoning_mcp.Storage.Memory.Relations.{limited}

pub data JobStatus : Type 0 where
  pending extracting reviewing done failed : JobStatus

abbrev job_status_same : JobStatus → JobStatus → Bool
job_status_same pending pending = true
job_status_same extracting extracting = true
job_status_same reviewing reviewing = true
job_status_same done done = true
job_status_same failed failed = true
job_status_same _ _ = false

pub job_status_same_iff : (a b : JobStatus) → (job_status_same a b ≡ true) ↔ (a ≡ b)
job_status_same_iff a b = ground arith

instance abbrev pub job_status_key : Key JobStatus
job_status_key = record { same = job_status_same; same_iff = job_status_same_iff }

pub record ConversationTurnJob : Type 0 where
  pub job_id : String
  pub session_id : String
  pub transcript_path : String
  pub turn_index : Option ℕ
  pub enqueued_at : String
  pub updated_at : String
  pub priority : ℕ
  pub status : JobStatus
  pub agent_type : Option String
  pub skip_extraction : Bool

pub record ConversationTurnJobFilter : Type 0 where
  pub status : Option JobStatus
  pub ids : List String
  pub session_id : Option String
  pub agent_type : Option String

abbrev pub allows_optional : Option String → Option String → Bool
allows_optional none value = true
allows_optional (some wanted) none = false
allows_optional (some wanted) (some value) = value == wanted

unfoldable pub ingestion_job_matches_filter : ConversationTurnJob → ConversationTurnJobFilter → Bool
ingestion_job_matches_filter j f =
    if not (is_empty f.ids) && not (contains f.ids j.job_id)
    then false
    else if not (allows f.status j.status)
    then false
    else if not (allows f.session_id j.session_id)
    then false
    else allows_optional f.agent_type j.agent_type

-- The order of the tuples (-priority, enqueued_at, job_id).
unfoldable pub job_first : ConversationTurnJob → ConversationTurnJob → Bool
job_first a b =
    ltb b.priority a.priority
    || leb b.priority a.priority
      && (not (text_le b.enqueued_at a.enqueued_at)
          || a.enqueued_at == b.enqueued_at && text_le a.job_id b.job_id)

-- The order of the tuples (priority, enqueued_at, job_id), reversed.
unfoldable pub job_last : ConversationTurnJob → ConversationTurnJob → Bool
job_last a b =
    ltb b.priority a.priority
    || leb b.priority a.priority
      && (not (text_le a.enqueued_at b.enqueued_at)
          || a.enqueued_at == b.enqueued_at && text_le b.job_id a.job_id)

-- A new queue and what the call returns.
pub record Queued (Q R : Type 0) : Type 0 where
  pub queue : List Q
  pub result : R

-- `{record.job_id: record for record in incoming}`, onto the entries `d`
unfoldable pub jobs_by_id :
    Dict String ConversationTurnJob → List ConversationTurnJob → Dict String ConversationTurnJob
jobs_by_id d [] = d
jobs_by_id d (j ∷ js) = jobs_by_id (insert j.job_id j d) js

unfoldable pub unique_jobs : List ConversationTurnJob → List ConversationTurnJob
unfolding jobs_by_id
unique_jobs incoming = map (λ e. e.1) (jobs_by_id [] incoming)

abbrev pub queued_id : List ConversationTurnJob → ConversationTurnJob → Bool
queued_id incoming j = contains (map (λ (i : ConversationTurnJob). i.job_id) incoming) j.job_id

-- The stored records and the number of updates.
unfoldable pub enqueue_ingestion_jobs :
    List ConversationTurnJob
    → List ConversationTurnJob
    → Queued ConversationTurnJob (List ConversationTurnJob × ℕ)
unfolding unique_jobs
enqueue_ingestion_jobs queue incoming = record {
  queue = filter (λ j. not (queued_id incoming j)) queue ++ unique_jobs incoming;
  result = (unique_jobs incoming, count_if (queued_id incoming) queue);
}

abbrev filter_allows : Option ConversationTurnJobFilter → ConversationTurnJob → Bool
filter_allows none j = true
filter_allows (some f) j = ingestion_job_matches_filter j f

unfoldable pub list_ingestion_jobs :
    List ConversationTurnJob
    → Option ConversationTurnJobFilter
    → Option ℕ
    → ℕ
    → List ConversationTurnJob
unfolding ingestion_job_matches_filter job_first
list_ingestion_jobs queue f limit offset =
    limited limit (drop offset (sort_by job_first (filter (filter_allows f) queue)))

abbrev pub is_pending : ConversationTurnJob → Bool
is_pending j = j.status == pending

-- `pending[:limit]`, and whether it holds a record's id
unfoldable pub first_pending : List ConversationTurnJob → ℕ → List ConversationTurnJob
unfolding job_first
first_pending queue limit = take limit (sort_by job_first (filter is_pending queue))

abbrev pub id_in : List ConversationTurnJob → ConversationTurnJob → Bool
id_in js j = contains (map (λ (i : ConversationTurnJob). i.job_id) js) j.job_id

abbrev pub set_status : JobStatus → String → ConversationTurnJob → ConversationTurnJob
set_status status now j = record j { status = status; updated_at = now }

-- The limit is an `int`, whose negative values are `none`.
unfoldable pub claim_pending_ingestion_jobs :
    String
    → List ConversationTurnJob
    → Option ℕ
    → Result (Queued ConversationTurnJob (List ConversationTurnJob))
unfolding first_pending
claim_pending_ingestion_jobs now queue none = err negative_limit
claim_pending_ingestion_jobs now queue (some zero) = ok (record { queue = queue; result = [] })
claim_pending_ingestion_jobs now queue (some (suc n)) =
    let claimed = first_pending queue (suc n) in
    let mark = set_status extracting now in
    ok (record {
      queue = map (λ j. if id_in claimed j then mark j else j) queue;
      result = sort_by job_first (map mark (filter (id_in claimed) queue));
    })

-- `expected_status is not None and record.status != expected_status` keeps a record.
abbrev pub updates : String → Option JobStatus → ConversationTurnJob → Bool
updates job_id expected j = j.job_id == job_id && allows expected j.status

abbrev last? : List ConversationTurnJob → Option ConversationTurnJob
last? [] = none
last? (j ∷ js) = elim (last? js) [ none ↦ some j | some k ↦ some k ]

unfoldable pub update_ingestion_job_status :
    String
    → List ConversationTurnJob
    → String
    → JobStatus
    → Option JobStatus
    → Queued ConversationTurnJob (Option ConversationTurnJob)
update_ingestion_job_status now queue job_id status expected =
    let mark = set_status status now in
    record {
      queue = map (λ j. if updates job_id expected j then mark j else j) queue;
      result = last? (map mark (filter (updates job_id expected) queue));
    }

unfoldable pub over_depth : List ConversationTurnJob → ℕ → List ConversationTurnJob
unfolding job_last
over_depth queue max_pending = drop max_pending (sort_by job_last (filter is_pending queue))

-- The depth is an `int`, whose negative values are `none`.
unfoldable pub drop_pending_ingestion_jobs_over_depth :
    List ConversationTurnJob
    → Option ℕ
    → Result (Queued ConversationTurnJob (List ConversationTurnJob))
unfolding over_depth
drop_pending_ingestion_jobs_over_depth queue none = err negative_limit
drop_pending_ingestion_jobs_over_depth queue (some max_pending) =
    let dropped = over_depth queue max_pending in
    if is_empty dropped
    then ok (record { queue = queue; result = [] })
    else ok (record { queue = filter (λ j. not (id_in dropped j)) queue; result = dropped })
