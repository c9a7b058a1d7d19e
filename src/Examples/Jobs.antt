-- ===== src/Examples/Jobs.antt =====
-- The theorems on the job queue at a queue of three jobs.
use nesy_reasoning_mcp.Prelude.{
  ℕ, ◌≤◌, String, ◌≡◌, ◌≢◌, ◌↔◌, ◌⊎◌, refl, some, none, List, [], ◌∷◌, Memᴰ, map, count_if, length,
  Unique, true, false,
}
use nesy_reasoning_mcp.Storage.Error.{Result, ok, err}
use nesy_reasoning_mcp.Storage.Jobs.{
  ConversationTurnJob, JobStatus, pending, extracting, done, Queued, is_pending, job_first,
  job_last, first_pending, over_depth, set_status, enqueue_ingestion_jobs, unique_jobs, jobs_by_id,
  claim_pending_ingestion_jobs, drop_pending_ingestion_jobs_over_depth,
}
use nesy_reasoning_mcp.Storage.Jobs.Claims.{
  job_key, Claimed, claims_disjoint, claim_pending_ingestion_jobs_exact,
}
use nesy_reasoning_mcp.Storage.Jobs.Depth.{drop_pending_ingestion_jobs_bound}
use nesy_reasoning_mcp.Storage.Jobs.Queue.{
  enqueue_ingestion_jobs_exact, JobsReachable, empty, after, enqueued, job_queue_invariant,
}

abbrev job : String → ℕ → JobStatus → ConversationTurnJob
job id priority status = record {
  job_id = id;
  session_id = "session";
  transcript_path = "transcript.jsonl";
  turn_index = none;
  enqueued_at = "2026-01-01";
  updated_at = "2026-01-01";
  priority = priority;
  status = status;
  agent_type = none;
  skip_extraction = false;
}

abbrev jobs : List ConversationTurnJob
jobs = job "j1" 0 pending ∷ job "j2" 5 pending ∷ job "j3" 1 done ∷ []

abbrev queued_or_empty :
    Result (Queued ConversationTurnJob (List ConversationTurnJob))
    → Queued ConversationTurnJob (List ConversationTurnJob)
queued_or_empty (ok q) = q
queued_or_empty (err e) = record { queue = []; result = [] }

abbrev first : Queued ConversationTurnJob (List ConversationTurnJob)
first = queued_or_empty (claim_pending_ingestion_jobs "2026-01-02" jobs (some 1))

abbrev second : Queued ConversationTurnJob (List ConversationTurnJob)
second = queued_or_empty (claim_pending_ingestion_jobs "2026-01-03" first.queue (some 1))

claims_run :
    (claim_pending_ingestion_jobs "2026-01-02" jobs (some 1) ≡ ok first)
    × (claim_pending_ingestion_jobs "2026-01-03" first.queue (some 1) ≡ ok second)
    × (first.result ≡ set_status extracting "2026-01-02" (job "j2" 5 pending) ∷ [])
    × (second.result ≡ set_status extracting "2026-01-03" (job "j1" 0 pending) ∷ [])
unfolding claim_pending_ingestion_jobs first_pending job_first
claims_run = (refl, refl, refl, refl)

claims_disjoint_example : ◌≢◌ {A = String} "j2" "j1"
claims_disjoint_example =
    claims_disjoint "2026-01-02" "2026-01-03" jobs 1 1 first second claims_run.0 claims_run.1
      (set_status extracting "2026-01-02" (job "j2" 5 pending))
      (set_status extracting "2026-01-03" (job "j1" 0 pending)) (rw claims_run.2 (Memᴰ.head refl))
      (rw claims_run.3 (Memᴰ.head refl))

-- The queue is what a call makes of the empty one.
built : JobsReachable jobs
unfolding enqueue_ingestion_jobs unique_jobs jobs_by_id
built = after [] jobs empty (enqueued [] jobs)

job_queue_invariant_example : Unique job_key jobs
job_queue_invariant_example = job_queue_invariant jobs built

claim_pending_ingestion_jobs_exact_example :
    (1 ≤ count_if is_pending jobs → length first.result ≡ 1)
    × (count_if is_pending jobs ≤ 1 → length first.result ≡ count_if is_pending jobs)
    × ((r : ConversationTurnJob)
        → Memᴰ r first.result
        → Claimed "2026-01-02" jobs r × Memᴰ r first.queue)
    × ((j : ConversationTurnJob)
        → Memᴰ j jobs
        → (¬ Memᴰ j.job_id (map job_key first.result))
        → Memᴰ j first.queue)
    × (map job_key first.queue ≡ map job_key jobs)
claim_pending_ingestion_jobs_exact_example =
    claim_pending_ingestion_jobs_exact "2026-01-02" jobs 1 first (job_queue_invariant jobs built)
      claims_run.0

abbrev shorter : Queued ConversationTurnJob (List ConversationTurnJob)
shorter = queued_or_empty (drop_pending_ingestion_jobs_over_depth jobs (some 1))

drop_run :
    (drop_pending_ingestion_jobs_over_depth jobs (some 1) ≡ ok shorter)
    × (shorter.result ≡ job "j1" 0 pending ∷ [])
unfolding drop_pending_ingestion_jobs_over_depth over_depth job_last
drop_run = (refl, refl)

drop_pending_ingestion_jobs_bound_example :
    (count_if is_pending shorter.queue ≤ 1)
    × ((j : ConversationTurnJob) → Memᴰ j shorter.result → Memᴰ j jobs × (is_pending j ≡ true))
    × ((j : ConversationTurnJob)
        → Memᴰ j shorter.queue ↔ (Memᴰ j jobs × (¬ Memᴰ j.job_id (map job_key shorter.result))))
    × (count_if is_pending jobs ≤ 1 → (shorter.queue ≡ jobs) × (shorter.result ≡ []))
drop_pending_ingestion_jobs_bound_example =
    drop_pending_ingestion_jobs_bound jobs 1 shorter drop_run.0

abbrev incoming : List ConversationTurnJob
incoming = job "j2" 7 pending ∷ job "j4" 0 pending ∷ job "j2" 9 pending ∷ []

abbrev enlarged : List ConversationTurnJob
enlarged = (enqueue_ingestion_jobs jobs incoming).queue

enqueue_run :
    enlarged ≡ job "j1" 0 pending ∷ job "j3" 1 done ∷ job "j2" 9 pending ∷ job "j4" 0 pending ∷ []
unfolding enqueue_ingestion_jobs unique_jobs jobs_by_id
enqueue_run = refl

enqueue_ingestion_jobs_exact_example :
    Unique job_key enlarged
    × ((a : String)
        → Memᴰ a (map job_key enlarged)
          ↔ (Memᴰ a (map job_key jobs) ⊎ Memᴰ a (map job_key incoming)))
    × ((j : ConversationTurnJob)
        → Memᴰ j enlarged
        → Memᴰ j incoming ⊎ (Memᴰ j jobs × (¬ Memᴰ j.job_id (map job_key incoming))))
    × ((j : ConversationTurnJob)
        → Memᴰ j jobs
        → ¬ Memᴰ j.job_id (map job_key incoming)
        → Memᴰ j enlarged)
enqueue_ingestion_jobs_exact_example =
    enqueue_ingestion_jobs_exact jobs incoming (job_queue_invariant jobs built)
